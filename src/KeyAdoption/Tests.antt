-- ===== src/KeyAdoption/Tests.antt =====
-- A run of the key adoption on a concrete announcement.
use home_io_control_wio_b2b.Base.{ℕ, List, [], ◌∷◌}
use home_io_control_wio_b2b.Frame.{IoFrame, NodeId, blank_frame}

abbrev remote : NodeId
remote = record { b0 = 0x12; b1 = 0x34; b2 = 0x56 }

abbrev system_key : List ℕ
system_key = 0 ∷ 1 ∷ 2 ∷ 3 ∷ 4 ∷ 5 ∷ 6 ∷ 7 ∷ 8 ∷ 9 ∷ 10 ∷ 11 ∷ 12 ∷ 13 ∷ 14 ∷ 15 ∷ []

abbrev oneway_base : IoFrame
oneway_base = record blank_frame { ctrl0 = 0xfc }
