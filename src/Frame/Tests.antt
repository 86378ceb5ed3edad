-- ===== src/Frame/Tests.antt =====
-- Runs of the frame functions on concrete frames.
use home_io_control_wio_b2b.Base.{ℕ, ◌≡◌, refl, true, false, some, List, [], ◌∷◌, replicate, arith}
use home_io_control_wio_b2b.Frame.{
  IoFrame, NodeId, blank_frame, serialize, parse, set_cmd, parse_fields, declared_length,
  frame_carries_mac_trailer,
}
use home_io_control_wio_b2b.Frame.Layout.{IsCanonical}
use home_io_control_wio_b2b.Frame.RoundTrip.{parse-serialize}
use home_io_control_wio_b2b.Frame.Accept.{serialize-parse}
use home_io_control_wio_b2b.Frame.Build.{IsBuilt, addressed, set_cmd-IsBuilt}

abbrev remote : NodeId
remote = record { b0 = 0x12; b1 = 0x34; b2 = 0x56 }

abbrev all_devices : NodeId
all_devices = record { b0 = 0; b1 = 0; b2 = 0x3f }

-- An "add controller" frame of one parameter, with its trailer.
abbrev signed_frame : IoFrame
signed_frame = record {
  ctrl0 = 0x69;
  ctrl1 = 0;
  dst = all_devices;
  src = remote;
  cmd = 0x30;
  payload = 7 ∷ replicate 22 0;
  data_len = 1;
  mac = 1 ∷ 2 ∷ 3 ∷ 4 ∷ 5 ∷ 6 ∷ [];
  has_mac = true;
}

signed_frame-IsCanonical : IsCanonical signed_frame
unfolding declared_length frame_carries_mac_trailer
signed_frame-IsCanonical = record {
  declared = refl;
  fits = omega arith;
  payload_size = refl;
  payload_rest = refl;
  mac_size = refl;
  mac_unused = λ h. ground arith;
  mac_allowed = λ h. refl;
}

parse-serialize_example :
    parse (some (serialize signed_frame (some 64))) blank_frame ≡ (true, signed_frame)
unfolding declared_length
parse-serialize_example =
    parse-serialize signed_frame blank_frame 64 signed_frame-IsCanonical (omega arith)

-- A status request on the wire.
abbrev wire : List ℕ
wire = 0x49 ∷ 0x00 ∷ 0x11 ∷ 0x22 ∷ 0x33 ∷ 0x12 ∷ 0x34 ∷ 0x56 ∷ 0x03 ∷ 0x0a ∷ []

abbrev wire_frame : IoFrame
wire_frame = record blank_frame {
  ctrl0 = 0x49;
  dst = record { b0 = 0x11; b1 = 0x22; b2 = 0x33 };
  src = remote;
  cmd = 0x03;
  payload = 0x0a ∷ replicate 22 0;
  data_len = 1;
}

wire-parsed : parse (some wire) signed_frame ≡ (true, wire_frame)
unfolding parse parse_fields declared_length frame_carries_mac_trailer
wire-parsed = refl

serialize-parse_example : IsCanonical wire_frame × (serialize wire_frame (some 32) ≡ wire)
serialize-parse_example = serialize-parse wire wire_frame signed_frame 32 wire-parsed (omega arith)

set_cmd-IsBuilt_example :
    IsBuilt true false
      (1 ∷ 2 ∷ 3 ∷ [])
      blank_frame
      (set_cmd (addressed true true false true all_devices remote) 0x03 (some (1 ∷ 2 ∷ 3 ∷ [])) 3)
set_cmd-IsBuilt_example =
    set_cmd-IsBuilt true true false true all_devices remote 0x03 (1 ∷ 2 ∷ 3 ∷ []) blank_frame
      (omega arith)
