-- ===== src/Codecs/Address.antt =====
-- components/home_io_control/proto_codecs.cpp: broadcast addresses, and the two readings of an
-- intent.
use home_io_control_wio_b2b.Base.{ℕ, ◌<◌, ◌≡◌, refl, Option, none, some, arith}
use home_io_control_wio_b2b.Base.Bits.Table.{passes_below, eq_below}
use home_io_control_wio_b2b.Codecs.{
  broadcast_target_type, encode_broadcast_address, Intent, fully_open, fully_closed, position,
  decode_1w_main_intent, oneway_intent_to_target,
}

-- The target of an intent that is a numeric position.
abbrev pub target_of : Intent → Option ℕ
target_of fully_open = some 0
target_of fully_closed = some 100
target_of (position p) = some p
target_of _ = none

-- The two decoders of an intent agree: the target is the position that the text names, and there is
-- none exactly for the texts that name no position.
pub oneway_intent-decode :
    (main0 main1 : ℕ)
    → oneway_intent_to_target main0 main1 ≡ target_of (decode_1w_main_intent main0 main1)
unfolding oneway_intent_to_target decode_1w_main_intent
oneway_intent-decode main0 main1 = ground arith

-- Every device type up to the last one is read back from its broadcast address.
pub broadcast_target_type-encode :
    (type : ℕ) → type < 25 → broadcast_target_type (encode_broadcast_address type) ≡ type
unfolding broadcast_target_type encode_broadcast_address passes_below
broadcast_target_type-encode type h =
    eq_below 25 (λ t. broadcast_target_type (encode_broadcast_address t)) (λ t. t) refl type h
