-- ===== src/Codecs/Tests.antt =====
-- Runs of the codecs on concrete names, addresses and intents.
use home_io_control_wio_b2b.Base.{◌≡◌, refl, ◌==◌, some, [], ◌∷◌}
use home_io_control_wio_b2b.Codecs.{
  decode_1w_main_intent, oneway_intent_to_target, encode_device_name_payload,
  decode_device_name_payload, encode_loop, decode_char, latin1_to_utf8, latin1_loop, trim_back,
  trim_front, trim_ascii_whitespace,
}
use home_io_control_wio_b2b.Codecs.Address.{target_of, oneway_intent-decode}

-- " Tür " with its spaces trimmed, written in Latin-1, and read back.
named :
    decode_device_name_payload (
      some
        (encode_device_name_payload
          (λ c. c == 0x20)
          (0x20 ∷ 0x54 ∷ 0xc3 ∷ 0xbc ∷ 0x72 ∷ 0x20 ∷ [])).1)
    ≡ 0x54 ∷ 0xc3 ∷ 0xbc ∷ 0x72 ∷ []
unfolding encode_device_name_payload decode_device_name_payload encode_loop decode_char
    latin1_to_utf8 latin1_loop trim_back trim_front trim_ascii_whitespace
named = refl

oneway_intent-decode_example :
    oneway_intent_to_target 0xc8 0 ≡ target_of (decode_1w_main_intent 0xc8 0)
oneway_intent-decode_example = oneway_intent-decode 0xc8 0
