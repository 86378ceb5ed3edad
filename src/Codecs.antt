-- ===== src/Codecs.antt =====
-- components/home_io_control/proto_codecs.{h,cpp}: device names, broadcast addresses and one-way
-- intents. A `std::string` or `char` array is the list of its bytes; `is_space` stands for
-- `std::isspace` of the C library. A `DeviceType` is its number.
pub mod Address
mod Text
mod Tests
use home_io_control_wio_b2b.Base.{
  ℕ, zero, suc, ◌+◌, ◌-◌, ◌*◌, bit_and, bit_or, Bool, true, false, not, ◌&&◌, ◌||◌, ltb, leb, ◌==◌,
  if◌then◌else◌, Option, none, some, List, [], ◌∷◌, ◌++◌, length, get_or, take, drop, replicate, u8,
  shl, shr, set, ◌/◌,
}
use home_io_control_wio_b2b.Frame.{NodeId, byte_at, slice}

abbrev pub device_name_buffer_size : ℕ
device_name_buffer_size = 32

abbrev pub device_name_write_char_limit : ℕ
device_name_write_char_limit = 15

abbrev pub device_name_write_payload_size : ℕ
device_name_write_payload_size = 16

abbrev pub address_suffix_mask : ℕ
address_suffix_mask = 0x3f

abbrev pub address_suffix_broadcast : ℕ
address_suffix_broadcast = 0x3f

abbrev pub address_suffix_discovery : ℕ
address_suffix_discovery = 0x3b

abbrev pub swinging_shutter : ℕ
swinging_shutter = 0x18

abbrev pub unknown_type : ℕ
unknown_type = 0x00

-- The loop of `latin1_to_utf8`, with the text so far.
unfoldable pub latin1_loop : List ℕ → List ℕ → List ℕ
latin1_loop [] result = result
latin1_loop (byte ∷ bytes) result =
    let single = latin1_loop bytes (result ++ (byte ∷ [])) in
    let double =
      latin1_loop bytes
        (result ++ (bit_or 0xc0 (shr byte 6) ∷ bit_or 0x80 (bit_and byte 0x3f) ∷ [])) in
    if ltb byte 0x80
    then if leb device_name_buffer_size (length result + 1) then result else single
    else if leb device_name_buffer_size (length result + 2)
    then result
    else double

unfoldable pub latin1_to_utf8 : List ℕ → List ℕ
unfolding latin1_loop
latin1_to_utf8 bytes = latin1_loop bytes []

-- The loop from the front, and the loop from the back.
unfoldable pub trim_front : (ℕ → Bool) → List ℕ → List ℕ
trim_front is_space [] = []
trim_front is_space (c ∷ cs) = if is_space c then trim_front is_space cs else c ∷ cs

unfoldable pub trim_back : (ℕ → Bool) → List ℕ → List ℕ
trim_back is_space [] = []
trim_back is_space (c ∷ cs) =
    let rest = trim_back is_space cs in
    elim rest [ [] ↦ if is_space c then [] else c ∷ [] | d ∷ ds ↦ c ∷ d ∷ ds ]

unfoldable pub trim_ascii_whitespace : (ℕ → Bool) → List ℕ → List ℕ
unfolding trim_front trim_back
trim_ascii_whitespace is_space value = trim_back is_space (trim_front is_space value)

abbrev pub is_padding : ℕ → Bool
is_padding c = c == 0x00 || c == 0x20

-- A null pointer is `none`.
unfoldable pub decode_device_name_payload : Option (List ℕ) → List ℕ
unfolding trim_back
decode_device_name_payload none = []
decode_device_name_payload (some bytes) =
    let begin = if ltb 0x20 (byte_at bytes 0) then 0 else 1 in
    if length bytes == 0
    then []
    else if leb (length bytes) begin
    then []
    else (let raw = trim_back is_padding (drop begin bytes) in
        if length raw == 0 then [] else latin1_to_utf8 raw)

-- `DeviceNameValidationError`.
pub data NameError : Type 0 where
  no_error empty_name too_long invalid_utf8 unsupported_char : NameError

-- One character of the text: an error, or its code point and the number of bytes it takes.
pub data Decoded : Type 0 where
  bad : NameError → Decoded
  char : ℕ → ℕ → Decoded

-- The branches of one round of the loop of `encode_device_name_payload`; `rest` follows `byte`.
unfoldable pub decode_char : ℕ → List ℕ → Decoded
decode_char byte rest =
    let continuation = byte_at rest 0 in
    let codepoint = bit_or (shl (bit_and byte 0x1f) 6) (bit_and continuation 0x3f) in
    if leb byte 0x7f
    then char byte 1
    else if bit_and byte 0xe0 == 0xc0
    then if length rest == 0
      then bad invalid_utf8
      else if not (bit_and continuation 0xc0 == 0x80)
      then bad invalid_utf8
      else if ltb codepoint 0x80
      then bad invalid_utf8
      else char codepoint 2
    else if bit_and byte 0xf0 == 0xe0 || bit_and byte 0xf8 == 0xf0
    then bad unsupported_char
    else bad invalid_utf8

-- The loop, on fuel that the number of bytes left bounds: the characters so far, and how it ended.
unfoldable pub encode_loop : ℕ → List ℕ → List ℕ → NameError × List ℕ
encode_loop zero text latin1 = (no_error, latin1)
encode_loop (suc fuel) [] latin1 = (no_error, latin1)
encode_loop (suc fuel) (byte ∷ rest) latin1 = elim (decode_char byte rest) [
  | bad e ↦ (e, latin1)
  | char codepoint advance ↦
      (let after = encode_loop fuel (drop (advance - 1) rest) (latin1 ++ (u8 codepoint ∷ [])) in
        if ltb 0xff codepoint
        then (unsupported_char, latin1)
        else if leb device_name_write_char_limit (length latin1)
        then (too_long, latin1)
        else after)
]

abbrev pub normalized : NameError × List ℕ → NameError × List ℕ × List ℕ
normalized (no_error, latin1) = (
  no_error,
  latin1 ++ replicate (device_name_write_payload_size - length latin1) 0,
  latin1_to_utf8 latin1,
)
normalized (e, latin1) =
    (e, latin1 ++ replicate (device_name_write_payload_size - length latin1) 0, [])

-- The error, the payload and the normalized name, for a payload that is not null.
unfoldable pub encode_device_name_payload : (ℕ → Bool) → List ℕ → NameError × List ℕ × List ℕ
unfolding encode_loop
encode_device_name_payload is_space name =
    let trimmed = trim_ascii_whitespace is_space name in
    if length trimmed == 0
    then (empty_name, replicate device_name_write_payload_size 0, [])
    else normalized (encode_loop (length trimmed) trimmed [])

pub data AddressClass : Type 0 where
  unicast broadcast_all broadcast_type discovery unknown_broadcast : AddressClass

unfoldable pub classify_address : NodeId → AddressClass
classify_address addr =
    let suffix = bit_and addr.b2 address_suffix_mask in
    let has_type_bits = not (addr.b1 == 0) || not (bit_and addr.b2 0xc0 == 0) in
    if not (addr.b0 == 0x00)
    then unicast
    else if suffix == address_suffix_discovery
    then discovery
    else if has_type_bits
    then broadcast_type
    else if suffix == address_suffix_broadcast
    then broadcast_all
    else if addr.b1 == 0 && addr.b2 == 0
    then broadcast_all
    else unknown_broadcast

unfoldable pub broadcast_target_type : NodeId → ℕ
broadcast_target_type addr =
    let type_raw = bit_or (shl addr.b1 2) (shr addr.b2 6) in
    if not (addr.b0 == 0x00)
    then unknown_type
    else if ltb swinging_shutter type_raw
    then unknown_type
    else type_raw

unfoldable pub encode_broadcast_address : ℕ → NodeId
encode_broadcast_address type = record {
  b0 = 0;
  b1 = u8 (shr type 2);
  b2 = u8 (bit_or (shl type 6) 0x3f);
}

-- What `decode_1w_main_intent` prints, before formatting.
pub data Intent : Type 0 where
  stop vent favorite unchanged force_open secured_target default_target fully_open fully_closed :
      Intent
  position : ℕ → Intent
  unknown_code : ℕ → Intent

unfoldable pub decode_1w_main_intent : ℕ → ℕ → Intent
decode_1w_main_intent main0 main1 =
    let percent = main0 / 2 in
    if main0 == 0xd2
    then stop
    else if main0 == 0xd8
    then if main1 == 0x03 then vent else favorite
    else if main0 == 0xd4
    then unchanged
    else if main0 == 0x64
    then force_open
    else if main0 == 0xd1
    then secured_target
    else if main0 == 0xd3
    then default_target
    else if leb main0 200
    then if percent == 0
      then fully_open
      else if percent == 100
      then fully_closed
      else position percent
    else unknown_code main0

unfoldable pub oneway_intent_to_target : ℕ → ℕ → Option ℕ
oneway_intent_to_target main0 main1 =
    if main0 == 0xd2
      || main0 == 0xd8
      || main0 == 0xd4
      || main0 == 0x64
      || main0 == 0xd1
      || main0 == 0xd3
    then none
    else if leb main0 200
    then some (main0 / 2)
    else none
