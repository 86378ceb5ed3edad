-- ===== src/SoftPhy.antt =====
-- components/home_io_control/radio_soft_phy.{h,cpp}: the software framing for radios without
-- hardware IoHomeOn. A buffer with its length is the list of its bytes, an output buffer with its
-- length is a list that is returned, and a bit position is an index into the bytes, high bit first.
pub mod Search
pub mod Length
mod Tests
use home_io_control_wio_b2b.Base.{
  ℕ, zero, suc, ◌+◌, ◌-◌, ◌*◌, ◌/◌, ◌%◌, min, bit_and, bit_or, Bool, true, false, not, ◌&&◌, ◌||◌,
  ltb, leb, ◌==◌, if◌then◌else◌, Option, none, some, List, [], ◌∷◌, ◌++◌, length, get_or, take,
  drop, replicate, set, u8, shl, shr,
}
use home_io_control_wio_b2b.Frame.{
  IoFrame, blank_frame, parse, byte_at, slice, blit, frame_min_size, frame_max_wire_size,
  frame_max_declared_size, frame_crc_size, ctrl0_protocol_1w, ctrl0_length_mask,
}
use home_io_control_wio_b2b.Crc.{crc_ccitt}

abbrev pub uart_probe_max_bit_offset : ℕ
uart_probe_max_bit_offset = 10

abbrev pub uart_cell_bits : ℕ
uart_cell_bits = 10

abbrev pub radio_packet_buffer_size : ℕ
radio_packet_buffer_size = 64

-- `UartProbeResult`.
pub record UartProbeResult : Type 0 where
  pub valid : Bool
  pub bit_offset : ℕ
  pub decoded_len : ℕ
  pub frame_start : ℕ
  pub frame_len : ℕ
  pub decoded : List ℕ

abbrev pub empty_result : UartProbeResult
empty_result = record {
  valid = false;
  bit_offset = 0;
  decoded_len = 0;
  frame_start = 0;
  frame_len = 0;
  decoded = replicate radio_packet_buffer_size 0;
}

unfoldable pub get_bit_msb : List ℕ → ℕ → ℕ
get_bit_msb bytes bit_pos = bit_and (shr (byte_at bytes (bit_pos / 8)) (7 - bit_pos % 8)) 0x01

-- The inner loop: `left` bits to go from `index` on.
unfoldable pub value_loop : ℕ → ℕ → List ℕ → ℕ → ℕ → ℕ
value_loop zero index raw bit_pos value = value
value_loop (suc left) index raw bit_pos value =
    value_loop left (index + 1) raw bit_pos
      (bit_or value (shl (get_bit_msb raw (bit_pos + 1 + index)) index))

-- The outer loop, with room for `room` more bytes.
unfoldable pub decode_loop : ℕ → List ℕ → ℕ → List ℕ
unfolding value_loop
decode_loop zero raw bit_pos = []
decode_loop (suc room) raw bit_pos =
    let rest = decode_loop room raw (bit_pos + 10) in
    if leb (bit_pos + 10) (length raw * 8)
    then if not (get_bit_msb raw bit_pos == 0) || not (get_bit_msb raw (bit_pos + 9) == 1)
      then []
      else value_loop 8 0 raw bit_pos 0 ∷ rest
    else []

unfoldable pub decode_uart_probe : List ℕ → ℕ → ℕ → List ℕ
unfolding decode_loop
decode_uart_probe raw bit_offset decoded_max_len = decode_loop decoded_max_len raw bit_offset

-- The cases of the `switch`.
abbrev pub known_io_commands : List ℕ
known_io_commands =
    0x00 ∷ 0x03 ∷ 0x04 ∷ 0x0c ∷ 0x0d ∷ 0x1e ∷ 0x20 ∷ 0x21 ∷ 0x28 ∷ 0x29 ∷ 0x2a ∷ 0x2b ∷ 0x2c ∷ 0x2d
    ∷ 0x31 ∷ 0x32 ∷ 0x33 ∷ 0x36 ∷ 0x3c ∷ 0x3d ∷ 0x4b ∷ 0x50 ∷ 0x51 ∷ 0x52 ∷ 0x53 ∷ 0x54 ∷ 0x55
    ∷ 0x56 ∷ 0x57 ∷ 0x58 ∷ 0x59 ∷ 0x6f ∷ 0x70 ∷ 0x71 ∷ 0x72 ∷ 0xfe ∷ []

one_of : ℕ → List ℕ → Bool
one_of cmd [] = false
one_of cmd (c ∷ cs) = cmd == c || one_of cmd cs

unfoldable pub is_known_io_command : ℕ → Bool
unfolding one_of
is_known_io_command cmd = one_of cmd known_io_commands

unfoldable pub is_plausible_uart_frame : IoFrame → ℕ → Bool
is_plausible_uart_frame frame candidate_len =
    if ltb candidate_len frame_min_size
    then false
    else if is_known_io_command frame.cmd
    then true
    else not (bit_and frame.ctrl0 ctrl0_protocol_1w == 0)

-- The guards of one round of the inner loop of `find_crc_valid_frame`.
unfoldable pub is_candidate : List ℕ → ℕ → ℕ → Bool
is_candidate decoded start candidate_len =
    let window = slice decoded start candidate_len in
    let (parsed, frame) = parse (some window) blank_frame in
    if not parsed
    then false
    else if not (is_plausible_uart_frame frame candidate_len)
    then false
    else if ltb (length decoded) (start + candidate_len + 2)
    then false
    else (crc_ccitt window
        == bit_or (byte_at decoded (start + candidate_len))
            (shl (byte_at decoded (start + candidate_len + 1)) 8))

-- The inner loop, down from `candidate_len`.
unfoldable pub candidate_loop : List ℕ → ℕ → ℕ → Option ℕ
candidate_loop decoded start zero = none
candidate_loop decoded start (suc n) =
    let rest = candidate_loop decoded start n in
    if ltb (suc n) frame_min_size
    then none
    else if is_candidate decoded start (suc n)
    then some (suc n)
    else rest

-- The outer loop, with `left` positions from `start` on; no frame is the pair (0, 0).
unfoldable pub start_loop : ℕ → List ℕ → ℕ → ℕ × ℕ
start_loop zero decoded start = (0, 0)
start_loop (suc left) decoded start =
    let rest = start_loop left decoded (start + 1) in
    elim (candidate_loop decoded start (min (length decoded - start) frame_max_wire_size)) [
      | none ↦ rest
      | some candidate_len ↦ (start, candidate_len)
    ]

unfoldable pub find_crc_valid_frame : List ℕ → ℕ × ℕ
unfolding start_loop
find_crc_valid_frame decoded = start_loop (length decoded) decoded 0

-- The candidate that is kept while no frame is valid.
abbrev pub kept : UartProbeResult → ℕ → List ℕ → UartProbeResult
kept best offset decoded =
    if ltb best.decoded_len (length decoded) && not best.valid
    then record best {
      bit_offset = offset;
      decoded_len = length decoded;
      decoded = blit best.decoded decoded;
    }
    else best

-- The loop of `find_uart_probe`, with `left` offsets from `offset` on.
unfoldable pub probe_loop : ℕ → List ℕ → ℕ → UartProbeResult → UartProbeResult
probe_loop zero raw offset best = best
probe_loop (suc left) raw offset best =
    let decoded = decode_uart_probe raw offset radio_packet_buffer_size in
    let better = kept best offset decoded in
    let found = find_crc_valid_frame decoded in
    let skipped = probe_loop left raw (offset + 1) best in
    let rest = probe_loop left raw (offset + 1) better in
    if length decoded == 0
    then skipped
    else if ltb 0 found.1
    then record {
      valid = true;
      bit_offset = offset;
      decoded_len = length decoded;
      frame_start = found.0;
      frame_len = found.1;
      decoded = blit better.decoded decoded;
    }
    else rest

unfoldable pub find_uart_probe : List ℕ → UartProbeResult
unfolding probe_loop
find_uart_probe raw = probe_loop uart_probe_max_bit_offset raw 0 empty_result

unfoldable pub soft_phy_raw_bytes_for_frame : ℕ → ℕ
soft_phy_raw_bytes_for_frame frame_len =
    u8 (((frame_len + frame_crc_size) * uart_cell_bits + 7) / 8)

-- The loop of `soft_phy_peek_frame_length`.
unfoldable pub peek_loop : ℕ → List ℕ → ℕ → ℕ → ℕ
peek_loop zero raw offset best = best
peek_loop (suc left) raw offset best =
    let first = decode_uart_probe raw offset 1 in
    let frame_len = u8 (bit_and (byte_at first 0) ctrl0_length_mask + 1) in
    peek_loop left raw (offset + 1) (
      if not (length first == 1)
      then best
      else if ltb frame_len frame_min_size || ltb frame_max_declared_size frame_len
      then best
      else if ltb best frame_len
      then frame_len
      else best)

unfoldable pub soft_phy_peek_frame_length : List ℕ → ℕ
unfolding peek_loop
soft_phy_peek_frame_length raw = peek_loop uart_probe_max_bit_offset raw 0 0

unfoldable pub write_bit : List ℕ → ℕ → ℕ → List ℕ
write_bit encoded pos bit =
    if not (bit == 0)
    then set encoded (pos / 8) (bit_or (byte_at encoded (pos / 8)) (shl 1 (7 - pos % 8)))
    else encoded

-- The data bits of one byte, from `bit_index` on.
unfoldable pub data_bits : ℕ → ℕ → ℕ → ℕ → List ℕ → List ℕ
data_bits zero bit_index value bit_pos encoded = encoded
data_bits (suc left) bit_index value bit_pos encoded =
    data_bits left (bit_index + 1) value (bit_pos + 1)
      (write_bit encoded bit_pos (bit_and (shr value bit_index) 0x01))

-- One cell: start bit, eight data bits, stop bit.
unfoldable pub write_cell : ℕ → ℕ → List ℕ → List ℕ
unfolding data_bits
write_cell value bit_pos encoded =
    write_bit (data_bits 8 0 value (bit_pos + 1) (write_bit encoded bit_pos 0)) (bit_pos + 9) 1

unfoldable pub write_cells : List ℕ → ℕ → List ℕ → List ℕ
write_cells [] bit_pos encoded = encoded
write_cells (b ∷ bs) bit_pos encoded = write_cells bs (bit_pos + 10) (write_cell b bit_pos encoded)

-- The idle bits behind the last cell, `left` of them.
unfoldable pub pad_bits : ℕ → ℕ → List ℕ → List ℕ
pad_bits zero pad_pos encoded = encoded
pad_bits (suc left) pad_pos encoded = pad_bits left (pad_pos + 1) (write_bit encoded pad_pos 1)

-- The bytes that are reported; `encoded_max_len` is the size of the output buffer.
unfoldable pub uart_encode_packet : List ℕ → ℕ → List ℕ
unfolding write_cells pad_bits
uart_encode_packet bytes encoded_max_len =
    let total_bits = length bytes * 10 in
    let encoded_len = (total_bits + 7) / 8 in
    if length bytes == 0 || encoded_max_len == 0
    then []
    else if ltb encoded_max_len encoded_len
    then []
    else take encoded_len (
        pad_bits (encoded_len * 8 - total_bits) total_bits
          (write_cells bytes 0 (replicate encoded_max_len 0)))
