-- ===== src/SoftPhy/Tests.antt =====
-- Runs of the software framing on concrete streams.
use home_io_control_wio_b2b.Base.{ℕ, ◌≡◌, ◌<◌, refl, true, [], ◌∷◌, List, arith}
use home_io_control_wio_b2b.Frame.{parse, parse_fields, declared_length, frame_carries_mac_trailer}
use home_io_control_wio_b2b.Crc.{crc_ccitt, crc_from, crc_byte, crc_bits, crc_bit}
use home_io_control_wio_b2b.SoftPhy.{
  find_crc_valid_frame, find_uart_probe, uart_encode_packet, is_candidate, candidate_loop,
  start_loop, is_plausible_uart_frame, is_known_io_command, one_of, decode_uart_probe, decode_loop,
  get_bit_msb, value_loop, probe_loop, write_bit, write_cell, write_cells, data_bits, pad_bits,
}
use home_io_control_wio_b2b.SoftPhy.Search.{IsValidProbe, find_uart_probe-IsValidProbe}

-- A key confirmation and its checksum, behind a stray byte.
abbrev confirmation : List ℕ
confirmation = 0xc8 ∷ 0x00 ∷ 0x11 ∷ 0x22 ∷ 0x33 ∷ 0x12 ∷ 0x34 ∷ 0x56 ∷ 0x33 ∷ 0x6e ∷ 0xa8 ∷ []

abbrev stream : List ℕ
stream = 0x55 ∷ confirmation

stream_found : find_crc_valid_frame stream ≡ (1, 9)
unfolding find_crc_valid_frame start_loop candidate_loop is_candidate is_plausible_uart_frame
    is_known_io_command one_of parse parse_fields declared_length frame_carries_mac_trailer
    crc_ccitt crc_from crc_byte crc_bits crc_bit
stream_found = refl

stream_positive : 0 < (find_crc_valid_frame stream).1
stream_positive = rw stream_found (omega arith)

-- The confirmation as the sender packs it.
abbrev packed : List ℕ
packed = 0x09 ∷ 0xc0 ∷ 0x14 ∷ 68 ∷ 137 ∷ 102 ∷ 73 ∷ 17 ∷ 100 ∷ 213 ∷ 102 ∷ 78 ∷ 208 ∷ 175 ∷ []

packed-encoded : uart_encode_packet confirmation 64 ≡ packed
unfolding uart_encode_packet write_cells write_cell data_bits write_bit pad_bits
packed-encoded = refl

packed_found : (find_uart_probe packed).valid ≡ true
unfolding find_uart_probe probe_loop decode_uart_probe decode_loop value_loop get_bit_msb
    find_crc_valid_frame start_loop candidate_loop is_candidate is_plausible_uart_frame
    is_known_io_command one_of parse parse_fields declared_length frame_carries_mac_trailer
    crc_ccitt crc_from crc_byte crc_bits crc_bit
packed_found = refl

find_uart_probe-IsValidProbe_example : IsValidProbe packed (find_uart_probe packed)
find_uart_probe-IsValidProbe_example = find_uart_probe-IsValidProbe packed packed_found
