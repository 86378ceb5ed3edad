-- ===== src/SoftPhy/Length.antt =====
-- components/home_io_control/radio_soft_phy.cpp: the two lengths of a length-driven reception.
use home_io_control_wio_b2b.Base.{
  ℕ, zero, suc, ◌+◌, ◌-◌, ◌*◌, ◌/◌, ◌≤◌, ◌<◌, ◌≡◌, ◌⊎◌, inl, inr, refl, ◌∙◌, Bool, false, not, ◌||◌,
  ltb, ◌==◌, if◌then◌else◌, Bool-cases, List, [], ◌∷◌, length, take, replicate, arith, bit_and, shr,
  u8, length-take, length-replicate, length-set,
}
use home_io_control_wio_b2b.Frame.{byte_at}
use home_io_control_wio_b2b.SoftPhy.{
  decode_uart_probe, peek_loop, soft_phy_peek_frame_length, soft_phy_raw_bytes_for_frame, write_bit,
  data_bits, write_cell, write_cells, pad_bits, uart_encode_packet,
}

-- A length that `soft_phy_peek_frame_length` may answer.
abbrev pub IsPeeked : ℕ → Type 0
IsPeeked n = (n ≡ 0) ⊎ ((9 ≤ n) × (n ≤ 32))

peek_step :
    (framed : Bool) (best n : ℕ)
    → IsPeeked best
    → IsPeeked (
        if not framed
        then best
        else if ltb n 9 || ltb 32 n
        then best
        else if ltb best n
        then n
        else best)
peek_step framed best n h = ground arith

peek_loop-IsPeeked :
    (left : ℕ) (raw : List ℕ) (offset best : ℕ)
    → IsPeeked best
    → IsPeeked (peek_loop left raw offset best)
unfolding peek_loop
peek_loop-IsPeeked zero raw offset best h = h
peek_loop-IsPeeked (suc left) raw offset best h = peek_loop-IsPeeked left raw (offset + 1) _ (
    peek_step (length (decode_uart_probe raw offset 1) == 1) best
      (u8 (bit_and (byte_at (decode_uart_probe raw offset 1) 0) 0x1f + 1)) h)

-- Whatever the radio delivers, the length read from the first cell is zero or a declared frame
-- length, from 9 to 32.
pub soft_phy_peek_frame_length-IsPeeked : (raw : List ℕ) → IsPeeked (soft_phy_peek_frame_length raw)
unfolding soft_phy_peek_frame_length
soft_phy_peek_frame_length-IsPeeked raw = peek_loop-IsPeeked 10 raw 0 0 (inl refl)

length-write_bit :
    (encoded : List ℕ) (pos bit : ℕ) → length (write_bit encoded pos bit) ≡ length encoded
unfolding write_bit
length-write_bit encoded pos bit = elim (Bool-cases (bit == 0)) [
  | inl e ↦ rw e refl
  | inr e ↦ rw e (length-set encoded _ _)
]

length-data_bits :
    (left bit_index value bit_pos : ℕ) (encoded : List ℕ)
    → length (data_bits left bit_index value bit_pos encoded) ≡ length encoded
unfolding data_bits
length-data_bits zero bit_index value bit_pos encoded = refl
length-data_bits (suc left) bit_index value bit_pos encoded =
    length-data_bits left (bit_index + 1) value (bit_pos + 1)
      (write_bit encoded bit_pos (bit_and (shr value bit_index) 0x01))
    ∙ length-write_bit encoded bit_pos _

length-write_cell :
    (value bit_pos : ℕ) (encoded : List ℕ)
    → length (write_cell value bit_pos encoded) ≡ length encoded
unfolding write_cell
length-write_cell value bit_pos encoded =
    length-write_bit (data_bits 8 0 value (bit_pos + 1) (write_bit encoded bit_pos 0)) (bit_pos + 9)
      1
    ∙ length-data_bits 8 0 value (bit_pos + 1) (write_bit encoded bit_pos 0)
    ∙ length-write_bit encoded bit_pos 0

length-write_cells :
    (bytes : List ℕ) (bit_pos : ℕ) (encoded : List ℕ)
    → length (write_cells bytes bit_pos encoded) ≡ length encoded
unfolding write_cells
length-write_cells [] bit_pos encoded = refl
length-write_cells (b ∷ bs) bit_pos encoded =
    length-write_cells bs (bit_pos + 10) (write_cell b bit_pos encoded)
    ∙ length-write_cell b bit_pos encoded

length-pad_bits :
    (left pad_pos : ℕ) (encoded : List ℕ) → length (pad_bits left pad_pos encoded) ≡ length encoded
unfolding pad_bits
length-pad_bits zero pad_pos encoded = refl
length-pad_bits (suc left) pad_pos encoded =
    length-pad_bits left (pad_pos + 1) (write_bit encoded pad_pos 1)
    ∙ length-write_bit encoded pad_pos 1

not_zero : (n m : ℕ) → 0 < n → 0 < m → (n == 0 || m == 0) ≡ false
not_zero n m hn hm = ground arith

not_short : (n m : ℕ) → m ≤ n → ltb n m ≡ false
not_short n m h = ground arith

-- What the sender puts on air for a frame with its two bytes of checksum, of any wire length up to
-- 38, into a buffer that is large enough, has exactly the length that the receiver waits for.
uart_encode_packet-raw_bytes :
    (bytes : List ℕ) (frame_len encoded_max_len : ℕ)
    → length bytes ≡ frame_len + 2
    → frame_len ≤ 38
    → soft_phy_raw_bytes_for_frame frame_len ≤ encoded_max_len
    → length (uart_encode_packet bytes encoded_max_len) ≡ soft_phy_raw_bytes_for_frame frame_len
unfolding uart_encode_packet soft_phy_raw_bytes_for_frame
uart_encode_packet-raw_bytes bytes frame_len encoded_max_len h low room =
    let bits : ℕ = length bytes * 10 in
    let len : ℕ = (length bytes * 10 + 7) / 8 in
    let filled : List ℕ =
      pad_bits (len * 8 - bits) bits (write_cells bytes 0 (replicate encoded_max_len 0)) in
    let size : length filled ≡ encoded_max_len =
      length-pad_bits (len * 8 - bits) bits (write_cells bytes 0 (replicate encoded_max_len 0))
      ∙ length-write_cells bytes 0 (replicate encoded_max_len 0)
      ∙ length-replicate encoded_max_len 0 in
    let taken : length (take len filled) ≡ len = length-take len filled ∙ omega arith in
    rw
      (
        not_zero (length bytes) encoded_max_len (omega arith) (omega arith),
        not_short encoded_max_len len (omega arith),
      )
      (taken ∙ omega arith)
