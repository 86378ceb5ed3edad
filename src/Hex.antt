-- ===== src/Hex.antt =====
-- components/home_io_control/proto_frame.cpp: the hexadecimal text of bytes. A `std::string` is the
-- list of its characters' codes, and the out parameter of `hex_to_bytes` is a result.
pub mod RoundTrip
use home_io_control_wio_b2b.Base.{
  ℕ, zero, suc, ◌+◌, ◌-◌, ◌*◌, ◌/◌, ◌%◌, Bool, true, false, not, ◌&&◌, ◌==◌, ltb, leb,
  if◌then◌else◌, Option, none, some, List, [], ◌∷◌, length, get_or, replicate, set, bit_or, shl, u8,
}
use home_io_control_wio_b2b.Frame.{NodeId}

-- `std::toupper` in the "C" locale.
abbrev pub to_upper : ℕ → ℕ
to_upper ch = if leb 97 ch && leb ch 122 then ch - 32 else ch

-- The value -1 is `none`.
unfoldable pub hex_nibble : ℕ → Option ℕ
hex_nibble ch =
    let upper = to_upper ch in
    if leb 48 ch && leb ch 57
    then some (ch - 48)
    else if leb 65 upper && leb upper 70
    then some (10 + (upper - 65))
    else none

-- The byte of two digits.
unfoldable pub joined : Option ℕ → Option ℕ → Option ℕ
joined none low = none
joined (some high) none = none
joined (some high) (some low) = some (u8 (bit_or (shl high 4) low))

-- The loop, with `left` rounds from `i` on.
unfoldable pub hex_loop : ℕ → ℕ → List ℕ → List ℕ → Bool × List ℕ
hex_loop zero i hex out = (true, out)
hex_loop (suc left) i hex out =
    elim (joined (hex_nibble (get_or hex (i * 2) 0)) (hex_nibble (get_or hex (i * 2 + 1) 0))) [
      | none ↦ (false, out)
      | some byte ↦ hex_loop left (i + 1) hex (set out i byte)
    ]

-- For an output that is not null.
unfoldable pub hex_to_bytes : List ℕ → ℕ → Bool × List ℕ
unfolding hex_loop
hex_to_bytes hex len =
    if not (length hex == len * 2)
    then (false, replicate len 0)
    else hex_loop len 0 hex (replicate len 0)

-- A digit of `%02X`.
unfoldable pub hex_digit : ℕ → ℕ
hex_digit n = if ltb n 10 then 48 + n else 55 + n

unfoldable pub node_id_to_string : NodeId → List ℕ
unfolding hex_digit
node_id_to_string id =
    hex_digit (id.b0 / 16)
    ∷ hex_digit (id.b0 % 16)
    ∷ hex_digit (id.b1 / 16)
    ∷ hex_digit (id.b1 % 16)
    ∷ hex_digit (id.b2 / 16)
    ∷ hex_digit (id.b2 % 16)
    ∷ []
