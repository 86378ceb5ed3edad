-- ===== src/Hex/RoundTrip.antt =====
-- components/home_io_control/proto_frame.cpp: a node address survives its text.
use home_io_control_wio_b2b.Base.{
  ℕ, ◌+◌, ◌*◌, ◌/◌, ◌%◌, ◌<◌, ◌≡◌, refl, ◌∙◌, suc, get_or, set, true, some, List, [], ◌∷◌, IsByte,
  bit_or, shl, u8, arith,
}
use home_io_control_wio_b2b.Base.Bits.Mask.{or_fields}
use home_io_control_wio_b2b.Frame.{NodeId}
use home_io_control_wio_b2b.Hex.{
  hex_nibble, joined, hex_loop, hex_to_bytes, hex_digit, node_id_to_string,
}

nibble-digit : (n : ℕ) → n < 16 → hex_nibble (hex_digit n) ≡ some n
unfolding hex_nibble hex_digit
nibble-digit n h = ground arith

joined-digits :
    (b : ℕ)
    → IsByte b
    → joined (hex_nibble (hex_digit (b / 16))) (hex_nibble (hex_digit (b % 16))) ≡ some b
unfolding joined
joined-digits b h =
    let byte : u8 (bit_or (shl (b / 16) 4) (b % 16)) ≡ b =
      omega (arith, or_fields 4 (b / 16) (b % 16) (omega arith)) in
    rw (nibble-digit (b / 16) (omega arith), nibble-digit (b % 16) (omega arith), byte) refl

hex_step :
    (left i : ℕ) (hex out : List ℕ) (b : ℕ)
    → joined (hex_nibble (get_or hex (i * 2) 0)) (hex_nibble (get_or hex (i * 2 + 1) 0)) ≡ some b
    → hex_loop (suc left) i hex out ≡ hex_loop left (i + 1) hex (set out i b)
unfolding hex_loop
hex_step left i hex out b h = rw (h, hex_loop) refl

-- The text of a node address is read back as the three bytes of the address.
pub hex_to_bytes-node_id_to_string :
    (id : NodeId)
    → IsByte id.b0
    → IsByte id.b1
    → IsByte id.b2
    → hex_to_bytes (node_id_to_string id) 3 ≡ (true, id.b0 ∷ id.b1 ∷ id.b2 ∷ [])
unfolding hex_to_bytes node_id_to_string hex_loop
hex_to_bytes-node_id_to_string id h0 h1 h2 =
    let text : List ℕ = node_id_to_string id in
    hex_step 2 0 text (0 ∷ 0 ∷ 0 ∷ []) id.b0 (joined-digits id.b0 h0)
    ∙ hex_step 1 1 text (id.b0 ∷ 0 ∷ 0 ∷ []) id.b1 (joined-digits id.b1 h1)
    ∙ hex_step 0 2 text (id.b0 ∷ id.b1 ∷ 0 ∷ []) id.b2 (joined-digits id.b2 h2)
