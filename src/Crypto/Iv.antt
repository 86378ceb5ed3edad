-- ===== src/Crypto/Iv.antt =====
-- components/home_io_control/proto_crypto.cpp: `compute_checksum` and the initialization vectors. A
-- span `data, len` is the list of its bytes, and an out parameter is a result.
pub mod Layout
pub mod Checksum
pub mod Detect
use home_io_control_wio_b2b.Base.{
  ℕ, zero, suc, ◌+◌, ◌*◌, ◌/◌, ◌%◌, bit_and, bit_or, bit_xor, if◌then◌else◌, ◌==◌, ltb, leb, List,
  [], ◌∷◌, ◌++◌, length, take, set, replicate, get_or,
}
use home_io_control_wio_b2b.Frame.{NodeId}

abbrev pub iv_padding : ℕ
iv_padding = 0x55

-- The two accumulators after one more byte.
unfoldable pub compute_checksum : ℕ → ℕ × ℕ → ℕ × ℕ
compute_checksum byte (c1, c2) =
    let tmp = bit_xor byte c2 in
    let doubled = bit_and (bit_and c1 0x7f * 2) 0xff in
    let c2' = if leb 128 tmp then bit_or doubled 1 else doubled in
    if bit_and c1 0x80 == 0
    then (c2', bit_and (tmp * 2) 0xff)
    else (bit_xor c2' 0x55, bit_and (bit_xor (tmp * 2) 0x5b) 0xff)

-- The first loop of `construct_iv_prefix`, from index `i` on.
unfoldable pub span_loop : List ℕ → ℕ → ℕ × ℕ → List ℕ → (ℕ × ℕ) × List ℕ
span_loop [] i c iv = (c, iv)
span_loop (b ∷ bs) i c iv =
    span_loop bs (i + 1) (compute_checksum b c) (if ltb i 8 then set iv i b else iv)

-- The second loop: `for (uint8_t i = len; i < 8; i++) iv[i] = IV_PADDING`, in eight rounds at most.
unfoldable pub pad_loop : ℕ → ℕ → List ℕ → List ℕ
pad_loop zero i iv = iv
pad_loop (suc fuel) i iv =
    let rest = pad_loop fuel (i + 1) (set iv i iv_padding) in if ltb i 8 then rest else iv

unfoldable pub construct_iv_prefix : List ℕ → List ℕ
unfolding span_loop pad_loop
construct_iv_prefix span =
    let (c, iv) = span_loop span 0 (0, 0) (replicate 16 0) in
    set (set (pad_loop 8 (length span) iv) 8 c.0) 9 c.1

unfoldable pub construct_iv : List ℕ → List ℕ → List ℕ
unfolding construct_iv_prefix
construct_iv span challenge = take 10 (construct_iv_prefix span) ++ challenge

unfoldable pub construct_iv_1w_sequence : List ℕ → ℕ → List ℕ
unfolding construct_iv_prefix
construct_iv_1w_sequence span sequence =
    take 10 (construct_iv_prefix span)
    ++ (bit_and (sequence / 256) 0xff
        ∷ bit_and sequence 0xff
        ∷ iv_padding
        ∷ iv_padding
        ∷ iv_padding
        ∷ iv_padding
        ∷ [])

-- `node[i % NODE_ID_SIZE]` for the indices from `i` on.
node_loop : ℕ → ℕ → NodeId → List ℕ
node_loop zero i node = []
node_loop (suc left) i node =
    get_or (node.b0 ∷ node.b1 ∷ node.b2 ∷ []) (i % 3) 0 ∷ node_loop left (i + 1) node

unfoldable pub construct_iv_1w_node : NodeId → List ℕ
unfolding node_loop
construct_iv_1w_node node = node_loop 16 0 node
