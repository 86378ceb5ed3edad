-- ===== src/Crypto/Aes.antt =====
-- components/home_io_control/proto_crypto.cpp: AES-128 on blocks of sixteen bytes, as lists. Each
-- in-place loop over the state is a function that returns the new state.
mod Tables
pub mod Field
pub mod Columns
pub mod Steps
pub mod Mixing
pub mod Schedule
pub mod Inverse
use home_io_control_wio_b2b.Base.{
  ℕ, zero, suc, ◌+◌, ◌-◌, ◌*◌, ◌/◌, ◌%◌, bit_and, bit_xor, Bool, true, false, not, if◌then◌else◌,
  ◌==◌, ltb, Option, some, List, [], ◌∷◌, ◌++◌, map, length, get_or, u8,
}
unfoldable pub use Tables.{aes_sbox, aes_inv_sbox, aes_rcon}

-- `value <<= 1` on a byte, reduced by the field polynomial if the top bit was set.
unfoldable pub aes_double : ℕ → ℕ
aes_double value =
    if not (bit_and value 0x80 == 0) then bit_xor (u8 (value * 2)) 0x1b else u8 (value * 2)

-- The loop of `aes_mul`: a byte `factor` is used up in eight rounds.
unfoldable pub aes_mul_loop : ℕ → ℕ → ℕ → ℕ → ℕ
aes_mul_loop zero value factor result = result
aes_mul_loop (suc fuel) value factor result =
    let rest =
      aes_mul_loop fuel (aes_double value) (factor / 2)
        (if not (bit_and factor 1 == 0) then bit_xor result value else result) in
    if not (factor == 0) then rest else result

unfoldable pub aes_mul : ℕ → ℕ → ℕ
unfolding aes_mul_loop
aes_mul value factor = aes_mul_loop 8 value factor 0

abbrev pub at : List ℕ → ℕ → ℕ
at s i = get_or s i 0

-- `state[i] ^= round_key[i]`, with `round_key` at `offset` in the schedule.
unfoldable pub xor_at : List ℕ → List ℕ → ℕ → List ℕ
xor_at [] round_keys offset = []
xor_at (x ∷ xs) round_keys offset =
    bit_xor x (at round_keys offset) ∷ xor_at xs round_keys (offset + 1)

unfoldable pub aes_add_round_key : List ℕ → List ℕ → ℕ → List ℕ
unfolding xor_at
aes_add_round_key state round_keys round = xor_at state round_keys (round * 16)

unfoldable pub aes_sub_bytes : List ℕ → List ℕ
aes_sub_bytes state = map (at aes_sbox) state

unfoldable pub aes_inv_sub_bytes : List ℕ → List ℕ
aes_inv_sub_bytes state = map (at aes_inv_sbox) state

unfoldable pub aes_shift_rows : List ℕ → List ℕ
aes_shift_rows t =
    at t 0
    ∷ at t 5
    ∷ at t 10
    ∷ at t 15
    ∷ at t 4
    ∷ at t 9
    ∷ at t 14
    ∷ at t 3
    ∷ at t 8
    ∷ at t 13
    ∷ at t 2
    ∷ at t 7
    ∷ at t 12
    ∷ at t 1
    ∷ at t 6
    ∷ at t 11
    ∷ []

unfoldable pub aes_inv_shift_rows : List ℕ → List ℕ
aes_inv_shift_rows t =
    at t 0
    ∷ at t 13
    ∷ at t 10
    ∷ at t 7
    ∷ at t 4
    ∷ at t 1
    ∷ at t 14
    ∷ at t 11
    ∷ at t 8
    ∷ at t 5
    ∷ at t 2
    ∷ at t 15
    ∷ at t 12
    ∷ at t 9
    ∷ at t 6
    ∷ at t 3
    ∷ []

-- `a ^ b ^ c ^ d`.
abbrev pub xor4 : ℕ → ℕ → ℕ → ℕ → ℕ
xor4 a b c d = bit_xor (bit_xor (bit_xor a b) c) d

-- The body of the loop of `aes_mix_columns`.
unfoldable pub mix_column : List ℕ → ℕ → List ℕ
mix_column state column =
    let a0 = at state (column * 4) in
    let a1 = at state (column * 4 + 1) in
    let a2 = at state (column * 4 + 2) in
    let a3 = at state (column * 4 + 3) in
    xor4 (aes_mul a0 0x02) (aes_mul a1 0x03) a2 a3
    ∷ xor4 a0 (aes_mul a1 0x02) (aes_mul a2 0x03) a3
    ∷ xor4 a0 a1 (aes_mul a2 0x02) (aes_mul a3 0x03)
    ∷ xor4 (aes_mul a0 0x03) a1 a2 (aes_mul a3 0x02)
    ∷ []

unfoldable pub aes_mix_columns : List ℕ → List ℕ
unfolding mix_column
aes_mix_columns state =
    mix_column state 0 ++ (mix_column state 1 ++ (mix_column state 2 ++ mix_column state 3))

-- The body of the loop of `aes_inv_mix_columns`.
unfoldable pub inv_mix_column : List ℕ → ℕ → List ℕ
inv_mix_column state column =
    let a0 = at state (column * 4) in
    let a1 = at state (column * 4 + 1) in
    let a2 = at state (column * 4 + 2) in
    let a3 = at state (column * 4 + 3) in
    xor4 (aes_mul a0 0x0e) (aes_mul a1 0x0b) (aes_mul a2 0x0d) (aes_mul a3 0x09)
    ∷ xor4 (aes_mul a0 0x09) (aes_mul a1 0x0e) (aes_mul a2 0x0b) (aes_mul a3 0x0d)
    ∷ xor4 (aes_mul a0 0x0d) (aes_mul a1 0x09) (aes_mul a2 0x0e) (aes_mul a3 0x0b)
    ∷ xor4 (aes_mul a0 0x0b) (aes_mul a1 0x0d) (aes_mul a2 0x09) (aes_mul a3 0x0e)
    ∷ []

unfoldable pub aes_inv_mix_columns : List ℕ → List ℕ
unfolding inv_mix_column
aes_inv_mix_columns state =
    inv_mix_column state 0
    ++ (inv_mix_column state 1 ++ (inv_mix_column state 2 ++ inv_mix_column state 3))

-- The four bytes that one round of the key expansion mixes into the schedule; the schedule so far
-- is the list, and `bytes_generated` its length.
unfoldable pub expand_temp : List ℕ → ℕ → ℕ × ℕ × ℕ × ℕ
expand_temp rks rcon_index =
    let n = length rks in
    let t0 = at rks (n - 4) in
    let t1 = at rks (n - 4 + 1) in
    let t2 = at rks (n - 4 + 2) in
    let t3 = at rks (n - 4 + 3) in
    if n % 16 == 0
    then (
      bit_xor (at aes_sbox t1) (at aes_rcon rcon_index),
      at aes_sbox t2,
      at aes_sbox t3,
      at aes_sbox t0,
    )
    else (t0, t1, t2, t3)

unfoldable pub expand_word : List ℕ → ℕ → List ℕ
unfolding expand_temp
expand_word rks rcon_index =
    let n = length rks in
    let (t0, t1, t2, t3) = expand_temp rks rcon_index in
    bit_xor (at rks (n - 16)) t0
    ∷ bit_xor (at rks (n - 16 + 1)) t1
    ∷ bit_xor (at rks (n - 16 + 2)) t2
    ∷ bit_xor (at rks (n - 16 + 3)) t3
    ∷ []

-- `while (bytes_generated < 176)`, four bytes a round.
unfoldable pub expand_loop : ℕ → List ℕ → ℕ → List ℕ
unfolding expand_word
expand_loop zero rks rcon_index = rks
expand_loop (suc fuel) rks rcon_index =
    let rest =
      expand_loop fuel (rks ++ expand_word rks rcon_index)
        (if length rks % 16 == 0 then suc rcon_index else rcon_index) in
    if ltb (length rks) 176 then rest else rks

-- Forty rounds take sixteen bytes to 176.
unfoldable pub aes_expand_key : List ℕ → List ℕ
unfolding expand_loop
aes_expand_key key = expand_loop 40 key 1

-- Round `round` of the nine in the middle.
unfoldable pub encrypt_round : List ℕ → ℕ → List ℕ → List ℕ
unfolding aes_sub_bytes aes_shift_rows aes_mix_columns aes_add_round_key
encrypt_round round_keys round state =
    aes_add_round_key (aes_mix_columns (aes_shift_rows (aes_sub_bytes state))) round_keys round

-- The rounds 1 to `n`.
unfoldable pub encrypt_rounds : List ℕ → ℕ → List ℕ → List ℕ
unfolding encrypt_round
encrypt_rounds round_keys zero state = state
encrypt_rounds round_keys (suc n) state =
    encrypt_round round_keys (suc n) (encrypt_rounds round_keys n state)

unfoldable pub aes128_encrypt : List ℕ → List ℕ → Option (List ℕ)
unfolding encrypt_rounds aes_expand_key
aes128_encrypt block key =
    let round_keys = aes_expand_key key in
    let state = encrypt_rounds round_keys 9 (aes_add_round_key block round_keys 0) in
    some (aes_add_round_key (aes_shift_rows (aes_sub_bytes state)) round_keys 10)

unfoldable pub decrypt_round : List ℕ → ℕ → List ℕ → List ℕ
unfolding aes_inv_sub_bytes aes_inv_shift_rows aes_inv_mix_columns aes_add_round_key
decrypt_round round_keys round state =
    aes_inv_mix_columns
      (aes_add_round_key (aes_inv_sub_bytes (aes_inv_shift_rows state)) round_keys round)

-- The rounds `n` down to 1.
unfoldable pub decrypt_rounds : List ℕ → ℕ → List ℕ → List ℕ
unfolding decrypt_round
decrypt_rounds round_keys zero state = state
decrypt_rounds round_keys (suc n) state =
    decrypt_rounds round_keys n (decrypt_round round_keys (suc n) state)

unfoldable pub aes128_decrypt : List ℕ → List ℕ → Option (List ℕ)
unfolding decrypt_rounds aes_expand_key
aes128_decrypt block key =
    let round_keys = aes_expand_key key in
    let state = decrypt_rounds round_keys 9 (aes_add_round_key block round_keys 10) in
    some (aes_add_round_key (aes_inv_sub_bytes (aes_inv_shift_rows state)) round_keys 0)
