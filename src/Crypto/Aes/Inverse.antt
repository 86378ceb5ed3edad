-- ===== src/Crypto/Aes/Inverse.antt =====
-- `aes128_decrypt` undoes `aes128_encrypt` under the same key.
use home_io_control_wio_b2b.Base.{ℕ, zero, suc, ◌≡◌, refl, ap, ◌∙◌, some, List, length, All, IsByte}
use home_io_control_wio_b2b.Crypto.Aes.{
  aes_add_round_key, aes_sub_bytes, aes_shift_rows, aes_mix_columns, aes_inv_sub_bytes,
  aes_inv_shift_rows, aes_inv_mix_columns, aes_expand_key, encrypt_round, encrypt_rounds,
  decrypt_round, decrypt_rounds, aes128_encrypt, aes128_decrypt,
}
use home_io_control_wio_b2b.Crypto.Aes.Steps.{
  IsBlock, add_round_key-IsBlock, add_round_key_twice, length-add_round_key, sub_bytes-IsBlock,
  inv_sub_bytes-sub_bytes, shift_rows-IsBlock, inv_shift_rows-shift_rows,
}
use home_io_control_wio_b2b.Crypto.Aes.Mixing.{mix_columns-IsBlock, inv_mix_columns-mix_columns}
use home_io_control_wio_b2b.Crypto.Aes.Schedule.{aes_expand_key_lem}

-- The state between the byte substitution of one round and the mixing of it.
abbrev shifted : List ℕ → List ℕ
shifted s = aes_shift_rows (aes_sub_bytes s)

length-shifted : (s : List ℕ) → length (shifted s) ≡ 16
unfolding aes_shift_rows
length-shifted s = refl

shifted-IsBlock : (s : List ℕ) → IsBlock s → IsBlock (shifted s)
shifted-IsBlock s h = shift_rows-IsBlock (aes_sub_bytes s) (sub_bytes-IsBlock s h)

unshifted : (s : List ℕ) → IsBlock s → aes_inv_sub_bytes (aes_inv_shift_rows (shifted s)) ≡ s
unshifted s h =
    ap aes_inv_sub_bytes (inv_shift_rows-shift_rows (aes_sub_bytes s) (sub_bytes-IsBlock s h))
    ∙ inv_sub_bytes-sub_bytes s h.1

module _ (rks : List ℕ) (hr : All IsByte rks) where
  encrypt_round-IsBlock : (r : ℕ) (s : List ℕ) → IsBlock s → IsBlock (encrypt_round rks r s)
  unfolding encrypt_round
  encrypt_round-IsBlock r s h =
      add_round_key-IsBlock (aes_mix_columns (shifted s)) rks r
        (mix_columns-IsBlock (shifted s) (shifted-IsBlock s h)) hr

  encrypt_rounds-IsBlock : (n : ℕ) (s : List ℕ) → IsBlock s → IsBlock (encrypt_rounds rks n s)
  unfolding encrypt_rounds
  encrypt_rounds-IsBlock zero s h = h
  encrypt_rounds-IsBlock (suc n) s h =
      encrypt_round-IsBlock (suc n) (encrypt_rounds rks n s) (encrypt_rounds-IsBlock n s h)

  -- One round of decryption turns the shifted result of a round into its shifted input.
  decrypt_round_lem :
      (r : ℕ) (s : List ℕ)
      → IsBlock s
      → decrypt_round rks r (shifted (encrypt_round rks r s)) ≡ shifted s
  unfolding decrypt_round encrypt_round
  decrypt_round_lem r s h =
      ap (λ t. aes_inv_mix_columns (aes_add_round_key t rks r))
        (unshifted (encrypt_round rks r s) (encrypt_round-IsBlock r s h))
      ∙ ap aes_inv_mix_columns (add_round_key_twice (aes_mix_columns (shifted s)) rks r)
      ∙ inv_mix_columns-mix_columns (shifted s) (shifted-IsBlock s h)

  decrypt_rounds_lem :
      (n : ℕ) (s : List ℕ)
      → IsBlock s
      → decrypt_rounds rks n (shifted (encrypt_rounds rks n s)) ≡ shifted s
  unfolding decrypt_rounds encrypt_rounds
  decrypt_rounds_lem zero s h = refl
  decrypt_rounds_lem (suc n) s h =
      ap (decrypt_rounds rks n)
        (decrypt_round_lem (suc n) (encrypt_rounds rks n s) (encrypt_rounds-IsBlock n s h))
      ∙ decrypt_rounds_lem n s h

  -- The ten rounds there and back, for any key schedule of bytes.
  rounds_back :
      (block : List ℕ)
      → IsBlock block
      → aes_add_round_key
          (aes_inv_sub_bytes (
            aes_inv_shift_rows (
              decrypt_rounds rks 9 (
                aes_add_round_key
                  (aes_add_round_key
                    (shifted (encrypt_rounds rks 9 (aes_add_round_key block rks 0)))
                    rks
                    10)
                  rks
                  10))))
          rks
          0
        ≡ block
  rounds_back block h =
      let start = aes_add_round_key block rks 0 in
      let hs : IsBlock start = add_round_key-IsBlock block rks 0 h hr in
      ap
        (λ t.
          aes_add_round_key (aes_inv_sub_bytes (aes_inv_shift_rows (decrypt_rounds rks 9 t))) rks 0)
        (add_round_key_twice (shifted (encrypt_rounds rks 9 start)) rks 10)
      ∙ ap (λ t. aes_add_round_key (aes_inv_sub_bytes (aes_inv_shift_rows t)) rks 0)
          (decrypt_rounds_lem 9 start hs)
      ∙ ap (λ t. aes_add_round_key t rks 0) (unshifted start hs)
      ∙ add_round_key_twice block rks 0

-- Encryption of a block under a key, both of sixteen bytes, answers a block of sixteen bytes, and
-- decryption of that block under the same key answers the original.
pub aes128_decrypt-encrypt :
    (block key : List ℕ)
    → IsBlock block
    → IsBlock key
    → (cipher : List ℕ) × (aes128_encrypt block key ≡ some cipher)
      × IsBlock cipher
      × (aes128_decrypt cipher key ≡ some block)
unfolding aes128_encrypt aes128_decrypt
aes128_decrypt-encrypt block key hb hk =
    let rks = aes_expand_key key in
    let hr : All IsByte rks = (aes_expand_key_lem key hk).1 in
    let last = encrypt_rounds rks 9 (aes_add_round_key block rks 0) in
    let hl : IsBlock last =
      encrypt_rounds-IsBlock rks hr 9 (aes_add_round_key block rks 0)
        (add_round_key-IsBlock block rks 0 hb hr) in
    (
      aes_add_round_key (shifted last) rks 10,
      refl,
      add_round_key-IsBlock (shifted last) rks 10 (shifted-IsBlock last hl) hr,
      ap some (rounds_back rks hr block hb),
    )

-- Encryption of anything answers sixteen numbers.
pub aes128_encrypt-length :
    (block key : List ℕ)
    → (cipher : List ℕ) × (aes128_encrypt block key ≡ some cipher) × (length cipher ≡ 16)
unfolding aes128_encrypt
aes128_encrypt-length block key =
    let rks = aes_expand_key key in
    let last = encrypt_rounds rks 9 (aes_add_round_key block rks 0) in
    (
      aes_add_round_key (shifted last) rks 10,
      refl,
      length-add_round_key (shifted last) rks 10 ∙ length-shifted last,
    )
