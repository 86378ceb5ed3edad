-- ===== src/Crypto/Aes/Schedule.antt =====
-- The key expansion of proto_crypto.cpp ends with 176 bytes.
use home_io_control_wio_b2b.Base.{
  ℕ, zero, suc, ◌+◌, ◌*◌, ◌%◌, ◌≤◌, ◌≡◌, refl, true, ltb, Bool, false, Bool-cases, inl, inr,
  if◌then◌else◌, ◌==◌, List, ◌++◌, length, length-append, All, All-append, IsByte, arith,
}
use home_io_control_wio_b2b.Crypto.Aes.{
  at, aes_rcon, expand_temp, expand_word, expand_loop, aes_expand_key,
}
use home_io_control_wio_b2b.Crypto.Aes.Field.{xor-IsByte}
use home_io_control_wio_b2b.Crypto.Aes.Steps.{IsBlock, at-IsByte, sbox-IsByte}

rcon-IsByte : (i : ℕ) → IsByte (at aes_rcon i)
rcon-IsByte i = at-IsByte aes_rcon i (unfold aes_rcon in omega arith)

abbrev AreBytes : ℕ × ℕ × ℕ × ℕ → Type 0
AreBytes (a, b, c, d) = IsByte a × IsByte b × IsByte c × IsByte d

if_AreBytes :
    (b : Bool) (x y : ℕ × ℕ × ℕ × ℕ) → AreBytes x → AreBytes y → AreBytes (if b then x else y)
if_AreBytes true x y p q = p
if_AreBytes false x y p q = q

module _ (rks : List ℕ) (h : All IsByte rks) (rcon_index : ℕ) where
  byte : (i : ℕ) → IsByte (at rks i)
  byte i = at-IsByte rks i h

  expand_temp-AreBytes : AreBytes (expand_temp rks rcon_index)
  unfolding expand_temp
  expand_temp-AreBytes =
      if_AreBytes (length rks % 16 == 0) _ _
        (
          xor-IsByte _ _ (sbox-IsByte _ (byte _)) (rcon-IsByte rcon_index),
          sbox-IsByte _ (byte _),
          sbox-IsByte _ (byte _),
          sbox-IsByte _ (byte _),
        )
        (byte _, byte _, byte _, byte _)

  expand_word-IsByte : All IsByte (expand_word rks rcon_index)
  unfolding expand_word
  expand_word-IsByte =
      let t = expand_temp-AreBytes in
      (
        xor-IsByte _ _ (byte _) t.0,
        (
          xor-IsByte _ _ (byte _) t.1,
          (xor-IsByte _ _ (byte _) t.2, (xor-IsByte _ _ (byte _) t.3, tt)),
        ),
      )

expand_loop-IsByte :
    (fuel : ℕ) (rks : List ℕ) (rcon_index : ℕ)
    → All IsByte rks
    → All IsByte (expand_loop fuel rks rcon_index)
unfolding expand_loop
expand_loop-IsByte zero rks rcon_index h = h
expand_loop-IsByte (suc fuel) rks rcon_index h =
    let grown =
      expand_loop-IsByte fuel (rks ++ expand_word rks rcon_index)
        (if length rks % 16 == 0 then suc rcon_index else rcon_index)
        (All-append IsByte rks (expand_word rks rcon_index) h
          (expand_word-IsByte rks h rcon_index)) in
    elim (Bool-cases (ltb (length rks) 176)) [ inl more ↦ rw more grown | inr done ↦ rw done h ]

length-expand_word : (rks : List ℕ) (rcon_index : ℕ) → length (expand_word rks rcon_index) ≡ 4
unfolding expand_word
length-expand_word rks rcon_index = refl

-- With `n` words still to be made, any fuel from `n` on makes them and no more.
length-expand_loop :
    (fuel n : ℕ) (rks : List ℕ) (rcon_index : ℕ)
    → length rks + 4 * n ≡ 176
    → n ≤ fuel
    → length (expand_loop fuel rks rcon_index) ≡ 176
unfolding expand_loop
length-expand_loop zero n rks rcon_index e h = omega arith
length-expand_loop (suc fuel) zero rks rcon_index e h = ground arith
length-expand_loop (suc fuel) (suc n) rks rcon_index e h = ground (
  arith,
  length-append rks (expand_word rks rcon_index),
  length-expand_word rks rcon_index,
  length-expand_loop fuel n (rks ++ expand_word rks rcon_index)
      (if length rks % 16 == 0 then suc rcon_index else rcon_index),
)

-- From a key of sixteen bytes the loop makes the 176 bytes that the eleven rounds read.
pub aes_expand_key_lem :
    (key : List ℕ)
    → IsBlock key
    → (length (aes_expand_key key) ≡ 176) × All IsByte (aes_expand_key key)
unfolding aes_expand_key
aes_expand_key_lem key (n, h) =
    (length-expand_loop 40 40 key 1 (omega arith) (omega arith), expand_loop-IsByte 40 key 1 h)
