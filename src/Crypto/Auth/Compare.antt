-- ===== src/Crypto/Auth/Compare.antt =====
-- The constant-time comparison of proto_crypto.cpp is equality, so `verify_hmac` accepts exactly the
-- authenticator that `create_hmac` makes.
use home_io_control_wio_b2b.Base.{
  ℕ, zero, suc, ◌+◌, ◌/◌, ◌<◌, ◌≤◌, ◌≡◌, refl, ap₂, ◌↔◌, bit_or, bit_xor, true, ==_iff, some, List,
  [], ◌∷◌, length, arith, take, length-take,
}
use home_io_control_wio_b2b.Base.Bits.Digits.{bit_or_digit}
use home_io_control_wio_b2b.Base.Bits.Xor.{eq_of_xor, xor_self}
use native.Mathlib.Nat.{add-zero, zero-add}
use home_io_control_wio_b2b.Crypto.Aes.{at}
use home_io_control_wio_b2b.Crypto.Aes.Inverse.{aes128_encrypt-length}
use home_io_control_wio_b2b.Crypto.Iv.{construct_iv}
use home_io_control_wio_b2b.Crypto.Auth.{diff_loop, same_mac, create_hmac, verify_hmac}

or_eq_zero_below : (n a b : ℕ) → a + b ≤ n → bit_or a b ≡ 0 → (a ≡ 0) × (b ≡ 0)
or_eq_zero_below zero a b h e = omega arith
or_eq_zero_below (suc n) a b h e =
    let d = bit_or_digit a b in
    let low : bit_or (a / 2) (b / 2) ≡ 0 = omega arith in
    omega (arith, d, or_eq_zero_below n (a / 2) (b / 2) (omega arith) low)

or_eq_zero : (a b : ℕ) → bit_or a b ≡ 0 → (a ≡ 0) × (b ≡ 0)
or_eq_zero a b e = or_eq_zero_below (a + b) a b (omega arith) e

-- The accumulated difference is zero exactly if it was and the compared bytes are equal.
diff_zero :
    (left i : ℕ) (a b : List ℕ) (diff : ℕ)
    → diff_loop left i a b diff ≡ 0
    → (diff ≡ 0) × ((j : ℕ) → j < left → at a (i + j) ≡ at b (i + j))
unfolding diff_loop
diff_zero zero i a b diff e = (e, λ j h. absurd (omega arith))
diff_zero (suc left) i a b diff e =
    let (p, q) = diff_zero left (i + 1) a b _ e in
    let (d, x) = or_eq_zero diff (bit_xor (at a i) (at b i)) p in
    (d, step (eq_of_xor (at a i) (at b i) x) q)
  where
    step :
        at a i ≡ at b i
        → ((j : ℕ) → j < left → at a (i + 1 + j) ≡ at b (i + 1 + j))
        → (j : ℕ) → j < suc left
        → at a (i + j) ≡ at b (i + j)
    step first rest zero h = rw (add-zero i) first
    step first rest (suc j) h = rw (shift i j) (rest j (omega arith))
      where
        shift : (i j : ℕ) → i + suc j ≡ i + 1 + j
        shift i j = omega arith

diff_self : (left i : ℕ) (a : List ℕ) → diff_loop left i a a 0 ≡ 0
unfolding diff_loop
diff_self zero i a = refl
diff_self (suc left) i a = rw (xor_self (at a i)) (diff_self left (i + 1) a)

-- Lists of one length with equal entries are equal.
eq_of_at : (a b : List ℕ) → length a ≡ length b → ((j : ℕ) → j < length a → at a j ≡ at b j) → a ≡ b
eq_of_at [] [] n h = refl
eq_of_at [] (y ∷ b) n h = absurd (omega arith)
eq_of_at (x ∷ a) [] n h = absurd (omega arith)
eq_of_at (x ∷ a) (y ∷ b) n h =
    ap₂ ◌∷◌ (h 0 (omega arith)) (eq_of_at a b (omega arith) (λ j l. h (suc j) (omega arith)))

pub same_mac_iff : (a b : List ℕ) → length a ≡ 6 → length b ≡ 6 → (same_mac a b ≡ true) ↔ (a ≡ b)
unfolding same_mac
same_mac_iff a b ha hb = (
  (λ e. eq_of_at a b (omega arith) (λ j l.
      let same : at a (0 + j) ≡ at b (0 + j) =
        (diff_zero 6 0 a b 0 ((==_iff _ 0).0 e)).1 j (omega arith) in
      rw (zero-add j) at same)),
  λ e. rw e (rw (diff_self 6 0 b)),
)

-- An authenticator is always made, has six bytes, and `verify_hmac` accepts a received one of six
-- bytes exactly if it is equal to that.
pub verify_hmac_iff :
    (span hmac challenge key : List ℕ)
    → length hmac ≡ 6
    → (expected : List ℕ) × (create_hmac span challenge key ≡ some expected)
      × (length expected ≡ 6)
      × ((verify_hmac span hmac challenge key ≡ true) ↔ (hmac ≡ expected))
unfolding verify_hmac create_hmac
verify_hmac_iff span hmac challenge key h =
    let (enc, made, n) = aes128_encrypt-length (construct_iv span challenge) key in
    let six : length (take 6 enc) ≡ 6 = omega (arith, length-take 6 enc) in
    (
      take 6 enc,
      rw (made, create_hmac),
      six,
      rw (made, verify_hmac, create_hmac) (same_mac_iff hmac (take 6 enc) h six),
    )
