-- ===== src/Crypto/Aes/Steps.antt =====
-- Each step of the cipher keeps a block a block, and each inverse step undoes its step.
use home_io_control_wio_b2b.Base.{
  ℕ, suc, ◌+◌, ◌*◌, ◌≡◌, refl, ap, ap₂, ◌∙◌, true, List, [], ◌∷◌, length, All, All-get_or, IsByte,
  arith, ltb, ltb→lt,
}
use home_io_control_wio_b2b.Base.Bits.Table.{passes_below, passes_below_lem, eq_below}
use home_io_control_wio_b2b.Base.Bits.Xor.{xor_twice}
use home_io_control_wio_b2b.Crypto.Aes.{
  at, aes_sbox, aes_inv_sbox, xor_at, aes_add_round_key, aes_sub_bytes, aes_inv_sub_bytes,
  aes_shift_rows, aes_inv_shift_rows,
}
use home_io_control_wio_b2b.Crypto.Aes.Field.{xor-IsByte}

-- Sixteen bytes.
abbrev pub IsBlock : List ℕ → Type 0
IsBlock s = (length s ≡ 16) × All IsByte s

pub at-IsByte : (s : List ℕ) (i : ℕ) → All IsByte s → IsByte (at s i)
at-IsByte s i h = All-get_or IsByte s i 0 h (omega arith)

-- A block by its bytes.
pub data Sixteen : List ℕ → Type 0 where
  sixteen :
      (a b c d e f g h i j k l m n o p : ℕ)
      → Sixteen (a ∷ b ∷ c ∷ d ∷ e ∷ f ∷ g ∷ h ∷ i ∷ j ∷ k ∷ l ∷ m ∷ n ∷ o ∷ p ∷ [])

Sixteen-nil :
    (a b c d e f g h i j k l m n o p : ℕ) (r : List ℕ)
    → length r ≡ 0
    → Sixteen (a ∷ b ∷ c ∷ d ∷ e ∷ f ∷ g ∷ h ∷ i ∷ j ∷ k ∷ l ∷ m ∷ n ∷ o ∷ p ∷ r)
Sixteen-nil a b c d e f g h i j k l m n o p [] z = sixteen a b c d e f g h i j k l m n o p
Sixteen-nil a b c d e f g h i j k l m n o p (x ∷ r) z = absurd (omega arith)

pub uncons :
    (n : ℕ) (s : List ℕ) → length s ≡ suc n → (x : ℕ) × (r : List ℕ) × (s ≡ x ∷ r) × (length r ≡ n)
uncons n [] e = absurd (omega arith)
uncons n (x ∷ r) e = (x, r, refl, omega arith)

pub Sixteen-length : (s : List ℕ) → length s ≡ 16 → Sixteen s
Sixteen-length s e0 =
    let (a, s1, p1, e1) = uncons 15 s e0 in
    let (b, s2, p2, e2) = uncons 14 s1 e1 in
    let (c, s3, p3, e3) = uncons 13 s2 e2 in
    let (d, s4, p4, e4) = uncons 12 s3 e3 in
    let (e, s5, p5, e5) = uncons 11 s4 e4 in
    let (f, s6, p6, e6) = uncons 10 s5 e5 in
    let (g, s7, p7, e7) = uncons 9 s6 e6 in
    let (h, s8, p8, e8) = uncons 8 s7 e7 in
    let (i, s9, p9, e9) = uncons 7 s8 e8 in
    let (j, s10, p10, e10) = uncons 6 s9 e9 in
    let (k, s11, p11, e11) = uncons 5 s10 e10 in
    let (l, s12, p12, e12) = uncons 4 s11 e11 in
    let (m, s13, p13, e13) = uncons 3 s12 e12 in
    let (n, s14, p14, e14) = uncons 2 s13 e13 in
    let (o, s15, p15, e15) = uncons 1 s14 e14 in
    let (p, s16, p16, e16) = uncons 0 s15 e15 in
    rw (p1, p2, p3, p4, p5, p6, p7, p8, p9, p10, p11, p12, p13, p14, p15, p16)
      (Sixteen-nil a b c d e f g h i j k l m n o p s16 e16)

-- AddRoundKey.
length-xor_at : (s rks : List ℕ) (offset : ℕ) → length (xor_at s rks offset) ≡ length s
unfolding xor_at
length-xor_at [] rks offset = refl
length-xor_at (x ∷ xs) rks offset = ap suc (length-xor_at xs rks (offset + 1))

xor_at-IsByte :
    (s rks : List ℕ) (offset : ℕ) → All IsByte s → All IsByte rks → All IsByte (xor_at s rks offset)
unfolding xor_at
xor_at-IsByte [] rks offset hs hr = tt
xor_at-IsByte (x ∷ xs) rks offset (h, hs) hr =
    (xor-IsByte x _ h (at-IsByte rks offset hr), xor_at-IsByte xs rks (offset + 1) hs hr)

xor_at_twice : (s rks : List ℕ) (offset : ℕ) → xor_at (xor_at s rks offset) rks offset ≡ s
unfolding xor_at
xor_at_twice [] rks offset = refl
xor_at_twice (x ∷ xs) rks offset =
    ap₂ ◌∷◌ (xor_twice x (at rks offset)) (xor_at_twice xs rks (offset + 1))

pub add_round_key-IsBlock :
    (s rks : List ℕ) (r : ℕ) → IsBlock s → All IsByte rks → IsBlock (aes_add_round_key s rks r)
unfolding aes_add_round_key
add_round_key-IsBlock s rks r (n, h) hr =
    (length-xor_at s rks (r * 16) ∙ n, xor_at-IsByte s rks (r * 16) h hr)

pub length-add_round_key : (s rks : List ℕ) (r : ℕ) → length (aes_add_round_key s rks r) ≡ length s
unfolding aes_add_round_key
length-add_round_key s rks r = length-xor_at s rks (r * 16)

pub add_round_key_twice :
    (s rks : List ℕ) (r : ℕ) → aes_add_round_key (aes_add_round_key s rks r) rks r ≡ s
unfolding aes_add_round_key
add_round_key_twice s rks r = xor_at_twice s rks (r * 16)

-- SubBytes.
sbox_table : passes_below 256 (λ b. ltb (at aes_sbox b) 256) ≡ true
unfolding passes_below aes_sbox
sbox_table = refl

pub sbox-IsByte : (b : ℕ) → IsByte b → IsByte (at aes_sbox b)
sbox-IsByte b h = ltb→lt _ _ (passes_below_lem 256 (λ b. ltb (at aes_sbox b) 256) b sbox_table h)

inv_sbox-sbox : (b : ℕ) → IsByte b → at aes_inv_sbox (at aes_sbox b) ≡ b
unfolding passes_below aes_sbox aes_inv_sbox
inv_sbox-sbox = eq_below 256 (λ b. at aes_inv_sbox (at aes_sbox b)) (λ b. b) refl

sub_bytes-IsByte : (s : List ℕ) → All IsByte s → All IsByte (aes_sub_bytes s)
unfolding aes_sub_bytes
sub_bytes-IsByte [] h = tt
sub_bytes-IsByte (x ∷ xs) (h, hs) = (sbox-IsByte x h, sub_bytes-IsByte xs hs)

length-sub_bytes : (s : List ℕ) → length (aes_sub_bytes s) ≡ length s
unfolding aes_sub_bytes
length-sub_bytes [] = refl
length-sub_bytes (x ∷ xs) = ap suc (length-sub_bytes xs)

pub sub_bytes-IsBlock : (s : List ℕ) → IsBlock s → IsBlock (aes_sub_bytes s)
sub_bytes-IsBlock s (n, h) = (length-sub_bytes s ∙ n, sub_bytes-IsByte s h)

pub inv_sub_bytes-sub_bytes : (s : List ℕ) → All IsByte s → aes_inv_sub_bytes (aes_sub_bytes s) ≡ s
unfolding aes_sub_bytes aes_inv_sub_bytes
inv_sub_bytes-sub_bytes [] h = refl
inv_sub_bytes-sub_bytes (x ∷ xs) (h, hs) =
    ap₂ ◌∷◌ (inv_sbox-sbox x h) (inv_sub_bytes-sub_bytes xs hs)

-- ShiftRows.
pub shift_rows-IsBlock : (s : List ℕ) → IsBlock s → IsBlock (aes_shift_rows s)
unfolding aes_shift_rows
shift_rows-IsBlock s (n, h) = (
  refl,
  (
    b 0,
    (
      b 5,
      (
        b 10,
        (
          b 15,
          (
            b 4,
            (b 9, (b 14, (b 3, (b 8, (b 13, (b 2, (b 7, (b 12, (b 1, (b 6, (b 11, tt))))))))))),
          ),
        ),
      ),
    ),
  ),
)
  where
    b : (i : ℕ) → IsByte (at s i)
    b i = at-IsByte s i h

inv_shift_lem : (s : List ℕ) → Sixteen s → aes_inv_shift_rows (aes_shift_rows s) ≡ s
unfolding aes_shift_rows aes_inv_shift_rows
inv_shift_lem _ (sixteen a b c d e f g h i j k l m n o p) = refl

pub inv_shift_rows-shift_rows : (s : List ℕ) → IsBlock s → aes_inv_shift_rows (aes_shift_rows s) ≡ s
inv_shift_rows-shift_rows s h = inv_shift_lem s (Sixteen-length s h.0)
