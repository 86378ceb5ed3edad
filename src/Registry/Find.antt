-- ===== src/Registry/Find.antt =====
-- components/home_io_control/device_registry.cpp: the laws of its maps.
use home_io_control_wio_b2b.Base.{
  ℕ, ◌≡◌, ◌≢◌, refl, ap₂, Bool, true, false, ◌==◌, ==_iff, some, List, [], ◌∷◌, Bool-cases, inl,
  inr,
}
use home_io_control_wio_b2b.Registry.{text_eq}
use home_io_control_wio_b2b.Registry.Operations.{lookup, assign}

pub text_eq_refl : (xs : List ℕ) → text_eq xs xs ≡ true
unfolding text_eq
text_eq_refl [] = refl
text_eq_refl (x ∷ xs) = rw (text_eq_refl xs, (==_iff x x).1 refl) refl

pub text_eq_sound : (xs ys : List ℕ) → text_eq xs ys ≡ true → xs ≡ ys
unfolding text_eq
text_eq_sound [] [] h = refl
text_eq_sound [] (y ∷ ys) h = absurd cc
text_eq_sound (x ∷ xs) [] h = absurd cc
text_eq_sound (x ∷ xs) (y ∷ ys) h = elim (Bool-cases (x == y)) [
  | inl e ↦ ap₂ ◌∷◌ ((==_iff x y).0 e) (text_eq_sound xs ys (rw e at h))
  | inr e ↦ (let no : false ≡ true = rw e at h in absurd cc)
]

pub text_eq_no : (xs ys : List ℕ) → xs ≢ ys → text_eq xs ys ≡ false
text_eq_no xs ys ne = elim (Bool-cases (text_eq xs ys)) [
  | inl e ↦ absurd (ne (text_eq_sound xs ys e))
  | inr e ↦ e
]

module _ {K A : Type 0} (eq : K → K → Bool) (eq_refl : (k : K) → eq k k ≡ true)
    (eq_sound : (k l : K) → eq k l ≡ true → k ≡ l) where
  -- The entry that was assigned is found.
  pub lookup-assign :
      (key : K) (value : A) (m : List (K × A)) → lookup eq key (assign eq key value m) ≡ some value
  unfolding lookup assign
  lookup-assign key value [] = rw (eq_refl key) refl
  lookup-assign key value ((k, a) ∷ m) = elim (Bool-cases (eq k key)) [
    | inl e ↦ rw (e, assign) (rw (e, lookup) refl)
    | inr e ↦ rw (e, assign) (rw (e, lookup) (lookup-assign key value m))
  ]

  -- Every other one is as it was.
  pub lookup-assign_other :
      (key other : K) (value : A) (m : List (K × A))
      → eq key other ≡ false
      → lookup eq other (assign eq key value m) ≡ lookup eq other m
  unfolding lookup assign
  lookup-assign_other key other value [] ne = rw ne refl
  lookup-assign_other key other value ((k, a) ∷ m) ne = elim (Bool-cases (eq k key)) [
    | inl e ↦
        (let not_other : eq k other ≡ false = rw (eq_sound k key e) ne in
          rw (e, assign) (rw (not_other, lookup) refl))
    | inr e ↦ elim (Bool-cases (eq k other)) [
      | inl o ↦ rw (e, assign) (rw (o, lookup) refl)
      | inr o ↦ rw (e, assign) (rw (o, lookup) (lookup-assign_other key other value m ne))
    ]
  ]
