-- ===== src/Base/Bits/Table.antt =====
-- Equations over a small range, checked at every value by evaluation.
use Prim.Native.Nat.{ℕ, zero, suc, ◌<◌}
use mathlib.Core.Bool.{Bool, true, ◌&&◌}
use mathlib.Core.Path.{◌≡◌}
use home_io_control_wio_b2b.Base.Tests.{◌==◌, ==_iff}
use native.Mathlib.Omega.{arith}

-- A test passes at every number below the bound.
unfoldable pub passes_below : (bound : ℕ) (test : ℕ → Bool) → Bool
passes_below zero test = true
passes_below (suc bound) test = test bound && passes_below bound test

pub passes_below_lem :
    (bound : ℕ) (test : ℕ → Bool) (value : ℕ)
    → passes_below bound test ≡ true
    → value < bound
    → test value ≡ true
unfolding passes_below
passes_below_lem zero test value passed small = absurd (omega arith)
passes_below_lem (suc bound) test value passed small =
    ground (arith, passes_below_lem bound test value)

-- Two functions that agree in a table of `bound` entries agree below `bound`.
pub eq_below :
    (bound : ℕ) (f g : ℕ → ℕ)
    → passes_below bound (λ a. f a == g a) ≡ true
    → (a : ℕ) → a < bound
    → f a ≡ g a
eq_below bound f g table a small =
    (==_iff (f a) (g a)).0 (passes_below_lem bound (λ x. f x == g x) a table small)
