-- ===== src/Exchange/Hopping.antt =====
-- components/home_io_control/exchange_engine.cpp: the rotation over the channels.
use home_io_control_wio_b2b.Base.{
  ℕ, zero, suc, ◌≡◌, ◌≢◌, ◌⊎◌, inl, inr, refl, sym, ◌∙◌, true, false, ◌==◌, ==_iff, Bool-cases,
  arith,
}
use home_io_control_wio_b2b.Exchange.Transmit.{freq_ch1, freq_ch2, freq_ch3, rotate, hop_loop}

-- One of the three channels.
abbrev pub IsChannel : ℕ → Type 0
IsChannel freq = (freq ≡ freq_ch1) ⊎ (freq ≡ freq_ch2) ⊎ (freq ≡ freq_ch3)

rotate-IsChannel : (freq : ℕ) → IsChannel (rotate freq)
unfolding rotate
rotate-IsChannel freq = ground arith

rotate-moves : (freq : ℕ) → rotate (rotate freq) ≢ rotate freq
unfolding rotate
rotate-moves freq = ground arith

-- A channel other than the skipped one, reached in two rounds.
abbrev pub IsHopped : ℕ → ℕ → ℕ → Type 0
IsHopped skip freq next = IsChannel next × (next ≢ skip) × (next ≡ hop_loop 1 skip freq)

hop_one : (fuel skip freq : ℕ) → rotate freq == skip ≡ false → hop_loop fuel skip freq ≡ rotate freq
unfolding hop_loop
hop_one zero skip freq e = refl
hop_one (suc fuel) skip freq e = rw (e, hop_loop) refl

hop_more :
    (fuel skip freq : ℕ)
    → rotate freq == skip ≡ true
    → hop_loop (suc fuel) skip freq ≡ rotate (rotate freq)
unfolding hop_loop
hop_more fuel skip freq e =
    let same = (==_iff _ _).0 e in
    rw (e, hop_loop) (hop_one fuel skip (rotate freq) (grind (arith, rotate-moves freq, same)))

-- The loop that picks the next channel ends after two rounds at most, whatever channel is skipped and
-- wherever it starts: more rounds would change nothing, and the channel is one of the three and not
-- the skipped one.
pub hop_loop-IsHopped : (fuel skip freq : ℕ) → IsHopped skip freq (hop_loop (suc fuel) skip freq)
hop_loop-IsHopped fuel skip freq = elim (Bool-cases (rotate freq == skip)) [
  | inl e ↦
      (let same = (==_iff _ _).0 e in
        rw (hop_more fuel skip freq e, hop_more 0 skip freq e)
          (rotate-IsChannel (rotate freq), (λ c. rotate-moves freq (c ∙ sym same)), refl))
  | inr e ↦
      rw (hop_one (suc fuel) skip freq e, hop_one 1 skip freq e)
        (rotate-IsChannel freq, (λ c. ground arith), refl)
]
