-- ===== src/Kernel/Rate/Pacing.antt =====
-- The pace of the governor of src/bbagent/kernel/rate.py, and how narrowing changes it.
use native.Mathlib.Nat.{le-div_iff_mul-le, div-mul-le_self}
use bugbounty_agent.Base.{
  ℕ, zero, suc, ◌+◌, ◌-◌, ◌*◌, ◌/◌, ◌^◌, ◌≤◌, ◌<◌, max, ◌≡◌, subst, List, [], ◌∷◌, length, All,
  arith, ok,
}
use bugbounty_agent.Kernel.Rate.{RateGovernor, interval, init, pace, narrowed}

-- When the callers of pace go on: each calls at a time of the clock, and sleeps.
abbrev pub starts : RateGovernor → List ℕ → List ℕ
starts g [] = []
starts g (now ∷ clocks) = (now + (pace g now).1) ∷ starts (pace g now).0 clocks

-- The k-th number after the first lies k intervals behind it or later.
abbrev pub IsSpaced : ℕ → ℕ → List ℕ → Type 0
IsSpaced gap from [] = Unit
IsSpaced gap from (t ∷ ts) = (from ≤ t) × IsSpaced gap (t + gap) ts

-- Whatever the clock shows at the calls, two units of work that pass the governor one after the
-- other start at least an interval apart, and none starts before the governor is free.
pub starts-IsSpaced :
    (g : RateGovernor) (clocks : List ℕ) → IsSpaced (interval g.rps) g.next_free (starts g clocks)
unfolding pace
starts-IsSpaced g [] = tt
starts-IsSpaced g (now ∷ clocks) =
    let start = now + (g.next_free - now) in
    let free : max now g.next_free + interval g.rps ≡ start + interval g.rps = omega arith in
    let rest = starts-IsSpaced (pace g now).0 clocks in
    (omega arith, subst (λ f. IsSpaced (interval g.rps) f (starts (pace g now).0 clocks)) free rest)

-- The last of n + 1 starts lies at least n intervals behind the first.
spaced_before :
    (gap from hi n : ℕ) (ts : List ℕ)
    → IsSpaced gap from ts
    → All (λ t. t < hi) ts
    → length ts ≡ suc n
    → from + n * gap < hi
spaced_before gap from hi n [] s within e = absurd (omega arith)
spaced_before gap from hi zero (t ∷ ts) s within e = omega arith
spaced_before gap from hi (suc n) (t ∷ ts) (late, s) (here, within) e =
    omega (arith, spaced_before gap (t + gap) hi n ts s within (omega arith))

-- In any stretch of time that begins when the governor is free, the units of work that start are
-- at most one more than the intervals that the stretch holds.
pub starts_in_window :
    (g : RateGovernor) (clocks : List ℕ) (width n : ℕ)
    → All (λ t. t < g.next_free + width) (starts g clocks)
    → length (starts g clocks) ≡ suc n
    → n * interval g.rps < width
starts_in_window g clocks width n within e =
    let gap = interval g.rps in
    omega (
      arith,
      spaced_before gap g.next_free (g.next_free + width) n (starts g clocks)
          (starts-IsSpaced g clocks) within e,
    )

interval_mono : (a b : ℕ) → 0 < a → a ≤ b → interval b ≤ interval a
unfolding interval
interval_mono a b pos le =
    (le-div_iff_mul-le {k = a} {x = 10 ^ 12 / b} {y = 10 ^ 12} pos).1
      (grind (arith, div-mul-le_self (10 ^ 12) b))

-- A narrowed governor has neither a higher rate nor more slots, and pauses at least as long.
pub narrowed_lowers :
    (g h : RateGovernor) (rps max_concurrency now : ℕ)
    → narrowed g rps max_concurrency now ≡ ok h
    → (h.rps ≤ g.rps)
      × (h.max_concurrency ≤ g.max_concurrency)
      × (h.rps ≤ rps)
      × (h.max_concurrency ≤ max_concurrency)
      × (interval g.rps ≤ interval h.rps)
unfolding narrowed init
narrowed_lowers g h rps max_concurrency now e =
    let pos : 0 < h.rps = ground arith in
    let le : h.rps ≤ g.rps = ground arith in
    (le, ground arith, ground arith, ground arith, interval_mono h.rps g.rps pos le)
