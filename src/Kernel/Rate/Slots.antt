-- ===== src/Kernel/Rate/Slots.antt =====
-- Leases of the governor by several threads: a thread that holds no slot may acquire one, one that
-- holds a slot may pace, and it releases the slot at the end of its with block.
use bugbounty_agent.Base.{ℕ, ◌+◌, ◌-◌, ◌≤◌, ◌<◌, ◌≡◌, ◌≢◌, none, some, arith, ok}
use bugbounty_agent.Kernel.Rate.{RateGovernor, init, pace, acquire, release}

-- The governor and the number of threads inside a lease.
pub record System : Type 0 where
  pub governor : RateGovernor
  pub holders : ℕ

pub data Step (s : System) : System → Type 0 where
  enter :
      (g : RateGovernor)
      → acquire s.governor ≡ some g
      → Step s (record { governor = g; holders = s.holders + 1 })
  wait :
      (now : ℕ)
      → 0 < s.holders
      → Step s (record { governor = (pace s.governor now).0; holders = s.holders })
  leave :
      (g : RateGovernor)
      → 0 < s.holders
      → release s.governor ≡ some g
      → Step s (record { governor = g; holders = s.holders - 1 })

pub data Reach (made : System) : System → Type 0 where
  unused : Reach made made
  used : {before after : System} → Step before after → Reach made before → Reach made after

-- Free slots and threads inside add up to the cap.
pub record IsBalanced (max_concurrency : ℕ) (s : System) : Type 0 where
  pub cap : s.governor.max_concurrency ≡ max_concurrency
  pub total : s.governor.available + s.holders ≡ max_concurrency

Step-IsBalanced : {c : ℕ} {s t : System} → Step s t → IsBalanced c s → IsBalanced c t
unfolding acquire release pace
Step-IsBalanced (enter g e) b = record { cap = ground arith; total = ground arith }
Step-IsBalanced (wait now h) b = record { cap = ground arith; total = ground arith }
Step-IsBalanced (leave g h e) b = record { cap = ground arith; total = ground arith }

Reach-IsBalanced :
    {c : ℕ} {made now : System} → Reach made now → IsBalanced c made → IsBalanced c now
Reach-IsBalanced unused b = b
Reach-IsBalanced (used last earlier) b = Step-IsBalanced last (Reach-IsBalanced earlier b)

-- However the threads interleave, at most max_concurrency of them are inside a lease of a governor
-- that was made for that cap, and a thread that is inside can release its slot.
pub holders-le-cap :
    (rps max_concurrency now : ℕ) (g : RateGovernor) {t : System}
    → init rps max_concurrency now ≡ ok g
    → Reach (record { governor = g; holders = 0 }) t
    → (t.holders ≤ max_concurrency) × (0 < t.holders → release t.governor ≢ none)
unfolding init release
holders-le-cap rps max_concurrency now g {t} e r =
    let start : IsBalanced max_concurrency (record { governor = g; holders = 0 }) = record {
      cap = ground arith;
      total = ground arith;
    } in
    let b = Reach-IsBalanced r start in (omega arith, λ inside. ground arith)
