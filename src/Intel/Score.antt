-- ===== src/Intel/Score.antt =====
-- src/bbagent/intel/score.py: the tiers and the arithmetic of a score.
use bugbounty_agent.Base.{
  ℕ, ◌+◌, ◌-◌, ◌≤◌, ◌<◌, ◌≡◌, min, max, String, Bool, false, ◌||◌, List, [], ◌∷◌, ◌==◌, any, leb,
  arith, if◌then◌else◌,
}
use bugbounty_agent.Store.Models.{ProbeState, unprobed, live, dead}
use bugbounty_agent.Intel.Signals.{Signal}

unfoldable pub tiers : List (ℕ × String)
tiers = (18, "critical") ∷ (11, "high") ∷ (5, "medium") ∷ (0, "low") ∷ []

unfoldable pub tier_of : ℕ → List (ℕ × String) → String
tier_of score [] = "low"
tier_of score ((threshold, name) ∷ rest) = if leb threshold score then name else tier_of score rest

-- _tier
unfoldable pub tier : ℕ → String
unfolding tier_of tiers
tier score = tier_of score tiers

unfoldable pub sum_weights : List Signal → ℕ
sum_weights [] = 0
sum_weights (s ∷ signals) = s.weight + sum_weights signals

-- served_content
unfoldable pub served_content : List Signal → Bool
unfolding any
served_content signals = any (λ s. s.kind == "path" || s.kind == "param") signals

-- the score that score_host computes from its signals; score - 5 below 0 is 0 under the max
unfoldable pub score_of : List Signal → ProbeState → ℕ
unfolding sum_weights served_content
score_of signals unprobed = sum_weights signals
score_of signals live = sum_weights signals + 2
score_of signals dead =
    if served_content signals then max 0 (sum_weights signals - 5) else min (sum_weights signals) 4

-- A dead host with no signal of a path or a parameter is in the lowest tier, whatever its name and
-- its server say.
pub dead-tier :
    (signals : List Signal) → served_content signals ≡ false → tier (score_of signals dead) ≡ "low"
unfolding tier tier_of tiers score_of
dead-tier signals h = ground arith

-- On the same signals a live host scores more than one that was not probed, and that one at least as
-- much as a dead one.
pub score_of-order :
    (signals : List Signal)
    → (score_of signals unprobed < score_of signals live)
      × (score_of signals dead ≤ score_of signals unprobed)
unfolding score_of
score_of-order signals = ground arith
