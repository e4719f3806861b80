-- ===== src/Intel/Ranking/Order.antt =====
-- The order of prioritize of src/bbagent/intel/score.py.
use mathlib.Core.List.{Perm}
use Prim.Native.String.{◌∷◌ as ◌∷ˢ◌}
use bugbounty_agent.Base.{◌≡◌, ◌⊎◌, ◌↔◌, inl, inr, ◌<◌, String, true, false, List, map, code, arith}
use bugbounty_agent.Base.Text
use bugbounty_agent.Base.Sorted.{sort_by-perm, IsPairwise, sort_by-IsPairwise}
use bugbounty_agent.Intel.Ranking.{
  HostInput, AssetPriority, Scoring, ranks_before, score_host, prioritize,
}

-- The order of texts by code points: a prefix stands before what it begins.
abbrev pub IsLexLe : String → String → Type 0
IsLexLe String.[] t = Unit
IsLexLe (c ∷ˢ s) String.[] = ⊥
IsLexLe (c ∷ˢ s) (d ∷ˢ t) = (code c < code d) ⊎ ((code c ≡ code d) × IsLexLe s t)

-- A host stands before another for a higher score; on equal scores, for being live where the other
-- is not; and where that is equal too, by its name.
abbrev pub Precedes : AssetPriority → AssetPriority → Type 0
Precedes a b =
    (b.score < a.score)
    ⊎ ((a.score ≡ b.score)
        × (((a.live ≡ true) × (b.live ≡ false)) ⊎ ((a.live ≡ b.live) × IsLexLe a.host b.host)))

le_iff-IsLexLe : (s t : String) → (Text.le s t ≡ true) ↔ IsLexLe s t
unfolding Text.le
le_iff-IsLexLe String.[] t = ground arith
le_iff-IsLexLe (c ∷ˢ s) String.[] = (λ h. cc h, λ h. absurd h)
le_iff-IsLexLe (c ∷ˢ s) (d ∷ˢ t) = ground (arith, le_iff-IsLexLe s t)

IsLexLe-trans : (s t u : String) → IsLexLe s t → IsLexLe t u → IsLexLe s u
IsLexLe-trans String.[] t u h k = tt
IsLexLe-trans (c ∷ˢ s) String.[] u h k = elim h [ ]
IsLexLe-trans (c ∷ˢ s) (d ∷ˢ t) String.[] h k = elim k [ ]
IsLexLe-trans (c ∷ˢ s) (d ∷ˢ t) (e ∷ˢ u) h k = ground (arith, IsLexLe-trans s t u)

IsLexLe-total : (s t : String) → IsLexLe s t ⊎ IsLexLe t s
IsLexLe-total String.[] t = inl tt
IsLexLe-total (c ∷ˢ s) String.[] = inr tt
IsLexLe-total (c ∷ˢ s) (d ∷ˢ t) = ground (arith, IsLexLe-total s t)

ranks_before_iff : (a b : AssetPriority) → (ranks_before a b ≡ true) ↔ Precedes a b
unfolding ranks_before
ranks_before_iff a b = ground (arith, le_iff-IsLexLe a.host b.host)

ranks_before-total : (a b : AssetPriority) → ranks_before a b ≡ false → Precedes b a
unfolding ranks_before
ranks_before-total a b h = ground (arith, le_iff-IsLexLe a.host b.host, IsLexLe-total a.host b.host)

Precedes-trans : (a b c : AssetPriority) → Precedes a b → Precedes b c → Precedes a c
Precedes-trans a b c h k = ground (arith, IsLexLe-trans a.host b.host c.host)

-- The ranking has exactly the scored hosts, each as often as it was given, and each of them stands
-- before every later one by its score, highest first, then live ones first, then by the name of the
-- host.
pub prioritize-IsRanking :
    (S : Scoring) (items : List HostInput)
    → Perm (prioritize S items) (map (score_host S) items)
      × IsPairwise Precedes (prioritize S items)
unfolding prioritize
prioritize-IsRanking S items = (
  sort_by-perm ranks_before (map (score_host S) items),
  sort_by-IsPairwise ranks_before Precedes (λ a b. (ranks_before_iff a b).0) ranks_before-total
      Precedes-trans (map (score_host S) items),
)
