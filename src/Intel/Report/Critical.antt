-- ===== src/Intel/Report/Critical.antt =====
-- What the report of src/bbagent/intel/report.py always shows.
use bugbounty_agent.Base.{
  ℕ, suc, ◌≡◌, refl, sym, subst, inl, inr, String, List, [], ◌∷◌, ◌++◌, All, Any, leb, Bool-cases,
  ◌==◌, eq_iff, arith, if◌then◌else◌,
}
use bugbounty_agent.Base.Text.{◌<>◌}
use bugbounty_agent.Intel.Ranking.{AssetPriority, Scoring}
use bugbounty_agent.Intel.Report.{
  of_tier, title_line, host_lines, show_hosts, show_tier, show_tiers, focus_lines, tier_order,
}

Any-left : (P : String → Type 0) (xs ys : List String) → Any P xs → Any P (xs ++ ys)
Any-left P [] ys h = elim h [ ]
Any-left P (x ∷ xs) ys (inl h) = inl h
Any-left P (x ∷ xs) ys (inr h) = inr (Any-left P xs ys h)

Any-right : (P : String → Type 0) (xs ys : List String) → Any P ys → Any P (xs ++ ys)
Any-right P [] ys h = h
Any-right P (x ∷ xs) ys h = inr (Any-right P xs ys h)

module _ (S : Scoring) (hypotheses : List (String × List String)) (top_n : ℕ) where
  -- A line has the name of a host in backquotes, its score, and whether it is live.
  abbrev pub Shows : List String → AssetPriority → Type 0
  Shows lines a =
      Any
        (λ line.
          line
          ≡ "### `"
            <> a.host
            <> "`  — score "
            <> S.str a.score
            <> (if a.live then " · live" else ""))
        lines

  Shows-behind :
      (more lines : List String) (hosts : List AssetPriority)
      → All (Shows lines) hosts
      → All (Shows (more ++ lines)) hosts
  Shows-behind more lines [] h = tt
  Shows-behind more lines (a ∷ hosts) h =
      (Any-right _ more lines h.0, Shows-behind more lines hosts h.1)

  Shows-front :
      (lines more : List String) (hosts : List AssetPriority)
      → All (Shows lines) hosts
      → All (Shows (lines ++ more)) hosts
  Shows-front lines more [] h = tt
  Shows-front lines more (a ∷ hosts) h =
      (Any-left _ lines more h.0, Shows-front lines more hosts h.1)

  show_hosts-cons :
      (all hosts : List AssetPriority) (a : AssetPriority) (shown : ℕ)
      → (show_hosts S hypotheses top_n "critical" all (a ∷ hosts) shown).0
        ≡ host_lines S hypotheses a
          ++ (show_hosts S hypotheses top_n "critical" all hosts (suc shown)).0
  unfolding show_hosts
  show_hosts-cons all hosts a shown = elim (Bool-cases (leb top_n shown)) [
    | inl e ↦ rw (e, show_hosts) refl
    | inr e ↦ rw (e, show_hosts) refl
  ]

  show_hosts-critical :
      (all hosts : List AssetPriority) (shown : ℕ)
      → All (Shows ((show_hosts S hypotheses top_n "critical" all hosts shown).0)) hosts
  unfolding host_lines title_line
  show_hosts-critical all [] shown = tt
  show_hosts-critical all (a ∷ hosts) shown =
      subst (λ lines. All (Shows lines) (a ∷ hosts)) (sym (show_hosts-cons all hosts a shown))
        (
          inl refl,
          Shows-behind (host_lines S hypotheses a) _ hosts
              (show_hosts-critical all hosts (suc shown)),
        )

  show_tier-critical :
      (hosts : List AssetPriority) (shown : ℕ)
      → All (Shows ((show_tier S hypotheses top_n "critical" hosts shown).0)) hosts
  unfolding show_tier
  show_tier-critical [] shown = tt
  show_tier-critical (a ∷ hosts) shown =
      Shows-behind (_ ∷ _ ∷ []) _ (a ∷ hosts) (show_hosts-critical (a ∷ hosts) (a ∷ hosts) shown)

  of_tier-All :
      (P : AssetPriority → Type 0) (tier : String) (ranked : List AssetPriority)
      → All P (of_tier tier ranked)
      → All (λ (a : AssetPriority). a.tier ≡ tier → P a) ranked
  unfolding of_tier
  of_tier-All P tier [] h = tt
  of_tier-All P tier (a ∷ ranked) h = elim (Bool-cases (a.tier == tier)) [
    | inl e ↦ let here = rw (e, of_tier) at h in (λ _. here.0, of_tier-All P tier ranked here.1)
    | inr e ↦ (
      λ same. absurd (ground (arith, eq_iff a.tier tier)),
      of_tier-All P tier ranked (rw (e, of_tier) at h),
    )
  ]

  -- Every critical host of a ranking has a line with its name, its score and whether it is live in the
  -- focus map, however many hosts there are and whatever the limit on the hosts shown.
  pub focus_lines-critical :
      (program : String) (ranked : List AssetPriority)
      → All
          (λ (a : AssetPriority).
            a.tier ≡ "critical" → Shows (focus_lines S program ranked hypotheses top_n) a)
          ranked
  unfolding focus_lines show_tiers tier_order
  focus_lines-critical program ranked =
      let critical = of_tier "critical" ranked in
      of_tier-All (Shows (focus_lines S program ranked hypotheses top_n)) "critical" ranked (
        Shows-behind (_ ∷ _ ∷ _ ∷ _ ∷ _ ∷ _ ∷ []) _ critical
          (Shows-front _ _ critical (Shows-front _ _ critical (show_tier-critical critical 0))))
