-- ===== src/Intel/Report.antt =====
-- render_focus_map of src/bbagent/intel/report.py. A dict of hypotheses is an association list.
pub mod Critical
use bugbounty_agent.Base.{
  ℕ, zero, suc, ◌-◌, String, Bool, true, false, not, ◌&&◌, ◌||◌, Option, none, some, List, [], ◌∷◌,
  ◌++◌, ◌==◌, map, length, take, leb, eqb, if◌then◌else◌,
}
use bugbounty_agent.Base.Text
use bugbounty_agent.Base.Text.{◌<>◌}
use bugbounty_agent.Scope.Canonical.{is_space}
use bugbounty_agent.Intel.Signals.{Signal}
use bugbounty_agent.Intel.Ranking.{AssetPriority, Scoring, reasons}

unfoldable pub tier_order : List String
tier_order = "critical" ∷ "high" ∷ "medium" ∷ "low" ∷ []

unfoldable pub tier_label : String → String
tier_label tier =
    if tier == "critical"
    then "🔴 CRITICAL — look here first"
    else if tier == "high"
    then "🟠 HIGH"
    else if tier == "medium"
    then "🟡 MEDIUM"
    else "⚪ LOW / noise"

-- hypotheses.get(host, [])
unfoldable pub hypotheses_of : String → List (String × List String) → List String
hypotheses_of host [] = []
hypotheses_of host ((h, hs) ∷ rest) = if h == host then hs else hypotheses_of host rest

-- by_tier[tier]
unfoldable pub of_tier : String → List AssetPriority → List AssetPriority
of_tier tier [] = []
of_tier tier (a ∷ ranked) =
    let rest = of_tier tier ranked in if a.tier == tier then a ∷ rest else rest

-- ==, for the dataclasses
unfoldable pub same_texts : List String → List String → Bool
same_texts [] [] = true
same_texts (x ∷ xs) (y ∷ ys) = x == y && same_texts xs ys
same_texts [] (y ∷ ys) = false
same_texts (x ∷ xs) [] = false

abbrev same_action : Option String → Option String → Bool
same_action none none = true
same_action (some a) (some b) = a == b
same_action none (some b) = false
same_action (some a) none = false

unfoldable pub same_signals : List Signal → List Signal → Bool
same_signals [] [] = true
same_signals (s ∷ ss) (t ∷ ts) =
    s.kind == t.kind
    && eqb s.weight t.weight
    && s.why == t.why
    && same_action s.action t.action
    && same_signals ss ts
same_signals [] (t ∷ ts) = false
same_signals (s ∷ ss) [] = false

abbrev same_bool : Bool → Bool → Bool
same_bool true b = b
same_bool false b = not b

unfoldable pub same : AssetPriority → AssetPriority → Bool
unfolding same_texts same_signals
same a b =
    a.host == b.host
    && eqb a.score b.score
    && a.tier == b.tier
    && same_signals a.signals b.signals
    && same_texts a.actions b.actions
    && same_bool a.live b.live

-- hosts.index(a)
unfoldable pub index : List AssetPriority → AssetPriority → ℕ
unfolding same
index [] a = 0
index (b ∷ hosts) a = let rest = index hosts a in if same b a then 0 else suc rest

unfoldable pub count_live : List AssetPriority → ℕ
count_live [] = 0
count_live (a ∷ ranked) = let n = count_live ranked in if a.live then suc n else n

abbrev prefixed : String → List String → List String
prefixed p l = map (λ s. p <> s) l

-- the line of a list, if it is not empty
abbrev why_line : List String → List String
why_line [] = []
why_line (r ∷ rs) = ("**Why:** " <> Text.join "; " (take 6 (r ∷ rs))) ∷ []

abbrev next_lines : List String → List String
next_lines [] = []
next_lines (a ∷ actions) = "**Next (read-only):**" ∷ prefixed "- " (a ∷ actions)

module _ (S : Scoring) where
  unfoldable pub title_line : AssetPriority → String
  title_line a =
      "### `" <> a.host <> "`  — score " <> S.str a.score <> (if a.live then " · live" else "")

  -- what is written of a host
  unfoldable pub host_lines : List (String × List String) → AssetPriority → List String
  unfolding title_line reasons hypotheses_of Text.join
  host_lines hypotheses a =
      title_line a ∷ why_line (reasons a)
      ++ next_lines a.actions
      ++ prefixed "- 💡 " (hypotheses_of a.host hypotheses)
      ++ "" ∷ []

  -- the loop over the hosts of a tier; all is the whole list, and shown is counted over the tiers
  unfoldable pub show_hosts :
      List (String × List String)
      → ℕ
      → String
      → List AssetPriority
      → List AssetPriority
      → ℕ
      → List String × ℕ
  unfolding host_lines index
  show_hosts hypotheses top_n tier all [] shown = ([], shown)
  show_hosts hypotheses top_n tier all (a ∷ hosts) shown =
      let (lines, n) = show_hosts hypotheses top_n tier all hosts (suc shown) in
      if leb top_n shown && not (tier == "critical")
      then (
        ("_…and " <> S.str (length all - index all a) <> " more " <> tier <> " hosts (see store)._")
            ∷ [],
        shown,
      )
      else (host_lines hypotheses a ++ lines, n)

  -- a tier that has hosts
  unfoldable pub show_tier :
      List (String × List String) → ℕ → String → List AssetPriority → ℕ → List String × ℕ
  unfolding show_hosts tier_label
  show_tier hypotheses top_n tier [] shown = ([], shown)
  show_tier hypotheses top_n tier (a ∷ hosts) shown =
      let (lines, n) = show_hosts hypotheses top_n tier (a ∷ hosts) (a ∷ hosts) shown in
      (("## " <> tier_label tier <> "  (" <> S.str (length (a ∷ hosts)) <> ")") ∷ "" ∷ lines, n)

  unfoldable pub show_tiers :
      List (String × List String) → ℕ → List String → List AssetPriority → ℕ → List String
  unfolding show_tier of_tier
  show_tiers hypotheses top_n [] ranked shown = []
  show_tiers hypotheses top_n (tier ∷ tiers) ranked shown =
      let (lines, n) = show_tier hypotheses top_n tier (of_tier tier ranked) shown in
      lines ++ show_tiers hypotheses top_n tiers ranked n

  abbrev or_nothing : List AssetPriority → List String
  or_nothing [] =
      "_No in-scope hosts discovered yet. Run recon first (and `--active` if authorized)._" ∷ []
  or_nothing (a ∷ ranked) = []

  abbrev summary_line : List AssetPriority → String
  summary_line ranked =
      S.str (length ranked)
      <> " hosts ranked · "
      <> S.str (count_live ranked)
      <> " confirmed live · "
      <> S.str (length (of_tier "critical" ranked))
      <> " critical, "
      <> S.str (length (of_tier "high" ranked))
      <> " high, "
      <> S.str (length (of_tier "medium" ranked))
      <> " medium."

  abbrev notice : String
  notice =
      "> Ranking is by attack-surface signals (naming, live status, tech, exposed paths). "
      <> "All suggested actions are read-only reconnaissance. Stay in scope; obey the program policy."

  unfoldable pub focus_lines :
      String → List AssetPriority → List (String × List String) → ℕ → List String
  unfolding show_tiers tier_order of_tier count_live
  focus_lines program ranked hypotheses top_n =
      ("# Focus map — " <> program)
      ∷ ""
      ∷ summary_line ranked
      ∷ ""
      ∷ notice
      ∷ ""
      ∷ (show_tiers hypotheses top_n tier_order ranked 0 ++ or_nothing ranked)

  -- render_focus_map; a host whose tier is none of the four is a KeyError, which the tiers of
  -- score_host exclude
  unfoldable pub render_focus_map :
      String → List AssetPriority → List (String × List String) → ℕ → String
  unfolding focus_lines Text.join Text.rstrip is_space
  render_focus_map program ranked hypotheses top_n =
      Text.rstrip (is_space S.libs) (Text.join "\n" (focus_lines program ranked hypotheses top_n))
      <> "\n"
