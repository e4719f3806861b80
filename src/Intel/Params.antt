-- ===== src/Intel/Params.antt =====
-- param_signals of src/bbagent/intel/signals.py. parse_qs gives the names of a query; lower is
-- str.lower.
use bugbounty_agent.Base.{
  ℕ, String, Bool, none, some, List, [], ◌∷◌, ◌==◌, set_add, take, ltb, leb, if◌then◌else◌,
}
use bugbounty_agent.Base.Text.{◌<>◌}
use bugbounty_agent.Base.Sorted.{sorted, sort_by}
use bugbounty_agent.Intel.Tables.{param_table}
use bugbounty_agent.Intel.Signals.{Signal, get}

-- best_by_class: a class with its weight and the name that has it, in the order of insertion
abbrev pub Classes : Type 0
Classes = List (String × ℕ × String)

-- a class keeps its strongest name, the first of equal ones
unfoldable pub keep_best : String → ℕ → String → Classes → Classes
keep_best why weight name [] = (why, weight, name) ∷ []
keep_best why weight name ((k, w, n) ∷ best) =
    let rest = keep_best why weight name best in
    if k == why
    then (if ltb w weight then (k, weight, name) ∷ best else (k, w, n) ∷ best)
    else (k, w, n) ∷ rest

unfoldable pub best_of : List String → Classes → Classes
unfolding keep_best get param_table
best_of [] best = best
best_of (name ∷ names) best = best_of names (elim (get name param_table) [
  | none ↦ best
  | some (weight, why) ↦ keep_best why weight name best
])

unfoldable pub stronger : String × ℕ × String → String × ℕ × String → Bool
stronger (k, v, m) (l, w, n) = leb w v

-- the signal of a class
unfoldable pub param_signal : Classes → List Signal
param_signal [] = []
param_signal ((why, weight, name) ∷ ranked) =
    record {
      kind = "param";
      weight = weight;
      why = "param '" <> name <> "': " <> why;
      action = some ("Fuzz/compare '" <> name <> "' values for " <> why <> " (read-only)");
    }
    ∷ param_signal ranked

module _ (parse_qs : String → List String) (lower : String → String) where
  unfoldable pub add_names : List String → List String → List String
  unfolding set_add
  add_names [] names = names
  add_names (k ∷ ks) names = add_names ks (set_add (lower k) names)

  unfoldable pub query_names : List String → List String → List String
  unfolding add_names
  query_names [] names = names
  query_names (q ∷ queries) names =
      query_names queries (if q == "" then names else add_names (parse_qs q) names)

  unfoldable pub param_signals : List String → List Signal
  unfolding query_names best_of param_signal stronger
  param_signals queries =
      param_signal (take 3 (sort_by stronger (best_of (sorted (query_names queries [])) [])))
