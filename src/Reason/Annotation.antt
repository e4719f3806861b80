-- ===== src/Reason/Annotation.antt =====
-- What the reasoners of src/bbagent/reason may add to a ranking.
use bugbounty_agent.Base.{
  ℕ, zero, suc, ◌≤◌, ◌≡◌, refl, subst, inl, inr, String, Bool, true, false, not, ◌||◌, Option, none,
  some, List, [], ◌∷◌, ◌++◌, ◌==◌, eq_iff, map, take, length, contains, All, Bool-cases,
  Option-cases, arith, if◌then◌else◌,
}
use bugbounty_agent.Base.Text
use bugbounty_agent.Base.Text.{◌<>◌}
use bugbounty_agent.Scope.Canonical.{lower}
use mathlib.Core.List.{append_assoc}
use bugbounty_agent.Importer.Values.{
  Value, Fields, null, bool, number, date, text, array, object, end, field,
}
use bugbounty_agent.Intel.Ranking.{AssetPriority, Scoring, reasons}
use bugbounty_agent.Reason.{
  suggested, Hypotheses, put, put_some, deterministic_loop, deterministic_hypotheses, Client, texts,
  valid_entries, entries, payload, is_nil, answer_json, anthropic_hypotheses,
}

abbrev hosts_of : List AssetPriority → List String
hosts_of ranked = map (λ (a : AssetPriority). a.host) ranked

-- At most three hypotheses for each of some hosts, all of them of the list.
abbrev pub IsAnnotation : List String → Hypotheses → Type 0
IsAnnotation hosts hyps =
    All (λ entry. (contains hosts entry.0 ≡ true) × (length (entry.1) ≤ 3)) hyps

length-take : {A : Type 0} (n : ℕ) (xs : List A) → length (take n xs) ≤ n
length-take zero xs = omega arith
length-take (suc n) [] = omega arith
length-take (suc n) (x ∷ xs) = omega (arith, length-take n xs)

put-IsAnnotation :
    (hosts : List String) (key : String) (hs : List String) (d : Hypotheses)
    → contains hosts key ≡ true
    → length hs ≤ 3
    → IsAnnotation hosts d
    → IsAnnotation hosts (put key hs d)
unfolding put
put-IsAnnotation hosts key hs [] k l h = ((k, l), tt)
put-IsAnnotation hosts key hs ((k0, old) ∷ d) k l h = elim (Bool-cases (k0 == key)) [
  | inl e ↦ rw (e, put) ((h.0.0, l), h.1)
  | inr e ↦ rw (e, put) (h.0, put-IsAnnotation hosts key hs d k l h.1)
]

or_true : (b : Bool) → (b || true) ≡ true
or_true true = refl
or_true false = refl

module _ (S : Scoring) (C : Client) (hosts : List String) where
  valid_entries-IsAnnotation : (fs : Fields) → IsAnnotation hosts (valid_entries S C hosts fs)
  unfolding valid_entries
  valid_entries-IsAnnotation end = tt
  valid_entries-IsAnnotation (field h (array vs) fs) = elim (Bool-cases (contains hosts h)) [
    | inl e ↦
        rw (e, valid_entries) ((e, length-take 3 (texts S C vs)), valid_entries-IsAnnotation fs)
    | inr e ↦ rw (e, valid_entries) (valid_entries-IsAnnotation fs)
  ]
  valid_entries-IsAnnotation (field h null fs) = valid_entries-IsAnnotation fs
  valid_entries-IsAnnotation (field h (bool b) fs) = valid_entries-IsAnnotation fs
  valid_entries-IsAnnotation (field h (number z t) fs) = valid_entries-IsAnnotation fs
  valid_entries-IsAnnotation (field h (date d) fs) = valid_entries-IsAnnotation fs
  valid_entries-IsAnnotation (field h (text s) fs) = valid_entries-IsAnnotation fs
  valid_entries-IsAnnotation (field h (object gs) fs) = valid_entries-IsAnnotation fs

  entries-IsAnnotation : (v : Option Value) → IsAnnotation hosts (entries S C hosts v)
  entries-IsAnnotation none = tt
  entries-IsAnnotation (some (object fs)) = valid_entries-IsAnnotation fs
  entries-IsAnnotation (some null) = tt
  entries-IsAnnotation (some (bool b)) = tt
  entries-IsAnnotation (some (number z t)) = tt
  entries-IsAnnotation (some (date d)) = tt
  entries-IsAnnotation (some (text s)) = tt
  entries-IsAnnotation (some (array vs)) = tt

-- Whatever the remote model answers, the reasoner's hypotheses are for hosts of the ranking only, and
-- at most three for each.
pub anthropic_hypotheses-IsAnnotation :
    (S : Scoring) (C : Client) (program : String) (ranked : List AssetPriority)
    → IsAnnotation (hosts_of ranked) (anthropic_hypotheses S C program ranked)
unfolding anthropic_hypotheses
anthropic_hypotheses-IsAnnotation S C program ranked =
    elim (Bool-cases (not C.available || is_nil ranked)) [
      | inl e ↦ rw (e, anthropic_hypotheses) tt
      | inr e ↦
          elim (Option-cases (
            C.ask ("Program: " <> program <> "\nRanked in-scope hosts:\n" <> payload S C ranked))) [
              | inl a ↦ rw (e, a, anthropic_hypotheses) tt
              | inr (answer, a) ↦
                  rw (e, a, anthropic_hypotheses)
                    (entries-IsAnnotation S C (hosts_of ranked) (C.loads (answer_json S answer)))
            ]
    ]

put_some-IsAnnotation :
    (hosts : List String) (key : String) (hs : List String) (d : Hypotheses)
    → contains hosts key ≡ true
    → IsAnnotation hosts d
    → IsAnnotation hosts (put_some key hs d)
put_some-IsAnnotation hosts key [] d k h = h
put_some-IsAnnotation hosts key (x ∷ xs) d k h =
    put-IsAnnotation hosts key (take 3 (x ∷ xs)) d k (length-take 3 (x ∷ xs)) h

contains-middle :
    (seen : List String) (a : String) (rest : List String) → contains (seen ++ a ∷ rest) a ≡ true
unfolding contains
contains-middle [] a rest = rw ((eq_iff a a).1 refl) refl
contains-middle (x ∷ seen) a rest = rw (contains-middle seen a rest) (or_true (x == a))

module _ (S : Scoring) (tiers : List String) where
  step-IsAnnotation :
      (hosts : List String) (a : AssetPriority) (hs : List String) (out : Hypotheses) (b : Bool)
      → contains hosts a.host ≡ true
      → IsAnnotation hosts out
      → IsAnnotation hosts (if b then put_some a.host hs out else out)
  step-IsAnnotation hosts a hs out true m h = put_some-IsAnnotation hosts a.host hs out m h
  step-IsAnnotation hosts a hs out false m h = h

  loop-IsAnnotation :
      (hosts : List String) (ranked : List AssetPriority) (out : Hypotheses)
      → All (λ (a : AssetPriority). contains hosts a.host ≡ true) ranked
      → IsAnnotation hosts out
      → IsAnnotation hosts (deterministic_loop S tiers ranked out)
  unfolding deterministic_loop
  loop-IsAnnotation hosts [] out m h = h
  loop-IsAnnotation hosts (a ∷ ranked) out m h = loop-IsAnnotation hosts ranked _ m.1 (
      step-IsAnnotation hosts a (suggested (Text.join " " (map (lower S.libs) (reasons a)))) out
        (contains tiers a.tier) m.0 h)

  All-hosts_of :
      (seen : List String) (ranked : List AssetPriority)
      → All (λ (a : AssetPriority). contains (seen ++ hosts_of ranked) a.host ≡ true) ranked
  All-hosts_of seen [] = tt
  All-hosts_of seen (a ∷ ranked) = (
    contains-middle seen a.host (hosts_of ranked),
    subst (λ l. All (λ (b : AssetPriority). contains l b.host ≡ true) ranked)
        (append_assoc seen (a.host ∷ []) (hosts_of ranked))
        (All-hosts_of (seen ++ a.host ∷ []) ranked),
  )

  -- The rule-based reasoner's hypotheses are for hosts of the ranking only, at most three for each.
  pub deterministic_hypotheses-IsAnnotation :
      (program : String) (ranked : List AssetPriority)
      → IsAnnotation (hosts_of ranked) (deterministic_hypotheses S tiers program ranked)
  unfolding deterministic_hypotheses
  deterministic_hypotheses-IsAnnotation program ranked =
      loop-IsAnnotation (hosts_of ranked) ranked [] (All-hosts_of [] ranked) tt
