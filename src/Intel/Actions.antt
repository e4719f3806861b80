-- ===== src/Intel/Actions.antt =====
-- src/bbagent/intel/score.py: _default_actions, the next steps that a host's signals suggest.
-- str.lower is an argument.
use bugbounty_agent.Base.{
  ℕ, zero, suc, ◌≤◌, ◌≢◌, String, Bool, true, false, not, ◌&&◌, ◌||◌, none, some, List, [], ◌∷◌,
  ◌++◌, map, ◌==◌, any, contains, set_add, length, take, arith, if◌then◌else◌,
}
use bugbounty_agent.Base.Text
use bugbounty_agent.Intel.Signals.{Signal}

-- the actions that the signals bring along, each once; an empty text counts as None
unfoldable pub explicit : List String → List Signal → List String
explicit actions [] = actions
explicit actions (s ∷ signals) =
    explicit
      (elim s.action [
        | none ↦ actions
        | some a ↦ if not (a == "") && not (contains actions a) then actions ++ a ∷ [] else actions
      ])
      signals

-- if ...: actions.append(...)
abbrev pub also_if : Bool → String → List String → List String
also_if test action actions = if test then actions ++ action ∷ [] else actions

-- the actions that words of the signals' texts suggest
unfoldable pub hinted : String → List String → List String
unfolding Text.has
hinted text actions =
    also_if (Text.has text "internal" || Text.has text "vpn" || Text.has text "intranet")
      "Confirm this internal-facing host should be externally reachable; report if not"
      (also_if (Text.has text "swagger" || Text.has text "openapi" || Text.has text "api docs")
        "Pull the API spec to map endpoints, then test authZ per endpoint"
        (also_if (Text.has text "admin" || Text.has text "console" || Text.has text "dashboard")
          "Enumerate the admin surface; test for default creds / auth bypass (non-destructive)"
          (also_if (Text.has text "jenkins")
            "Check /script and /manage for unauthenticated access; look for known CVEs"
            (also_if (Text.has text "git" && not (Text.has text "gitlab"))
              "Try fetching /.git/config and /.git/HEAD (read-only)"
              (also_if (Text.has text "actuator")
                "Check /actuator/env and /actuator/heapdump for secrets (read-only)"
                (also_if (Text.has text "graphql")
                  "Test GraphQL introspection (read-only) and object-level authorization"
                  actions))))))

-- if not actions: ...
unfoldable pub or_default : Bool → List String → List String
or_default has_status (a ∷ actions) = a ∷ actions
or_default true [] =
    "Fingerprint the tech stack and enumerate content (crawl/fuzz) for hidden endpoints" ∷ []
or_default false [] = "Probe liveness, fingerprint tech, then enumerate content" ∷ []

-- the loop that leaves duplicates out
unfoldable pub unique : List String → List String → List String
unique out [] = out
unique out (a ∷ actions) = unique (set_add a out) actions

unfoldable pub default_actions : (String → String) → List Signal → List String
unfolding explicit hinted or_default unique Text.join
default_actions lower signals =
    let text = Text.join " " (map (λ s. lower s.why) signals) in
    let has_status = any (λ s. s.kind == "status") signals in
    take 5 (unique [] (or_default has_status (hinted text (explicit [] signals))))

length-take-le : (n : ℕ) (xs : List String) → length (take n xs) ≤ n
length-take-le zero xs = ground arith
length-take-le (suc n) [] = ground arith
length-take-le (suc n) (x ∷ xs) = omega (arith, length-take-le n xs)

set_add-ne : (a : String) (out : List String) → set_add a out ≢ []
unfolding set_add
set_add-ne a [] = ground arith
set_add-ne a (x ∷ out) = ground arith

unique-ne : (out actions : List String) → out ≢ [] → unique out actions ≢ []
unfolding unique
unique-ne out [] h = h
unique-ne out (a ∷ actions) h = unique-ne (set_add a out) actions (set_add-ne a out)

or_default-unique-ne : (st : Bool) (actions : List String) → unique [] (or_default st actions) ≢ []
unfolding or_default unique
or_default-unique-ne true [] = set_add-ne _ []
or_default-unique-ne false [] = set_add-ne _ []
or_default-unique-ne st (a ∷ actions) = unique-ne (set_add a []) actions (set_add-ne a [])

take-ne : (n : ℕ) (xs : List String) → xs ≢ [] → take (suc n) xs ≢ []
take-ne n [] h = h
take-ne n (x ∷ xs) h = λ e. cc e

-- Whatever the signals, at most five actions are suggested, and at least one.
pub default_actions-bounds :
    (lower : String → String) (signals : List Signal)
    → (length (default_actions lower signals) ≤ 5) × (default_actions lower signals ≢ [])
unfolding default_actions
default_actions-bounds lower signals = (
  length-take-le 5 _,
  take-ne 4 _ (
      or_default-unique-ne (any (λ s. s.kind == "status") signals)
        (hinted (Text.join " " (map (λ s. lower s.why) signals)) (explicit [] signals))),
)
