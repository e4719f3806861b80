-- ===== src/Intel/Signals.antt =====
-- src/bbagent/intel/signals.py: the signals of a host name, of a status code and of an alias.
-- str.lower is an argument of takeover_signal.
pub mod Weights
use bugbounty_agent.Base.{
  ℕ, String, Bool, true, false, not, ◌&&◌, ◌||◌, Option, none, some, List, [], ◌∷◌, ◌++◌, ◌==◌,
  contains, ltb, eqb, if◌then◌else◌,
}
use bugbounty_agent.Base.Text
use bugbounty_agent.Base.Text.{◌<>◌, is}
use bugbounty_agent.Intel.Tables.{Table, subdomain_tokens, status_signals, takeover_providers}

pub record Signal : Type 0 where
  pub kind : String
  pub weight : ℕ
  pub why : String
  pub action : Option String

-- TABLE.get(key), for keys of texts and of numbers
unfoldable pub get : String → Table String → Option (ℕ × String)
get key [] = none
get key ((k, weight, why) ∷ table) = if k == key then some (weight, why) else get key table

unfoldable pub get_code : ℕ → Table ℕ → Option (ℕ × String)
get_code key [] = none
get_code key ((k, weight, why) ∷ table) =
    if eqb k key then some (weight, why) else get_code key table

-- the texts that are not empty
unfoldable pub non_empty : List String → List String
non_empty [] = []
non_empty (t ∷ ts) = let rest = non_empty ts in if t == "" then rest else t ∷ rest

-- _labels: splitting at dots and then at hyphens and underscores is splitting at all three
unfoldable pub labels : String → List String
unfolding non_empty Text.split
labels host = non_empty (Text.split (λ c. is b'.' c || is b'-' c || is b'_' c) host)

-- the signal of a token that is in the table, is not seen and has a weight
unfoldable pub weighed : List String → String → Option (ℕ × String) → Option Signal
weighed seen tok none = none
weighed seen tok (some (weight, why)) =
    if not (contains seen tok) && ltb 0 weight
    then some (record {
      kind = "subdomain";
      weight = weight;
      why = "'" <> tok <> "': " <> why;
      action = none;
    })
    else none

-- the body of the loop of subdomain_signals: the new signal, if any
unfoldable pub subdomain_signal : List String → String → Option Signal
unfolding weighed get subdomain_tokens
subdomain_signal seen tok = weighed seen tok (get tok subdomain_tokens)

-- what a signal adds to the set of tokens seen, and to the list
abbrev pub also : String → Option Signal → List String → List String
also tok none seen = seen
also tok (some s) seen = tok ∷ seen

abbrev pub listed : Option Signal → List Signal → List Signal
listed none rest = rest
listed (some s) rest = s ∷ rest

unfoldable pub subdomain_loop : List String → List String → List Signal
unfolding subdomain_signal
subdomain_loop seen [] = []
subdomain_loop seen (tok ∷ toks) =
    let new = subdomain_signal seen tok in listed new (subdomain_loop (also tok new seen) toks)

unfoldable pub subdomain_signals : String → List Signal
unfolding subdomain_loop labels
subdomain_signals host = subdomain_loop [] (labels host)

unfoldable pub status_signal : Option ℕ → Option Signal
unfolding get_code status_signals
status_signal none = none
status_signal (some status_code) = elim (get_code status_code status_signals) [
  | none ↦ none
  | some (weight, why) ↦
      some (record { kind = "status"; weight = weight; why = why; action = none })
]

-- the loop over the providers: the first that the target ends in, or is
unfoldable pub provider_of : String → List (String × String) → Option String
unfolding Text.ends_with Text.strip
provider_of target [] = none
provider_of target ((suffix, provider) ∷ rest) =
    if Text.ends_with target suffix || Text.strip (is b'.') suffix == target
    then some provider
    else provider_of target rest

-- cname_chain[-1]
unfoldable pub last_of : String → List String → String
last_of name [] = name
last_of name (next ∷ names) = last_of next names

-- takeover_signal; lower is str.lower, and resolves is none where it is None
unfoldable pub takeover_signal : (String → String) → List String → Option Bool → Option Signal
unfolding provider_of last_of takeover_providers Text.rstrip
takeover_signal lower [] resolves = none
takeover_signal lower (name ∷ names) resolves =
    let target = Text.rstrip (is b'.') (lower (last_of name names)) in
    elim (provider_of target takeover_providers) [
      | none ↦ none
      | some provider ↦
          let claimed : Signal = record {
            kind = "takeover";
            weight = 4;
            why =
                "CNAME -> " <> target <> " (" <> provider <> ") — confirm the resource is claimed";
            action =
                some (
                  "If " <> provider
                  <> " returns 404/no-such-resource, likely takeover (read-only)");
          } in
          elim resolves [
            | some false ↦ some (record {
              kind = "takeover";
              weight = 9;
              why =
                  "dangling CNAME -> " <> target <> " (" <> provider
                  <> "), does not resolve — possible subdomain takeover";
              action = some (
                  "Fingerprint " <> target
                  <> " against can-i-take-over-xyz signatures (read-only)");
            })
            | some true ↦ some claimed
            | none ↦ some claimed
          ]
    ]
