-- ===== src/Reason.antt =====
-- The reasoners of src/bbagent/reason: deterministic.py, anthropic_reasoner.py and the null one of
-- port.py. Each takes a program and a ranking and returns a dict, as an association list.
pub mod Annotation
use bugbounty_agent.Base.{
  ℕ, Char, code, String, Bool, true, false, not, ◌&&◌, ◌||◌, Option, none, some, List, [], ◌∷◌,
  ◌++◌, ◌==◌, map, take, contains, if◌then◌else◌,
}
use Prim.Native.String.{◌∷◌ as ◌∷ˢ◌}
use bugbounty_agent.Base.Text
use bugbounty_agent.Base.Text.{◌<>◌, is}
use bugbounty_agent.Scope.Canonical.{is_space, lower}
use bugbounty_agent.Importer.Values.{
  Value, Items, Fields, null, bool, number, date, text, array, object, nil, item, end, field,
}
use bugbounty_agent.Intel.Ranking.{AssetPriority, Scoring, reasons}

abbrev pub Hypotheses : Type 0
Hypotheses = List (String × List String)

-- NullReasoner.hypotheses
abbrev pub null_hypotheses : String → List AssetPriority → Hypotheses
null_hypotheses program ranked = []

-- d[k] = v
unfoldable pub put : String → List String → Hypotheses → Hypotheses
put key hs [] = (key, hs) ∷ []
put key hs ((k, old) ∷ d) =
    let rest = put key hs d in if k == key then (k, hs) ∷ d else (k, old) ∷ rest

abbrev when : Bool → String → List String
when test hyp = if test then hyp ∷ [] else []

-- the hypotheses that the text of a host's signals suggests
unfoldable pub suggested : String → List String
unfolding Text.has
suggested t =
    when (Text.has t "graphql")
      "If introspection is on, map the schema and test object/field-level authorization (IDOR)."
    ++ when (Text.has t "actuator" || Text.has t ".env" || Text.has t ".git")
        "Config/secret exposure is plausible here — verify read-only, then report if reachable."
    ++ when
        ((Text.has t "dev" || Text.has t "staging" || Text.has t "test" || Text.has t "uat")
          && (Text.has t "401" || Text.has t "403" || Text.has t "admin"))
        "Non-prod + auth-gated: check for default creds, weaker auth, or debug endpoints."
    ++ when (Text.has t "internal" || Text.has t "intranet" || Text.has t "vpn")
        "Internal-facing host on the public internet is itself a likely finding."
    ++ when
        (Text.has t "jenkins"
          || Text.has t "gitlab"
          || Text.has t "tomcat"
          || Text.has t "confluence")
        "Fingerprint the exact version and match against known CVEs for this product."

abbrev pub put_some : String → List String → Hypotheses → Hypotheses
put_some host [] out = out
put_some host (h ∷ hs) out = put host (take 3 (h ∷ hs)) out

-- What the remote model's client gives: whether the package and the key are there, the JSON text of
-- the payload's rows, the text of the answer to a prompt (none is any exception), json.loads, and
-- str of a value that is no text.
pub record Client : Type 0 where
  pub available : Bool
  pub dumps : List (String × String × ℕ × List String) → String
  pub ask : String → Option String
  pub loads : String → Option Value
  pub str : Value → String

module _ (S : Scoring) where
  -- the loop of DeterministicReasoner.hypotheses, over the tiers it is made with
  unfoldable pub deterministic_loop : List String → List AssetPriority → Hypotheses → Hypotheses
  unfolding suggested put reasons contains Text.join
  deterministic_loop tiers [] out = out
  deterministic_loop tiers (a ∷ ranked) out = deterministic_loop tiers ranked (
      if contains tiers a.tier
      then put_some a.host (suggested (Text.join " " (map (lower S.libs) (reasons a)))) out
      else out)

  unfoldable pub deterministic_hypotheses : List String → String → List AssetPriority → Hypotheses
  unfolding deterministic_loop
  deterministic_hypotheses tiers program ranked = deterministic_loop tiers ranked []

  -- the JSON of an answer, out of its fence
  unfoldable pub answer_json : String → String
  unfolding Text.before_text Text.strip Text.lstrip Text.starts_with Text.drop is_space
  answer_json given =
      let answer = Text.strip (is_space S.libs) given in
      if Text.starts_with answer "```"
      then Text.strip (is_space S.libs)
          (Text.lstrip (Text.any_of "json") (Text.before_text "```" (Text.drop 3 answer)))
      else answer

abbrev pub is_nil : List AssetPriority → Bool
is_nil [] = true
is_nil (a ∷ ranked) = false

module _ (S : Scoring) (C : Client) where
  abbrev str_of : Value → String
  str_of (text s) = s
  str_of v = C.str v

  -- [str(x) for x in v]
  abbrev pub texts : Items → List String
  texts nil = []
  texts (item v vs) = str_of v ∷ texts vs

  -- the entries of a dict for hosts that are ranked, if they are lists
  unfoldable pub valid_entries : List String → Fields → Hypotheses
  unfolding contains
  valid_entries hosts end = []
  valid_entries hosts (field h v fs) =
      let rest = valid_entries hosts fs in
      elim v [
        | array vs ↦ if contains hosts h then (h, take 3 (texts vs)) ∷ rest else rest
        | null ↦ rest
        | bool b ↦ rest
        | number z t ↦ rest
        | date d ↦ rest
        | text s ↦ rest
        | object gs ↦ rest
      ]

  -- data.items(), which any other value than a dict does not have
  abbrev pub entries : List String → Option Value → Hypotheses
  entries hosts (some (object fs)) = valid_entries hosts fs
  entries hosts _ = []

  -- AnthropicReasoner._payload
  unfoldable pub payload : List AssetPriority → String
  unfolding reasons
  payload ranked =
      C.dumps (
        map (λ (a : AssetPriority). (a.host, a.tier, a.score, take 6 (reasons a))) (take 25 ranked))

  -- AnthropicReasoner.hypotheses, with 25 hosts at most in the prompt
  unfoldable pub anthropic_hypotheses : String → List AssetPriority → Hypotheses
  unfolding valid_entries payload answer_json
  anthropic_hypotheses program ranked =
      if not C.available || is_nil ranked
      then []
      else elim (C.ask ("Program: " <> program <> "\nRanked in-scope hosts:\n" <> payload ranked)) [
        | none ↦ []
        | some answer ↦
            entries (map (λ (a : AssetPriority). a.host) ranked) (C.loads (answer_json S answer))
      ]
