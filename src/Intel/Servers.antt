-- ===== src/Intel/Servers.antt =====
-- server_signals and header_signals of src/bbagent/intel/signals.py. Header values are texts, as the
-- probe keeps them.
use bugbounty_agent.Base.{
  ℕ, ◌+◌, ◌*◌, Char, code, String, Bool, true, false, not, ◌&&◌, ◌||◌, Option, none, some, List, [],
  ◌∷◌, ◌++◌, ◌==◌, contains, take, ltb, leb, eqb, if◌then◌else◌, ok, err,
}
use Prim.Native.String.{◌∷◌ as ◌∷ˢ◌}
use bugbounty_agent.Base.Text
use bugbounty_agent.Base.Text.{◌<>◌, len, is}
use bugbounty_agent.Scope.Libs.{Libs}
use bugbounty_agent.Scope.Canonical.{lower, is_space, is_lower_alnum}
use bugbounty_agent.Scope.Url.{host_from_url}
use bugbounty_agent.Intel.Tables.{Table, server_table, vuln_ranges}
use bugbounty_agent.Intel.Signals.{Signal, non_empty}

-- the first character, tested, and the last
abbrev starts : (Char → Bool) → String → Bool
starts p String.[] = false
starts p (c ∷ˢ s) = p c

abbrev ends : (Char → Bool) → String → Bool
ends p String.[] = false
ends p (c ∷ˢ String.[]) = p c
ends p (c ∷ˢ d ∷ˢ s) = ends p (d ∷ˢ s)

abbrev is_lower_letter : Char → Bool
is_lower_letter c = leb b'a' (code c) && leb (code c) b'z'

-- [/ ,;()]
abbrev is_separator : Char → Bool
is_separator c = is b'/' c || is b' ' c || is b',' c || is b';' c || is b'(' c || is b')' c

-- vt <= hi, for tuples of numbers
unfoldable pub tuple_le : List ℕ → List ℕ → Bool
tuple_le [] ys = true
tuple_le (x ∷ xs) [] = false
tuple_le (x ∷ xs) (y ∷ ys) = if eqb x y then tuple_le xs ys else leb x y

abbrev server_signal : String → ℕ → String → Signal
server_signal server weight why = record {
  kind = "server";
  weight = weight;
  why = "Server '" <> server <> "': " <> why;
  action = none;
}

unfoldable pub server_needles : String → List String → Table String → List Signal
unfolding contains
server_needles server tokens [] = []
server_needles server tokens ((needle, weight, why) ∷ table) =
    let rest = server_needles server tokens table in
    if ltb 0 weight && contains tokens needle then server_signal server weight why ∷ rest else rest

abbrev pub one : Option Signal → List Signal
one none = []
one (some s) = s ∷ []

abbrev header_signal : ℕ → String → Option String → Signal
header_signal weight why action = record {
  kind = "header";
  weight = weight;
  why = why;
  action = action;
}

-- h.get(name), where the last header of a name counts
unfoldable pub header_of : (String → String) → String → List (String × String) → Option String
header_of lower_ name [] = none
header_of lower_ name ((k, v) ∷ headers) = elim (header_of lower_ name headers) [
  | some w ↦ some w
  | none ↦ if lower_ k == name then some v else none
]

-- (h.get(name) or "")
abbrev or_empty : Option String → String
or_empty none = ""
or_empty (some v) = v

-- decimal gives the value of a character that \d matches
module _ (L : Libs) (decimal : Char → Option ℕ) where
  abbrev is_digit : Char → Bool
  is_digit c = elim (decimal c) [ some d ↦ true | none ↦ false ]

  -- _server_tokens, as a list
  unfoldable pub server_tokens : String → List String
  unfolding non_empty Text.split
  server_tokens server = non_empty (Text.split is_separator (lower L server))

  -- [int(x) for x in re.findall(r"\d+", s)], where a number may have begun
  unfoldable pub numbers : Option ℕ → String → List ℕ
  numbers none String.[] = []
  numbers (some n) String.[] = n ∷ []
  numbers none (c ∷ˢ s) = elim (decimal c) [ some d ↦ numbers (some d) s | none ↦ numbers none s ]
  numbers (some n) (c ∷ˢ s) = elim (decimal c) [
    | some d ↦ numbers (some (10 * n + d)) s
    | none ↦ n ∷ numbers none s
  ]

  -- _vtuple
  unfoldable pub vtuple : String → List ℕ
  unfolding numbers
  vtuple version = take 4 (numbers none version)

  -- ([a-z][a-z0-9-]*[a-z])/(\d[\d.]*) at the start of a text
  unfoldable pub version_at : String → Option (String × String)
  unfolding Text.before Text.drop is_lower_alnum
  version_at s =
      let product = Text.before (λ c. not (is_lower_alnum c || is b'-' c)) s in
      let rest = Text.drop (len product) s in
      let behind = Text.drop 1 rest in
      if leb 2 (len product)
        && starts is_lower_letter product
        && ends is_lower_letter product
        && starts (is b'/') rest
        && starts is_digit behind
      then some (product, Text.before (λ c. not (is_digit c || is b'.' c)) behind)
      else none

  -- re.search of it
  unfoldable pub version_in : String → Option (String × String)
  unfolding version_at
  version_in String.[] = none
  version_in (c ∷ˢ s) =
      let rest = version_in s in
      elim (version_at (c ∷ˢ s)) [ some found ↦ some found | none ↦ rest ]

  -- the loop over _VULN_RANGES, and the disclosure below it
  unfoldable pub range_of : String → String → List (String × List ℕ × List ℕ × String) → ℕ × String
  unfolding tuple_le vtuple
  range_of product ver [] =
      (2, "version disclosed: " <> product <> " " <> ver <> " — check CVEs for this version")
  range_of product ver ((prod, lo, hi, note) ∷ ranges) =
      let rest = range_of product ver ranges in
      if product == prod && tuple_le lo (vtuple ver) && tuple_le (vtuple ver) hi
      then (
        9,
        product <> " " <> ver <> ": " <> note <> " — version-confirm, then match CVE (read-only)",
      )
      else rest

  unfoldable pub version_finding : String → Option (ℕ × String)
  unfolding version_in range_of vuln_ranges
  version_finding banner = elim (version_in (lower L banner)) [
    | none ↦ none
    | some (product, ver) ↦ some (range_of product ver vuln_ranges)
  ]

  unfoldable pub version_signal : String → Option Signal
  unfolding version_finding
  version_signal server = elim (version_finding server) [
    | none ↦ none
    | some (weight, note) ↦ some (server_signal server weight note)
  ]

  -- server_signals; None and the empty text give none
  unfoldable pub server_signals : Option String → List Signal
  unfolding server_needles server_tokens server_table version_signal
  server_signals none = []
  server_signals (some server) =
      if server == ""
      then []
      else server_needles server (server_tokens server) server_table ++ one (version_signal server)

  -- _origin_host
  unfoldable pub origin_host : String → Option String
  unfolding host_from_url Text.has
  origin_host value =
      elim (host_from_url L (if Text.has value "://" then value else "http://" <> value)) [
        | ok host ↦ some host
        | err e ↦ none
      ]

  -- another host than the one that answered
  abbrev off_host : String → String → Option String
  off_host host value = elim (origin_host value) [
    | none ↦ none
    | some other ↦ if not (other == "") && not (other == host) then some other else none
  ]

  -- the signals of the headers that allow other origins
  unfoldable pub cors_signals : String → String → Bool → List Signal
  unfolding origin_host
  cors_signals host acao acac =
      if acao == ""
      then []
      else if acac && not (lower L acao == "" || lower L acao == "null")
      then header_signal 8
          ("CORS: ACAO=" <> acao <> " + Allow-Credentials — credentialed cross-origin")
          (some "Test cross-origin credentialed read from an attacker origin (read-only)")
        ∷ []
      else if acao == "*"
      then header_signal 3 "CORS: ACAO=* (wildcard)" none ∷ []
      else elim (off_host host acao) [
        | none ↦ []
        | some other ↦
            header_signal 5 ("CORS reflects origin " <> acao)
              (some "Check whether ACAO reflects an arbitrary Origin (read-only)")
            ∷ []
      ]

  abbrev vulnerable : String → Option (ℕ × String) → List Signal
  vulnerable xpb none = []
  vulnerable xpb (some (weight, note)) =
      if eqb weight 9
      then header_signal 9 ("X-Powered-By " <> xpb <> ": " <> note) none ∷ []
      else []

  unfoldable pub powered_signals : String → List Signal
  unfolding version_finding
  powered_signals xpb =
      if xpb == ""
      then []
      else header_signal 3 ("X-Powered-By: " <> xpb <> " (tech/version disclosed)") none
        ∷ vulnerable xpb (version_finding xpb)

  unfoldable pub redirect_signals : String → String → List Signal
  unfolding origin_host
  redirect_signals host loc = if loc == "" then [] else elim (off_host host loc) [
    | none ↦ []
    | some lh ↦
        header_signal 5 ("redirects off-host to " <> lh <> " (open-redirect / scope lead)")
          (some "Test whether the redirect target is user-controllable (read-only)")
        ∷ []
  ]

  unfoldable pub header_signals : String → List (String × String) → List Signal
  unfolding header_of cors_signals powered_signals redirect_signals Text.strip is_space
  header_signals host headers =
      let h : String → String = λ name. or_empty (header_of (lower L) name headers) in
      let acao = Text.strip (is_space L) (h "access-control-allow-origin") in
      let acac =
        lower L (Text.strip (is_space L) (h "access-control-allow-credentials")) == "true" in
      cors_signals host acao acac
      ++ powered_signals (h "x-powered-by")
      ++ redirect_signals host (h "location")
