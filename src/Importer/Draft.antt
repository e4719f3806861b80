-- ===== src/Importer/Draft.antt =====
-- ScopeDraft of src/bbagent/importer/core.py. A set is a list without repetitions; it is read by
-- sorted and by its truth value alone.
pub mod Entries
pub mod Names
pub mod Skipped
use bugbounty_agent.Base.{
  ℕ, String, Bool, true, false, not, ◌&&◌, ◌||◌, Option, none, some, is_some, List, [], ◌∷◌, ◌++◌,
  ◌==◌, any, contains, set_add, take, if◌then◌else◌, Result, ok, err,
}
use bugbounty_agent.Base.Results.{◌>>=◌, ◌>>◌, expect, guard}
use bugbounty_agent.Base.Sorted.{sorted}
use bugbounty_agent.Base.Text
use bugbounty_agent.Base.Text.{◌<>◌, is, any_char}
use bugbounty_agent.Scope.Libs.{Libs}
use bugbounty_agent.Scope.Models.{
  ScopeConfig, Platform, hackerone, bugcrowd, intigriti, yeswehack, self_hosted, other, boundary,
  RateLimits,
}
use bugbounty_agent.Scope.Canonical.{is_space, lower, canonical_host}
use bugbounty_agent.Scope.Matcher.{wildcard_base}
use bugbounty_agent.Scope.Url.{urlsplit, hostname}
use bugbounty_agent.Importer.Values.{
  Value, null, text, date, Importing, Error, value_error, empty_scope, validation_error,
}

unfoldable pub deny_substr : List String
deny_substr =
    "bugcrowd" ∷ "hackerone" ∷ "intigriti" ∷ "yeswehack" ∷ "gstatic" ∷ "cloudflare" ∷ "cloudfront"
    ∷ "jsdelivr" ∷ "cdnjs" ∷ "recaptcha" ∷ "googleapis" ∷ "gravatar" ∷ "fontawesome"
    ∷ "googletagmanager" ∷ []

unfoldable pub deny_domains : List String
deny_domains = "w3.org" ∷ "schema.org" ∷ "disclose.io" ∷ "google.com" ∷ "googleusercontent.com" ∷ []

unfoldable pub denylisted : String → Bool
unfolding deny_substr deny_domains Text.has contains any
denylisted registrable =
    contains deny_domains registrable || any (λ s. Text.has registrable s) deny_substr

pub record ScopeDraft : Type 0 where
  pub in_domains : List String
  pub in_subdomains : List String
  pub in_ips : List String
  pub out_domains : List String
  pub out_subdomains : List String
  pub out_ips : List String
  pub notes : List String
  pub warnings : List String

abbrev pub empty : ScopeDraft
empty = record {
  in_domains = [];
  in_subdomains = [];
  in_ips = [];
  out_domains = [];
  out_subdomains = [];
  out_ips = [];
  notes = [];
  warnings = [];
}

abbrev pub warn : String → ScopeDraft → ScopeDraft
warn w d = record d { warnings = d.warnings ++ w ∷ [] }

unfoldable pub add_ip : Bool → String → ScopeDraft → ScopeDraft
add_ip true net d = record d { in_ips = set_add net d.in_ips }
add_ip false net d = record d { out_ips = set_add net d.out_ips }

-- the end of add: in scope or not, below its registrable domain or not
unfoldable pub add_host : Bool → Bool → String → ScopeDraft → ScopeDraft
add_host true true canon d = record d { in_subdomains = set_add canon d.in_subdomains }
add_host true false canon d = record d { in_domains = set_add canon d.in_domains }
add_host false true canon d = record d { out_subdomains = set_add canon d.out_subdomains }
add_host false false canon d = record d { out_domains = set_add canon d.out_domains }

unfoldable pub is_empty : ScopeDraft → Bool
is_empty d = elim d.in_domains [
  | x ∷ xs ↦ false
  | [] ↦ elim d.in_subdomains [ x ∷ xs ↦ false | [] ↦ elim d.in_ips [ x ∷ xs ↦ false | [] ↦ true ] ]
]

module _ (I : Importing) where
  unfoldable pub looks_like_ip : String → Bool
  unfolding Text.strip is_space
  looks_like_ip s = is_some (I.libs.ip_address (Text.strip (is_space I.libs) s))

  unfoldable pub looks_like_cidr : String → Bool
  unfolding Text.strip is_space
  looks_like_cidr s =
      any_char (is b'/') s && is_some (I.libs.ip_network (Text.strip (is_space I.libs) s))

  -- the host of an asset that is no address; the ValueError of urlsplit is not caught
  unfoldable pub asset_host : String → Result Error String
  unfolding Text.has Text.before Text.strip is_space
  asset_host identifier = do
    host ←
        if Text.has identifier "://"
        then (do
          parts ← expect value_error (urlsplit I.libs identifier)
          ok (hostname I.libs parts))
        else ok (Text.before (is b'/') identifier)
    ok (lower I.libs (Text.strip (is_space I.libs) host))

  -- what add does with a host that has a canonical base
  unfoldable pub add_canonical : String → Bool → Bool → String → ScopeDraft → ScopeDraft
  unfolding add_host denylisted
  add_canonical identifier in_scope wildcard canon_base d =
      let reg = I.libs.registered_domain canon_base in
      if reg == ""
      then warn ("skipped non-domain token (no valid TLD): " <> I.repr identifier) d
      else if denylisted reg
      then warn ("skipped platform/vendor domain: " <> I.repr identifier) d
      else add_host in_scope (wildcard || not (reg == canon_base))
          (if wildcard then "*." <> canon_base else canon_base) d

  unfoldable pub add_named : String → Bool → String → ScopeDraft → ScopeDraft
  unfolding add_canonical wildcard_base Text.starts_with
  add_named identifier in_scope host d =
      if host == ""
      then warn ("no host in asset: " <> I.repr identifier) d
      else elim (canonical_host I.libs (wildcard_base host)) [
        | err e ↦ warn ("unparseable host asset skipped: " <> I.repr identifier) d
        | ok canon_base ↦
            add_canonical identifier in_scope (Text.starts_with host "*.") canon_base d
      ]

  unfoldable pub add_network : String → Bool → ScopeDraft → ScopeDraft
  unfolding add_ip
  add_network identifier in_scope d = elim (I.libs.ip_network identifier) [
    | none ↦ warn ("unparseable IP/CIDR asset skipped: " <> I.repr identifier) d
    | some net ↦ add_ip in_scope (I.libs.str_net net) d
  ]

  -- ScopeDraft.add; the type of the asset is not read
  unfoldable pub add : String → Bool → ScopeDraft → Result Error ScopeDraft
  unfolding add_network add_named asset_host looks_like_cidr looks_like_ip Text.strip is_space
  add given in_scope d =
      let identifier = Text.strip (is_space I.libs) given in
      if identifier == ""
      then ok d
      else if looks_like_cidr identifier || looks_like_ip identifier
      then ok (add_network identifier in_scope d)
      else (do host ← asset_host identifier; ok (add_named identifier in_scope host d))

-- the warnings that do not speak of something skipped
unfoldable pub loud : List String → List String
unfolding Text.has
loud [] = []
loud (w ∷ warnings) = let rest = loud warnings in if Text.has w "skipped" then rest else w ∷ rest

unfoldable pub add_warnings : String → List String → String
add_warnings t [] = t
add_warnings t (w ∷ ws) = add_warnings (t <> "\nWARNING: " <> w) ws

-- _notes_text
unfoldable pub notes_text : ScopeDraft → String
unfolding add_warnings loud
notes_text d =
    add_warnings
      "Imported draft — REVIEW against the policy page, then set authorized/active flags."
      (take 6 (loud d.warnings))

-- Platform(value); none is the error of the validation
unfoldable pub platform_named : String → Option Platform
platform_named s =
    if s == "hackerone"
    then some hackerone
    else if s == "bugcrowd"
    then some bugcrowd
    else if s == "intigriti"
    then some intigriti
    else if s == "yeswehack"
    then some yeswehack
    else if s == "self-hosted"
    then some self_hosted
    else if s == "other"
    then some other
    else none

-- what is said of the program besides the draft
pub record Meta : Type 0 where
  pub program_name : String
  pub platform : String
  pub policy_url : Value
  pub authorized_until : Value
  pub last_verified_at : Value
  pub rate_limits : Option RateLimits

-- the validation of an optional text
unfoldable pub optional_text : Value → Result Error (Option String)
optional_text null = ok none
optional_text (text s) = ok (some s)
optional_text _ = err validation_error

-- rate_limits or RateLimits(requests_per_second=1.0, max_concurrency=1)
unfoldable pub rate_or_default : Option RateLimits → RateLimits
rate_or_default (some limits) = limits
rate_or_default none = record { requests_per_second = 1000; max_concurrency = 1 }

-- the ScopeConfig of a draft, once its values are valid
unfoldable pub drafted :
    ScopeDraft
    → String
    → Platform
    → Option String
    → Option ℕ
    → Option ℕ
    → Option RateLimits
    → ScopeConfig
unfolding notes_text rate_or_default
drafted d program_name platform policy_url authorized_until last_verified_at rate_limits = record {
  program = record {
    name = program_name;
    platform = platform;
    policy_url = policy_url;
    authorized_until = authorized_until;
    last_verified_at = last_verified_at;
  };
  authorized = false;
  in_scope = record {
    domains = sorted d.in_domains;
    subdomains = sorted d.in_subdomains;
    ip_ranges = sorted d.in_ips;
  };
  scope_semantics = record { ip_ranges_mode = boundary };
  out_of_scope = record {
    domains = sorted d.out_domains;
    subdomains = sorted d.out_subdomains;
    ip_ranges = sorted d.out_ips;
    notes = d.notes;
  };
  rate_limits = rate_or_default rate_limits;
  active_actions_allowed = false;
  notes = some (notes_text d);
}

module _ (I : Importing) where
  -- the validation of an optional date
  unfoldable pub optional_date : Value → Result Error (Option ℕ)
  optional_date null = ok none
  optional_date (date d) = ok (some d)
  optional_date v = elim (I.date_of v) [ some d ↦ ok (some d) | none ↦ err validation_error ]

  -- to_scope_config
  unfoldable pub to_scope_config : ScopeDraft → Meta → Result Error ScopeConfig
  unfolding is_empty platform_named optional_text optional_date drafted
  to_scope_config d meta = do
    guard (not (is_empty d)) empty_scope
    platform ← expect validation_error (platform_named meta.platform)
    policy_url ← optional_text meta.policy_url
    authorized_until ← optional_date meta.authorized_until
    last_verified_at ← optional_date meta.last_verified_at
    ok (
        drafted d meta.program_name platform policy_url authorized_until last_verified_at
          meta.rate_limits)
