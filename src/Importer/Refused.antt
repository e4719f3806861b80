-- ===== src/Importer/Refused.antt =====
-- From a plain text scope file, read by src/bbagent/importer/core.py, to the decisions of
-- src/bbagent/scope/matcher.py.
use bugbounty_agent.Base.{◌≡◌, ◌≢◌, refl, inl, inr, String, false, Option, List, Any, ok}
use bugbounty_agent.Base.Members.{Any-at}
use bugbounty_agent.Base.Text
use bugbounty_agent.Scope.Models.{ScopeConfig, Kind, ip, deny_halt, out_of_scope}
use bugbounty_agent.Scope.Canonical.{canonical_host}
use bugbounty_agent.Scope.Matcher.{ScopeMatcher, compile}
use bugbounty_agent.Scope.Url.{canonical_target}
use bugbounty_agent.Scope.Decide.{decide}
use bugbounty_agent.Scope.Decide.Declared.{IsExcluded, compile-refuses}
use bugbounty_agent.Importer.Values.{Importing}
use bugbounty_agent.Importer.Draft.{ScopeDraft, Meta, to_scope_config}
use bugbounty_agent.Importer.Platforms.{parse_plaintext}
use bugbounty_agent.Importer.Listed.{IsLine, IsInScope, parse_plaintext-IsInScope}

module _ (I : Importing) where
  -- A plain name in canonical form that stands out of scope is excluded.
  IsInScope-IsExcluded :
      (canon : String) (cfg : ScopeConfig)
      → Text.starts_with canon "*." ≡ false
      → canonical_host I.libs canon ≡ ok canon
      → IsInScope false canon cfg
      → IsExcluded I.libs canon cfg
  IsInScope-IsExcluded canon cfg plain same (inl d) =
      inl (Any-at _ cfg.out_of_scope.domains canon (canon, same, inl refl) d)
  IsInScope-IsExcluded canon cfg plain same (inr s) =
      inr (Any-at _ cfg.out_of_scope.subdomains canon (inr (plain, (canon, same, refl))) s)

  -- A name that a line of a plain text scope file excludes, an accepted host behind an exclamation
  -- mark and no wildcard, is refused as out of scope by the scope that is built from the file and
  -- compiled, whatever the other lines are and whatever addresses it resolves to, when its canonical
  -- form is its own canonical form.
  pub parse_plaintext-refuses :
      (t raw canon : String) (meta : Meta) (atom : String) (ips : Option (List String))
      (kind : Kind) {d : ScopeDraft} {cfg : ScopeConfig} {m : ScopeMatcher}
      → Any (λ l. l ≡ raw) (Text.splitlines t)
      → IsLine I false raw canon
      → Text.starts_with canon "*." ≡ false
      → canonical_host I.libs canon ≡ ok canon
      → parse_plaintext I t ≡ ok d
      → to_scope_config I d meta ≡ ok cfg
      → compile I.libs cfg ≡ ok m
      → canonical_target I.libs atom ≡ ok (kind, canon)
      → kind ≢ ip
      → ((decide I.libs m atom ips).verdict ≡ deny_halt)
        × ((decide I.libs m atom ips).reason_code ≡ out_of_scope)
  parse_plaintext-refuses t raw canon meta atom ips kind {d} {cfg} l e plain same p b c target
        named =
      let kept = parse_plaintext-IsInScope I t raw canon false meta l e p b in
      let excluded = IsInScope-IsExcluded canon cfg plain same kept in
      let (verdict, code, name) =
        compile-refuses I.libs cfg atom ips kind canon c excluded target named in
      (verdict, code)
