-- ===== src/Scope/Decide/Declared.antt =====
-- From the entries of a scope file to the decisions of src/bbagent/scope/matcher.py.
use bugbounty_agent.Base.{String, ◌≡◌, ◌≢◌, Option, some, List, ok}
use bugbounty_agent.Base.Results.{Ensures-ok}
use bugbounty_agent.Scope.Libs.{Libs}
use bugbounty_agent.Scope.Models.{ScopeConfig, Kind, ip, deny_halt, out_of_scope}
use bugbounty_agent.Scope.Matcher.{ScopeMatcher, compile}
use bugbounty_agent.Scope.Matcher.Names.{IsUnder, IsWild}
use bugbounty_agent.Scope.Matcher.Compiled.{HasExclusion, Excludes, compile-Excludes}
use bugbounty_agent.Scope.Url.{canonical_target}
use bugbounty_agent.Scope.Decide.{decide}
use bugbounty_agent.Scope.Decide.Order.{decide_out_of_scope}

module _ (L : Libs) where
  -- An entry of out_of_scope excludes the host: a domain at or above it, its own name, or a wildcard
  -- above it in its registrable domain, each in canonical form.
  abbrev pub IsExcluded : String → ScopeConfig → Type 0
  IsExcluded host =
      HasExclusion L (λ base. IsUnder host base) (λ base. IsWild L host base) (λ name. name ≡ host)

  -- When a scope compiles, a name that an entry of its out_of_scope excludes is refused as out of
  -- scope, under whatever spelling or URL it is given, whatever in_scope says and whatever addresses it
  -- resolves to.
  pub compile-refuses :
      (config : ScopeConfig) (atom : String) (ips : Option (List String)) (kind : Kind)
      (host : String) {m : ScopeMatcher}
      → compile L config ≡ ok m
      → IsExcluded host config
      → canonical_target L atom ≡ ok (kind, host)
      → kind ≢ ip
      → ((decide L m atom ips).verdict ≡ deny_halt)
        × ((decide L m atom ips).reason_code ≡ out_of_scope)
        × ((decide L m atom ips).canonical_host ≡ some host)
  compile-refuses config atom ips kind host {m} compiled excluded target named =
      let (verdict, code, name, rule) = decide_out_of_scope L m atom ips kind host target named (
        Ensures-ok
          (Excludes L (λ base. IsUnder host base) (λ base. IsWild L host base)
            (λ name. name ≡ host))
          (compile L config) (compile-Excludes L _ _ _ config excluded) compiled) in
      (verdict, code, name)
