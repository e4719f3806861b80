-- ===== src/Tools/Dns.antt =====
-- src/bbagent/tools/dns.py: what resolve_full makes of an answer. The resolver is an argument.
use bugbounty_agent.Base.{String, Bool, true, false, Option, none, some, List, [], ◌∷◌, map}
use bugbounty_agent.Base.Text
use bugbounty_agent.Base.Text.{is}
use bugbounty_agent.Orchestrator.{DnsResult}

-- How the lookup of the A records ends: no package, an answer with the targets of its CNAME records
-- and its addresses, NXDOMAIN and NoAnswer with the targets that they carry, any other exception.
pub data Lookup : Type 0 where
  no_package : Lookup
  answered : List String → List String → Lookup
  nxdomain : List String → Lookup
  no_answer : List String → Lookup
  failed : Lookup

-- _grab, and the loop of _resolve_cname_only
unfoldable pub targets : List String → List String
unfolding Text.rstrip
targets names = map (λ name. Text.rstrip (is b'.') name) names

-- _resolve_cname_only, where the second lookup's targets are none on an exception
unfoldable pub resolve_cname_only : Option (List String) → List String → List String
unfolding targets
resolve_cname_only more (c ∷ cnames) = c ∷ cnames
resolve_cname_only none [] = []
resolve_cname_only (some names) [] = targets names

abbrev has_any : List String → Bool
has_any [] = false
has_any (a ∷ addrs) = true

-- resolve_full, by the first lookup and the second
unfoldable pub resolve_full : Lookup → Option (List String) → DnsResult
unfolding targets resolve_cname_only
resolve_full no_package more = record { cname_chain = []; resolves = true }
resolve_full (answered names addrs) more = record {
  cname_chain = targets names;
  resolves = has_any addrs;
}
resolve_full (nxdomain names) more = record {
  cname_chain = resolve_cname_only more (targets names);
  resolves = false;
}
resolve_full (no_answer names) more = record {
  cname_chain = resolve_cname_only more (targets names);
  resolves = false;
}
resolve_full failed more = record { cname_chain = []; resolves = true }
