-- ===== src/Tests/Targets.antt =====
-- The scope of a small program: *.example.com without admin.example.com, and 203.0.113.0/24.
use bugbounty_agent.Base.{
  ◌≡◌, ◌↔◌, ◌⊎◌, inl, refl, String, true, false, Option, none, some, [], ◌∷◌, ◌==◌, arith,
  if◌then◌else◌, ok, ltb,
}
use bugbounty_agent.Base.{contains, set_add}
use bugbounty_agent.Base.Results.{traverse}
use bugbounty_agent.Scope.Ip.{
  covers, extra_reason, class_reason, is_loopback, is_link_local, is_unspecified, is_multicast,
  is_reserved,
}
use bugbounty_agent.Scope.Models.{private_ip, unverified, parse_error}
use bugbounty_agent.Scope.Canonical.{
  lower, is_ip_literal, canonical_ip, canonical_name, canonical_labels, reject_mixed_script,
  scripts, label_re, join_labels, bare, char_script, is_alpha, is_ascii, is_space,
}
use bugbounty_agent.Scope.Url.{urlsplit, hostname}
use bugbounty_agent.Scope.Matcher.{subtree_rule, wild_rule, first_net}
use bugbounty_agent.Scope.Decide.{
  decide_inner, name_decision, name_in_scope, pinned_decision, check_resolved_ips, refuse_resolved,
  any_inside, has_boundary, ip_in, deny, grant,
}
use bugbounty_agent.Base.Text
use bugbounty_agent.Base.Text.{◌<>◌, len}
use bugbounty_agent.Scope.Ip.{Addr, v4, v6, quad, v4_net}
use bugbounty_agent.Scope.Libs.{Libs, private_deny_reason}
use bugbounty_agent.Scope.Libs.Denied.{IsAddr, IsInternal, private_deny_reason-none_iff}
use bugbounty_agent.Scope.Models.{
  domain, url, allow, deny_halt, out_of_scope, ScopeConfig, boundary, other,
}
use bugbounty_agent.Scope.Canonical.{canonical_host, canonical_label, label_body}
use bugbounty_agent.Scope.Canonical.Labels.{IsIpText, IsHostName, canonical_host-IsHostName}
use bugbounty_agent.Scope.Canonical.Newline.{canonical_label-newline}
use bugbounty_agent.Scope.Url.{canonical_target, host_from_url}
use bugbounty_agent.Scope.Matcher.{ScopeMatcher, is_subtree, wild_match}
use bugbounty_agent.Scope.Matcher.Names.{IsWild, wild_match_iff}
use bugbounty_agent.Scope.Decide.{decide, name_out_of_scope}
use bugbounty_agent.Scope.Decide.Policy.{Permits, IsOutRule}
use bugbounty_agent.Scope.Decide.Refinement.{decide-allow_iff}
use bugbounty_agent.Scope.Decide.Order.{decide_out_of_scope}

abbrev addresses : String → Option Addr
addresses s =
    if s == "203.0.113.7"
    then some (v4 (quad 203 0 113 7))
    else if s == "127.0.0.1"
    then some (v4 (quad 127 0 0 1))
    else none

abbrev pub toy : Libs
toy = record {
  ip_address = addresses;
  ip_network = λ s. none;
  str_addr =
      λ a. elim a [ v4 n ↦ if ltb n 3000000000 then "127.0.0.1" else "203.0.113.7" | v6 n ↦ "::1" ];
  str_net = λ n. "203.0.113.0/24";
  is_private = λ a. false;
  nfc = λ s. s;
  lower = λ s. s;
  is_space = λ c. false;
  is_alpha = λ c. true;
  char_name = λ c. none;
  idna_encode = λ s. none;
  netloc_ok = λ s. true;
  registered_domain = λ s. if Text.ends_with s "example.com" then "example.com" else "evil.com";
}

abbrev pub config : ScopeConfig
config = record {
  program = record {
    name = "toy";
    platform = other;
    policy_url = none;
    authorized_until = some 739000;
    last_verified_at = some 738900;
  };
  authorized = true;
  in_scope = record {
    domains = [];
    subdomains = "*.example.com" ∷ [];
    ip_ranges = "203.0.113.0/24" ∷ [];
  };
  scope_semantics = record { ip_ranges_mode = boundary };
  out_of_scope = record {
    domains = "admin.example.com" ∷ [];
    subdomains = [];
    ip_ranges = [];
    notes = [];
  };
  rate_limits = record { requests_per_second = 1000; max_concurrency = 1 };
  active_actions_allowed = true;
  notes = none;
}

abbrev pub scope : ScopeMatcher
scope = record {
  config = config;
  oos_domains = "admin.example.com" ∷ [];
  oos_wild = [];
  oos_exact_sub = [];
  oos_nets = [];
  in_domains = [];
  in_wild = "example.com" ∷ [];
  in_exact_sub = [];
  in_nets = v4_net (quad 203 0 113 0) 24 ∷ [];
}

decide-allow_iff_example :
    ((decide toy scope "www.example.com" (some ("203.0.113.7" ∷ []))).verdict ≡ allow)
    ↔ Permits toy scope "www.example.com" (some ("203.0.113.7" ∷ []))
decide-allow_iff_example = decide-allow_iff toy scope "www.example.com" (some ("203.0.113.7" ∷ []))

-- what the runs below unfold
unfoldable pub program : Unit {0}
unfolding canonical_target host_from_url urlsplit lower Text.lower_char hostname canonical_host
    is_ip_literal canonical_ip canonical_name canonical_labels traverse Text.split canonical_label
    reject_mixed_script scripts label_re join_labels Text.join contains set_add Text.strip Text.has
    bare char_script is_alpha is_ascii is_space decide name_out_of_scope decide_inner name_decision
    subtree_rule is_subtree wild_rule wild_match name_in_scope pinned_decision check_resolved_ips
    refuse_resolved any_inside has_boundary private_deny_reason extra_reason class_reason
    is_loopback is_link_local is_unspecified is_multicast is_reserved covers ip_in first_net deny
    grant Text.ends_with Text.drop
program = tt

-- userinfo, port, case and path are dropped
pub admin_target :
    canonical_target toy "http://x@Admin.example.com:8080/a" ≡ ok (url, "admin.example.com")
unfolding program
admin_target = refl

pub www_allowed : (decide toy scope "www.example.com" (some ("203.0.113.7" ∷ []))).verdict ≡ allow
unfolding program
www_allowed = refl

-- a resolved address outside the ranges, a resolved loopback address, another registrable domain
www_refused :
    ((decide toy scope "www.example.com" (some ("127.0.0.1" ∷ []))).reason_code ≡ private_ip)
    × ((decide toy scope "www.example.com.evil.com" none).reason_code ≡ unverified)
    × ((decide toy scope "a b" none).reason_code ≡ parse_error)
unfolding program
www_refused = (refl, refl, refl)

-- a newline behind a label passes, and the host is in scope
newline_allowed :
    (canonical_target toy "www\n.example.com" ≡ ok (domain, "www\n.example.com"))
    × ((decide toy scope "www\n.example.com" none).verdict ≡ allow)
unfolding program
newline_allowed = (refl, refl)

-- a URL takes the name rules only: the text of a loopback address as a domain in scope
abbrev local_scope : ScopeMatcher
local_scope = record scope { in_domains = "127.0.0.1" ∷ [] }

loopback_url_allowed : (decide toy local_scope "http://127.0.0.1/" none).verdict ≡ allow
unfolding program
loopback_url_allowed = refl

decide_out_of_scope_example :
    ((decide toy scope "http://x@Admin.example.com:8080/a" none).verdict ≡ deny_halt)
    × ((decide toy scope "http://x@Admin.example.com:8080/a" none).reason_code ≡ out_of_scope)
    × ((decide toy scope "http://x@Admin.example.com:8080/a" none).canonical_host
        ≡ some "admin.example.com")
    × ((rule : String) × ((decide toy scope "http://x@Admin.example.com:8080/a" none).matched_rule
          ≡ some rule)
        × IsOutRule toy scope "admin.example.com" rule)
decide_out_of_scope_example =
    decide_out_of_scope toy scope "http://x@Admin.example.com:8080/a" none url "admin.example.com"
      admin_target (λ e. cc e) (inl (inl (inl refl)))

toy_bits : (s : String) (a : Addr) → addresses s ≡ some a → IsAddr a
toy_bits s (v4 n) e = ground arith
toy_bits s (v6 n) e = ground arith

private_deny_reason-none_iff_example : (private_deny_reason toy "203.0.113.7" ≡ none) ↔ (
    (addr : Addr) × (addresses "203.0.113.7" ≡ some addr) × (false ≡ false) × (¬ IsInternal addr))
private_deny_reason-none_iff_example =
    private_deny_reason-none_iff toy "203.0.113.7" (toy_bits "203.0.113.7")

www_host : canonical_host toy " WWW.Example.com. " ≡ ok "www.example.com"
unfolding program
www_host = refl

canonical_host-IsHostName_example : IsIpText toy "www.example.com" ⊎ IsHostName "www.example.com"
canonical_host-IsHostName_example = canonical_host-IsHostName toy " WWW.Example.com. " www_host

www_label : label_body "www" ≡ true
unfolding label_body
www_label = refl

canonical_label-newline_example :
    canonical_label toy "www\n.example.com" ("www" <> "\n") ≡ ok ("www" <> "\n")
canonical_label-newline_example = canonical_label-newline toy "www\n.example.com" "www" www_label

wild_match_iff_example :
    (wild_match toy "www.example.com" "example.com" ≡ true)
    ↔ IsWild toy "www.example.com" "example.com"
wild_match_iff_example = wild_match_iff toy "www.example.com" "example.com"
