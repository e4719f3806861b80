-- ===== src/Tests/Exclusions.antt =====
-- A plain text scope with an exclusion, from the file to the decision.
use bugbounty_agent.Base.{◌≡◌, refl, false, none, some, [], ◌∷◌, contains, set_add, any, ok}
use bugbounty_agent.Base.Text
use bugbounty_agent.Base.Text.{◌<>◌}
use bugbounty_agent.Base.Results.{traverse}
use bugbounty_agent.Scope.Models.{other}
use bugbounty_agent.Scope.Matcher.{wildcard_base}
use bugbounty_agent.Scope.Canonical.{
  lower, is_ip_literal, canonical_ip, canonical_name, canonical_labels, reject_mixed_script,
  scripts, label_re, label_body, label_rest, is_lower_alnum, chop_newline, join_labels, bare,
  char_script, is_alpha, is_ascii, is_space, canonical_host, canonical_label,
}
use bugbounty_agent.Importer.Draft.{
  add, add_named, add_canonical, add_host, denylisted, deny_substr, deny_domains, asset_host,
  looks_like_ip, looks_like_cidr, is_empty, to_scope_config, drafted, optional_text, optional_date,
  platform_named,
}
use bugbounty_agent.Importer.Listed.{IsAccepted, IsLine, IsInScope, parse_plaintext-IsInScope}
use bugbounty_agent.Base.{inl, inr, Any}
use bugbounty_agent.Importer.Platforms.{parse_plaintext, add_lines, add_line}
use bugbounty_agent.Base.Sorted.{sorted, sort_by, insert_by}
use bugbounty_agent.Tests.Targets.{toy}
use bugbounty_agent.Scope.Models.{url, deny_halt, out_of_scope}
use bugbounty_agent.Scope.Matcher.{ScopeMatcher, canon_set, split_subdomains, nets, compile}
use bugbounty_agent.Scope.Decide.{decide}
use bugbounty_agent.Scope.Decide.Declared.{IsExcluded, compile-refuses}
use bugbounty_agent.Importer.Refused.{parse_plaintext-refuses}
use bugbounty_agent.Tests.Imports.{importing, meta, listed, listed_draft}
use bugbounty_agent.Tests.Targets.{admin_target}

-- the exclusion of the list
admin-IsAccepted : IsAccepted importing "admin.example.com" "admin.example.com"
unfolding Text.starts_with denylisted deny_substr deny_domains contains any Text.has looks_like_ip
    looks_like_cidr asset_host Text.before Text.strip Text.lstrip Text.rstrip is_space is_ascii
    lower Text.lower_char wildcard_base canonical_host is_ip_literal canonical_ip canonical_name
    canonical_labels canonical_label reject_mixed_script scripts label_re label_body label_rest
    is_lower_alnum chop_newline join_labels bare char_script is_alpha traverse set_add Text.after
    Text.split Text.drop Text.ends_with Text.join Text.take
admin-IsAccepted = record {
  host = "admin.example.com";
  base = "admin.example.com";
  is_full = refl;
  is_named = refl;
  is_host = refl;
  has_host = refl;
  is_canonical = refl;
  has_domain = refl;
  passes = refl;
  is_kept_as = refl;
}

admin-IsLine : IsLine importing false "!admin.example.com" "admin.example.com"
unfolding Text.starts_with Text.drop Text.strip Text.lstrip Text.rstrip is_space is_ascii
admin-IsLine = record {
  is_full = refl;
  no_comment = refl;
  has_mark = refl;
  accepted = admin-IsAccepted;
}

listed_lines : Any (λ l. l ≡ "!admin.example.com") (Text.splitlines listed)
unfolding Text.splitlines Text.starts_with
listed_lines = inr (inr (inr (inl refl)))

listed_parsed : parse_plaintext importing listed ≡ ok listed_draft
unfolding parse_plaintext add_lines add_line add add_named is_empty add_canonical add_host
    denylisted deny_substr deny_domains asset_host looks_like_ip looks_like_cidr wildcard_base
    canonical_host is_ip_literal canonical_ip canonical_name canonical_labels canonical_label
    reject_mixed_script scripts label_re label_body label_rest is_lower_alnum chop_newline
    join_labels bare char_script is_alpha is_ascii is_space lower contains set_add any traverse
    Text.strip Text.lstrip Text.rstrip Text.starts_with Text.ends_with Text.has Text.drop Text.take
    Text.before Text.after Text.split Text.join Text.splitlines Text.lower_char
listed_parsed = refl

listed_built :
    to_scope_config importing listed_draft meta
    ≡ ok (drafted listed_draft "acme" other none none none none)
unfolding to_scope_config is_empty platform_named optional_text optional_date
listed_built = refl

parse_plaintext-IsInScope_example :
    IsInScope false "admin.example.com" (drafted listed_draft "acme" other none none none none)
parse_plaintext-IsInScope_example =
    parse_plaintext-IsInScope importing listed "!admin.example.com" "admin.example.com" false meta
      listed_lines admin-IsLine listed_parsed listed_built

-- the scope of the list, compiled
abbrev compiled : ScopeMatcher
compiled = record {
  config = drafted listed_draft "acme" other none none none none;
  oos_domains = [];
  oos_wild = [];
  oos_exact_sub = "admin.example.com" ∷ [];
  oos_nets = [];
  in_domains = "example.com" ∷ [];
  in_wild = "example.com" ∷ [];
  in_exact_sub = [];
  in_nets = [];
}

admin_canonical : canonical_host toy "admin.example.com" ≡ ok "admin.example.com"
unfolding canonical_host is_ip_literal canonical_ip canonical_name canonical_labels canonical_label
    reject_mixed_script scripts label_re label_body label_rest is_lower_alnum chop_newline
    join_labels bare char_script is_alpha is_ascii is_space lower contains set_add traverse
    Text.strip Text.lstrip Text.rstrip Text.starts_with Text.ends_with Text.has Text.drop Text.take
    Text.split Text.join Text.lower_char
admin_canonical = refl

list_compiled : compile toy (drafted listed_draft "acme" other none none none none) ≡ ok compiled
unfolding compile canon_set split_subdomains nets canonical_host is_ip_literal canonical_ip
    canonical_name canonical_labels canonical_label reject_mixed_script scripts label_re label_body
    label_rest is_lower_alnum chop_newline join_labels bare char_script is_alpha is_ascii is_space
    lower contains set_add traverse wildcard_base Text.strip Text.lstrip Text.rstrip
    Text.starts_with Text.ends_with Text.has Text.drop Text.take Text.split Text.join
    Text.lower_char drafted sorted sort_by insert_by Text.le
list_compiled = refl

no_star : Text.starts_with "admin.example.com" "*." ≡ false
unfolding Text.starts_with
no_star = refl

parse_plaintext-refuses_example :
    ((decide toy compiled "http://x@Admin.example.com:8080/a" none).verdict ≡ deny_halt)
    × ((decide toy compiled "http://x@Admin.example.com:8080/a" none).reason_code ≡ out_of_scope)
parse_plaintext-refuses_example =
    parse_plaintext-refuses importing listed "!admin.example.com" "admin.example.com" meta
      "http://x@Admin.example.com:8080/a" none url listed_lines admin-IsLine no_star admin_canonical
      listed_parsed listed_built list_compiled admin_target (λ e. cc e)

admin-IsExcluded :
    IsExcluded toy "admin.example.com" (drafted listed_draft "acme" other none none none none)
unfolding drafted sorted sort_by insert_by
admin-IsExcluded = inr (inl (inr (no_star, ("admin.example.com", admin_canonical, refl))))

compile-refuses_example :
    ((decide toy compiled "http://x@Admin.example.com:8080/a" none).verdict ≡ deny_halt)
    × ((decide toy compiled "http://x@Admin.example.com:8080/a" none).reason_code ≡ out_of_scope)
    × ((decide toy compiled "http://x@Admin.example.com:8080/a" none).canonical_host
        ≡ some "admin.example.com")
compile-refuses_example =
    compile-refuses toy (drafted listed_draft "acme" other none none none none)
      "http://x@Admin.example.com:8080/a" none url "admin.example.com" list_compiled
      admin-IsExcluded admin_target (λ e. cc e)
