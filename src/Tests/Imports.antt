-- ===== src/Tests/Imports.antt =====
-- The importer at concrete inputs.
use bugbounty_agent.Base.{
  ◌≡◌, refl, String, true, false, none, some, [], ◌∷◌, ◌||◌, not, contains, set_add, any, ok, err,
  All,
}
use bugbounty_agent.Base.Text
use bugbounty_agent.Base.Text.{◌<>◌}
use bugbounty_agent.Base.Results.{traverse}
use bugbounty_agent.Scope.Models.{ScopeConfig, other}
use bugbounty_agent.Scope.Matcher.{wildcard_base}
use bugbounty_agent.Scope.Canonical.{
  lower, is_ip_literal, canonical_ip, canonical_name, canonical_labels, reject_mixed_script,
  scripts, label_re, label_body, label_rest, is_lower_alnum, chop_newline, join_labels, bare,
  char_script, is_alpha, is_ascii, is_space, canonical_host, canonical_label, illegal_label,
}
use bugbounty_agent.Scope.Url.{
  urlsplit, hostname, hostname_of, split_scheme, split_path, has_scheme,
}
use bugbounty_agent.Importer.Values.{
  array, item, nil, null, text, object, field, end, truthy, get, or_else, Importing,
}
use bugbounty_agent.Importer.Draft.{
  ScopeDraft, empty, add, add_named, add_canonical, add_host, denylisted, deny_substr, deny_domains,
  asset_host, looks_like_ip, looks_like_cidr, is_empty, to_scope_config, drafted, optional_text,
  optional_date, platform_named, Meta,
}
use bugbounty_agent.Importer.Draft.Skipped.{add-skipped}
use bugbounty_agent.Importer.Brief.{
  heading, level_of, any_in, classify_section, drop_bullet, cells, clean_note, table_sep,
  host_entry, host_entry_re, parse_frontmatter, frontmatter_re, opened, until_fence, lstrip_space,
  starts, meta_of,
}
use bugbounty_agent.Importer.Brief.Parse.{
  parse_brief, read_lines, read_line, add_entry, add_note, keep_note, looks_like_brief, any_section,
  import_brief, meta_of_brief, rate_from_meta,
}
use bugbounty_agent.Importer.Brief.Fence.{parse_frontmatter-fence}
use bugbounty_agent.Importer.Platforms.{as_dict, iterate, parse_plaintext, add_lines, add_line}
use bugbounty_agent.Importer.Files.{
  sniff_and_parse, is_page, import_text, import_from_file, import_from_url, import_page,
  platform_of, handle_of, with_policy_url,
}
use bugbounty_agent.Importer.Files.Safety.{
  IsImported, import_from_file-IsImported, import_from_url-IsImported,
}
use bugbounty_agent.Tools.Sources.{crtsh_discover, add_rows, add_names, clean_name}
use bugbounty_agent.Tools.Sources.Names.{IsClean, crtsh_discover-IsClean}
use bugbounty_agent.Base.Sorted.{sorted, sort_by, insert_by}
use bugbounty_agent.Orchestrator.{Orchestrator}
use bugbounty_agent.Orchestrator.Runs.{full, run}
use bugbounty_agent.Orchestrator.Contacts.{left}
use bugbounty_agent.Orchestrator.Lawful.{IsPassive}
use bugbounty_agent.Orchestrator.Imported.{run-import_from_file-IsPassive}
use bugbounty_agent.Tests.Runs.{orchestrator, start}
use bugbounty_agent.Tests.Targets.{toy}

-- every YAML text is that of a program called acme
abbrev pub importing : Importing
importing = record {
  libs = toy;
  repr = λ s. s;
  str = λ v. "";
  is_decimal = λ c. false;
  json_loads = λ s. none;
  yaml_load = λ s. some (object (field "program" (text "acme") end));
  date_of = λ v. none;
  float_of = λ v. none;
  int_of = λ v. none;
  embedded_json = λ s. [];
  page_hosts = λ s. [];
}

abbrev meta_line : String
meta_line = "program: acme"

starts_full : starts (λ c. not (is_space toy c)) meta_line ≡ true
unfolding is_space is_ascii
starts_full = refl

no_fence : Text.has meta_line "\n---" ≡ false
unfolding Text.has Text.starts_with
no_fence = refl

parse_frontmatter-fence_example :
    parse_frontmatter importing ("---\n" <> meta_line <> "\n---" <> "\n## Scope")
    ≡ (meta_of importing (importing.yaml_load meta_line), lstrip_space importing "\n## Scope")
parse_frontmatter-fence_example =
    parse_frontmatter-fence importing meta_line "\n## Scope" starts_full no_fence

abbrev brief : String
brief =
    "## In scope\n- *.example.com\n## Rules\n- Send a header\n## Out of scope\nadmin.example.com"

abbrev read : ScopeDraft
read = record empty {
  in_subdomains = "*.example.com" ∷ [];
  out_subdomains = "admin.example.com" ∷ [];
  notes = "Send a header" ∷ [];
}

abbrev pub meta : Meta
meta = record {
  program_name = "acme";
  platform = "other";
  policy_url = null;
  authorized_until = null;
  last_verified_at = null;
  rate_limits = none;
}

with_port : asset_host importing "admin.example.com:8443" ≡ ok "admin.example.com:8443"
unfolding asset_host Text.has Text.starts_with Text.before Text.strip Text.lstrip Text.rstrip
    is_space is_ascii lower Text.lower_char
with_port = refl

no_canonical :
    canonical_host toy (wildcard_base "admin.example.com:8443") ≡ err (illegal_label "com:8443")
unfolding wildcard_base canonical_host is_ip_literal canonical_ip canonical_name canonical_labels
    canonical_label reject_mixed_script scripts label_re label_body label_rest is_lower_alnum
    chop_newline join_labels bare char_script is_alpha is_ascii is_space lower Text.strip
    Text.lstrip Text.rstrip Text.starts_with Text.ends_with Text.has Text.drop Text.take Text.before
    Text.after Text.split Text.lower_char contains set_add traverse
no_canonical = refl

not_numeric :
    (looks_like_cidr importing (Text.strip (is_space toy) "admin.example.com:8443")
      || looks_like_ip importing (Text.strip (is_space toy) "admin.example.com:8443"))
    ≡ false
unfolding looks_like_cidr looks_like_ip Text.strip Text.lstrip Text.rstrip is_space is_ascii
not_numeric = refl

-- an exclusion with a port is lost
add-skipped_example :
    (d' : ScopeDraft) × (add importing "admin.example.com:8443" false read ≡ ok d')
    × (to_scope_config importing d' meta ≡ to_scope_config importing read meta)
unfolding Text.strip Text.lstrip Text.rstrip is_space is_ascii
add-skipped_example =
    add-skipped importing "admin.example.com:8443" "admin.example.com:8443"
      (illegal_label "com:8443") false read meta refl not_numeric with_port refl no_canonical

abbrev pub listed : String
listed = "# hosts\nexample.com\n*.example.com\n!admin.example.com"

abbrev pub listed_draft : ScopeDraft
listed_draft = record empty {
  in_domains = "example.com" ∷ [];
  in_subdomains = "*.example.com" ∷ [];
  out_subdomains = "admin.example.com" ∷ [];
}

abbrev listed_config : ScopeConfig
listed_config = drafted listed_draft "Imported Program" other none none none none

from_list : import_from_file importing none listed none false ≡ ok listed_config
unfolding import_from_file import_text looks_like_brief parse_frontmatter frontmatter_re opened
    until_fence any_section heading level_of sniff_and_parse is_page parse_plaintext add_lines
    add_line any_in classify_section add add_named is_empty to_scope_config platform_named
    optional_text optional_date add_canonical add_host denylisted deny_substr deny_domains
    asset_host looks_like_ip looks_like_cidr wildcard_base canonical_host is_ip_literal canonical_ip
    canonical_name canonical_labels canonical_label reject_mixed_script scripts label_re label_body
    label_rest is_lower_alnum chop_newline join_labels bare char_script is_alpha is_ascii is_space
    lower contains set_add any traverse Text.strip Text.lstrip Text.rstrip Text.starts_with
    Text.ends_with Text.has Text.drop Text.take Text.before Text.after Text.split Text.join
    Text.splitlines Text.lower_char
from_list = refl

import_from_file-IsImported_example : IsImported importing listed_config
import_from_file-IsImported_example =
    import_from_file-IsImported importing none listed none false from_list

abbrev page_config : ScopeConfig
page_config =
    with_policy_url "https://hackerone.com/acme"
      (drafted read "hackerone:acme" other none none none none)

from_page :
    import_from_url importing "https://hackerone.com/acme" (λ url. ok brief) none ≡ ok page_config
unfolding import_from_url import_page platform_of handle_of looks_like_brief parse_frontmatter
    frontmatter_re opened until_fence any_section import_brief meta_of_brief rate_from_meta truthy
    get or_else parse_brief read_lines read_line add_entry add_note keep_note heading level_of
    any_in classify_section drop_bullet cells clean_note table_sep host_entry host_entry_re add
    add_named add_canonical add_host denylisted deny_substr deny_domains asset_host looks_like_ip
    looks_like_cidr wildcard_base canonical_host is_ip_literal canonical_ip canonical_name
    canonical_labels canonical_label reject_mixed_script scripts label_re label_body label_rest
    is_lower_alnum chop_newline join_labels bare char_script is_alpha is_ascii is_space lower
    is_empty to_scope_config platform_named optional_text optional_date urlsplit hostname
    hostname_of split_scheme split_path has_scheme contains set_add any traverse Text.strip
    Text.lstrip Text.rstrip Text.starts_with Text.ends_with Text.has Text.drop Text.take Text.before
    Text.after Text.after_last Text.split Text.join Text.splitlines Text.lower_char
from_page = refl

import_from_url-IsImported_example : IsImported importing page_config
import_from_url-IsImported_example =
    import_from_url-IsImported importing "https://hackerone.com/acme" (λ url. ok brief) none
      from_page

-- a run in full mode on the scope that was listed
abbrev unreviewed : Orchestrator
unreviewed = record orchestrator { config = listed_config }

run-import_from_file-IsPassive_example : All IsPassive (left (run unreviewed full start)).trace
run-import_from_file-IsPassive_example =
    run-import_from_file-IsPassive importing none listed none false unreviewed full start from_list
      tt

-- crt.sh's rows, with a wildcard, an address and a host on two lines
abbrev certificates : Importing
certificates = record importing {
  json_loads = λ s. some (
      array (
        item (object (field "name_value" (text "*.example.com\nroot@example.com") end))
          (item (object (field "name_value" (text "WWW.example.com") end)) nil)));
}

discovered :
    crtsh_discover certificates (λ url. some "[]") "example.com"
    ≡ ok ("example.com" ∷ "www.example.com" ∷ [])
unfolding crtsh_discover add_rows as_dict iterate get add_names clean_name set_add contains sorted
    sort_by insert_by lower is_space is_ascii Text.splitlines Text.starts_with Text.strip
    Text.lstrip Text.rstrip Text.lower_char Text.le
discovered = refl

crtsh_discover-IsClean_example : All IsClean ("example.com" ∷ "www.example.com" ∷ [])
crtsh_discover-IsClean_example =
    crtsh_discover-IsClean certificates (λ url. some "[]") "example.com" discovered
