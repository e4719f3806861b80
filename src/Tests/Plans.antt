-- ===== src/Tests/Plans.antt =====
-- The signals, the scores and the command lines at concrete inputs.
use bugbounty_agent.Base.{
  inr, ◌≡◌, ◌↔◌, ◌⊎◌, err, refl, String, true, false, none, some, List, [], ◌∷◌, All, any, contains,
  set_add, ok,
}
use bugbounty_agent.Base.Text
use bugbounty_agent.Base.Sorted.{sorted}
use bugbounty_agent.Intel.Tables.{subdomain_tokens}
use bugbounty_agent.Intel.Signals.{
  Signal, get, labels, non_empty, subdomain_signals, subdomain_loop, subdomain_signal, weighed,
}
use bugbounty_agent.Intel.Actions.{default_actions, explicit, hinted, or_default, unique}
use bugbounty_agent.Intel.Score.{served_content}
use bugbounty_agent.Tools.External.{
  NucleiPlanner, build_argv, check_flags, is_forbidden, flag_of, tag_args, common,
}
use bugbounty_agent.Tests.Targets.{config, toy}
use bugbounty_agent.Scope.Canonical.{lower, is_ascii, is_lower_alnum}
use bugbounty_agent.Base.{Option}
use bugbounty_agent.Scope.Models.{ScopeConfig}
use bugbounty_agent.Kernel.Approval.{ApprovalRequest, ApprovalGrant}
use bugbounty_agent.Orchestrator.{Orchestrator}
use bugbounty_agent.Orchestrator.Runs
use bugbounty_agent.Orchestrator.Runs.{recon_only}
use bugbounty_agent.Orchestrator.Contacts.{left}
use bugbounty_agent.Orchestrator.Lawful.{IsPassive}
use bugbounty_agent.Cli.Commands.{
  map, is_active, mode_of, orchestrator_of, execute, execute-IsPassive,
}
use bugbounty_agent.Tests.Actions.{digest}
use bugbounty_agent.Tests.Runs.{orchestrator, start}
use bugbounty_agent.Cli.{slug, dashed, IsSlug, slug-IsSlug}
use bugbounty_agent.Scope.Models.{is_stale, expired, too_old}
use bugbounty_agent.Scope.Loader.{
  Loading, load_scope, parse_scope, is_example_sentinel, is_example, load_scope-ok_iff,
}
use bugbounty_agent.Kernel.Auth.{AuthProfile}

abbrev named : List Signal
named =
    record { kind = "subdomain"; weight = 9; why = "'admin': admin interface"; action = none } ∷ []

-- the token `www` has weight 0, and a token counts once
admin_signals : subdomain_signals "admin-www.admin.example.com" ≡ named
unfolding subdomain_signals labels non_empty Text.split subdomain_loop subdomain_signal weighed get
    subdomain_tokens contains
admin_signals = refl

only_named : served_content named ≡ false
unfolding served_content any
only_named = refl

admin_actions :
    default_actions (λ s. s) named
    ≡ "Enumerate the admin surface; test for default creds / auth bypass (non-destructive)" ∷ []
unfolding default_actions explicit hinted or_default unique Text.join Text.has any contains set_add
admin_actions = refl

abbrev planner : NucleiPlanner
planner = record {
  forbidden_flags = "-code" ∷ [];
  allowed_extra_flags = "-rl" ∷ "-code" ∷ [];
  forced_flags = "-no-interactsh" ∷ [];
  tag_allowlist = "exposure" ∷ [];
  binary = "nuclei";
}

abbrev line : List String
line =
    "nuclei" ∷ "-l" ∷ "hosts.txt" ∷ "-jsonl" ∷ "-no-interactsh" ∷ "-tags" ∷ "exposure" ∷ "-rl=5"
    ∷ []

planned : build_argv planner "hosts.txt" ("rce" ∷ "exposure" ∷ []) ("-rl=5" ∷ []) ≡ ok line
unfolding build_argv check_flags is_forbidden flag_of tag_args common Text.before Text.join sorted
    contains set_add
planned = refl

abbrev session : AuthProfile
session = record { headers = ("Cookie", "a=1") ∷ [] }

abbrev other_session : AuthProfile
other_session = record { headers = ("Cookie", "b=2") ∷ [] }

-- every text is YAML of a mapping that validates
abbrev loading : Loading
loading = record {
  Value = String;
  Mapping = String;
  safe_load = λ s. some s;
  as_mapping = λ s. some s;
  model_validate = λ s. some config;
  sha256 = λ s. s;
  example = some "example";
}

load_scope-ok_iff_example :
    (load_scope loading (some "program: toy") false true 738930 ≡ ok config) ↔ (
      (text : String) × (some "program: toy" ≡ some text)
      × ((false ≡ true) ⊎ (is_example_sentinel loading text ≡ false))
      × (parse_scope loading text ≡ ok config)
      × ((true ≡ false) ⊎ (is_stale config 738930 30 ≡ false)))
load_scope-ok_iff_example = load_scope-ok_iff loading (some "program: toy") false true 738930 config

loaded : load_scope loading (some "program: toy") false true 738930 ≡ ok config
unfolding load_scope parse_scope is_example_sentinel is_stale expired too_old
loaded = refl

example_refused : load_scope loading (some "example") false true 738930 ≡ err is_example
unfolding load_scope parse_scope is_example_sentinel
example_refused = refl

slug-IsSlug_example : IsSlug (slug toy "../acme & co")
slug-IsSlug_example = slug-IsSlug toy "../acme & co"

acme_slug : slug toy "../acme & co" ≡ "acme-co"
unfolding slug dashed lower is_ascii is_lower_alnum Text.strip Text.lstrip Text.rstrip
    Text.lower_char
acme_slug = refl

-- the orchestrator that a command makes
abbrev build : ScopeConfig → (ApprovalRequest → ApprovalGrant) → Option AuthProfile → Orchestrator
build config' review auth = record orchestrator { config = config'; review = review; auth = auth }

mapped :
    execute loading digest 738930 build orchestrator.review
      (map false)
      (some "program: toy")
      session
      start
    ≡ ok (
        Runs.run
          (orchestrator_of digest build orchestrator.review (map false) config session)
          recon_only
          start)
unfolding execute mode_of is_active load_scope parse_scope is_example_sentinel is_stale expired
    too_old
mapped = refl

execute-IsPassive_example :
    All IsPassive
      (left (
        Runs.run
          (orchestrator_of digest build orchestrator.review (map false) config session)
          recon_only
          start)).trace
execute-IsPassive_example =
    execute-IsPassive loading digest 738930 build orchestrator.review (map false)
      (some "program: toy") session start (inr refl) tt mapped
