-- ===== src/Tests/Runs.antt =====
-- The orchestrator at concrete inputs.
use bugbounty_agent.Base.{◌+◌, ◌≤◌, ◌≡◌, refl, true, false, none, some, [], ◌∷◌, All, ok}
use bugbounty_agent.Base.Sorted.{sorted}
use bugbounty_agent.Scope.Models.{domain, is_stale, allowed}
use bugbounty_agent.Scope.Url.{canonical_target}
use bugbounty_agent.Scope.Decide.Policy.{IsOutName, IsInName, IsSafeIp}
use bugbounty_agent.Store.Audit.{verify_chain}
use bugbounty_agent.Store.Findings.{
  empty, update_rows, select_assets, asset_exists, find_asset, write_asset, record_run,
  record_scope_decision, update_asset_extra, update_asset_state,
}
use bugbounty_agent.Store.Findings.Invariant.{IsValid}
use bugbounty_agent.Kernel.Gate.{active_preconditions_ok, scope_check, scope_status_for}
use bugbounty_agent.Kernel.Approval.{fp, fingerprint, approve}
use bugbounty_agent.Orchestrator.{
  Orchestrator, Run, discover, archived, dns, resolve, probe, new_summary, leased,
}
use bugbounty_agent.Orchestrator.Active.{
  enumerate, auth_headers, enumerate_rows, dns_enrich, enrich_rows, enrich_row, note_dangling,
  approved_host, probed, host_rows, update_probe,
}
use bugbounty_agent.Orchestrator.Recon.{
  recon, visit, ask_sources, found_hosts, found_host, ask_archives, ingest_urls, found_url, seeds,
  store_host, store_url, counted,
}
use bugbounty_agent.Orchestrator.Runs.{full, recon_only, run}
use bugbounty_agent.Orchestrator.Contacts.{left}
use bugbounty_agent.Orchestrator.Lawful.{IsLawful, IsPassive, run-AreLawful, run-IsPassive}
use bugbounty_agent.Orchestrator.Kept.{run-IsValid}
use bugbounty_agent.Orchestrator.OneProbe.{probes, enumerate-probes}
use bugbounty_agent.Orchestrator.Safety.{probe-IsSafeIp}
use bugbounty_agent.Tests.Targets.{toy, config, scope, www_allowed, program}
use bugbounty_agent.Tests.Actions.{digest, governor}
use bugbounty_agent.Tests.Records.{hashing}

-- One source that knows two hosts, an archive that knows a URL, and a reviewer who grants all.
abbrev pub orchestrator : Orchestrator
orchestrator = record {
  libs = toy;
  hashing = hashing;
  digest = digest;
  json = record {
    str = λ s. s;
    optional = λ s. "null";
    number = λ n. "0";
    object = λ h. "{}";
    array = λ xs. "[]";
  };
  config = config;
  matcher = scope;
  passive_sources =
      record { name = "crtsh"; find = λ seed. "www.example.com" ∷ "admin.example.com" ∷ [] } ∷ [];
  url_sources =
      record { name = "wayback"; find = λ seed. "https://www.example.com/a?b=1" ∷ [] } ∷ [];
  review = λ r. record { fp = "liveness-probe"; granted = true; approver = "cli-human" };
  probe_fn = λ host addr headers. record {
    alive = true;
    status_code = some 200;
    server = none;
    headers = [];
  };
  resolve_fn = λ host. "203.0.113.7" ∷ [];
  dns_fn = λ host. record { cname_chain = []; resolves = true };
  auth = none;
  scope_hash = "00";
  today = 738930;
  now = λ n. n;
  started_at = "now";
}

abbrev pub start : Run
start = record { store = empty; governor = governor; summary = new_summary; trace = [] }

run-AreLawful_example : All (IsLawful orchestrator) (left (run orchestrator full start)).trace
run-AreLawful_example = run-AreLawful orchestrator full start tt

run-IsPassive_example : All IsPassive (left (run orchestrator recon_only start)).trace
run-IsPassive_example = run-IsPassive orchestrator start tt

started : IsValid hashing empty
unfolding verify_chain
started = record { chain = refl; keys = tt }

run-IsValid_example : IsValid hashing (left (run orchestrator full start)).store
run-IsValid_example = run-IsValid orchestrator full start started

enumerate-probes_example : probes "www.example.com" (enumerate orchestrator start).trace ≤ 0 + 1
enumerate-probes_example = enumerate-probes orchestrator "www.example.com" start

fresh : active_preconditions_ok config 738930 ≡ ok tt
unfolding active_preconditions_ok is_stale
fresh = refl

lawful : IsLawful orchestrator (probe "www.example.com" "203.0.113.7" none)
unfolding auth_headers
lawful = (fresh, refl, ([], refl, www_allowed), refl)

www_name : canonical_target toy "www.example.com" ≡ ok (domain, "www.example.com")
unfolding program
www_name = refl

probe-IsSafeIp_example :
    (true ≡ true)
    × (true ≡ true)
    × (¬ IsOutName toy scope "www.example.com")
    × IsInName toy scope "www.example.com"
    × IsSafeIp toy scope "203.0.113.7"
probe-IsSafeIp_example =
    probe-IsSafeIp orchestrator "www.example.com" "203.0.113.7" "www.example.com" lawful www_name

-- the run asks each source once, resolves one host and probes its first address
contacts :
    (left (run orchestrator full start)).trace
    ≡ discover "crtsh" "example.com"
      ∷ archived "wayback" "example.com"
      ∷ dns "www.example.com"
      ∷ resolve "www.example.com"
      ∷ probe "www.example.com" "203.0.113.7" none
      ∷ []
unfolding program run recon visit ask_sources found_hosts found_host ask_archives ingest_urls
    found_url seeds leased enumerate enumerate_rows dns_enrich enrich_rows approved_host probed
    host_rows select_assets scope_check scope_status_for store_host store_url asset_exists
    find_asset write_asset record_run record_scope_decision is_stale active_preconditions_ok approve
    fingerprint allowed enrich_row note_dangling update_asset_extra update_asset_state update_probe
    counted sorted update_rows fp
contacts = refl

-- a scope that has come to exclude the host that the run above has stored as in scope
abbrev narrowed : Orchestrator
narrowed = record orchestrator { matcher = record scope { oos_domains = "example.com" ∷ [] } }

-- in a second run the stored host keeps its status, and enrichment resolves it; no probe follows
still_resolved :
    (left
      (run narrowed full (record (left (run orchestrator recon_only start)) { trace = [] }))).trace
    ≡ discover "crtsh" "example.com"
      ∷ archived "wayback" "example.com"
      ∷ dns "www.example.com"
      ∷ resolve "www.example.com"
      ∷ []
unfolding program run recon visit ask_sources found_hosts found_host ask_archives ingest_urls
    found_url seeds leased enumerate enumerate_rows dns_enrich enrich_rows approved_host probed
    host_rows select_assets scope_check scope_status_for store_host store_url asset_exists
    find_asset write_asset record_run record_scope_decision is_stale active_preconditions_ok approve
    fingerprint allowed enrich_row note_dangling update_asset_extra update_asset_state update_probe
    counted sorted update_rows fp
still_resolved = refl

-- a reviewer who denies every request
abbrev denying : Orchestrator
denying = record orchestrator {
  review = λ r. record { fp = "liveness-probe"; granted = false; approver = "auto-deny" };
}

-- its run resolves and probes nothing, but DNS enrichment has asked for the host
unapproved :
    (left (run denying full start)).trace
    ≡ discover "crtsh" "example.com" ∷ archived "wayback" "example.com" ∷ dns "www.example.com" ∷ []
unfolding program run recon visit ask_sources found_hosts found_host ask_archives ingest_urls
    found_url seeds leased enumerate enumerate_rows dns_enrich enrich_rows approved_host probed
    host_rows select_assets scope_check scope_status_for store_host store_url asset_exists
    find_asset write_asset record_run record_scope_decision is_stale active_preconditions_ok approve
    fingerprint allowed enrich_row note_dangling update_asset_extra update_asset_state update_probe
    counted sorted update_rows fp
unapproved = refl
