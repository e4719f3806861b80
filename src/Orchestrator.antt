-- ===== src/Orchestrator.antt =====
-- src/bbagent/orchestrator/orchestrator.py: what the orchestrator is built from, and the state that
-- its phases pass on. The sources, the resolvers, the probe, the reviewer and the clock are
-- parameters; a contact with any of them is one entry of the trace.
pub mod Recon
pub mod Active
pub mod Runs
pub mod Contacts
pub mod Lawful
pub mod Stored
pub mod Kept
pub mod OneProbe
pub mod Safety
pub mod Analysis
pub mod Imported
use bugbounty_agent.Base.{ℕ, String, Bool, Option, List, ◌++◌, [], ◌∷◌}
use bugbounty_agent.Scope.Libs.{Libs}
use bugbounty_agent.Scope.Models.{ScopeConfig, Reason}
use bugbounty_agent.Scope.Matcher.{ScopeMatcher}
use bugbounty_agent.Store.Audit.{Hashing}
use bugbounty_agent.Store.Findings.{FindingsStore}
use bugbounty_agent.Kernel.Approval.{Digest, ApprovalRequest, ApprovalGrant}
use bugbounty_agent.Kernel.Auth.{AuthProfile, Headers}
use bugbounty_agent.Kernel.Rate.{RateGovernor, pace}

-- PassiveSource and UrlSource: a name, and what the source finds for a seed
pub record Source : Type 0 where
  pub name : String
  pub find : String → List String

pub record DnsResult : Type 0 where
  pub cname_chain : List String
  pub resolves : Bool

pub record ProbeResult : Type 0 where
  pub alive : Bool
  pub status_code : Option ℕ
  pub server : Option String
  pub headers : Headers

-- The texts of JSON values.
pub record Json : Type 0 where
  pub str : String → String
  pub optional : Option String → String
  pub number : Option ℕ → String
  pub object : Headers → String
  pub array : List String → String

-- The attributes of an Orchestrator that its phases do not change. scope_hash is _scope_hash(),
-- today the date that the kernel reads, now the clock at each acquisition.
pub record Orchestrator : Type 0 where
  pub libs : Libs
  pub hashing : Hashing
  pub digest : Digest
  pub json : Json
  pub config : ScopeConfig
  pub matcher : ScopeMatcher
  pub passive_sources : List Source
  pub url_sources : List Source
  pub review : ApprovalRequest → ApprovalGrant
  pub probe_fn : String → String → Option Headers → ProbeResult
  pub resolve_fn : String → List String
  pub dns_fn : String → DnsResult
  pub auth : Option AuthProfile
  pub scope_hash : String
  pub today : ℕ
  pub now : ℕ → ℕ
  pub started_at : String

-- The calls that leave the process.
pub data Contact : Type 0 where
  discover : String → String → Contact
  archived : String → String → Contact
  dns : String → Contact
  resolve : String → Contact
  probe : String → String → Option Headers → Contact

pub data State : Type 0 where
  done halted_active_not_allowed awaiting_approval : State

pub data Message : Type 0 where
  enumeration_skipped no_action_approved : Message
  not_approved : String → Message
  denied_resolved : String → Reason → Message

pub record RunSummary : Type 0 where
  pub state : State
  pub assets_in_scope : ℕ
  pub assets_out_of_scope : ℕ
  pub assets_unverified_skipped : ℕ
  pub urls : ℕ
  pub live_hosts : ℕ
  pub probed : ℕ
  pub messages : List Message

-- RunSummary(mode, program)
abbrev pub new_summary : RunSummary
new_summary = record {
  state = done;
  assets_in_scope = 0;
  assets_out_of_scope = 0;
  assets_unverified_skipped = 0;
  urls = 0;
  live_hosts = 0;
  probed = 0;
  messages = [];
}

-- What a run has made so far.
pub record Run : Type 0 where
  pub store : FindingsStore
  pub governor : RateGovernor
  pub summary : RunSummary
  pub trace : List Contact

abbrev pub contact : Contact → Run → Run
contact c r = record r { trace = r.trace ++ c ∷ [] }

abbrev pub say : Message → Run → Run
say m r = record r { summary = record r.summary { messages = r.summary.messages ++ m ∷ [] } }

-- governor.lease() around one contact. The orchestrator has one thread, which takes a slot and gives
-- it back at once, so what stays is the pace.
unfoldable pub leased : Orchestrator → Contact → Run → Run
unfolding pace
leased o c r =
    contact c (record r { governor = (pace r.governor (o.now r.governor.total_acquires)).0 })
