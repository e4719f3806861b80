-- ===== src/Store/Models.antt =====
-- src/bbagent/store/models.py. A JSON object is an association list from keys to texts of JSON
-- values, in insertion order.
pub mod Keys
use bugbounty_agent.Base.{ℕ, String, Option, List}
use bugbounty_agent.Base.Text.{◌<>◌}

pub data AssetKind : Type 0 where
  domain subdomain host ip port service url endpoint : AssetKind

pub data ScopeStatus : Type 0 where
  in_scope out_of_scope unverified : ScopeStatus

pub data ResolveState : Type 0 where
  pending resolved unresolvable : ResolveState

pub data ProbeState : Type 0 where
  unprobed live dead : ProbeState

pub data FindingStatus : Type 0 where
  candidate validated dismissed duplicate : FindingStatus

abbrev pub Dict : Type 0
Dict = List (String × String)

-- kind.value
unfoldable pub kind_value : AssetKind → String
kind_value domain = "domain"
kind_value subdomain = "subdomain"
kind_value host = "host"
kind_value ip = "ip"
kind_value port = "port"
kind_value service = "service"
kind_value url = "url"
kind_value endpoint = "endpoint"

pub record Asset : Type 0 where
  pub kind : AssetKind
  pub value : String
  pub scope_status : ScopeStatus
  pub source : String
  pub resolve_state : ResolveState
  pub probe_state : ProbeState
  pub status : String
  pub scope_decision_id : Option ℕ
  pub extra : Dict

-- f"{kind.value}:{value}"
unfoldable pub key_of : AssetKind → String → String
unfolding kind_value
key_of kind value = kind_value kind <> (":" <> value)

unfoldable pub identity_key : Asset → String
unfolding key_of
identity_key a = key_of a.kind a.value

pub record Finding : Type 0 where
  pub title : String
  pub severity : String
  pub source : String
  pub asset_value : String
  pub status : FindingStatus
  pub confidence : String
  pub dedup_key : String
  pub template_id : Option String
  pub matched_at : Option String
  pub scope_decision_id : Option ℕ
  pub evidence_summary : String
