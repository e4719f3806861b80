-- ===== src/Store/Findings.antt =====
-- src/bbagent/store/store.py: the findings store. A table is the list of its rows in the order of
-- their ids; rows are never deleted, so the next id is the number of rows and one. Each operation
-- returns the store that it leaves, a lookup returns its result alone.
pub mod Invariant
pub mod Calls
pub mod Lookup
pub mod Logging
use bugbounty_agent.Base.{
  ℕ, suc, ◌+◌, String, Bool, true, false, ◌&&◌, Option, none, some, List, [], ◌∷◌, ◌++◌, map, ◌==◌,
  length, is_some, if◌then◌else◌, Result, ok, err,
}
use bugbounty_agent.Base.Sorted.{sorted}
use bugbounty_agent.Scope.Models.{ScopeDecision}
use bugbounty_agent.Store.Models.{
  Asset, AssetKind, Finding, ScopeStatus, in_scope, out_of_scope, unverified, ResolveState,
  ProbeState, Dict, kind_value, key_of, identity_key, FindingStatus,
}
use bugbounty_agent.Store.Audit.{Hashing, Log, Event, append}

pub record RunRow : Type 0 where
  pub program : String
  pub scope_sha256 : String
  pub mode : String
  pub started_at : String

pub record DecisionRow : Type 0 where
  pub decision : ScopeDecision
  pub audit_hash : String

pub record AssetRow : Type 0 where
  pub id : ℕ
  pub kind : AssetKind
  pub value : String
  pub identity_key : String
  pub scope_status : ScopeStatus
  pub source : String
  pub resolve_state : ResolveState
  pub probe_state : ProbeState
  pub status : String
  pub scope_decision_id : ℕ
  pub extra : Dict
  pub audit_hash : String

pub record FindingRow : Type 0 where
  pub id : ℕ
  pub finding : Finding
  pub audit_hash : String

pub record ToolRow : Type 0 where
  pub tool : String
  pub argv : List String
  pub exit_code : ℕ
  pub scope_decision_id : ℕ
  pub audit_hash : String

pub record FindingsStore : Type 0 where
  pub audit : Log
  pub runs : List RunRow
  pub decisions : List DecisionRow
  pub assets : List AssetRow
  pub findings : List FindingRow
  pub tools : List ToolRow

abbrev pub empty : FindingsStore
empty = record { audit = []; runs = []; decisions = []; assets = []; findings = []; tools = [] }

-- ValueError
pub data Error : Type 0 where
  no_decision : Error

-- the row with a key
unfoldable pub find_asset : String → List AssetRow → Option AssetRow
find_asset key [] = none
find_asset key (row ∷ rows) = if row.identity_key == key then some row else find_asset key rows

-- UPDATE asset SET ... WHERE identity_key=?
unfoldable pub update_rows : String → (AssetRow → AssetRow) → List AssetRow → List AssetRow
update_rows key f [] = []
update_rows key f (row ∷ rows) =
    (if row.identity_key == key then f row else row) ∷ update_rows key f rows

abbrev pub same_status : ScopeStatus → ScopeStatus → Bool
same_status in_scope in_scope = true
same_status out_of_scope out_of_scope = true
same_status unverified unverified = true
same_status _ _ = false

-- d.update(e), for two JSON objects
put : String → String → Dict → Dict
put k v [] = (k, v) ∷ []
put k v ((j, w) ∷ d) = let rest = put k v d in if j == k then (k, v) ∷ d else (j, w) ∷ rest

unfoldable pub merge : Dict → Dict → Dict
unfolding put
merge d [] = d
merge d ((k, v) ∷ e) = merge (put k v d) e

-- an optional filter of a query
abbrev passes {ℓ} : {A : Type ℓ} → (A → Bool) → Option A → Bool
passes test none = true
passes test (some a) = test a

unfoldable pub select_assets :
    Option ScopeStatus → Option String → Option AssetKind → List AssetRow → List AssetRow
unfolding kind_value
select_assets scope status kind [] = []
select_assets scope status kind (row ∷ rows) =
    let rest = select_assets scope status kind rows in
    if passes (same_status row.scope_status) scope
      && passes (λ s. row.status == s) status
      && passes (λ k. kind_value row.kind == kind_value k) kind
    then row ∷ rest
    else rest

unfoldable pub count_assets :
    Option ScopeStatus → Option String → Option AssetKind → List AssetRow → ℕ
count_assets scope status kind rows = length (select_assets scope status kind rows)

unfoldable pub asset_exists : FindingsStore → String → Bool
unfolding find_asset
asset_exists s key = is_some (find_asset key s.assets)

-- excluded.* of the upsert
unfoldable pub overwrite : Asset → AssetRow → AssetRow
overwrite a row = record row {
  scope_status = a.scope_status;
  resolve_state = a.resolve_state;
  probe_state = a.probe_state;
  status = a.status;
  extra = a.extra;
}

unfoldable pub new_row : Asset → ℕ → ℕ → String → AssetRow
unfolding identity_key
new_row a id decision h = record {
  id = id;
  kind = a.kind;
  value = a.value;
  identity_key = identity_key a;
  scope_status = a.scope_status;
  source = a.source;
  resolve_state = a.resolve_state;
  probe_state = a.probe_state;
  status = a.status;
  scope_decision_id = decision;
  extra = a.extra;
  audit_hash = h;
}

-- coalesce a new value of a column with the old one
abbrev or_old {ℓ} : {A : Type ℓ} → Option A → A → A
or_old none old = old
or_old (some new) old = new

-- the columns that update_asset_state may set; none is an argument that is absent or None
pub record Columns : Type 0 where
  pub resolve_state : Option ResolveState
  pub probe_state : Option ProbeState
  pub status : Option String
  pub scope_decision_id : Option ℕ

unfoldable pub no_columns : Columns → Bool
no_columns c = elim c.resolve_state [
  | some r ↦ false
  | none ↦ elim c.probe_state [
    | some p ↦ false
    | none ↦ elim c.status [
      | some s ↦ false
      | none ↦ elim c.scope_decision_id [ some d ↦ false | none ↦ true ]
    ]
  ]
]

unfoldable pub set_columns : Columns → AssetRow → AssetRow
set_columns c row = record row {
  resolve_state = or_old c.resolve_state row.resolve_state;
  probe_state = or_old c.probe_state row.probe_state;
  status = or_old c.status row.status;
  scope_decision_id = or_old c.scope_decision_id row.scope_decision_id;
}

-- findings are unique by dedup_key
unfoldable pub has_finding : String → List FindingRow → Bool
has_finding key [] = false
has_finding key (row ∷ rows) = if row.finding.dedup_key == key then true else has_finding key rows

module _ (H : Hashing) where
  -- the log with an event appended, and the hash of its record
  abbrev logged : FindingsStore → Event → Log × String
  logged s event = append H s.audit event none

  unfoldable pub record_run : FindingsStore → String → String → String → String → FindingsStore × ℕ
  record_run s program scope_sha256 mode started_at =
      let row : RunRow = record {
        program = program;
        scope_sha256 = scope_sha256;
        mode = mode;
        started_at = started_at;
      } in
      (
        record s {
          audit = (logged s (Event.run program mode started_at)).0;
          runs = s.runs ++ row ∷ [];
        },
        length s.runs + 1,
      )

  unfoldable pub record_scope_decision : FindingsStore → ScopeDecision → FindingsStore × ℕ
  record_scope_decision s d =
      let (audit, h) = logged s (Event.scope_decision d) in
      (
        record s {
          audit = audit;
          decisions = s.decisions ++ record { decision = d; audit_hash = h } ∷ [];
        },
        length s.decisions + 1,
      )

  -- INSERT ... ON CONFLICT(identity_key) DO UPDATE
  unfoldable pub write_asset : FindingsStore → Asset → ℕ → FindingsStore × ℕ
  unfolding identity_key overwrite new_row
  write_asset s a decision =
      let (audit, h) = logged s (Event.asset a) in
      let key = identity_key a in
      elim (find_asset key s.assets) [
        | some row ↦
            (record s { audit = audit; assets = update_rows key (overwrite a) s.assets }, row.id)
        | none ↦
            let id = length s.assets + 1 in
            (record s { audit = audit; assets = s.assets ++ new_row a id decision h ∷ [] }, id)
      ]

  unfoldable pub upsert_asset : FindingsStore → Asset → Result Error (FindingsStore × ℕ)
  upsert_asset s a = elim a.scope_decision_id [
    | none ↦ err no_decision
    | some decision ↦ ok (write_asset s a decision)
  ]

  unfoldable pub update_asset_extra : FindingsStore → String → Dict → FindingsStore
  update_asset_extra s key updates = elim (find_asset key s.assets) [
    | none ↦ s
    | some row ↦
        let extra = merge row.extra updates in
        let event = Event.asset_extra key (sorted (map (λ e. e.0) updates)) in
        record s {
          audit = (logged s event).0;
          assets = update_rows key (λ r. record r { extra = extra }) s.assets;
        }
  ]

  unfoldable pub update_asset_state : FindingsStore → String → Columns → FindingsStore
  unfolding set_columns no_columns
  update_asset_state s key c =
      if no_columns c
      then s
      else (let event =
            Event.asset_state key c.resolve_state c.probe_state c.status c.scope_decision_id in
          record s {
            audit = (logged s event).0;
            assets = update_rows key (set_columns c) s.assets;
          })

  -- INSERT OR IGNORE: the row, where no row has its dedup_key. The row id that record_finding returns
  -- is left out: after an ignored insert it is that of an earlier insert on the connection.
  unfoldable pub record_finding : FindingsStore → Finding → Result Error FindingsStore
  record_finding s f = elim f.scope_decision_id [
    | none ↦ err no_decision
    | some decision ↦
        let (audit, h) = logged s (Event.finding f) in
        let row : FindingRow = record { id = length s.findings + 1; finding = f; audit_hash = h } in
        ok (record s {
          audit = audit;
          findings =
              if has_finding f.dedup_key s.findings then s.findings else s.findings ++ row ∷ [];
        })
  ]

  unfoldable pub record_tool_invocation :
      FindingsStore → String → List String → ℕ → ℕ → FindingsStore × ℕ
  record_tool_invocation s tool argv exit_code decision =
      let (audit, h) = logged s (Event.tool_invocation tool argv exit_code) in
      let row : ToolRow = record {
        tool = tool;
        argv = argv;
        exit_code = exit_code;
        scope_decision_id = decision;
        audit_hash = h;
      } in
      (record s { audit = audit; tools = s.tools ++ row ∷ [] }, length s.tools + 1)
