-- ===== src/Store/Audit.antt =====
-- src/bbagent/store/audit.py: the append-only, hash-chained log. The file is the list of the records
-- that its lines hold. The digest (sha256) and the canonical JSON text of what is hashed (json.dumps
-- with sorted keys) are parameters.
pub mod Chain
pub mod Tampering
use bugbounty_agent.Base.{
  ℕ, String, Bool, true, false, not, ◌||◌, Option, none, some, List, [], ◌∷◌, ◌++◌, ◌==◌,
  if◌then◌else◌,
}
use bugbounty_agent.Base.Text.{◌<>◌}
use bugbounty_agent.Scope.Models.{ScopeDecision}
use bugbounty_agent.Store.Models.{Asset, Finding, ResolveState, ProbeState}

-- The type and the payload of a record, as the store writes them.
pub data Event : Type 0 where
  run : String → String → String → Event
  scope_decision : ScopeDecision → Event
  asset : Asset → Event
  asset_extra : String → List String → Event
  asset_state : String → Option ResolveState → Option ProbeState → Option String → Option ℕ → Event
  finding : Finding → Event
  tool_invocation : String → List String → ℕ → Event

-- What is hashed: seq, type and payload.
abbrev pub Body : Type 0
Body = Option ℕ × Event

pub record Hashing : Type 0 where
  pub sha256 : String → String
  pub canonical : Body → String

pub record Record : Type 0 where
  pub body : Body
  pub prev_hash : String
  pub record_hash : String

abbrev pub Log : Type 0
Log = List Record

abbrev pub genesis : String
genesis = "0000000000000000000000000000000000000000000000000000000000000000"

module _ (H : Hashing) where
  -- _hash
  unfoldable pub hash : String → Body → String
  hash prev_hash body = H.sha256 (prev_hash <> H.canonical body)

  -- the loop of _last_hash
  unfoldable pub last_from : String → Log → String
  last_from last [] = last
  last_from last (rec ∷ recs) = last_from rec.record_hash recs

  unfoldable pub last_hash : Log → String
  unfolding last_from
  last_hash log = last_from genesis log

  -- AuditLog.append: the file, and the hash of the new record
  unfoldable pub append : Log → Event → Option ℕ → Log × String
  append log event seq =
      let prev = last_hash log in
      let h = hash prev (seq, event) in
      (log ++ record { body = (seq, event); prev_hash = prev; record_hash = h } ∷ [], h)

  -- the loop of verify_chain
  unfoldable pub verify_from : String → Log → Bool
  verify_from prev [] = true
  verify_from prev (rec ∷ recs) =
      let rest = verify_from rec.record_hash recs in
      if not (rec.prev_hash == prev) || not (rec.record_hash == hash prev rec.body)
      then false
      else rest

  unfoldable pub verify_chain : Log → Bool
  unfolding verify_from
  verify_chain log = verify_from genesis log
