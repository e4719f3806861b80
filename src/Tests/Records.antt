-- ===== src/Tests/Records.antt =====
-- The audit log and the store at concrete inputs.
use bugbounty_agent.Base.{
  ◌≡◌, ◌⊎◌, inl, inr, refl, String, true, none, some, List, [], ◌∷◌, ◌==◌, if◌then◌else◌,
  Bool-cases,
}
use bugbounty_agent.Base.Text.{◌<>◌, len}
use bugbounty_agent.Store.Models.{Asset, subdomain, in_scope, pending, unprobed, identity_key}
use bugbounty_agent.Store.Audit.{Hashing, run, Log, genesis, hash, verify_from, verify_chain}
use bugbounty_agent.Store.Audit.Chain.{verify_chain-truncated}
use bugbounty_agent.Store.Audit.Tampering.{Collision, texts, verify_chain_unique}
use bugbounty_agent.Store.Findings.{
  FindingsStore, empty, find_asset, write_asset, record_run, update_asset_extra,
}
use bugbounty_agent.Store.Findings.Invariant.{IsValid}
use bugbounty_agent.Store.Findings.Calls
use bugbounty_agent.Store.Findings.Calls.{Call, perform, performed, store_invariant}
use bugbounty_agent.Store.Findings.Lookup.{written, find-write_asset}
use bugbounty_agent.Store.Findings.Logging.{Logs, perform-Logs, update_asset_extra-values}

-- a digest of 64 characters: one character for the text, and zeros
abbrev pub toy_digest : String → String
toy_digest s =
    (if s == genesis <> "a" then "a" else "b")
    <> "000000000000000000000000000000000000000000000000000000000000000"

abbrev pub hashing : Hashing
hashing = record { sha256 = toy_digest; canonical = λ b. "a" }

toy_long : (s : String) → len (hashing.sha256 s) ≡ 64
toy_long s = elim (Bool-cases (s == genesis <> "a")) [ inl e ↦ rw e refl | inr e ↦ rw e refl ]

abbrev log : Log
log =
    record {
      body = (none, run "toy" "recon" "now");
      prev_hash = genesis;
      record_hash = toy_digest (genesis <> "a");
    }
    ∷ []

verifies : verify_chain hashing log ≡ true
unfolding verify_chain verify_from hash
verifies = refl

verify_chain-truncated_example : verify_chain hashing [] ≡ true
verify_chain-truncated_example = verify_chain-truncated hashing [] log verifies

verify_chain_unique_example : (texts hashing log ≡ texts hashing log) ⊎ Collision hashing
verify_chain_unique_example =
    verify_chain_unique hashing toy_long log log verifies verifies refl refl

abbrev host : Asset
host = record {
  kind = subdomain;
  value = "www.example.com";
  scope_status = in_scope;
  source = "crtsh";
  resolve_state = pending;
  probe_state = unprobed;
  status = "new";
  scope_decision_id = some 1;
  extra = [];
}

abbrev calls : List Call
calls = Calls.run "toy" "00" "recon" "now" ∷ Calls.asset host ∷ Calls.asset host ∷ []

store_invariant_example : IsValid hashing (performed hashing empty calls)
store_invariant_example = store_invariant hashing calls

abbrev pub stored : FindingsStore
stored = (write_asset hashing empty host 1).0

abbrev found_again : Asset
found_again = record host { source = "wayback"; status = "enriched" }

find-write_asset_example :
    (find_asset "subdomain:www.example.com" (write_asset hashing stored found_again 2).0.assets ≡ (
      if identity_key found_again == "subdomain:www.example.com"
      then some (
          written hashing stored found_again 2
            (find_asset (identity_key found_again) stored.assets))
      else find_asset "subdomain:www.example.com" stored.assets))
    × ((write_asset hashing stored found_again 2).1
        ≡ (written hashing stored found_again 2
            (find_asset (identity_key found_again) stored.assets)).id)
find-write_asset_example = find-write_asset hashing stored found_again 2 "subdomain:www.example.com"

perform-Logs_example : Logs hashing empty (record_run hashing empty "toy" "00" "recon" "now").0
perform-Logs_example =
    perform-Logs hashing empty (record_run hashing empty "toy" "00" "recon" "now").0
      (Calls.run "toy" "00" "recon" "now") refl

update_asset_extra-values_example :
    (update_asset_extra hashing stored "subdomain:www.example.com" (("ip", "1") ∷ [])).audit
    ≡ (update_asset_extra hashing stored "subdomain:www.example.com" (("ip", "2") ∷ [])).audit
update_asset_extra-values_example =
    update_asset_extra-values hashing stored "subdomain:www.example.com" (("ip", "1") ∷ [])
      (("ip", "2") ∷ []) refl
