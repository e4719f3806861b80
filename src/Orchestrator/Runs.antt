-- ===== src/Orchestrator/Runs.antt =====
-- Orchestrator.run of src/bbagent/orchestrator/orchestrator.py, without its analyze option.
use bugbounty_agent.Base.{String, Result, ok}
use bugbounty_agent.Base.Results.{◌>>=◌}
use bugbounty_agent.Store.Findings.{record_run}
use bugbounty_agent.Orchestrator.{Orchestrator, Run}
use bugbounty_agent.Orchestrator.Recon.{recon}
use bugbounty_agent.Orchestrator.Active.{dns_enrich, enumerate}

-- the modes that run accepts
pub data Mode : Type 0 where
  recon_only full : Mode

abbrev pub mode_value : Mode → String
mode_value recon_only = "recon"
mode_value full = "full"

-- Orchestrator.run
unfoldable pub run : Orchestrator → Mode → Run → Result Run Run
run o mode r = do
  let s =
      (record_run o.hashing r.store o.config.program.name o.scope_hash (mode_value mode)
        o.started_at).0
  r' ← recon o (record r { store = s })
  elim mode [ recon_only ↦ ok r' | full ↦ ok (enumerate o (dns_enrich o r')) ]
