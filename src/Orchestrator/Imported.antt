-- ===== src/Orchestrator/Imported.antt =====
-- src/bbagent/orchestrator/orchestrator.py on a scope that src/bbagent/importer/core.py drafted.
use bugbounty_agent.Base.{◌≡◌, ◌≢◌, String, Bool, false, Option, List, [], ◌∷◌, All, arith, ok}
use bugbounty_agent.Importer.Values.{Importing}
use bugbounty_agent.Importer.Files.{import_from_file}
use bugbounty_agent.Importer.Files.Safety.{import_from_file-IsImported}
use bugbounty_agent.Kernel.Gate.{active_preconditions_ok}
use bugbounty_agent.Orchestrator.{
  Orchestrator, Run, Contact, discover, archived, dns, resolve, probe,
}
use bugbounty_agent.Orchestrator.Runs.{Mode, run}
use bugbounty_agent.Orchestrator.Contacts.{left}
use bugbounty_agent.Orchestrator.Lawful.{IsLawful, IsPassive, run-AreLawful}

module _ (o : Orchestrator) (unauthorized : o.config.authorized ≡ false) where
  no_active : active_preconditions_ok o.config o.today ≢ ok tt
  unfolding active_preconditions_ok
  no_active h = ground arith

  IsLawful-IsPassive : (c : Contact) → IsLawful o c → IsPassive c
  IsLawful-IsPassive (discover name seed) h = tt
  IsLawful-IsPassive (archived name seed) h = tt
  IsLawful-IsPassive (dns host) h = no_active h
  IsLawful-IsPassive (resolve host) h = no_active h.0
  IsLawful-IsPassive (probe host addr headers) h = no_active h.0

  All-IsPassive : (cs : List Contact) → All (IsLawful o) cs → All IsPassive cs
  All-IsPassive [] h = tt
  All-IsPassive (c ∷ cs) h = (IsLawful-IsPassive c h.0, All-IsPassive cs h.1)

IsPassive-IsLawful : (o : Orchestrator) (c : Contact) → IsPassive c → IsLawful o c
IsPassive-IsLawful o (discover name seed) h = tt
IsPassive-IsLawful o (archived name seed) h = tt
IsPassive-IsLawful o (dns host) h = elim h [ ]
IsPassive-IsLawful o (resolve host) h = elim h [ ]
IsPassive-IsLawful o (probe host addr headers) h = elim h [ ]

All-IsLawful : (o : Orchestrator) (cs : List Contact) → All IsPassive cs → All (IsLawful o) cs
All-IsLawful o [] h = tt
All-IsLawful o (c ∷ cs) h = (IsPassive-IsLawful o c h.0, All-IsLawful o cs h.1)

-- A run on a scope as it was imported from a file, before a human edits it, makes no contact with the
-- target in either mode, whatever the file, the language model, the sources, the reviewer and the
-- store say: if the contacts before it are with sources of public records alone, so are those that it
-- leaves, whether it returns or raises.
pub run-import_from_file-IsPassive :
    (I : Importing) (model : Option (String → String)) (content : String) (name : Option String)
    (use_llm : Bool) (o : Orchestrator) (mode : Mode) (r : Run)
    → import_from_file I model content name use_llm ≡ ok o.config
    → All IsPassive r.trace
    → All IsPassive (left (run o mode r)).trace
run-import_from_file-IsPassive I model content name use_llm o mode r imported h =
    let cfg = import_from_file-IsImported I model content name use_llm imported in
    All-IsPassive o cfg.unauthorized (left (run o mode r)).trace
      (run-AreLawful o mode r (All-IsLawful o r.trace h))
