-- ===== src/Lib.antt =====
-- bbagent, an agent for bug bounty programs: the scope gate, the safety kernel, the findings store,
-- the orchestrator, the importer, the scoring with its report, and parts of the tools.
--
-- The parts and the files that model them, by paths from the root of the repository:
--   * src/bbagent/scope decides whether a target may be touched. Scope.Models holds the configuration
--     and the decision (models.py), Scope.Canonical and Scope.Url the canonical form of hosts, URLs
--     and targets (canonical.py), Scope.Ip and Scope.Libs the hard deny of internal addresses
--     (ip_rules.py), Scope.Matcher the compiled scope and its tests of names, Scope.Decide the
--     decision (matcher.py), Scope.Loader the loader (loader.py). Scope.Decide.Policy states the
--     decision independently of the code.
--   * src/bbagent/store keeps what was found. Store.Models is models.py, Store.Audit the hash-chained
--     log (audit.py), Store.Findings the tables and their writers (store.py). A writer appends
--     to the log and changes a table; Store.Findings.Calls names the writers by a data type.
--   * src/bbagent/kernel guards active work. Kernel.Approval is approval.py, Kernel.Gate gate.py,
--     Kernel.Rate rate.py, Kernel.Sandbox sandbox.py, Kernel.Auth auth.py.
--   * src/bbagent/orchestrator runs the phases. Orchestrator holds its attributes and the state of a
--     run, Orchestrator.Recon the passive phase, Orchestrator.Active DNS enrichment and enumeration,
--     Orchestrator.Runs the entry point. A run passes on the store, the governor, the summary and a
--     trace of the calls that leave the process; an exception ends it with what it has made.
--   * src/bbagent/importer/core.py drafts a scope from a program's page, file or brief. Importer.Values is
--     the JSON and YAML it walks, Importer.Draft is ScopeDraft, Importer.Platforms the parsers of JSON
--     and plain text, Importer.Brief the regular expressions of a Markdown brief and
--     Importer.Brief.Parse its parser, Importer.Files the sniffer and the entry points.
--   * src/bbagent/tools: Tools.Sources is sources.py, Tools.Probes probes.py, Tools.Dns dns.py, and
--     Tools.External is external.py, the planner and the executor of nuclei.
--   * src/bbagent/cli.py: Cli has the name of the findings directory, Cli.Commands the commands that
--     run the orchestrator.
--   * src/bbagent/intel weighs hosts. Intel.Tables, Intel.Signals, Intel.Paths, Intel.Params and
--     Intel.Servers are signals.py; Intel.Score, Intel.Actions and Intel.Ranking are score.py;
--     Intel.Report is report.py. Reason is the reasoners of src/bbagent/reason, whose hypotheses the
--     report shows, and Orchestrator.Analysis the phase that puts them together.
--   Base has the names and lemmas that the files share, Tests the runs and the concrete inputs.
--
-- The orchestrator asks the gate, which asks the matcher and records each decision in the store; an
-- asset carries the id of its decision. Before a probe it asks the broker for a grant, resolves the
-- host, and asks the gate again with the addresses.
--
-- State and numbers: an object that changes is a record that its operations take and return. A table
-- is the list of its rows in the order of their ids. Addresses, ports and counts are natural numbers
-- (an IPv4 address is below 2 ^ 32, an IPv6 address below 2 ^ 128, where a theorem needs it as a
-- hypothesis), and an IPv4-mapped IPv6 address is classified by its own ranges, as in the releases of
-- Python that do not look at the address inside; dates are ordinals; the governor's clock counts
-- nanoseconds and a rate counts requests per thousand seconds, so the pause between two requests is
-- rounded down to a nanosecond. Loops are structural recursion on the list they go through; no
-- definition takes fuel.
--
-- Parameters, for code that is outside the repository: ipaddress, unicodedata, idna and the public
-- suffix list (the record Libs), SHA-256 and the JSON text of a record (Hashing) or of a command
-- (Digest), JSON values (Json), the clock and the date, the environment, and for the orchestrator its
-- sources, resolvers, probe and reviewer; for the importer JSON, YAML, repr, the scans of a page for
-- embedded JSON and for host names, and the language model (the record Importing).
-- urllib's urlsplit is written out as the code uses it.
--
-- Not modelled: the file and the database themselves (a write is one step, and does not fail), the
-- serializer of a scope (a call of YAML), the network below one request or one lookup, what the
-- command line prints, and its commands import, plan-scan and verify-scope.

pub mod Base
pub mod Scope
pub mod Store
pub mod Kernel
pub mod Tools
pub mod Intel
pub mod Importer
pub mod Reason
pub mod Orchestrator
pub mod Cli
pub mod Tests
