-- ===== src/Tools/External.antt =====
-- src/bbagent/tools/external.py: the planner of nuclei's command line and the executor. The
-- manifest of the tool, the environment variable and shutil.which are arguments; the runner is
-- left out, so what the executor returns is the command line that it hands to it.
pub mod Flags
use bugbounty_agent.Base.{
  ℕ, String, Bool, true, false, not, ◌&&◌, ◌||◌, Option, none, some, List, [], ◌∷◌, ◌++◌, ◌==◌,
  contains, set_add, if◌then◌else◌, Result, ok, err,
}
use bugbounty_agent.Base.Results.{◌>>=◌, ◌>>◌}
use bugbounty_agent.Base.Sorted.{sorted}
use bugbounty_agent.Base.Text
use bugbounty_agent.Base.Text.{is}
use bugbounty_agent.Kernel.Sandbox.{EgressGuard, Refusal, verify_active, has_sentinel}

-- the entries of the tool's manifest that the planner reads, each empty where it is absent
pub record NucleiPlanner : Type 0 where
  pub forbidden_flags : List String
  pub allowed_extra_flags : List String
  pub forced_flags : List String
  pub tag_allowlist : List String
  pub binary : String

-- ForbiddenFlag and EgressNotVerified, by what they are raised for
pub data Error : Type 0 where
  forbidden not_allowed : String → Error
  no_approval : Error
  egress : Refusal → Error
  sentinel_not_set not_installed : Error

-- f.split("=", 1)[0]
unfoldable pub flag_of : String → String
unfolding Text.before
flag_of f = Text.before (is b'=') f

unfoldable pub is_forbidden : NucleiPlanner → String → Bool
unfolding flag_of
is_forbidden p f = contains p.forbidden_flags (flag_of f) || contains p.forbidden_flags f

-- the loop over the extra flags
unfoldable pub check_flags : NucleiPlanner → List String → Result Error Unit
unfolding is_forbidden flag_of
check_flags p [] = ok tt
check_flags p (f ∷ flags) =
    if is_forbidden p f
    then err (forbidden f)
    else if not (contains p.allowed_extra_flags (flag_of f))
        && not (contains p.allowed_extra_flags f)
    then err (not_allowed f)
    else check_flags p flags

-- set(tags) & set(tag_allowlist)
unfoldable pub common : List String → List String → List String
common allowlist [] = []
common allowlist (t ∷ tags) =
    let rest = common allowlist tags in if contains allowlist t then set_add t rest else rest

-- the arguments for the tags; an empty list of tags counts as None
unfoldable pub tag_args : NucleiPlanner → List String → List String
unfolding common Text.join sorted
tag_args p tags = elim (sorted (common p.tag_allowlist tags)) [
  | [] ↦ []
  | tag ∷ chosen ↦ "-tags" ∷ Text.join "," (tag ∷ chosen) ∷ []
]

unfoldable pub build_argv :
    NucleiPlanner → String → List String → List String → Result Error (List String)
unfolding check_flags tag_args
build_argv p targets_file tags extra_flags = do
  check_flags p extra_flags
  ok (
      (p.binary ∷ "-l" ∷ targets_file ∷ "-jsonl" ∷ [])
      ++ p.forced_flags
      ++ tag_args p tags
      ++ extra_flags)

unfoldable pub forbidden_in : NucleiPlanner → List String → List String
unfolding is_forbidden
forbidden_in p [] = []
forbidden_in p (f ∷ flags) =
    let rest = forbidden_in p flags in if is_forbidden p f then f ∷ rest else rest

-- can_run: what stands in the way, or ok; installed is shutil.which(binary) is not None
unfoldable pub can_run : Option String → Bool → Result Error Unit
unfolding has_sentinel
can_run sentinel installed =
    if not (has_sentinel sentinel)
    then err sentinel_not_set
    else if not installed
    then err not_installed
    else ok tt

-- plan: the command line that would run, and can_run
unfoldable pub plan :
    NucleiPlanner
    → String
    → List String
    → Option String
    → Bool
    → Result Error (List String × Result Error Unit)
unfolding build_argv can_run
plan p targets_file tags sentinel installed = do
  argv ← build_argv p targets_file tags []
  ok (argv, can_run sentinel installed)

-- assert_runnable
unfoldable pub assert_runnable : Option String → Bool → Result Error Unit
unfolding can_run
assert_runnable sentinel installed = can_run sentinel installed

abbrev pub from_refusal : Result Refusal Unit → Result Error Unit
from_refusal (ok u) = ok u
from_refusal (err r) = err (egress r)

-- NucleiExecutor.run
unfoldable pub run :
    NucleiPlanner
    → EgressGuard
    → Option String
    → String
    → Bool
    → List String
    → List String
    → Result Error (List String)
unfolding build_argv verify_active
run p guard sentinel targets_file approval_ok tags extra_flags =
    if not approval_ok then err no_approval else (do
      from_refusal (verify_active guard sentinel)
      build_argv p targets_file tags extra_flags)
