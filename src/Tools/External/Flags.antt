-- ===== src/Tools/External/Flags.antt =====
-- What the command lines of src/bbagent/tools/external.py hold, and when one is handed over.
use bugbounty_agent.Base.{
  ◌≡◌, ◌↔◌, refl, String, Bool, true, false, ◌||◌, Option, List, [], ◌∷◌, ◌++◌, contains, All,
  arith, ok,
}
use bugbounty_agent.Kernel.Sandbox.{EgressGuard, verify_active}
use bugbounty_agent.Tools.External.{
  NucleiPlanner, flag_of, is_forbidden, check_flags, build_argv, forbidden_in, tag_args, run,
}

-- A flag that is not forbidden, with its value or without, and that is allowed in one of the forms.
abbrev pub IsAllowedFlag : NucleiPlanner → String → Type 0
IsAllowedFlag p f =
    (is_forbidden p f ≡ false)
    × ((contains p.allowed_extra_flags (flag_of f) || contains p.allowed_extra_flags f) ≡ true)

check_flags_iff :
    (p : NucleiPlanner) (flags : List String)
    → (check_flags p flags ≡ ok tt) ↔ All (IsAllowedFlag p) flags
unfolding check_flags
check_flags_iff p [] = (λ e. tt, λ h. refl)
check_flags_iff p (f ∷ flags) = ground (arith, check_flags_iff p flags)

-- A command line is built exactly when every extra flag is allowed and none is forbidden; it is then
-- the fixed part, the forced flags, the tags of the allowlist and the extra flags, in this order.
pub build_argv_iff :
    (p : NucleiPlanner) (targets_file : String) (tags extra_flags argv : List String)
    → (build_argv p targets_file tags extra_flags ≡ ok argv) ↔ (
        All (IsAllowedFlag p) extra_flags
        × (((p.binary ∷ "-l" ∷ targets_file ∷ "-jsonl" ∷ [])
              ++ p.forced_flags
              ++ tag_args p tags
              ++ extra_flags)
            ≡ argv))
unfolding build_argv
build_argv_iff p targets_file tags extra_flags argv = ground (arith, check_flags_iff p extra_flags)

-- The executor hands a command line over exactly when the scan was approved, the egress guard passes
-- and the planner builds that command line.
pub run_iff :
    (p : NucleiPlanner) (guard : EgressGuard) (sentinel : Option String) (targets_file : String)
    (approval_ok : Bool) (tags extra_flags argv : List String)
    → (run p guard sentinel targets_file approval_ok tags extra_flags ≡ ok argv) ↔ (
        (approval_ok ≡ true)
        × (verify_active guard sentinel ≡ ok tt)
        × (build_argv p targets_file tags extra_flags ≡ ok argv))
unfolding run
run_iff p guard sentinel targets_file approval_ok tags extra_flags argv = ground arith

forbidden_in-nil :
    (p : NucleiPlanner) (flags : List String)
    → All (IsAllowedFlag p) flags
    → forbidden_in p flags ≡ []
unfolding forbidden_in
forbidden_in-nil p [] h = refl
forbidden_in-nil p (f ∷ flags) (here, more) = rw (here.0, forbidden_in-nil p flags more) refl

-- A command line that is built has no extra flag that forbidden_in reports.
pub forbidden_in-build_argv :
    (p : NucleiPlanner) (targets_file : String) (tags extra_flags : List String)
    {argv : List String}
    → build_argv p targets_file tags extra_flags ≡ ok argv
    → forbidden_in p extra_flags ≡ []
forbidden_in-build_argv p targets_file tags extra_flags {argv} e =
    forbidden_in-nil p extra_flags ((build_argv_iff p targets_file tags extra_flags argv).0 e).0
