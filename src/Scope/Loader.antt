-- ===== src/Scope/Loader.antt =====
-- src/bbagent/scope/loader.py: loading a scope with the guards that refuse to run. A file is its
-- text, none where it does not exist; yaml.safe_load with the test for a mapping, ScopeConfig's
-- validation and the digest of a file are arguments, and so is today's date.
use bugbounty_agent.Base.{
  ℕ, ◌≡◌, ◌⊎◌, ◌↔◌, String, Bool, true, false, not, ◌&&◌, Option, none, some, ◌==◌, arith, Result,
  ok,
}
use bugbounty_agent.Base.Results.{◌>>=◌, ◌>>◌, guard, expect}
use bugbounty_agent.Scope.Models.{ScopeConfig, is_stale}

-- ScopeError, and the exceptions of the YAML parser and of the validation
pub data LoadError : Type 0 where
  not_found is_example not_a_mapping is_expired : LoadError
  yaml_error validation_error : LoadError

-- What the loader calls: safe_load gives none for a text that is not YAML, as_mapping none for a
-- value that is not a dict, model_validate none for a dict that does not validate.
pub record Loading : Type 1 where
  pub Value : Type 0
  pub Mapping : Type 0
  pub safe_load : String → Option Value
  pub as_mapping : Value → Option Mapping
  pub model_validate : Mapping → Option ScopeConfig
  pub sha256 : String → String
  -- the text of config/scope.example.yaml
  pub example : Option String

module _ (D : Loading) where
  unfoldable pub is_example_sentinel : String → Bool
  is_example_sentinel text = elim D.example [
    | none ↦ false
    | some shipped ↦ D.sha256 text == D.sha256 shipped
  ]

  unfoldable pub parse_scope : String → Result LoadError ScopeConfig
  parse_scope text = do
    value ← expect yaml_error (D.safe_load text)
    data' ← expect not_a_mapping (D.as_mapping value)
    expect validation_error (D.model_validate data')

  unfoldable pub load_scope : Option String → Bool → Bool → ℕ → Result LoadError ScopeConfig
  unfolding parse_scope is_example_sentinel
  load_scope file allow_example check_stale today = do
    text ← expect not_found file
    guard (not (not allow_example && is_example_sentinel text)) is_example
    config ← parse_scope text
    guard (not (check_stale && is_stale config today 30)) is_expired
    ok config

  -- A scope is loaded exactly when the file exists, its text is not the shipped example or examples
  -- are allowed, it parses to that scope, and the scope is not stale or staleness is not checked.
  pub load_scope-ok_iff :
      (file : Option String) (allow_example check_stale : Bool) (today : ℕ) (config : ScopeConfig)
      → (load_scope file allow_example check_stale today ≡ ok config) ↔ (
          (text : String) × (file ≡ some text)
          × ((allow_example ≡ true) ⊎ (is_example_sentinel text ≡ false))
          × (parse_scope text ≡ ok config)
          × ((check_stale ≡ false) ⊎ (is_stale config today 30 ≡ false)))
  unfolding load_scope
  load_scope-ok_iff file allow_example check_stale today config = ground arith
