-- ===== src/Importer/Files/Safety.antt =====
-- What an import of src/bbagent/importer/core.py may hand over: the properties of a scope that
-- import_from_file and import_from_url return.
use bugbounty_agent.Base.{
  ◌≡◌, refl, inl, inr, String, Bool, false, Option, some, [], All, Bool-cases, Option-cases,
  if◌then◌else◌, Result, ok,
}
use bugbounty_agent.Base.Results.{
  ◌>>=◌, Ensures, Ensures-ok, >>=-Ensures, any-Ensures, if-Ensures, expect,
}
use bugbounty_agent.Base.Sorted.{sorted-All, sorted-nil}
use bugbounty_agent.Base.Text.{◌<>◌}
use bugbounty_agent.Scope.Models.{ScopeConfig}
use bugbounty_agent.Importer.Values.{null, text, Importing, Error, validation_error}
use bugbounty_agent.Importer.Draft.{
  ScopeDraft, Meta, to_scope_config, is_empty, platform_named, optional_text, optional_date,
}
use bugbounty_agent.Importer.Draft.Names.{IsApex, IsBelow, HasHosts, HasHosts-kept}
use bugbounty_agent.Importer.Brief.{parse_frontmatter}
use bugbounty_agent.Importer.Brief.Parse.{
  looks_like_brief, parse_brief, import_brief, meta_of_brief,
}
use bugbounty_agent.Importer.Brief.Kept.{parse_brief-kept}
use bugbounty_agent.Importer.Files.Kept.{sniff_and_parse-kept}
use bugbounty_agent.Importer.Files.{
  sniff_and_parse, with_policy_url, structure_brief_with_llm, import_text, import_from_file,
  platform_of, handle_of, import_page, import_from_url, or_default, plain_meta,
}

module _ (I : Importing) where
  -- A scope that gives no authority, has something in scope, and whose names are canonical hosts of
  -- registrable domains that are not a platform's or a vendor's.
  pub record IsImported (cfg : ScopeConfig) : Type 0 where
    pub unauthorized : cfg.authorized ≡ false
    pub passive : cfg.active_actions_allowed ≡ false
    pub apexes : All (IsApex I) cfg.in_scope.domains
    pub below : All (IsBelow I) cfg.in_scope.subdomains
    pub out_apexes : All (IsApex I) cfg.out_of_scope.domains
    pub out_below : All (IsBelow I) cfg.out_of_scope.subdomains
    pub inhabited :
        cfg.in_scope.domains ≡ [] → cfg.in_scope.subdomains ≡ [] → cfg.in_scope.ip_ranges ≡ [] → ⊥

  is_empty-nil :
      (d : ScopeDraft)
      → is_empty d ≡ false
      → d.in_domains ≡ []
      → d.in_subdomains ≡ []
      → d.in_ips ≡ []
      → ⊥
  unfolding is_empty
  is_empty-nil d e a b c = cc (rw (a, b, c, is_empty) at e)

  drafted-IsImported :
      (d : ScopeDraft) (meta : Meta) → HasHosts I d → Ensures IsImported (to_scope_config I d meta)
  unfolding to_scope_config
  drafted-IsImported d meta h = elim (Bool-cases (is_empty d)) [
    | inl e ↦ rw (e, to_scope_config) tt
    | inr e ↦
        rw (e, to_scope_config)
          (any-Ensures IsImported (expect validation_error (platform_named meta.platform)) _
            λ platform. any-Ensures IsImported (optional_text meta.policy_url) _ λ policy_url.
              any-Ensures IsImported (optional_date I meta.authorized_until) _ λ until.
                any-Ensures IsImported (optional_date I meta.last_verified_at) _ λ verified.
                  record {
                    unauthorized = refl;
                    passive = refl;
                    apexes = sorted-All (IsApex I) d.in_domains h.0;
                    below = sorted-All (IsBelow I) d.in_subdomains h.1;
                    out_apexes = sorted-All (IsApex I) d.out_domains h.2;
                    out_below = sorted-All (IsBelow I) d.out_subdomains h.3;
                    inhabited = λ a b c.
                        is_empty-nil d e (sorted-nil d.in_domains a) (sorted-nil d.in_subdomains b)
                          (sorted-nil d.in_ips c);
                  })
  ]

  import_brief-IsImported :
      (t : String) (name : Option String) → Ensures IsImported (import_brief I t name)
  unfolding import_brief
  import_brief-IsImported t name =
      let (meta, body) = parse_frontmatter I t in
      >>=-Ensures (HasHosts I) IsImported (parse_brief I body) _
        (parse_brief-kept I (HasHosts I) (HasHosts-kept I) body)
        λ d h. drafted-IsImported d (meta_of_brief I meta name) h

  sniffed-IsImported :
      (t : String) (meta : Meta)
      → Ensures IsImported (sniff_and_parse I t >>= λ d. to_scope_config I d meta)
  sniffed-IsImported t meta =
      >>=-Ensures (HasHosts I) IsImported (sniff_and_parse I t) _
        (sniff_and_parse-kept I (HasHosts I) (HasHosts-kept I) t) λ d h. drafted-IsImported d meta h

  import_text-IsImported :
      (t : String) (name : Option String) → Ensures IsImported (import_text I t name)
  unfolding import_text
  import_text-IsImported t name =
      if-Ensures IsImported (looks_like_brief I t) _ _ (import_brief-IsImported t name)
        (sniffed-IsImported t (plain_meta I (or_default name "Imported Program") "other" null))

  policy-IsImported :
      (url : String) (cfg : ScopeConfig) → IsImported cfg → IsImported (with_policy_url url cfg)
  unfolding with_policy_url
  policy-IsImported url cfg h = elim (Option-cases cfg.program.policy_url) [
    | inl e ↦
        rw (e, with_policy_url)
          (record {
            unauthorized = h.unauthorized;
            passive = h.passive;
            apexes = h.apexes;
            below = h.below;
            out_apexes = h.out_apexes;
            out_below = h.out_below;
            inhabited = h.inhabited;
          })
    | inr (policy, e) ↦ rw (e, with_policy_url) h
  ]

  -- A scope imported from a file, whatever the file holds and whatever the language model answers, is
  -- not authorized and allows no active work, has an entry in scope, and each of its domains and
  -- subdomains, in or out of scope, is the canonical form of a host (behind a wildcard or not) whose
  -- registrable domain exists and is not on the deny list.
  pub import_from_file-IsImported :
      (model : Option (String → String)) (content : String) (name : Option String) (use_llm : Bool)
      {cfg : ScopeConfig}
      → import_from_file I model content name use_llm ≡ ok cfg
      → IsImported cfg
  unfolding import_from_file
  import_from_file-IsImported model content name use_llm =
      Ensures-ok IsImported (import_from_file I model content name use_llm) (
        any-Ensures IsImported
          (if use_llm then structure_brief_with_llm I model content else ok content) _
          λ t. import_text-IsImported t name)

  import_page-IsImported :
      (platform handle url : String) (name : Option String) (t : String)
      → Ensures IsImported (import_page I platform handle url name t)
  unfolding import_page
  import_page-IsImported platform handle url name t =
      let named = or_default name (platform <> ":" <> handle) in
      if-Ensures IsImported (looks_like_brief I t) _ _
        (>>=-Ensures IsImported IsImported (import_brief I t (some named)) _
          (import_brief-IsImported t (some named)) λ cfg h. policy-IsImported url cfg h)
        (sniffed-IsImported t (plain_meta I named platform (text url)))

  -- A scope imported from a page, whatever the page holds, has the same properties as one imported
  -- from a file: no authority, an entry in scope, and canonical names only.
  pub import_from_url-IsImported :
      (url : String) (fetch : String → Result Error String) (name : Option String)
      {cfg : ScopeConfig}
      → import_from_url I url fetch name ≡ ok cfg
      → IsImported cfg
  unfolding import_from_url
  import_from_url-IsImported url fetch name =
      Ensures-ok IsImported (import_from_url I url fetch name) (
        any-Ensures IsImported (platform_of I url) _ λ platform.
          any-Ensures IsImported (fetch url) _ λ t.
            any-Ensures IsImported (handle_of I url) _
              λ handle. import_page-IsImported platform handle url name t)
