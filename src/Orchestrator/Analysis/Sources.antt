-- ===== src/Orchestrator/Analysis/Sources.antt =====
-- Where the hosts that _analyze of src/bbagent/orchestrator/orchestrator.py ranks come from.
use bugbounty_agent.Base.{
  ◌≡◌, ◌⊎◌, ◌↔◌, subst, arith, contains, refl, inl, inr, String, true, none, some, List, [], ◌∷◌,
  map, All, Any, Bool-cases,
}
use bugbounty_agent.Base.Sorted.{sort_by-All, sort_by-Any}
use bugbounty_agent.Store.Models.{
  AssetKind, kind_value, ScopeStatus, in_scope, out_of_scope, unverified,
}
use bugbounty_agent.Store.Findings.{FindingsStore, AssetRow, select_assets, same_status}
use bugbounty_agent.Intel.Ranking.{AssetPriority, Scoring, score_host, ranks_before, prioritize}
use bugbounty_agent.Reason.{Hypotheses}
use bugbounty_agent.Orchestrator.Analysis.{
  Parsing, is_ranked_kind, host_rows_of, input_of, ranking_of, analyze,
}

-- A domain, a subdomain or a host.
abbrev pub IsHostKind : AssetKind → Type 0
IsHostKind k = (k ≡ AssetKind.domain) ⊎ (k ≡ AssetKind.subdomain) ⊎ (k ≡ AssetKind.host)

-- Some row of a table is that of an in-scope host with a name.
abbrev pub IsInScopeHost : List AssetRow → String → Type 0
IsInScopeHost rows name =
    Any (λ row. (row.value ≡ name) × (row.scope_status ≡ in_scope) × IsHostKind row.kind) rows

is_ranked_kind_iff : (k : AssetKind) → (is_ranked_kind k ≡ true) ↔ IsHostKind k
unfolding is_ranked_kind kind_value contains
is_ranked_kind_iff AssetKind.domain = ground arith
is_ranked_kind_iff AssetKind.subdomain = ground arith
is_ranked_kind_iff AssetKind.host = ground arith
is_ranked_kind_iff AssetKind.ip = ground arith
is_ranked_kind_iff AssetKind.port = ground arith
is_ranked_kind_iff AssetKind.service = ground arith
is_ranked_kind_iff AssetKind.url = ground arith
is_ranked_kind_iff AssetKind.endpoint = ground arith

same_status-eq : (s : ScopeStatus) → same_status s in_scope ≡ true → s ≡ in_scope
same_status-eq in_scope h = refl
same_status-eq out_of_scope h = cc h
same_status-eq unverified h = cc h

-- the rows that _analyze takes for hosts
abbrev hosts_in : List AssetRow → List AssetRow
hosts_in rows = host_rows_of (select_assets (some in_scope) none none rows)

module _ (P : AssetRow → Type 0) where
  select-All :
      (rows : List AssetRow)
      → All (λ (row : AssetRow). same_status row.scope_status in_scope ≡ true → P row) rows
      → All P (select_assets (some in_scope) none none rows)
  unfolding select_assets
  select-All [] h = tt
  select-All (row ∷ rows) h = elim (Bool-cases (same_status row.scope_status in_scope)) [
    | inl e ↦ rw (e, select_assets) (h.0 e, select-All rows h.1)
    | inr e ↦ rw (e, select_assets) (select-All rows h.1)
  ]

  host_rows-All :
      (rows : List AssetRow)
      → All (λ (row : AssetRow). is_ranked_kind row.kind ≡ true → P row) rows
      → All P (host_rows_of rows)
  unfolding host_rows_of
  host_rows-All [] h = tt
  host_rows-All (row ∷ rows) h = elim (Bool-cases (is_ranked_kind row.kind)) [
    | inl e ↦ rw (e, host_rows_of) (h.0 e, host_rows-All rows h.1)
    | inr e ↦ rw (e, host_rows_of) (host_rows-All rows h.1)
  ]

-- A row that passes both tests is in the table.
abbrev Passes : List AssetRow → AssetRow → Type 0
Passes base row =
    same_status row.scope_status in_scope ≡ true
    → is_ranked_kind row.kind ≡ true
    → IsInScopeHost base row.value

weaken :
    (row : AssetRow) (base rows : List AssetRow)
    → All (Passes base) rows
    → All (Passes (row ∷ base)) rows
weaken row base [] h = tt
weaken row base (x ∷ rows) h = (λ e k. inr (h.0 e k), weaken row base rows h.1)

Passes-rows : (rows : List AssetRow) → All (Passes rows) rows
Passes-rows [] = tt
Passes-rows (row ∷ rows) = (
  λ e k. inl (refl, same_status-eq row.scope_status e, (is_ranked_kind_iff row.kind).0 k),
  weaken row rows rows (Passes-rows rows),
)

hosts_in-All :
    (rows : List AssetRow) → All (λ (x : AssetRow). IsInScopeHost rows x.value) (hosts_in rows)
hosts_in-All rows =
    let P : AssetRow → Type 0 = λ x. IsInScopeHost rows x.value in
    host_rows-All P (select_assets (some in_scope) none none rows) (
      select-All (λ (row : AssetRow). is_ranked_kind row.kind ≡ true → P row) rows
        (Passes-rows rows))

module _ (J : Parsing) (S : Scoring) where
  scored-All :
      (all base rows : List AssetRow)
      → All (λ (x : AssetRow). IsInScopeHost base x.value) rows
      → All
          (λ (a : AssetPriority). IsInScopeHost base a.host)
          (map (score_host S) (map (input_of J all) rows))
  unfolding score_host input_of
  scored-All all base [] h = tt
  scored-All all base (row ∷ rows) h = (h.0, scored-All all base rows h.1)

  ranked-All :
      (hypotheses : String → List AssetPriority → Hypotheses) (program : String) (s : FindingsStore)
      → All
          (λ (a : AssetPriority). IsInScopeHost s.assets a.host)
          ((analyze J S hypotheses program s).ranked)
  unfolding analyze ranking_of prioritize
  ranked-All hypotheses program s =
      sort_by-All ranks_before (λ (a : AssetPriority). IsInScopeHost s.assets a.host) _
        (scored-All (select_assets (some in_scope) none none s.assets) s.assets (hosts_in s.assets)
          (hosts_in-All s.assets))

  All-Any :
      (base : List AssetRow) (name : String) (ranked : List AssetPriority)
      → All (λ (a : AssetPriority). IsInScopeHost base a.host) ranked
      → Any (λ (a : AssetPriority). a.host ≡ name) ranked
      → IsInScopeHost base name
  All-Any base name [] h m = elim m [ ]
  All-Any base name (a ∷ ranked) h (inl e) = subst (λ n. IsInScopeHost base n) e h.0
  All-Any base name (a ∷ ranked) h (inr m) = All-Any base name ranked h.1 m

  scored-Any :
      (all rows : List AssetRow) (name : String)
      → IsInScopeHost rows name
      → Any
          (λ (a : AssetPriority). a.host ≡ name)
          (map (score_host S) (map (input_of J all) (hosts_in rows)))
  unfolding select_assets host_rows_of score_host input_of
  scored-Any all [] name m = elim m [ ]
  scored-Any all (row ∷ rows) name (inl (e, status, kind)) =
      rw (status, (is_ranked_kind_iff row.kind).1 kind, select_assets, host_rows_of, same_status)
        (inl e)
  scored-Any all (row ∷ rows) name (inr m) =
      let later = scored-Any all rows name m in
      elim (Bool-cases (same_status row.scope_status in_scope)) [
        | inr e ↦ rw (e, select_assets) later
        | inl e ↦ elim (Bool-cases (is_ranked_kind row.kind)) [
          | inl k ↦ rw (e, k, select_assets, host_rows_of) (inr later)
          | inr k ↦ rw (e, k, select_assets, host_rows_of) later
        ]
      ]

  -- A name is ranked by the analysis exactly when it is the value of a row of the store that is in
  -- scope and a domain, a subdomain or a host, whatever the reasoner says: no other name is ranked, and
  -- none of these is left out.
  pub analyze-host_iff :
      (hypotheses : String → List AssetPriority → Hypotheses) (program : String) (s : FindingsStore)
      (name : String)
      → Any (λ (a : AssetPriority). a.host ≡ name) ((analyze J S hypotheses program s).ranked)
        ↔ IsInScopeHost s.assets name
  unfolding analyze ranking_of prioritize
  analyze-host_iff hypotheses program s name = (
    λ m. All-Any s.assets name _ (ranked-All hypotheses program s) m,
    λ h.
        sort_by-Any ranks_before (λ (a : AssetPriority). a.host ≡ name) _
          (scored-Any (select_assets (some in_scope) none none s.assets) s.assets name h),
  )
