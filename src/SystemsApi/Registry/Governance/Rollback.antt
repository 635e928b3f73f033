-- ===== src/SystemsApi/Registry/Governance/Rollback.antt =====
-- A rollback undoes the approval before it: src/systems-api/registry.ts.
use nexus_cloud.Base.{
  Bool-cases, or_else, str-eq_self, Dict, get, put, get-put, get-delete, get-put_other, String, ◌≡◌,
  refl, sym, ◌∙◌, ◌≢◌, inl, inr, Option, none, some, List, [], ◌∷◌, ◌++◌, arith, ◌==◌, eq_iff,
}
use nexus_cloud.SystemsApi.Catalog.{ApprovedCatalog, CatalogProposal, CatalogState, ReviewStatus}
use nexus_cloud.SystemsApi.Registry.Governance.{
  checked_approval, catalog_record, approval_in, apply_approval, apply_rollback, last_of, restored,
  review_after, record_if_any,
}

last_of-append : {A : Type 0} (xs : List A) (x : A) → last_of (xs ++ x ∷ []) ≡ some (x, xs)
unfolding last_of
last_of-append [] x = refl
last_of-append (y ∷ ys) x = rw (last_of-append ys x)

approval_in-record_if_any :
    (tool_id : String) (review : Option ReviewStatus) (p : Option CatalogProposal)
    (a : Option ApprovedCatalog)
    → approval_in (record_if_any tool_id review p a) ≡ checked_approval a
approval_in-record_if_any tool_id review none none = refl
approval_in-record_if_any tool_id review none (some a) = refl
approval_in-record_if_any tool_id review (some p) a = refl

-- The approval that a record shows is the stored one, where that is valid.
approval_in-catalog_record :
    (c : CatalogState) (tool_id : String)
    → approval_in (catalog_record c tool_id) ≡ checked_approval (get tool_id c.approved)
unfolding catalog_record
approval_in-catalog_record c tool_id =
    approval_in-record_if_any tool_id (get tool_id c.reviews) (get tool_id c.proposals)
      (get tool_id c.approved)

-- Two catalogs hold the same for every tool, but for the reviews of one.
pub record SameBut (tool_id : String) (c d : CatalogState) : Type 0 where
  pub proposals : c.proposals ≡ d.proposals
  pub approved : (j : String) → get j c.approved ≡ get j d.approved
  pub history :
      (j : String) → or_else (get j c.approval_history) [] ≡ or_else (get j d.approval_history) []
  pub reviews : (j : String) → tool_id ≢ j → get j c.reviews ≡ get j d.reviews
  pub seed_version : c.seed_version ≡ d.seed_version
  pub audit_events : c.audit_events ≡ d.audit_events

get-restored :
    (tool_id j : String) (previous : Option ApprovedCatalog) (valid : ApprovedCatalog)
    (d : Dict ApprovedCatalog)
    → get tool_id d ≡ previous
    → get j (restored tool_id previous (put tool_id valid d)) ≡ get j d
get-restored tool_id j none valid d h =
    ground (
      arith,
      get-delete j tool_id (put tool_id valid d),
      get-put j tool_id valid d,
      eq_iff tool_id j,
    )
get-restored tool_id j (some previous) valid d h = ground (
  arith,
  get-put j tool_id previous (put tool_id valid d),
  get-put j tool_id valid d,
  eq_iff tool_id j,
)

or_else-get-restored :
    {A : Type 0} (tool_id j : String) (pushed : List A) (d : Dict (List A))
    → or_else (get j (put tool_id (or_else (get tool_id d) []) (put tool_id pushed d))) []
      ≡ or_else (get j d) []
or_else-get-restored tool_id j pushed d = elim (Bool-cases (tool_id == j)) [
  | inl e ↦
      let same = (eq_iff tool_id j).0 e in
      let known = or_else (get tool_id d) [] in
      let found : get j (put tool_id known (put tool_id pushed d)) ≡ some known =
        get-put j tool_id known (put tool_id pushed d) ∙ rw e in
      rw found (rw same)
  | inr e ↦
      let known = or_else (get tool_id d) [] in
      let first = get-put j tool_id known (put tool_id pushed d) in
      let second = get-put j tool_id pushed d in rw (first, e) (rw (second, e))
]

abbrev history_of : CatalogState → String → List (Option ApprovedCatalog)
history_of c tool_id = or_else (get tool_id c.approval_history) []

-- The catalog after the approval and the rollback.
abbrev undone : CatalogState → String → ApprovedCatalog → CatalogState
undone c tool_id valid =
    let previous = approval_in (catalog_record c tool_id) in
    let after = apply_approval c tool_id valid in
    record after {
      approved = restored tool_id previous after.approved;
      approval_history = put tool_id (history_of c tool_id) after.approval_history;
      reviews = put tool_id (review_after previous (get tool_id c.proposals)) after.reviews;
    }

rollback-eq-undone :
    (c : CatalogState) (tool_id : String) (valid : ApprovedCatalog)
    → apply_rollback (apply_approval c tool_id valid) tool_id ≡ some (undone c tool_id valid)
unfolding apply_rollback apply_approval
rollback-eq-undone c tool_id valid =
    let previous = approval_in (catalog_record c tool_id) in
    let pushed = history_of c tool_id ++ previous ∷ [] in
    rw (
      get-put tool_id tool_id pushed c.approval_history,
      str-eq_self tool_id,
      last_of-append (history_of c tool_id) previous,
    )

undone-SameBut :
    (c : CatalogState) (tool_id : String) (valid : ApprovedCatalog)
    → checked_approval (get tool_id c.approved) ≡ get tool_id c.approved
    → SameBut tool_id (undone c tool_id valid) c
unfolding apply_approval
undone-SameBut c tool_id valid h = record {
  proposals = refl;
  approved = λ j.
      get-restored tool_id j _ valid c.approved (sym (approval_in-catalog_record c tool_id ∙ h));
  history = λ j. or_else-get-restored tool_id j _ c.approval_history;
  reviews = λ j other. get-put_other tool_id j _ _ other ∙ get-put_other tool_id j _ _ other;
  seed_version = refl;
  audit_events = refl;
}

-- A rollback right after an approval succeeds and restores the catalog: every tool has the approval,
-- the history and the proposal that it had, and every other tool its review. The approval that the
-- tool had must be a valid one, as every approval is that was saved through the validator.
pub rollback-approval :
    (c : CatalogState) (tool_id : String) (valid : ApprovedCatalog)
    → checked_approval (get tool_id c.approved) ≡ get tool_id c.approved
    → (d : CatalogState) × (apply_rollback (apply_approval c tool_id valid) tool_id ≡ some d)
      × SameBut tool_id d c
rollback-approval c tool_id valid h =
    (undone c tool_id valid, rollback-eq-undone c tool_id valid, undone-SameBut c tool_id valid h)
