-- ===== src/SystemsApi/Registry/Governance/Proposals.antt =====
-- The catalog proposals that come with a registration or an edit of a tool, and what a proposal that
-- is taken leaves in the catalog: src/systems-api/registry.ts.
use nexus_cloud.Base.{
  if◌then◌else◌, Bool-cases, Option-cases, is_some, str-eq_self, WriteOutcome, Env, Result, Action,
  pure, gets, ◌>>=◌, ◌>>◌, Dict, get, put, get-put, get-put_other, saved, lost, replaced, ok,
  thrown, error, String, ◌≡◌, refl, sym, ◌∙◌, ◌≢◌, inl, inr, true, not, Option, none, some, arith,
  ◌==◌,
}
use nexus_cloud.Base.Json.{Value}
use nexus_cloud.SystemsApi.Types.{Tool}
use nexus_cloud.SystemsApi.Catalog.{CatalogProposal, CatalogRecord, CatalogState, ReviewStatus}
use nexus_cloud.SystemsApi.Catalog.Validation.{validate_catalog_proposal, proposal_value}
use nexus_cloud.SystemsApi.Catalog.RoundTrip.{validate_catalog_proposal_again}
use nexus_cloud.SystemsApi.Registry.{Settings, Registry, World}
use nexus_cloud.SystemsApi.Registry.Tools.{
  ToolRegistrationInput, ToolPatchInput, register_tool, edit_metadata,
}
use nexus_cloud.SystemsApi.Registry.Governance.{
  Reconciliation, unread, synced, unsynced, with_catalog, commit_catalog, committed_record,
  get_catalog_record, proposal_in, approval_in, is_new_enough, can_submit_catalog_proposal,
  same_proposal, proposed, save_valid_proposal, save_catalog_proposal,
}

-- The two checks of a proposal that an input may carry, with the failure.
unfoldable pub check_submission : String → Option Value → Registry → Result (Unit {0})
check_submission tool_id none r = ok tt
check_submission tool_id (some v) r =
    if not (is_some (validate_catalog_proposal v))
    then thrown (error "Invalid catalog proposal")
    else if not (can_submit_catalog_proposal tool_id v r)
    then thrown (error "Stale catalog proposal version")
    else ok tt

unfoldable pub save_if_given :
    WriteOutcome → Reconciliation → String → Option Value → Action World (Unit {0})
save_if_given o q tool_id none = pure tt
save_if_given o q tool_id (some v) = save_catalog_proposal o q tool_id v >>= λ _. pure tt

-- `registerSystemsApiTool`: the proposal that its input may carry is checked first and saved last.
unfoldable pub register_systems_api_tool :
    Settings → Env → Reconciliation → ToolRegistrationInput → Option Value → Action World Tool
register_systems_api_tool settings env q input submitted = do
  checked ← gets (λ w. check_submission input.id submitted w.registry.live)
  λ w. (checked, w)
  tool ← register_tool settings env input
  save_if_given (env.write 1) q tool.id submitted
  pure tool

unfoldable pub save_if_edited :
    WriteOutcome → Reconciliation → String → Option Value → Option Tool → Action World (Option Tool)
save_if_edited o q tool_id submitted none = pure none
save_if_edited o q tool_id submitted (some tool) = do
  save_if_given o q tool_id submitted
  pure (some tool)

-- `updateTool`: the proposal that its patch may carry is checked first and saved last.
unfoldable pub update_tool :
    Settings
    → Env
    → Reconciliation
    → String
    → ToolPatchInput
    → Option Value
    → Action World (Option Tool)
update_tool settings env q tool_id patch submitted = do
  checked ← gets (λ w. check_submission tool_id submitted w.registry.live)
  λ w. (checked, w)
  found ← edit_metadata settings env tool_id patch
  save_if_edited (env.write 1) q tool_id submitted found

-- A commit that returns left the catalog that it was given in memory and in the file.
committed_record-ok :
    (o : WriteOutcome) (q : Reconciliation) (tool_id : String) (next : CatalogState) (w : World)
    (a : Option CatalogRecord) (after : World)
    → committed_record o q tool_id next w ≡ (ok a, after)
    → (after.registry.live ≡ with_catalog next w.registry.live)
      × (after.registry.file ≡ with_catalog next w.registry.live)
unfolding committed_record commit_catalog ◌>>=◌
committed_record-ok saved q tool_id next w a after h = ground (arith)
committed_record-ok lost q tool_id next w a after h = cc
committed_record-ok replaced unread tool_id next w a after h = cc
committed_record-ok replaced synced tool_id next w a after h = ground (arith)
committed_record-ok replaced unsynced tool_id next w a after h = cc

-- Only the proposal of one tool, and its review, are other than before.
pub record IsProposed (tool_id : String) (p : CatalogProposal) (old new : CatalogState)
    : Type 0 where
  pub stored : get tool_id new.proposals ≡ some p
  pub other_proposals : (j : String) → tool_id ≢ j → get j new.proposals ≡ get j old.proposals
  pub review : get tool_id new.reviews ≡ (
      if same_proposal (get tool_id old.proposals) p
      then get tool_id old.reviews
      else some ReviewStatus.pending)
  pub other_reviews : (j : String) → tool_id ≢ j → get j new.reviews ≡ get j old.reviews
  pub approvals : new.approved ≡ old.approved
  pub histories : new.approval_history ≡ old.approval_history
  pub seed : new.seed_version ≡ old.seed_version
  pub ledger : new.audit_events ≡ old.audit_events

get-put_self : {V : Type 0} (k : String) (v : V) (d : Dict V) → get k (put k v d) ≡ some v
get-put_self k v d = get-put k k v d ∙ rw (str-eq_self k)

proposed-IsProposed :
    (tool_id : String) (p : CatalogProposal) (c : CatalogState)
    → IsProposed tool_id p c (proposed tool_id p c)
unfolding proposed
proposed-IsProposed tool_id p c = record {
  stored = get-put_self tool_id p c.proposals;
  other_proposals = λ j other. get-put_other tool_id j p c.proposals other;
  review = elim (Bool-cases (same_proposal (get tool_id c.proposals) p)) [
    | inl e ↦ rw e
    | inr e ↦ rw e (get-put_self tool_id ReviewStatus.pending c.reviews)
  ];
  other_reviews = λ j other. elim (Bool-cases (same_proposal (get tool_id c.proposals) p)) [
    | inl e ↦ rw e
    | inr e ↦ rw e (get-put_other tool_id j ReviewStatus.pending c.reviews other)
  ];
  approvals = refl;
  histories = refl;
  seed = refl;
  ledger = refl;
}

newness :
    (tool_id : String) (p : CatalogProposal) (r : Registry)
    → validate_catalog_proposal (proposal_value p) ≡ some p
    → can_submit_catalog_proposal tool_id (proposal_value p) r ≡ true
    → (let found = get_catalog_record tool_id r in
        is_new_enough (proposal_in found) (approval_in found) p)
      ≡ true
unfolding can_submit_catalog_proposal
newness tool_id p r again h = rw again at h

-- What a proposal that was taken passed, and what is left.
save_valid_proposal-ok :
    (o : WriteOutcome) (q : Reconciliation) (tool_id : String) (p : CatalogProposal) (w : World)
    (a : Option CatalogRecord) (after : World)
    → save_valid_proposal o q tool_id (some p) w ≡ (ok a, after)
    → (can_submit_catalog_proposal tool_id (proposal_value p) w.registry.live ≡ true)
      × (after.registry.live
          ≡ with_catalog (proposed tool_id p w.registry.live.catalog) w.registry.live)
      × (after.registry.file
          ≡ with_catalog (proposed tool_id p w.registry.live.catalog) w.registry.live)
save_valid_proposal-ok o q tool_id p w a after h = elim (Bool-cases (tool_id == "")) [
  | inl e ↦ let bad = rw e at h in absurd (ground (arith, bad))
  | inr e ↦
      elim (Bool-cases (can_submit_catalog_proposal tool_id (proposal_value p) w.registry.live)) [
        | inl fresh ↦
            let next = proposed tool_id p w.registry.live.catalog in
            let (live, file) =
              committed_record-ok o q tool_id next w a after (rw fresh at (rw e at h)) in
            (fresh, live, file)
        | inr stale ↦ let bad = rw stale at (rw e at h) in absurd (ground (arith, bad))
      ]
]

-- A proposal that is taken is a valid one. It is newer than the valid approval of the tool, or as new
-- and the proposal that is stored already. It is stored, in memory and in the file; every other
-- proposal, every approval, the histories and the ledger are left as they are, and the review of the
-- tool is pending, or what it was where the stored proposal was the same.
pub save_catalog_proposal_outcome :
    (o : WriteOutcome) (q : Reconciliation) (tool_id : String) (v : Value) (w : World)
    (a : Option CatalogRecord) (after : World)
    → save_catalog_proposal o q tool_id v w ≡ (ok a, after)
    → let old = w.registry.live in
      let found = get_catalog_record tool_id old in
      (p : CatalogProposal) × (validate_catalog_proposal v ≡ some p)
      × (is_new_enough (proposal_in found) (approval_in found) p ≡ true)
      × IsProposed tool_id p old.catalog after.registry.live.catalog
      × (after.registry.file ≡ after.registry.live)
unfolding save_catalog_proposal
save_catalog_proposal_outcome o q tool_id v w a after h =
    elim (Option-cases (validate_catalog_proposal v)) [
      | inl e ↦ let bad = rw e at h in absurd (ground (arith, bad))
      | inr (p, e) ↦
          let (fresh, live, file) = save_valid_proposal-ok o q tool_id p w a after (rw e at h) in
          (
            p,
            e,
            newness tool_id p w.registry.live (validate_catalog_proposal_again v p e) fresh,
            rw live (proposed-IsProposed tool_id p w.registry.live.catalog),
            file ∙ sym live,
          )
    ]
