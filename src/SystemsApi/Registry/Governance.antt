-- ===== src/SystemsApi/Registry/Governance.antt =====
-- Catalog governance: proposals, approvals, reviews and rollbacks, and the decisions that are audited,
-- of src/systems-api/registry.ts.
pub mod Decisions
pub mod Rollback
pub mod Proposals
pub mod Submission
pub mod Submitting
pub mod Ledger
use nexus_cloud.Base.{
  ltb, leb, or_else, is_some, gets, ◌>>=◌, ◌>>◌, Dict, get, put, delete, saved, lost, replaced,
  thrown, write_failed, error, max, ◌||◌, ◌++◌,
}
use nexus_cloud.Base.Json.{Value, stringify}
use nexus_cloud.SystemsApi.Catalog.{
  CatalogProposal, ApprovedCatalog, CatalogRecord, CatalogState, ReviewStatus,
}
use nexus_cloud.SystemsApi.Catalog.Validation.{
  validate_catalog_proposal, validate_approved_catalog, proposal_value, approved_value,
}
use nexus_cloud.SystemsApi.Registry.{
  ◌==◌, [], not, true, ok, if◌then◌else◌, ◌∷◌, false, Action, some, Bool, none, String, List,
  WriteOutcome, Result, Option, ℕ, Registry, World,
}

abbrev pub review_word : ReviewStatus → String
review_word ReviewStatus.approved = "approved"
review_word ReviewStatus.pending = "pending"
review_word ReviewStatus.deferred = "deferred"
review_word ReviewStatus.rejected = "rejected"

-- `record?.version ?? 0`
abbrev pub version_of : Option CatalogProposal → ℕ
version_of none = 0
version_of (some p) = p.version

-- The status of a record without a review of its own.
abbrev pub default_review : Option CatalogProposal → Option ApprovedCatalog → ReviewStatus
default_review none a = ReviewStatus.approved
default_review (some p) none = ReviewStatus.pending
default_review (some p) (some a) =
    if ltb a.version p.version then ReviewStatus.pending else ReviewStatus.approved

abbrev pub checked_proposal : Option CatalogProposal → Option CatalogProposal
checked_proposal none = none
checked_proposal (some p) = validate_catalog_proposal (proposal_value p)

abbrev pub checked_approval : Option ApprovedCatalog → Option ApprovedCatalog
checked_approval none = none
checked_approval (some a) = validate_approved_catalog (approved_value a)

abbrev pub assembled :
    String → Option ReviewStatus → Option CatalogProposal → Option ApprovedCatalog → CatalogRecord
assembled tool_id review proposal approval = record {
  tool_id = tool_id;
  proposal = checked_proposal proposal;
  approved = checked_approval approval;
  review_status = or_else review (default_review proposal approval);
}

abbrev pub record_if_any :
    String
    → Option ReviewStatus
    → Option CatalogProposal
    → Option ApprovedCatalog
    → Option CatalogRecord
record_if_any tool_id review none none = none
record_if_any tool_id review proposal approval = some (assembled tool_id review proposal approval)

unfoldable pub catalog_record : CatalogState → String → Option CatalogRecord
catalog_record c tool_id =
    record_if_any tool_id (get tool_id c.reviews) (get tool_id c.proposals) (get tool_id c.approved)

abbrev pub proposal_in : Option CatalogRecord → Option CatalogProposal
proposal_in none = none
proposal_in (some r) = r.proposal

abbrev pub approval_in : Option CatalogRecord → Option ApprovedCatalog
approval_in none = none
approval_in (some r) = r.approved

unfoldable pub get_catalog_record : String → Registry → Option CatalogRecord
unfolding catalog_record
get_catalog_record tool_id r = catalog_record r.catalog tool_id

-- What becomes of a catalog write whose directory sync failed after the rename: the file cannot be
-- read back as the snapshot, or the sync is tried again and succeeds or fails.
pub data Reconciliation : Type 0 where
  unread synced unsynced : Reconciliation

abbrev pub with_catalog : CatalogState → Registry → Registry
with_catalog next r = record r { catalog = next }

abbrev pub reconcile : Reconciliation → Registry → World → Result (Unit {0}) × World
reconcile unread snapshot w =
    (thrown write_failed, record w { registry = record w.registry { file = snapshot } })
reconcile synced snapshot w =
    (ok tt, record w { registry = record { live = snapshot; file = snapshot } })
reconcile unsynced snapshot w =
    (thrown write_failed, record w { registry = record { live = snapshot; file = snapshot } })

-- `commitCatalog`: the snapshot is written before it becomes visible in memory.
unfoldable pub commit_catalog :
    WriteOutcome → Reconciliation → CatalogState → Action World (Unit {0})
commit_catalog saved q next w =
    let snapshot = with_catalog next w.registry.live in
    (ok tt, record w { registry = record { live = snapshot; file = snapshot } })
commit_catalog lost q next w = (thrown write_failed, w)
commit_catalog replaced q next w = reconcile q (with_catalog next w.registry.live) w

unfoldable pub get_catalog_seed_version : Registry → ℕ
get_catalog_seed_version r = or_else r.catalog.seed_version 0

unfoldable pub set_catalog_seed_version :
    WriteOutcome → Reconciliation → ℕ → Action World (Unit {0})
unfolding commit_catalog
set_catalog_seed_version o q version w =
    if not (leb version 9007199254740991) || ltb version 1
    then (thrown (error "Invalid catalog seed version"), w)
    else let c = w.registry.live.catalog in
      commit_catalog o q (record c { seed_version = some (max (or_else c.seed_version 0) version) })
        w

-- `JSON.stringify(a) === JSON.stringify(b)`, for a proposal that may be missing
unfoldable pub same_proposal : Option CatalogProposal → CatalogProposal → Bool
same_proposal none p = false
same_proposal (some current) p = stringify (proposal_value current) == stringify (proposal_value p)

abbrev pub is_new_enough : Option CatalogProposal → Option ApprovedCatalog → CatalogProposal → Bool
is_new_enough current none p = true
is_new_enough current (some a) p =
    if ltb a.version p.version
    then true
    else if ltb p.version a.version
    then false
    else same_proposal current p

abbrev pub can_submit_valid : String → Option CatalogProposal → Registry → Bool
can_submit_valid tool_id none r = false
can_submit_valid tool_id (some p) r =
    let found = get_catalog_record tool_id r in
    is_new_enough (proposal_in found) (approval_in found) p

unfoldable pub can_submit_catalog_proposal : String → Value → Registry → Bool
can_submit_catalog_proposal tool_id proposal r =
    can_submit_valid tool_id (validate_catalog_proposal proposal) r

-- The draft of `saveCatalogProposal`: a proposal that differs from the stored one waits for a review.
unfoldable pub proposed : String → CatalogProposal → CatalogState → CatalogState
unfolding same_proposal
proposed tool_id p c = record c {
  proposals = put tool_id p c.proposals;
  reviews =
      if same_proposal (get tool_id c.proposals) p
      then c.reviews
      else put tool_id ReviewStatus.pending c.reviews;
}

-- A commit, and the record of the tool after it.
unfoldable pub committed_record :
    WriteOutcome → Reconciliation → String → CatalogState → Action World (Option CatalogRecord)
committed_record o q tool_id next = do
  commit_catalog o q next
  gets (λ w. get_catalog_record tool_id w.registry.live)

abbrev pub save_valid_proposal :
    WriteOutcome
    → Reconciliation
    → String
    → Option CatalogProposal
    → Action World (Option CatalogRecord)
save_valid_proposal o q tool_id none w = (thrown (error "Invalid catalog proposal"), w)
save_valid_proposal o q tool_id (some p) w =
    if tool_id == ""
    then (thrown (error "Invalid catalog proposal"), w)
    else if not (can_submit_catalog_proposal tool_id (proposal_value p) w.registry.live)
    then (thrown (error "Stale catalog proposal version"), w)
    else committed_record o q tool_id (proposed tool_id p w.registry.live.catalog) w

unfoldable pub save_catalog_proposal :
    WriteOutcome → Reconciliation → String → Value → Action World (Option CatalogRecord)
save_catalog_proposal o q tool_id proposal =
    save_valid_proposal o q tool_id (validate_catalog_proposal proposal)

-- `applyApproval`: the approval before it is kept in the history.
unfoldable pub apply_approval : CatalogState → String → ApprovedCatalog → CatalogState
apply_approval c tool_id valid = record c {
  approval_history =
      put tool_id
        (or_else (get tool_id c.approval_history) [] ++ approval_in (catalog_record c tool_id) ∷ [])
        c.approval_history;
  approved = put tool_id valid c.approved;
  reviews =
      put tool_id
        (if ltb valid.version (version_of (get tool_id c.proposals))
          then ReviewStatus.pending
          else ReviewStatus.approved)
        c.reviews;
}

unfoldable pub apply_review : CatalogState → String → ReviewStatus → CatalogState
apply_review c tool_id status = record c { reviews = put tool_id status c.reviews }

-- The last entry of a history and those before it; none for an empty one.
unfoldable pub last_of : {A : Type 0} → List A → Option (A × List A)
last_of [] = none
last_of (x ∷ xs) = elim (last_of xs) [ none ↦ some (x, []) | some (y, ys) ↦ some (y, x ∷ ys) ]

abbrev pub restored : String → Option ApprovedCatalog → Dict ApprovedCatalog → Dict ApprovedCatalog
restored tool_id none d = delete tool_id d
restored tool_id (some previous) d = put tool_id previous d

abbrev pub review_after : Option ApprovedCatalog → Option CatalogProposal → ReviewStatus
review_after none proposal = ReviewStatus.pending
review_after (some previous) proposal =
    if leb (version_of proposal) previous.version
    then ReviewStatus.approved
    else ReviewStatus.pending

abbrev pub rolled_back :
    CatalogState
    → String
    → Option (Option ApprovedCatalog × List (Option ApprovedCatalog))
    → Option CatalogState
rolled_back c tool_id none = none
rolled_back c tool_id (some (previous, rest)) = some (record c {
  approved = restored tool_id previous c.approved;
  approval_history = put tool_id rest c.approval_history;
  reviews = put tool_id (review_after previous (get tool_id c.proposals)) c.reviews;
})

-- `applyRollback`, with none for false
unfoldable pub apply_rollback : CatalogState → String → Option CatalogState
apply_rollback c tool_id =
    rolled_back c tool_id (last_of (or_else (get tool_id c.approval_history) []))

abbrev pub save_valid_approval :
    WriteOutcome
    → Reconciliation
    → String
    → Option ApprovedCatalog
    → Action World (Option CatalogRecord)
save_valid_approval o q tool_id none w = (thrown (error "Invalid approved catalog"), w)
save_valid_approval o q tool_id (some a) w =
    if tool_id == ""
    then (thrown (error "Invalid approved catalog"), w)
    else committed_record o q tool_id (apply_approval w.registry.live.catalog tool_id a) w

unfoldable pub save_approved_catalog :
    WriteOutcome → Reconciliation → String → Value → Action World (Option CatalogRecord)
save_approved_catalog o q tool_id approved =
    save_valid_approval o q tool_id (validate_approved_catalog approved)

unfoldable pub set_catalog_review_status :
    WriteOutcome → Reconciliation → String → ReviewStatus → Action World (Option CatalogRecord)
set_catalog_review_status o q tool_id status w =
    if is_some (proposal_in (get_catalog_record tool_id w.registry.live))
    then committed_record o q tool_id (apply_review w.registry.live.catalog tool_id status) w
    else (ok none, w)

abbrev pub commit_draft :
    WriteOutcome
    → Reconciliation
    → String
    → Option CatalogState
    → Action World (Option CatalogRecord)
commit_draft o q tool_id none w = (ok none, w)
commit_draft o q tool_id (some next) w = committed_record o q tool_id next w

unfoldable pub rollback_approved_catalog :
    WriteOutcome → Reconciliation → String → Action World (Option CatalogRecord)
rollback_approved_catalog o q tool_id w =
    commit_draft o q tool_id (apply_rollback w.registry.live.catalog tool_id) w
