-- ===== src/Tests/Catalog.antt =====
-- The theorems on the catalog, its governance and the effective catalog, at concrete inputs.
use mathlib.Core.List.{Perm}
use nexus_cloud.Base.{
  All, trim, ◌>>=◌, get, put, saved, ok, thrown, error, String, ◌≡◌, refl, ◌⊎◌, Bool, true, false,
  Option, none, some, [], ◌∷◌, map,
}
use nexus_cloud.Base.Json.{Value, obj, arr, str, num, item, no_items, fields_of, listed, items_of}
use nexus_cloud.SystemsApi.Catalog.{
  Shelf, Audience, Maturity, Visibility, Surface, ReleaseState, ReviewStatus, ApprovedCatalog,
  CatalogProposal, CatalogRecord, CatalogState,
}
use nexus_cloud.SystemsApi.Catalog.Validation.{
  is_timestamp, is_one_of, controlled_array, string_array, validate_approved_catalog,
  validate_catalog_proposal, approved_value, proposal_value,
}
use nexus_cloud.SystemsApi.Catalog.Approved.{IsWellFormed, validate_approved_catalog_again}
use nexus_cloud.SystemsApi.Registry.{World}
use nexus_cloud.SystemsApi.Registry.Governance.{
  synced, catalog_record, get_catalog_record, apply_approval, apply_rollback, with_catalog,
  save_catalog_proposal, can_submit_catalog_proposal, proposed, committed_record, commit_catalog,
}
use nexus_cloud.SystemsApi.Registry.Governance.Decisions.{
  CatalogAction, decide_catalog, decided, find_catalog_decision_by_key,
}
use nexus_cloud.SystemsApi.Registry.Governance.Submission.{
  IsTaken, IsRefused, save_catalog_proposal_settles,
}
use nexus_cloud.SystemsApi.Registry.Governance.Rollback.{SameBut, rollback-approval}
use nexus_cloud.SystemsApi.Registry.Governance.Ledger.{Landed, event_of, decision_is_atomic}
use nexus_cloud.Catalog.Types.{GlobalCatalogEntry, NodeLocalCatalogApp, CatalogResolutionContext}
use nexus_cloud.Catalog.Resolution.{
  Comparison, same, collected, compare_entries, resolve_effective_catalog,
}
use nexus_cloud.Catalog.Resolution.Launching.{HasSource, launchable-HasSource}
use nexus_cloud.Catalog.Resolution.Ordering.{IsRanked, resolve_effective_catalog-IsRanked}
use nexus_cloud.Tests.Data.{env, catalog, world, registry}

-- An approval as it is sent, with a text to trim.
abbrev raw_approval : Value
raw_approval = obj (
    fields_of (
      ("primaryShelf", str "create")
      ∷ ("secondaryShelves", arr (item (str "work") no_items))
      ∷ ("audiences", arr (item (str "creator") no_items))
      ∷ ("capabilities", arr (item (str " draw ") no_items))
      ∷ ("maturity", str "stable")
      ∷ ("visibility", str "default")
      ∷ ("surface", str "user-app")
      ∷ ("releaseState", str "released")
      ∷ ("approvedAt", str "2024-02-29T12:00:00.000Z")
      ∷ ("approvedBy", str "ada")
      ∷ ("version", num 2)
      ∷ []))

abbrev approval : ApprovedCatalog
approval = record {
  primary_shelf = Shelf.create;
  secondary_shelves = Shelf.work ∷ [];
  audiences = Audience.creator ∷ [];
  capabilities = "draw" ∷ [];
  maturity = Maturity.stable;
  visibility = Visibility.default;
  surface = Surface.user_app;
  release_state = ReleaseState.released;
  approved_at = "2024-02-29T12:00:00.000Z";
  approved_by = "ada";
  version = 2;
}

abbrev proposal : CatalogProposal
proposal = record {
  suggested_shelves = Shelf.create ∷ [];
  suggested_audiences = [];
  capabilities = "draw" ∷ [];
  keywords = [];
  submitted_at = "2024-02-28T12:00:00.000Z";
  version = 2;
}

approval_is_read : validate_approved_catalog raw_approval ≡ some approval
unfolding validate_approved_catalog is_one_of is_timestamp trim controlled_array listed string_array
approval_is_read = refl

proposal_is_valid : validate_catalog_proposal (proposal_value proposal) ≡ some proposal
unfolding validate_catalog_proposal controlled_array listed items_of string_array is_timestamp
proposal_is_valid = refl

validate_approved_catalog_again_example :
    IsWellFormed approval × (validate_approved_catalog (approved_value approval) ≡ some approval)
validate_approved_catalog_again_example =
    validate_approved_catalog_again raw_approval approval approval_is_read

-- A day that does not exist.
no_such_day : is_timestamp "2023-02-29T12:00:00.000Z" ≡ false
unfolding is_timestamp
no_such_day = refl

rollback-approval_example :
    (d : CatalogState) × (apply_rollback (apply_approval catalog "photos" approval) "photos"
      ≡ some d)
    × SameBut "photos" d catalog
unfolding get
rollback-approval_example = rollback-approval catalog "photos" approval refl

-- A catalog with a proposal to decide on.
abbrev proposed_catalog : CatalogState
proposed_catalog = record catalog { proposals = ("photos", proposal) ∷ [] }

abbrev proposed_world : World
proposed_world =
    let r = with_catalog proposed_catalog registry in
    record world { registry = record { live = r; file = r } }

abbrev approved_catalog : CatalogState
approved_catalog = apply_approval proposed_catalog "photos" approval

approval_decided :
    decided proposed_catalog "photos" CatalogAction.approve raw_approval ≡ some approved_catalog
unfolding decided catalog_record get
approval_decided = rw (proposal_is_valid, approval_is_read)

decision_is_atomic_example :
    Landed
      (catalog_record approved_catalog "photos")
      proposed_world
      (with_catalog
        (record approved_catalog {
          audit_events =
              event_of env "photos" CatalogAction.approve "ada" "k1" proposed_catalog
                approved_catalog
              ∷ [];
        })
        proposed_world.registry.live)
      (decide_catalog env synced "photos" CatalogAction.approve "ada" raw_approval "k1"
        proposed_world)
unfolding find_catalog_decision_by_key apply_approval
decision_is_atomic_example =
    decision_is_atomic env synced "photos" CatalogAction.approve "ada" raw_approval "k1"
      proposed_world approved_catalog refl approval_decided

abbrev approved_record : CatalogRecord
approved_record = record {
  tool_id = "photos";
  proposal = some proposal;
  approved = some approval;
  review_status = ReviewStatus.approved;
}

proposal_saved : save_catalog_proposal saved synced "photos" (proposal_value proposal) world ≡ (
  ok (catalog_record (proposed "photos" proposal catalog) "photos"),
  record world {
    registry =
        let r = with_catalog (proposed "photos" proposal catalog) registry in
        record { live = r; file = r };
  },
)
unfolding save_catalog_proposal get_catalog_record catalog_record committed_record commit_catalog
    get ◌>>=◌ can_submit_catalog_proposal proposed validate_catalog_proposal put controlled_array
    listed items_of string_array is_timestamp
proposal_saved = rw (proposal_is_valid)

save_catalog_proposal_settles_example :
    ((a : Option CatalogRecord) × (after : World) × (save_catalog_proposal saved synced "photos"
          (proposal_value proposal)
          world
        ≡ (ok a, after))
      × IsTaken "photos" (proposal_value proposal) world after)
    ⊎ (((m : String) × (save_catalog_proposal saved synced "photos" (proposal_value proposal) world
            ≡ (thrown (error m), world)))
        × IsRefused "photos" (proposal_value proposal) registry)
save_catalog_proposal_settles_example =
    save_catalog_proposal_settles synced "photos" (proposal_value proposal) world

-- A platform tool and an application of the node.
abbrev photos : GlobalCatalogEntry
photos = record {
  tool_id = "photos";
  name = some "Photos";
  description = none;
  approved = some approval;
  review_status = ReviewStatus.approved;
}

abbrev notes : NodeLocalCatalogApp
notes = record {
  tool_id = "notes";
  name = "Notes";
  description = none;
  primary_shelf = none;
  secondary_shelves = none;
  audiences = none;
  capabilities = none;
  maturity = none;
  visibility = none;
  can_launch = some true;
}

abbrev context : CatalogResolutionContext
context = record {
  tenant = record { enabled_app_ids = none; disabled_app_ids = none };
  node = record { disabled_app_ids = none; shelf_overrides = none; local_apps = some (notes ∷ []) };
  runtime = [];
  preferences = record {
    pinned_ids = some ("notes" ∷ []);
    recent_ids = none;
    preferred_shelf = none;
  };
}

abbrev no_order : String → String → Comparison
no_order a b = same

-- The pinned application of the node comes first, and both can be launched.
pinned_first :
    map {B = String × Bool}
      (λ e. (e.tool_id, e.can_launch))
      (resolve_effective_catalog no_order (photos ∷ []) context)
    ≡ ("notes", true) ∷ ("photos", true) ∷ []
unfolding resolve_effective_catalog compare_entries get
pinned_first = refl

launchable-HasSource_example :
    All
      (λ e. e.can_launch ≡ true → HasSource context (photos ∷ []) e)
      (resolve_effective_catalog no_order (photos ∷ []) context)
launchable-HasSource_example = launchable-HasSource no_order (photos ∷ []) context

resolve_effective_catalog-IsRanked_example :
    IsRanked context.preferences (resolve_effective_catalog no_order (photos ∷ []) context)
    × Perm
        (resolve_effective_catalog no_order (photos ∷ []) context)
        (collected context (photos ∷ []))
resolve_effective_catalog-IsRanked_example =
    resolve_effective_catalog-IsRanked no_order (photos ∷ []) context
