-- ===== src/Catalog/Resolution/Launching.antt =====
-- What can be launched from the effective catalog: src/catalog/resolution.ts.
use nexus_cloud.Base.{
  if◌then◌else◌, Bool-cases, or_else, any, All, Any, All-append, All-weaken, get, String, ◌≡◌, refl,
  ◌≢◌, ◌⊎◌, inl, inr, Bool, true, false, ◌&&◌, ◌||◌, Option, none, some, List, [], ◌∷◌, map, arith,
  ◌==◌, eq_iff,
}
use nexus_cloud.SystemsApi.Types.{ToolHealth}
use nexus_cloud.SystemsApi.Catalog.{Visibility, ReviewStatus}
use nexus_cloud.Catalog.Types.{
  Availability, CatalogResolutionContext, CatalogRuntimeState, GlobalCatalogEntry,
  NodeLocalCatalogApp, EffectiveCatalogEntry,
}
use nexus_cloud.Catalog.Resolution.{
  Comparison, placement, holds, not_enabled, is_restricted, runs_offline, runtime_allows,
  disabled_by_node, global_entry, local_entry, add_locals, sort_by_preference,
  resolve_effective_catalog, is_available, is_approved_review,
}
use nexus_cloud.Base.Sorting.{All-sort_by}

-- The runtime reports nothing of the tool, or that it is not offline and may be launched.
abbrev pub Runs : Option CatalogRuntimeState → Type 0
Runs none = Unit
Runs (some s) = (s.health ≢ some ToolHealth.offline) × (s.can_launch ≡ true)

-- What a launchable platform entry needs.
pub record MayLaunch (context : CatalogResolutionContext) (e : EffectiveCatalogEntry)
    (g : GlobalCatalogEntry) : Type 0 where
  pub same_tool : e.tool_id ≡ g.tool_id
  pub reviewed : g.review_status ≡ ReviewStatus.approved
  pub unrestricted : (placement g.approved).visibility ≢ Visibility.restricted
  pub not_disabled : All (λ id. id ≢ g.tool_id) (or_else context.tenant.disabled_app_ids [])
  pub enabled :
      (or_else context.tenant.enabled_app_ids [] ≡ [])
      ⊎ Any (λ id. id ≡ g.tool_id) (or_else context.tenant.enabled_app_ids [])
  pub on_node : All (λ id. id ≢ g.tool_id) (or_else context.node.disabled_app_ids [])
  pub runs : Runs (get g.tool_id context.runtime)

-- What a launchable entry of the node's own needs.
pub record MayLaunchLocal (context : CatalogResolutionContext) (e : EffectiveCatalogEntry)
    (app : NodeLocalCatalogApp) : Type 0 where
  pub same_tool : e.tool_id ≡ app.tool_id
  pub offered : app.can_launch ≡ some true
  pub on_node : All (λ id. id ≢ app.tool_id) (or_else context.node.disabled_app_ids [])
  pub runs : Runs (get app.tool_id context.runtime)

holds-eq-false : (ids : List String) (id : String) → holds ids id ≡ false → All (λ i. i ≢ id) ids
holds-eq-false [] id h = tt
holds-eq-false (x ∷ xs) id h = elim (Bool-cases (x == id)) [
  | inl e ↦ absurd (ground (arith, rw e at h))
  | inr e ↦ (λ q. (let k = (eq_iff x id).1 q in cc (k, e)), holds-eq-false xs id (rw e at h))
]

holds-eq-true : (ids : List String) (id : String) → holds ids id ≡ true → Any (λ i. i ≡ id) ids
holds-eq-true [] id h = cc
holds-eq-true (x ∷ xs) id h = elim (Bool-cases (x == id)) [
  | inl e ↦ inl ((eq_iff x id).0 e)
  | inr e ↦ inr (holds-eq-true xs id (rw e at h))
]

enabled_of :
    (ids : Option (List String)) (id : String)
    → not_enabled ids id ≡ false
    → (or_else ids [] ≡ []) ⊎ Any (λ i. i ≡ id) (or_else ids [])
enabled_of none id h = inl refl
enabled_of (some []) id h = inl refl
enabled_of (some (x ∷ xs)) id h = inr (holds-eq-true (x ∷ xs) id (ground arith))

runtime_allows-Runs :
    (s : Option CatalogRuntimeState) → runs_offline s ≡ false → runtime_allows s ≡ true → Runs s
runtime_allows-Runs none h k = tt
runtime_allows-Runs (some s) h k = ((λ e. (let bad = rw e at h in cc)), k)

-- The tests of a launchable entry, one by one.
tests_of :
    (restricted disabled left_out on_node offline reviewed runs : Bool)
    → (is_available (
          if restricted
          then Availability.restricted
          else if (disabled || left_out) || on_node
          then Availability.disabled
          else if offline
          then Availability.offline
          else Availability.available)
        && reviewed
        && runs)
      ≡ true
    → (restricted ≡ false)
      × (disabled ≡ false)
      × (left_out ≡ false)
      × (on_node ≡ false)
      × (offline ≡ false)
      × (reviewed ≡ true)
      × (runs ≡ true)
tests_of false false false false false true true h = (refl, refl, refl, refl, refl, refl, refl)
tests_of false false false false false true false h = cc
tests_of false false false false false false runs h = cc
tests_of false false false false true reviewed runs h = cc
tests_of false false false true offline reviewed runs h = cc
tests_of false false true on_node offline reviewed runs h = cc
tests_of false true left_out on_node offline reviewed runs h = cc
tests_of true disabled left_out on_node offline reviewed runs h = cc

approved_of : (s : ReviewStatus) → is_approved_review s ≡ true → s ≡ ReviewStatus.approved
approved_of ReviewStatus.approved h = refl
approved_of ReviewStatus.pending h = cc
approved_of _ h = cc

global_entry-MayLaunch :
    (context : CatalogResolutionContext) (g : GlobalCatalogEntry)
    → (global_entry context g).can_launch ≡ true
    → MayLaunch context (global_entry context g) g
unfolding global_entry
global_entry-MayLaunch context g h =
    let (r, d, l, n, o, a, u) =
      tests_of (is_restricted (placement g.approved).visibility)
        (holds (or_else context.tenant.disabled_app_ids []) g.tool_id)
        (not_enabled context.tenant.enabled_app_ids g.tool_id) (disabled_by_node context g.tool_id)
        (runs_offline (get g.tool_id context.runtime)) (is_approved_review g.review_status)
        (runtime_allows (get g.tool_id context.runtime)) h in
    record {
      same_tool = refl;
      reviewed = approved_of g.review_status a;
      unrestricted = λ e. (let bad = rw e at r in cc);
      not_disabled = holds-eq-false _ g.tool_id d;
      enabled = enabled_of context.tenant.enabled_app_ids g.tool_id l;
      on_node = holds-eq-false _ g.tool_id n;
      runs = runtime_allows-Runs (get g.tool_id context.runtime) o u;
    }

offered_of : (b : Option Bool) → or_else b false ≡ true → b ≡ some true
offered_of none h = cc
offered_of (some b) h = rw h

local_entry-MayLaunchLocal :
    (context : CatalogResolutionContext) (app : NodeLocalCatalogApp)
    → (local_entry context app).can_launch ≡ true
    → MayLaunchLocal context (local_entry context app) app
unfolding local_entry
local_entry-MayLaunchLocal context app h =
    let (_, _, _, n, o, a, u) =
      tests_of false false false (disabled_by_node context app.tool_id)
        (runs_offline (get app.tool_id context.runtime)) (or_else app.can_launch false)
        (runtime_allows (get app.tool_id context.runtime)) h in
    record {
      same_tool = refl;
      offered = offered_of app.can_launch a;
      on_node = holds-eq-false _ app.tool_id n;
      runs = runtime_allows-Runs (get app.tool_id context.runtime) o u;
    }

-- An entry that can be launched has a source that allows it.
abbrev pub HasSource :
    CatalogResolutionContext → List GlobalCatalogEntry → EffectiveCatalogEntry → Type 0
HasSource context globals e =
    Any (MayLaunch context e) globals
    ⊎ Any (MayLaunchLocal context e) (or_else context.node.local_apps [])

abbrev Launches : (EffectiveCatalogEntry → Type 0) → EffectiveCatalogEntry → Type 0
Launches P e = e.can_launch ≡ true → P e

globals-Launches :
    (context : CatalogResolutionContext) (globals : List GlobalCatalogEntry)
    → All (Launches (λ e. Any (MayLaunch context e) globals)) (map (global_entry context) globals)
globals-Launches context [] = tt
globals-Launches context (g ∷ gs) = (
  λ h. inl (global_entry-MayLaunch context g h),
  All-weaken (Launches (λ e. Any (MayLaunch context e) (g ∷ gs))) (λ e k h. inr (k h)) _
      (globals-Launches context gs),
)

add_locals-Launches :
    (context : CatalogResolutionContext) (P : EffectiveCatalogEntry → Type 0)
    (apps : List NodeLocalCatalogApp) (entries : List EffectiveCatalogEntry)
    → ((e : EffectiveCatalogEntry) → Any (MayLaunchLocal context e) apps → P e)
    → All (Launches P) entries
    → All (Launches P) (add_locals context apps entries)
unfolding add_locals
add_locals-Launches context P [] entries use_app h = h
add_locals-Launches context P (app ∷ apps) entries use_app h =
    add_locals-Launches context P apps _ (λ e k. use_app e (inr k))
      (elim (Bool-cases (any (λ entry. entry.tool_id == app.tool_id) entries)) [
        | inl taken ↦ rw taken h
        | inr free ↦ rw free (
            All-append (Launches P) entries (local_entry context app ∷ []) h
              ((λ k. use_app _ (inl (local_entry-MayLaunchLocal context app k))), tt))
      ])

-- An entry of the effective catalog that can be launched is a platform tool that is approved, not
-- restricted, not disabled by the tenant, enabled by it where it enables any, not disabled by the node
-- and not reported as offline or unlaunchable; or an application of the node that the node offers for
-- launch, does not disable, and that is not reported as offline or unlaunchable.
pub launchable-HasSource :
    (collate : String → String → Comparison) (globals : List GlobalCatalogEntry)
    (context : CatalogResolutionContext)
    → All
        (λ e. e.can_launch ≡ true → HasSource context globals e)
        (resolve_effective_catalog collate globals context)
unfolding resolve_effective_catalog sort_by_preference
launchable-HasSource collate globals context =
    All-sort_by _ (Launches (HasSource context globals)) _ (
      add_locals-Launches context (HasSource context globals) (or_else context.node.local_apps []) _
        (λ e k. inr k)
        (All-weaken (Launches (HasSource context globals)) (λ e k h. inl (k h)) _
          (globals-Launches context globals)))
