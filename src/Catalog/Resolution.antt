-- ===== src/Catalog/Resolution.antt =====
-- The effective catalog: src/catalog/resolution.ts. What `String.prototype.localeCompare` answers is a
-- parameter, `collate`.
pub mod Launching
pub mod Ordering
use nexus_cloud.Catalog.Types.{
  GlobalCatalogEntry, CatalogRuntimeState, NodeLocalCatalogApp, CatalogUserPreferences,
  CatalogResolutionContext, CatalogScope, Availability, EffectiveCatalogEntry,
}
use nexus_cloud.Base.{
  ltb, if◌then◌else◌, or_else, or_maybe, any, get, ℕ, suc, String, Bool, true, false, not, ◌&&◌,
  ◌||◌, Option, none, some, List, [], ◌∷◌, ◌++◌, map, ◌==◌,
}
use nexus_cloud.Base.Sorting.{sort_by}
use nexus_cloud.SystemsApi.Types.{ToolHealth}
use nexus_cloud.SystemsApi.Catalog.{
  Shelf, Audience, Maturity, Visibility, ReviewStatus, ApprovedCatalog, shelf_word,
}

pub record Placement : Type 0 where
  pub primary_shelf : Shelf
  pub secondary_shelves : List Shelf
  pub audiences : List Audience
  pub capabilities : List String
  pub maturity : Maturity
  pub visibility : Visibility

-- `global.approved ?? fallback(global.reviewStatus)`
abbrev pub placement : Option ApprovedCatalog → Placement
placement (some a) = record {
  primary_shelf = a.primary_shelf;
  secondary_shelves = a.secondary_shelves;
  audiences = a.audiences;
  capabilities = a.capabilities;
  maturity = a.maturity;
  visibility = a.visibility;
}
placement none = record {
  primary_shelf = Shelf.explore;
  secondary_shelves = [];
  audiences = [];
  capabilities = [];
  maturity = Maturity.experimental;
  visibility = Visibility.discoverable;
}

abbrev pub holds : List String → String → Bool
holds ids id = any (λ item. item == id) ids

-- `tenant.enabledAppIds?.length ? new Set(tenant.enabledAppIds) : null`, and whether it leaves an id out
abbrev pub not_enabled : Option (List String) → String → Bool
not_enabled none id = false
not_enabled (some []) id = false
not_enabled (some (x ∷ xs)) id = not (holds (x ∷ xs) id)

abbrev pub is_restricted : Visibility → Bool
is_restricted Visibility.restricted = true
is_restricted _ = false

abbrev pub is_available : Availability → Bool
is_available Availability.available = true
is_available _ = false

abbrev pub is_approved_review : ReviewStatus → Bool
is_approved_review ReviewStatus.approved = true
is_approved_review _ = false

-- `runtimeState?.health === "offline"`
abbrev pub runs_offline : Option CatalogRuntimeState → Bool
runs_offline none = false
runs_offline (some s) = elim s.health [ some ToolHealth.offline ↦ true | _ ↦ false ]

-- `runtimeState?.canLaunch !== false`
abbrev pub runtime_allows : Option CatalogRuntimeState → Bool
runtime_allows none = true
runtime_allows (some s) = s.can_launch

-- `preferences.preferredShelf === primaryShelf`
abbrev pub prefers : Option Shelf → Shelf → Bool
prefers none shelf = false
prefers (some s) shelf = shelf_word s == shelf_word shelf

module _ (context : CatalogResolutionContext) where
  abbrev pub runtime_of : String → Option CatalogRuntimeState
  runtime_of id = get id context.runtime

  abbrev pub override_of : String → Option Shelf
  override_of id = get id (or_else context.node.shelf_overrides [])

  abbrev pub disabled_by_node : String → Bool
  disabled_by_node id = holds (or_else context.node.disabled_app_ids []) id

  abbrev pub disabled_by_tenant : String → Bool
  disabled_by_tenant id =
      holds (or_else context.tenant.disabled_app_ids []) id
      || not_enabled context.tenant.enabled_app_ids id

  unfoldable pub global_availability : GlobalCatalogEntry → Availability
  global_availability global =
      if is_restricted (placement global.approved).visibility
      then Availability.restricted
      else if disabled_by_tenant global.tool_id || disabled_by_node global.tool_id
      then Availability.disabled
      else if runs_offline (runtime_of global.tool_id)
      then Availability.offline
      else Availability.available

  -- The entry of a platform tool, in the first loop.
  unfoldable pub global_entry : GlobalCatalogEntry → EffectiveCatalogEntry
  unfolding global_availability
  global_entry global =
      let place = placement global.approved in
      let shelf = or_else (override_of global.tool_id) place.primary_shelf in
      record {
        tool_id = global.tool_id;
        name = or_else global.name global.tool_id;
        description = or_else global.description "";
        primary_shelf = shelf;
        secondary_shelves = place.secondary_shelves;
        audiences = place.audiences;
        capabilities = place.capabilities;
        maturity = place.maturity;
        visibility = place.visibility;
        review_status = global.review_status;
        scope = CatalogScope.platform;
        availability = global_availability global;
        can_launch =
            is_available (global_availability global)
            && is_approved_review global.review_status
            && runtime_allows (runtime_of global.tool_id);
        preferred_by_user = prefers context.preferences.preferred_shelf shelf;
      }

  unfoldable pub local_availability : NodeLocalCatalogApp → Availability
  local_availability app =
      if disabled_by_node app.tool_id
      then Availability.disabled
      else if runs_offline (runtime_of app.tool_id)
      then Availability.offline
      else Availability.available

  -- The entry of an application of the node, in the second loop.
  unfoldable pub local_entry : NodeLocalCatalogApp → EffectiveCatalogEntry
  unfolding local_availability
  local_entry app =
      let shelf = or_else (override_of app.tool_id) (or_else app.primary_shelf Shelf.explore) in
      record {
        tool_id = app.tool_id;
        name = app.name;
        description = or_else app.description "";
        primary_shelf = shelf;
        secondary_shelves = or_else app.secondary_shelves [];
        audiences = or_else app.audiences [];
        capabilities = or_else app.capabilities [];
        maturity = or_else app.maturity Maturity.experimental;
        visibility = or_else app.visibility Visibility.discoverable;
        review_status = ReviewStatus.pending;
        scope = CatalogScope.node;
        availability = local_availability app;
        can_launch =
            is_available (local_availability app)
            && or_else app.can_launch false
            && runtime_allows (runtime_of app.tool_id);
        preferred_by_user = prefers context.preferences.preferred_shelf shelf;
      }

  -- The second loop: an application whose id is taken is skipped.
  unfoldable pub add_locals :
      List NodeLocalCatalogApp → List EffectiveCatalogEntry → List EffectiveCatalogEntry
  unfolding local_entry
  add_locals [] entries = entries
  add_locals (app ∷ apps) entries = add_locals apps (
      if any (λ entry. entry.tool_id == app.tool_id) entries
      then entries
      else entries ++ local_entry app ∷ [])

  unfoldable pub collected : List GlobalCatalogEntry → List EffectiveCatalogEntry
  unfolding add_locals global_entry
  collected globals = add_locals (or_else context.node.local_apps []) (map global_entry globals)

-- What `compareFunction` answers: below zero, zero, or above it.
pub data Comparison : Type 0 where
  below same above : Comparison

abbrev pub or_next : Comparison → Comparison → Comparison
or_next same c = c
or_next c _ = c

abbrev pub is_above : Comparison → Bool
is_above above = true
is_above _ = false

abbrev pub compare_numbers : ℕ → ℕ → Comparison
compare_numbers a b = if ltb a b then below else if ltb b a then above else same

-- `new Map(ids.map((id, index) => [id, index])).get(id)`: the last index of an id.
unfoldable pub index_of : ℕ → List String → String → Option ℕ
index_of n [] id = none
index_of n (x ∷ xs) id = or_maybe (index_of (suc n) xs id) (if x == id then some n else none)

-- `rank`
abbrev pub ranked : Option ℕ → Option ℕ → ℕ × ℕ
ranked (some i) recent = (0, i)
ranked none (some i) = (1, i)
ranked none none = (2, 0)

unfoldable pub rank : CatalogUserPreferences → EffectiveCatalogEntry → ℕ × ℕ
unfolding index_of
rank preferences entry =
    ranked (index_of 0 (or_else preferences.pinned_ids []) entry.tool_id)
      (index_of 0 (or_else preferences.recent_ids []) entry.tool_id)

module _ (collate : String → String → Comparison) (preferences : CatalogUserPreferences) where
  unfoldable pub compare_entries : EffectiveCatalogEntry → EffectiveCatalogEntry → Comparison
  unfolding rank
  compare_entries a b = or_next (compare_numbers (rank preferences a).0 (rank preferences b).0) (
      or_next (compare_numbers (rank preferences a).1 (rank preferences b).1)
        (or_next (collate a.name b.name) (collate a.tool_id b.tool_id)))

  unfoldable pub sort_by_preference : List EffectiveCatalogEntry → List EffectiveCatalogEntry
  unfolding sort_by
  sort_by_preference = sort_by (λ x y. is_above (compare_entries x y))

unfoldable pub resolve_effective_catalog :
    (String → String → Comparison)
    → List GlobalCatalogEntry
    → CatalogResolutionContext
    → List EffectiveCatalogEntry
unfolding collected sort_by_preference
resolve_effective_catalog collate globals context =
    sort_by_preference collate context.preferences (collected context globals)
