-- ===== src/Catalog/Types.antt =====
-- The layers and the entries of the effective catalog: src/catalog/resolution.ts.
use nexus_cloud.Base.{Dict, String, Bool, Option, List}
use nexus_cloud.SystemsApi.Types.{ToolHealth}
use nexus_cloud.SystemsApi.Catalog.{
  Shelf, Audience, Maturity, Visibility, ReviewStatus, ApprovedCatalog,
}

pub record GlobalCatalogEntry : Type 0 where
  pub tool_id : String
  pub name : Option String
  pub description : Option String
  pub approved : Option ApprovedCatalog
  pub review_status : ReviewStatus

pub record CatalogRuntimeState : Type 0 where
  pub health : Option ToolHealth
  pub can_launch : Bool

pub record TenantCatalogEntitlements : Type 0 where
  pub enabled_app_ids : Option (List String)
  pub disabled_app_ids : Option (List String)

pub record NodeLocalCatalogApp : Type 0 where
  pub tool_id : String
  pub name : String
  pub description : Option String
  pub primary_shelf : Option Shelf
  pub secondary_shelves : Option (List Shelf)
  pub audiences : Option (List Audience)
  pub capabilities : Option (List String)
  pub maturity : Option Maturity
  pub visibility : Option Visibility
  pub can_launch : Option Bool

pub record NodeCatalogOverlay : Type 0 where
  pub disabled_app_ids : Option (List String)
  pub shelf_overrides : Option (Dict Shelf)
  pub local_apps : Option (List NodeLocalCatalogApp)

pub record CatalogUserPreferences : Type 0 where
  pub pinned_ids : Option (List String)
  pub recent_ids : Option (List String)
  pub preferred_shelf : Option Shelf

-- A context without a layer is one with an empty layer, as the code's `?? {}` makes it.
pub record CatalogResolutionContext : Type 0 where
  pub tenant : TenantCatalogEntitlements
  pub node : NodeCatalogOverlay
  pub runtime : Dict CatalogRuntimeState
  pub preferences : CatalogUserPreferences

pub data CatalogScope : Type 0 where
  platform node : CatalogScope

pub data Availability : Type 0 where
  available disabled offline restricted : Availability

pub record EffectiveCatalogEntry : Type 0 where
  pub tool_id : String
  pub name : String
  pub description : String
  pub primary_shelf : Shelf
  pub secondary_shelves : List Shelf
  pub audiences : List Audience
  pub capabilities : List String
  pub maturity : Maturity
  pub visibility : Visibility
  pub review_status : ReviewStatus
  pub scope : CatalogScope
  pub availability : Availability
  pub can_launch : Bool
  pub preferred_by_user : Bool
