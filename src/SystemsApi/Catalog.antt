-- ===== src/SystemsApi/Catalog.antt =====
-- The words of the catalog, its proposals and approvals, and the placement of a tool without one:
-- the types of src/systems-api/catalog.ts, and the catalog's state of src/systems-api/store.ts.
pub mod Validation
pub mod RoundTrip
pub mod Approved
use nexus_cloud.Base.{find, Dict, ℕ, String, ◌≡◌, refl, Option, some, List, [], ◌∷◌, ◌==◌}
use nexus_cloud.Observability.Types.{ObservabilityEvent}

-- A list of words, `as const`: the constructors, and the text of each.
pub record Words (A : Type 0) : Type 0 where
  pub word : A → String
  pub words : List A
  pub found : (a : A) → find (λ b. word b == word a) words ≡ some a

pub data Shelf : Type 0 where
  everyday work create develop operate personal explore : Shelf

abbrev pub shelf_word : Shelf → String
shelf_word Shelf.everyday = "everyday"
shelf_word Shelf.work = "work"
shelf_word Shelf.create = "create"
shelf_word Shelf.develop = "develop"
shelf_word Shelf.operate = "operate"
shelf_word Shelf.personal = "personal"
shelf_word Shelf.explore = "explore"

-- CATALOG_SHELVES
abbrev pub catalog_shelves : List Shelf
catalog_shelves =
    Shelf.everyday ∷ Shelf.work ∷ Shelf.create ∷ Shelf.develop ∷ Shelf.operate ∷ Shelf.personal
    ∷ Shelf.explore ∷ []

pub shelf-found : (a : Shelf) → find (λ b. shelf_word b == shelf_word a) catalog_shelves ≡ some a
shelf-found Shelf.everyday = refl
shelf-found Shelf.work = refl
shelf-found Shelf.create = refl
shelf-found Shelf.develop = refl
shelf-found Shelf.operate = refl
shelf-found Shelf.personal = refl
shelf-found Shelf.explore = refl

instance abbrev pub shelf_words : Words Shelf
shelf_words = record { word = shelf_word; words = catalog_shelves; found = shelf-found }

pub data Audience : Type 0 where
  general business creator developer operations power_user : Audience

abbrev pub audience_word : Audience → String
audience_word Audience.general = "general"
audience_word Audience.business = "business"
audience_word Audience.creator = "creator"
audience_word Audience.developer = "developer"
audience_word Audience.operations = "operations"
audience_word Audience.power_user = "power-user"

-- CATALOG_AUDIENCES
abbrev pub catalog_audiences : List Audience
catalog_audiences =
    Audience.general ∷ Audience.business ∷ Audience.creator ∷ Audience.developer
    ∷ Audience.operations ∷ Audience.power_user ∷ []

pub audience-found :
    (a : Audience) → find (λ b. audience_word b == audience_word a) catalog_audiences ≡ some a
audience-found Audience.general = refl
audience-found Audience.business = refl
audience-found Audience.creator = refl
audience-found Audience.developer = refl
audience-found Audience.operations = refl
audience-found Audience.power_user = refl

instance abbrev pub audience_words : Words Audience
audience_words = record { word = audience_word; words = catalog_audiences; found = audience-found }

pub data Maturity : Type 0 where
  stable preview experimental : Maturity

abbrev pub maturity_word : Maturity → String
maturity_word Maturity.stable = "stable"
maturity_word Maturity.preview = "preview"
maturity_word Maturity.experimental = "experimental"

-- CATALOG_MATURITY
abbrev pub catalog_maturity : List Maturity
catalog_maturity = Maturity.stable ∷ Maturity.preview ∷ Maturity.experimental ∷ []

pub maturity-found :
    (a : Maturity) → find (λ b. maturity_word b == maturity_word a) catalog_maturity ≡ some a
maturity-found Maturity.stable = refl
maturity-found Maturity.preview = refl
maturity-found Maturity.experimental = refl

instance abbrev pub maturity_words : Words Maturity
maturity_words = record { word = maturity_word; words = catalog_maturity; found = maturity-found }

pub data Visibility : Type 0 where
  default discoverable restricted hidden : Visibility

abbrev pub visibility_word : Visibility → String
visibility_word Visibility.default = "default"
visibility_word Visibility.discoverable = "discoverable"
visibility_word Visibility.restricted = "restricted"
visibility_word Visibility.hidden = "hidden"

-- CATALOG_VISIBILITY
abbrev pub catalog_visibility : List Visibility
catalog_visibility =
    Visibility.default ∷ Visibility.discoverable ∷ Visibility.restricted ∷ Visibility.hidden ∷ []

pub visibility-found :
    (a : Visibility)
    → find (λ b. visibility_word b == visibility_word a) catalog_visibility ≡ some a
visibility-found Visibility.default = refl
visibility-found Visibility.discoverable = refl
visibility-found Visibility.restricted = refl
visibility-found Visibility.hidden = refl

instance abbrev pub visibility_words : Words Visibility
visibility_words = record {
  word = visibility_word;
  words = catalog_visibility;
  found = visibility-found;
}

pub data Surface : Type 0 where
  user_app developer_tool admin_console platform_service : Surface

abbrev pub surface_word : Surface → String
surface_word Surface.user_app = "user-app"
surface_word Surface.developer_tool = "developer-tool"
surface_word Surface.admin_console = "admin-console"
surface_word Surface.platform_service = "platform-service"

-- CATALOG_SURFACES
abbrev pub catalog_surfaces : List Surface
catalog_surfaces =
    Surface.user_app ∷ Surface.developer_tool ∷ Surface.admin_console ∷ Surface.platform_service
    ∷ []

pub surface-found :
    (a : Surface) → find (λ b. surface_word b == surface_word a) catalog_surfaces ≡ some a
surface-found Surface.user_app = refl
surface-found Surface.developer_tool = refl
surface-found Surface.admin_console = refl
surface-found Surface.platform_service = refl

instance abbrev pub surface_words : Words Surface
surface_words = record { word = surface_word; words = catalog_surfaces; found = surface-found }

pub data ReleaseState : Type 0 where
  staged released retired : ReleaseState

abbrev pub release_word : ReleaseState → String
release_word ReleaseState.staged = "staged"
release_word ReleaseState.released = "released"
release_word ReleaseState.retired = "retired"

-- CATALOG_RELEASE_STATES
abbrev pub catalog_release_states : List ReleaseState
catalog_release_states = ReleaseState.staged ∷ ReleaseState.released ∷ ReleaseState.retired ∷ []

pub release-found :
    (a : ReleaseState)
    → find (λ b. release_word b == release_word a) catalog_release_states ≡ some a
release-found ReleaseState.staged = refl
release-found ReleaseState.released = refl
release-found ReleaseState.retired = refl

instance abbrev pub release_words : Words ReleaseState
release_words = record {
  word = release_word;
  words = catalog_release_states;
  found = release-found;
}

pub data ReviewStatus : Type 0 where
  approved pending deferred rejected : ReviewStatus

pub record CatalogProposal : Type 0 where
  pub suggested_shelves : List Shelf
  pub suggested_audiences : List Audience
  pub capabilities : List String
  pub keywords : List String
  pub submitted_at : String
  pub version : ℕ

pub record ApprovedCatalog : Type 0 where
  pub primary_shelf : Shelf
  pub secondary_shelves : List Shelf
  pub audiences : List Audience
  pub capabilities : List String
  pub maturity : Maturity
  pub visibility : Visibility
  pub surface : Surface
  pub release_state : ReleaseState
  pub approved_at : String
  pub approved_by : String
  pub version : ℕ

pub record CatalogRecord : Type 0 where
  pub tool_id : String
  pub proposal : Option CatalogProposal
  pub approved : Option ApprovedCatalog
  pub review_status : ReviewStatus

-- `SystemsApiCatalogState`; its optional maps and lists are empty where they are absent.
pub record CatalogState : Type 0 where
  pub proposals : Dict CatalogProposal
  pub approved : Dict ApprovedCatalog
  pub seed_version : Option ℕ
  pub reviews : Dict ReviewStatus
  pub approval_history : Dict (List (Option ApprovedCatalog))
  pub audit_events : List ObservabilityEvent
