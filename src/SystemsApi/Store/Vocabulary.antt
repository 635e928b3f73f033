-- ===== src/SystemsApi/Store/Vocabulary.antt =====
-- The words of the registry's file, as the sanitizers of src/systems-api/store.ts know them.
use nexus_cloud.SystemsApi.Store.PublishedWords.{
  url_status_words, exposure_status_words, address_status_words, kind_words, domain_status_words,
}
use nexus_cloud.Base.{find, String, ◌≡◌, refl, some, List, [], ◌∷◌, ◌==◌}
use nexus_cloud.SystemsApi.Types.{
  Mode, ToolHealth, RegistrationStatus, ToolExposure, Delivery, ProtectionLevel, HistoryAction,
}
use nexus_cloud.SystemsApi.Catalog.{Words}

abbrev pub mode_word : Mode → String
mode_word Mode.standalone = "standalone"
mode_word Mode.orchestrated = "orchestrated"

abbrev pub mode_list : List Mode
mode_list = Mode.standalone ∷ Mode.orchestrated ∷ []

pub mode-found : (a : Mode) → find (λ b. mode_word b == mode_word a) mode_list ≡ some a
mode-found Mode.standalone = refl
mode-found Mode.orchestrated = refl

instance abbrev pub mode_words : Words Mode
mode_words = record { word = mode_word; words = mode_list; found = mode-found }

abbrev pub health_word : ToolHealth → String
health_word ToolHealth.healthy = "healthy"
health_word ToolHealth.degraded = "degraded"
health_word ToolHealth.offline = "offline"

abbrev pub health_list : List ToolHealth
health_list = ToolHealth.healthy ∷ ToolHealth.degraded ∷ ToolHealth.offline ∷ []

pub health-found :
    (a : ToolHealth) → find (λ b. health_word b == health_word a) health_list ≡ some a
health-found ToolHealth.healthy = refl
health-found ToolHealth.degraded = refl
health-found ToolHealth.offline = refl

instance abbrev pub health_words : Words ToolHealth
health_words = record { word = health_word; words = health_list; found = health-found }

abbrev pub registration_word : RegistrationStatus → String
registration_word RegistrationStatus.registered = "registered"
registration_word RegistrationStatus.active = "active"
registration_word RegistrationStatus.offline = "offline"

abbrev pub registration_list : List RegistrationStatus
registration_list =
    RegistrationStatus.registered ∷ RegistrationStatus.active ∷ RegistrationStatus.offline ∷ []

pub registration-found :
    (a : RegistrationStatus)
    → find (λ b. registration_word b == registration_word a) registration_list ≡ some a
registration-found RegistrationStatus.registered = refl
registration-found RegistrationStatus.active = refl
registration-found RegistrationStatus.offline = refl

instance abbrev pub registration_words : Words RegistrationStatus
registration_words = record {
  word = registration_word;
  words = registration_list;
  found = registration-found;
}

abbrev pub tool_exposure_word : ToolExposure → String
tool_exposure_word ToolExposure.private = "private"
tool_exposure_word ToolExposure.public = "public"
tool_exposure_word ToolExposure.pending = "pending"

abbrev pub tool_exposure_list : List ToolExposure
tool_exposure_list = ToolExposure.private ∷ ToolExposure.public ∷ ToolExposure.pending ∷ []

pub tool_exposure-found :
    (a : ToolExposure)
    → find (λ b. tool_exposure_word b == tool_exposure_word a) tool_exposure_list ≡ some a
tool_exposure-found ToolExposure.private = refl
tool_exposure-found ToolExposure.public = refl
tool_exposure-found ToolExposure.pending = refl

instance abbrev pub tool_exposure_words : Words ToolExposure
tool_exposure_words = record {
  word = tool_exposure_word;
  words = tool_exposure_list;
  found = tool_exposure-found;
}

abbrev pub delivery_word : Delivery → String
delivery_word Delivery.shell_native = "shell-native"
delivery_word Delivery.proxied_app = "proxied-app"
delivery_word Delivery.framed = "framed"
delivery_word Delivery.external = "external"

abbrev pub delivery_list : List Delivery
delivery_list =
    Delivery.shell_native ∷ Delivery.proxied_app ∷ Delivery.framed ∷ Delivery.external ∷ []

pub delivery-found :
    (a : Delivery) → find (λ b. delivery_word b == delivery_word a) delivery_list ≡ some a
delivery-found Delivery.shell_native = refl
delivery-found Delivery.proxied_app = refl
delivery-found Delivery.framed = refl
delivery-found Delivery.external = refl

instance abbrev pub delivery_words : Words Delivery
delivery_words = record { word = delivery_word; words = delivery_list; found = delivery-found }

abbrev pub level_word : ProtectionLevel → String
level_word ProtectionLevel.transitional = "transitional"
level_word ProtectionLevel.hardened = "hardened"
level_word ProtectionLevel.maximum = "maximum"

abbrev pub level_list : List ProtectionLevel
level_list = ProtectionLevel.transitional ∷ ProtectionLevel.hardened ∷ ProtectionLevel.maximum ∷ []

pub level-found :
    (a : ProtectionLevel) → find (λ b. level_word b == level_word a) level_list ≡ some a
level-found ProtectionLevel.transitional = refl
level-found ProtectionLevel.hardened = refl
level-found ProtectionLevel.maximum = refl

instance abbrev pub level_words : Words ProtectionLevel
level_words = record { word = level_word; words = level_list; found = level-found }

abbrev pub action_word : HistoryAction → String
action_word HistoryAction.registered = "registered"
action_word HistoryAction.updated = "updated"
action_word HistoryAction.enabled = "enabled"
action_word HistoryAction.disabled = "disabled"
action_word HistoryAction.heartbeat_received = "heartbeat-received"
action_word HistoryAction.public_url_issued = "public-url-issued"
action_word HistoryAction.public_url_revoked = "public-url-revoked"
action_word HistoryAction.address_issued = "address-issued"
action_word HistoryAction.address_revoked = "address-revoked"
action_word HistoryAction.domain_bound = "domain-bound"
action_word HistoryAction.domain_verified = "domain-verified"
action_word HistoryAction.domain_revoked = "domain-revoked"
action_word HistoryAction.exposure_requested = "exposure-requested"
action_word HistoryAction.exposure_activated = "exposure-activated"
action_word HistoryAction.exposure_revoked = "exposure-revoked"

abbrev pub action_list : List HistoryAction
action_list =
    HistoryAction.registered ∷ HistoryAction.updated ∷ HistoryAction.enabled
    ∷ HistoryAction.disabled ∷ HistoryAction.heartbeat_received ∷ HistoryAction.public_url_issued
    ∷ HistoryAction.public_url_revoked ∷ HistoryAction.address_issued
    ∷ HistoryAction.address_revoked ∷ HistoryAction.domain_bound ∷ HistoryAction.domain_verified
    ∷ HistoryAction.domain_revoked ∷ HistoryAction.exposure_requested
    ∷ HistoryAction.exposure_activated ∷ HistoryAction.exposure_revoked ∷ []

pub action-found :
    (a : HistoryAction) → find (λ b. action_word b == action_word a) action_list ≡ some a
action-found HistoryAction.registered = refl
action-found HistoryAction.updated = refl
action-found HistoryAction.enabled = refl
action-found HistoryAction.disabled = refl
action-found HistoryAction.heartbeat_received = refl
action-found HistoryAction.public_url_issued = refl
action-found HistoryAction.public_url_revoked = refl
action-found HistoryAction.address_issued = refl
action-found HistoryAction.address_revoked = refl
action-found HistoryAction.domain_bound = refl
action-found HistoryAction.domain_verified = refl
action-found HistoryAction.domain_revoked = refl
action-found HistoryAction.exposure_requested = refl
action-found HistoryAction.exposure_activated = refl
action-found HistoryAction.exposure_revoked = refl

instance abbrev pub action_words : Words HistoryAction
action_words = record { word = action_word; words = action_list; found = action-found }
