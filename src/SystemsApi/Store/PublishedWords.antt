-- ===== src/SystemsApi/Store/PublishedWords.antt =====
-- The words of addresses, exposures, public URLs and domains in the registry's file, as the sanitizers
-- of src/systems-api/store.ts know them.
use nexus_cloud.Base.{find, String, ◌≡◌, refl, some, List, [], ◌∷◌, ◌==◌}
use nexus_cloud.SystemsApi.Types.{
  PublicUrlStatus, ExposureStatus, AddressStatus, AddressKind, DomainStatus,
}
use nexus_cloud.SystemsApi.Catalog.{Words}

abbrev pub url_status_word : PublicUrlStatus → String
url_status_word PublicUrlStatus.active = "active"
url_status_word PublicUrlStatus.pending = "pending"
url_status_word PublicUrlStatus.revoked = "revoked"

abbrev pub url_status_list : List PublicUrlStatus
url_status_list = PublicUrlStatus.active ∷ PublicUrlStatus.pending ∷ PublicUrlStatus.revoked ∷ []

pub url_status-found :
    (a : PublicUrlStatus)
    → find (λ b. url_status_word b == url_status_word a) url_status_list ≡ some a
url_status-found PublicUrlStatus.active = refl
url_status-found PublicUrlStatus.pending = refl
url_status-found PublicUrlStatus.revoked = refl

instance abbrev pub url_status_words : Words PublicUrlStatus
url_status_words = record {
  word = url_status_word;
  words = url_status_list;
  found = url_status-found;
}

abbrev pub exposure_status_word : ExposureStatus → String
exposure_status_word ExposureStatus.requested = "requested"
exposure_status_word ExposureStatus.active = "active"
exposure_status_word ExposureStatus.suspended = "suspended"
exposure_status_word ExposureStatus.quarantined = "quarantined"
exposure_status_word ExposureStatus.denied = "denied"
exposure_status_word ExposureStatus.revoked = "revoked"

abbrev pub exposure_status_list : List ExposureStatus
exposure_status_list =
    ExposureStatus.requested ∷ ExposureStatus.active ∷ ExposureStatus.suspended
    ∷ ExposureStatus.quarantined ∷ ExposureStatus.denied ∷ ExposureStatus.revoked ∷ []

pub exposure_status-found :
    (a : ExposureStatus)
    → find (λ b. exposure_status_word b == exposure_status_word a) exposure_status_list ≡ some a
exposure_status-found ExposureStatus.requested = refl
exposure_status-found ExposureStatus.active = refl
exposure_status-found ExposureStatus.suspended = refl
exposure_status-found ExposureStatus.quarantined = refl
exposure_status-found ExposureStatus.denied = refl
exposure_status-found ExposureStatus.revoked = refl

instance abbrev pub exposure_status_words : Words ExposureStatus
exposure_status_words = record {
  word = exposure_status_word;
  words = exposure_status_list;
  found = exposure_status-found;
}

abbrev pub address_status_word : AddressStatus → String
address_status_word AddressStatus.requested = "requested"
address_status_word AddressStatus.active = "active"
address_status_word AddressStatus.revoked = "revoked"

abbrev pub address_status_list : List AddressStatus
address_status_list = AddressStatus.requested ∷ AddressStatus.active ∷ AddressStatus.revoked ∷ []

pub address_status-found :
    (a : AddressStatus)
    → find (λ b. address_status_word b == address_status_word a) address_status_list ≡ some a
address_status-found AddressStatus.requested = refl
address_status-found AddressStatus.active = refl
address_status-found AddressStatus.revoked = refl

instance abbrev pub address_status_words : Words AddressStatus
address_status_words = record {
  word = address_status_word;
  words = address_status_list;
  found = address_status-found;
}

abbrev pub kind_word : AddressKind → String
kind_word AddressKind.website = "website"
kind_word AddressKind.email = "email"
kind_word AddressKind.server = "server"
kind_word AddressKind.custom = "custom"

abbrev pub kind_list : List AddressKind
kind_list = AddressKind.website ∷ AddressKind.email ∷ AddressKind.server ∷ AddressKind.custom ∷ []

pub kind-found : (a : AddressKind) → find (λ b. kind_word b == kind_word a) kind_list ≡ some a
kind-found AddressKind.website = refl
kind-found AddressKind.email = refl
kind-found AddressKind.server = refl
kind-found AddressKind.custom = refl

instance abbrev pub kind_words : Words AddressKind
kind_words = record { word = kind_word; words = kind_list; found = kind-found }

abbrev pub domain_status_word : DomainStatus → String
domain_status_word DomainStatus.pending = "pending"
domain_status_word DomainStatus.verified = "verified"
domain_status_word DomainStatus.quarantined = "quarantined"
domain_status_word DomainStatus.denied = "denied"
domain_status_word DomainStatus.revoked = "revoked"
domain_status_word DomainStatus.expired = "expired"

abbrev pub domain_status_list : List DomainStatus
domain_status_list =
    DomainStatus.pending ∷ DomainStatus.verified ∷ DomainStatus.quarantined ∷ DomainStatus.denied
    ∷ DomainStatus.revoked ∷ DomainStatus.expired ∷ []

pub domain_status-found :
    (a : DomainStatus)
    → find (λ b. domain_status_word b == domain_status_word a) domain_status_list ≡ some a
domain_status-found DomainStatus.pending = refl
domain_status-found DomainStatus.verified = refl
domain_status-found DomainStatus.quarantined = refl
domain_status-found DomainStatus.denied = refl
domain_status-found DomainStatus.revoked = refl
domain_status-found DomainStatus.expired = refl

instance abbrev pub domain_status_words : Words DomainStatus
domain_status_words = record {
  word = domain_status_word;
  words = domain_status_list;
  found = domain_status-found;
}
