-- ===== src/SystemsApi/Store/Objects.antt =====
-- What the sanitizers of src/systems-api/store.ts read of an object: texts, flags, words, paths and
-- security profiles.
use nexus_cloud.Base.{
  eqb, if◌then◌else◌, or_else, is_some, ℕ, String, Bool, true, false, not, ◌&&◌, ◌||◌, Option, none,
  some, List, [], ◌∷◌, ◌==◌,
}
use nexus_cloud.Base.Json.{Value, arr, obj, num, str, flag, null, listed, get_field}
use nexus_cloud.SystemsApi.Types.{PhantomMetadata, PhantomProfile, ProtectionLevel}
use nexus_cloud.SystemsApi.Catalog.{Words}
use nexus_cloud.SystemsApi.Catalog.Validation.{◌>>=◌, is_one_of}
use nexus_cloud.SystemsApi.Paths.{is_safe_relative_path}
use nexus_cloud.SystemsApi.Store.PublishedWords.{
  url_status_words, exposure_status_words, address_status_words, kind_words, domain_status_words,
}
use nexus_cloud.SystemsApi.Store.Vocabulary.{
  mode_words, health_words, registration_words, tool_exposure_words, delivery_words, level_words,
  action_words,
}

-- The properties of an object, by name.
abbrev pub Object : Type 0
Object = String → Option Value

-- `typeof value === "string" ? value : undefined`
abbrev pub text_in : Option Value → Option String
text_in (some (str s)) = some s
text_in _ = none

abbrev pub flag_in : Option Value → Option Bool
flag_in (some (flag b)) = some b
flag_in _ = none

-- A finite number; counts are whole and not negative.
abbrev pub count_in : Option Value → Option ℕ
count_in (some (num n)) = some n
count_in _ = none

-- One of the words of a type.
abbrev pub word_in : {A : Type 0} ⦃w : Words A⦄ → Option Value → Option A
word_in none = none
word_in (some v) = is_one_of v

-- `Boolean(value)`
abbrev pub is_truthy : Option Value → Bool
is_truthy none = false
is_truthy (some null) = false
is_truthy (some (flag b)) = b
is_truthy (some (num n)) = not (eqb n 0)
is_truthy (some (str s)) = not (s == "")
is_truthy (some _) = true

-- `isObject`
abbrev pub object_in : Option Value → Option Object
object_in (some (obj fs)) = some (λ name. get_field name (obj fs))
object_in _ = none

abbrev pub texts_among : List Value → List String
texts_among [] = []
texts_among (v ∷ vs) =
    let rest = texts_among vs in elim (text_in (some v)) [ none ↦ rest | some s ↦ s ∷ rest ]

-- `toStringArray`
abbrev pub to_string_array : Option Value → List String
to_string_array (some (arr vs)) = texts_among (listed vs)
to_string_array _ = []

-- `texts.length > 0 ? texts : undefined`
abbrev pub unless_empty : List String → Option (List String)
unless_empty [] = none
unless_empty (s ∷ ss) = some (s ∷ ss)

abbrev pub are_named : List String → Bool
are_named [] = true
are_named (s ∷ ss) = not (s == "") && are_named ss

unfoldable pub sanitize_relative_path : Option Value → Option String
sanitize_relative_path v =
    text_in v >>= λ path. if is_safe_relative_path path then some path else none

abbrev pub has_metadata : PhantomMetadata → Bool
has_metadata m =
    is_some m.pq_algorithms
    || is_some m.fhe_scheme
    || is_some m.zk_proof_system
    || is_some m.proof_attestation
    || is_some m.proof_endpoint
    || is_some m.last_verified_at

-- `sanitizePhantomSecurityMetadata`, of an object
unfoldable pub metadata_of : Object → Option PhantomMetadata
metadata_of value =
    let metadata : PhantomMetadata = record {
      pq_algorithms = unless_empty (to_string_array (value "pqAlgorithms"));
      fhe_scheme = text_in (value "fheScheme");
      zk_proof_system = text_in (value "zkProofSystem");
      proof_attestation = text_in (value "proofAttestation");
      proof_endpoint = text_in (value "proofEndpoint");
      last_verified_at = text_in (value "lastVerifiedAt");
    } in
    if has_metadata metadata then some metadata else none

abbrev pub sanitize_phantom_security_metadata : Option Value → Option PhantomMetadata
sanitize_phantom_security_metadata v = object_in v >>= metadata_of

-- `sanitizePhantomSecurityProfile`, of an object and its guarantees
unfoldable pub profile_of : Object → Object → Option PhantomProfile
unfolding metadata_of
profile_of value guarantees = do
  claimed_secured ← flag_in (value "claimedSecured")
  post_quantum ← flag_in (guarantees "postQuantum")
  fhe_transport ← flag_in (guarantees "fheTransport")
  zk_proofs ← flag_in (guarantees "zkProofs")
  some (record {
    claimed_secured = claimed_secured;
    protection_level = or_else (word_in (value "protectionLevel")) ProtectionLevel.transitional;
    guarantees = record {
      post_quantum = post_quantum;
      fhe_transport = fhe_transport;
      zk_proofs = zk_proofs;
    };
    metadata = sanitize_phantom_security_metadata (value "metadata");
  })

abbrev pub sanitize_phantom_security_profile : Option Value → Option PhantomProfile
sanitize_phantom_security_profile v =
    object_in v >>= λ value. object_in (value "guarantees") >>= profile_of value
