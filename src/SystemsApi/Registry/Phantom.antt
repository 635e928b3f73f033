-- ===== src/SystemsApi/Registry/Phantom.antt =====
-- What the phantom-hardened tag of a route stands for.
use nexus_cloud.Base.{
  eqb, if◌then◌else◌, length, String, ◌≡◌, refl, Bool, true, false, not, ◌&&◌, Option, none, some,
  List, [], ◌++◌, arith,
}
use nexus_cloud.SystemsApi.Types.{PhantomProfile, PhantomMetadata, SecurityTag}
use nexus_cloud.SystemsApi.Registry.{
  failure_if, is_blank, is_empty, metadata_failures, evaluate_phantom_compliance,
  phantom_security_tag,
}

-- Every text of the metadata is there and is not empty, and an algorithm is listed.
abbrev pub is_complete : Option PhantomMetadata → Bool
is_complete none = false
is_complete (some m) =
    not (is_empty m.pq_algorithms)
    && not (is_blank m.fhe_scheme)
    && not (is_blank m.zk_proof_system)
    && not (is_blank m.proof_attestation)
    && not (is_blank m.proof_endpoint)

abbrev pub is_hardened : PhantomProfile → Bool
is_hardened p =
    p.claimed_secured
    && (p.guarantees.post_quantum && p.guarantees.fhe_transport && p.guarantees.zk_proofs)
    && is_complete p.metadata

abbrev pub is_hardened_tool : Option PhantomProfile → Bool
is_hardened_tool none = false
is_hardened_tool (some p) = is_hardened p

-- A list of failures is empty.
abbrev none_failed : List String → Bool
none_failed failures = eqb (length failures) 0

none_failed-append :
    (b : Bool) (message : String) (rest : List String)
    → none_failed (failure_if b message ++ rest) ≡ (not b && none_failed rest)
none_failed-append true message rest = ground arith
none_failed-append false message rest = refl

none_failed-metadata :
    (o : Option PhantomMetadata) → none_failed (metadata_failures o) ≡ is_complete o
none_failed-metadata none = refl
none_failed-metadata (some m) =
    of (is_empty m.pq_algorithms) (is_blank m.fhe_scheme) (is_blank m.zk_proof_system)
      (is_blank m.proof_attestation) (is_blank m.proof_endpoint)
  where
    of :
        (a b c d e : Bool)
        → none_failed (
            failure_if a "missing pqAlgorithms metadata"
            ++ failure_if b "missing fheScheme metadata"
            ++ failure_if c "missing zkProofSystem metadata"
            ++ failure_if d "missing proofAttestation metadata"
            ++ failure_if e "missing proofEndpoint metadata")
          ≡ (not a && not b && not c && not d && not e)
    of true b c d e = ground arith
    of false true c d e = ground arith
    of false false true d e = ground arith
    of false false false true e = ground arith
    of false false false false true = ground arith
    of false false false false false = refl

tag_of_profile :
    (p : PhantomProfile)
    → phantom_security_tag (some p)
      ≡ (if is_hardened p then SecurityTag.phantom_hardened else SecurityTag.transitional)
unfolding phantom_security_tag evaluate_phantom_compliance
tag_of_profile p =
    of p.claimed_secured p.guarantees.post_quantum p.guarantees.fhe_transport p.guarantees.zk_proofs
      (metadata_failures p.metadata) (is_complete p.metadata) (none_failed-metadata p.metadata)
  where
    of :
        (claimed a b c : Bool) (failures : List String) (complete : Bool)
        → none_failed failures ≡ complete
        → (if not claimed
            then SecurityTag.transitional
            else if none_failed (
                if not claimed
                then []
                else failure_if (not a) "missing post-quantum guarantee"
                  ++ failure_if (not b) "missing FHE transport guarantee"
                  ++ failure_if (not c) "missing zk proof guarantee"
                  ++ failures)
            then SecurityTag.phantom_hardened
            else SecurityTag.transitional)
          ≡ (if claimed && (a && b && c) && complete
              then SecurityTag.phantom_hardened
              else SecurityTag.transitional)
    of false a b c failures complete h = refl
    of true false b c failures complete h = ground arith
    of true true false c failures complete h = ground arith
    of true true true false failures complete h = ground arith
    of true true true true failures complete h = rw h refl

-- A tool is tagged phantom-hardened exactly where it has a profile that claims it, gives all three
-- guarantees, and documents them: an algorithm, a scheme, a proof system, an attestation and an
-- endpoint, none of them empty. A tool without a profile is tagged transitional.
pub phantom_security_tag-hardened :
    (profile : Option PhantomProfile)
    → phantom_security_tag profile ≡ (
        if is_hardened_tool profile then SecurityTag.phantom_hardened else SecurityTag.transitional)
unfolding phantom_security_tag
phantom_security_tag-hardened none = refl
phantom_security_tag-hardened (some p) = tag_of_profile p
