-- ===== src/SystemsApi/Registry/Governance/Submission.antt =====
-- What becomes of each catalog proposal that is submitted: `saveCatalogProposal` of
-- src/systems-api/registry.ts.
use nexus_cloud.Base.{
  ltb, Bool-cases, Option-cases, ◌>>=◌, get, saved, ok, thrown, error, ◌<◌, String, ◌≡◌, refl, sym,
  ap, ◌∙◌, ◌≢◌, ◌⊎◌, inl, inr, Bool, true, false, Option, none, some, arith, ◌==◌,
}
use nexus_cloud.Base.Json.{Value, stringify}
use text.Mathlib.TextEquality.{eq_iff}
use mathlib.Core.Option.{some_inj}
use nexus_cloud.SystemsApi.Catalog.{CatalogProposal, ApprovedCatalog, CatalogRecord}
use nexus_cloud.SystemsApi.Catalog.Validation.{validate_catalog_proposal, proposal_value}
use nexus_cloud.SystemsApi.Catalog.RoundTrip.{validate_catalog_proposal_again}
use nexus_cloud.SystemsApi.Registry.{Registry, World}
use nexus_cloud.SystemsApi.Registry.Governance.{
  Reconciliation, proposal_in, approval_in, get_catalog_record, is_new_enough, same_proposal,
  checked_proposal, checked_approval, catalog_record, record_if_any, can_submit_catalog_proposal,
  committed_record, commit_catalog, proposed, with_catalog, save_valid_proposal,
  save_catalog_proposal,
}
use nexus_cloud.SystemsApi.Registry.Governance.Proposals.{IsProposed, save_catalog_proposal_outcome}

-- A tool's valid approval does not stand in the way of a proposal: there is none, the proposal has a
-- higher version, or it has the same version and is the one that is stored.
abbrev pub IsFresh : Option CatalogProposal → CatalogProposal → Option ApprovedCatalog → Type 0
IsFresh stored p none = Unit {0}
IsFresh stored p (some a) =
    (a.version < p.version)
    ⊎ ((p.version ≡ a.version)
        × ((c : CatalogProposal) × (stored ≡ some c)
            × (stringify (proposal_value c) ≡ stringify (proposal_value p))))

-- It stands in the way: the proposal has a lower version, or the same and is not the one stored.
abbrev pub IsStale : Option CatalogProposal → CatalogProposal → Option ApprovedCatalog → Type 0
IsStale stored p none = ⊥
IsStale stored p (some a) =
    (p.version < a.version)
    ⊎ ((p.version ≡ a.version)
        × ((c : CatalogProposal)
            → stored ≡ some c
            → stringify (proposal_value c) ≢ stringify (proposal_value p)))

-- The stored proposal and the approval of a tool, as far as they are valid.
abbrev pub valid_proposal : String → Registry → Option CatalogProposal
valid_proposal tool_id r = checked_proposal (get tool_id r.catalog.proposals)

abbrev pub valid_approval : String → Registry → Option ApprovedCatalog
valid_approval tool_id r = checked_approval (get tool_id r.catalog.approved)

-- Why a proposal is refused.
abbrev pub IsRefused : String → Value → Registry → Type 0
IsRefused tool_id v r =
    (validate_catalog_proposal v ≡ none)
    ⊎ (tool_id ≡ "")
    ⊎ ((p : CatalogProposal) × (validate_catalog_proposal v ≡ some p)
        × IsStale (valid_proposal tool_id r) p (valid_approval tool_id r))

-- What a proposal that is taken leaves.
abbrev pub IsTaken : String → Value → World → World → Type 0
IsTaken tool_id v w after =
    (tool_id ≢ "")
    × (p : CatalogProposal) × (validate_catalog_proposal v ≡ some p)
    × IsFresh (valid_proposal tool_id w.registry.live) p (valid_approval tool_id w.registry.live)
    × IsProposed tool_id p w.registry.live.catalog after.registry.live.catalog
    × (after.registry.file ≡ after.registry.live)

-- The record of a tool holds its valid proposal and approval.
record-valid :
    (tool_id : String) (r : Registry)
    → (proposal_in (get_catalog_record tool_id r) ≡ valid_proposal tool_id r)
      × (approval_in (get_catalog_record tool_id r) ≡ valid_approval tool_id r)
unfolding get_catalog_record catalog_record
record-valid tool_id r = of (get tool_id r.catalog.proposals) (get tool_id r.catalog.approved)
  where
    of :
        (p : Option CatalogProposal) (a : Option ApprovedCatalog)
        → (proposal_in (record_if_any tool_id (get tool_id r.catalog.reviews) p a)
            ≡ checked_proposal p)
          × (approval_in (record_if_any tool_id (get tool_id r.catalog.reviews) p a)
              ≡ checked_approval a)
    of none none = (refl, refl)
    of none (some a) = (refl, refl)
    of (some p) none = (refl, refl)
    of (some p) (some a) = (refl, refl)

same_stored :
    (stored : Option CatalogProposal) (p : CatalogProposal)
    → ((same_proposal stored p ≡ true)
        × ((c : CatalogProposal) × (stored ≡ some c)
            × (stringify (proposal_value c) ≡ stringify (proposal_value p))))
      ⊎ ((same_proposal stored p ≡ false)
          × ((c : CatalogProposal)
              → stored ≡ some c
              → stringify (proposal_value c) ≢ stringify (proposal_value p)))
unfolding same_proposal
same_stored none p = inr (refl, λ c h. cc)
same_stored (some d) p =
    elim (Bool-cases (stringify (proposal_value d) == stringify (proposal_value p))) [
      | inl e ↦
          inl (
            e,
            (d, refl, (eq_iff (stringify (proposal_value d)) (stringify (proposal_value p))).0 e),
          )
      | inr e ↦ inr (
        e,
        λ c h same.
            let both = ap (λ x. stringify (proposal_value x)) (some_inj.0 h) ∙ same in
            let equal =
              (eq_iff (stringify (proposal_value d)) (stringify (proposal_value p))).1 both in
            cc,
      )
    ]

-- The code's test decides which.
newness-cases :
    (stored : Option CatalogProposal) (p : CatalogProposal) (a : Option ApprovedCatalog)
    → ((is_new_enough stored a p ≡ true) × IsFresh stored p a)
      ⊎ ((is_new_enough stored a p ≡ false) × IsStale stored p a)
newness-cases stored p none = inl (refl, tt)
newness-cases stored p (some a) = elim (Bool-cases (ltb a.version p.version)) [
  | inl more ↦ inl (rw more refl, inl (ground arith))
  | inr not_more ↦ elim (Bool-cases (ltb p.version a.version)) [
    | inl less ↦ inr (rw (not_more, less) refl, inl (ground arith))
    | inr not_less ↦
        let equal : p.version ≡ a.version = ground arith in
        elim (same_stored stored p) [
          | inl (e, is) ↦ inl (rw (not_more, not_less, e) refl, inr (equal, is))
          | inr (e, isnt) ↦ inr (rw (not_more, not_less, e) refl, inr (equal, isnt))
        ]
  ]
]

-- Whether a proposal is newer than the tool's valid approval, or as new and stored already.
abbrev is_fresh : String → CatalogProposal → Registry → Bool
is_fresh tool_id p r =
    let found = get_catalog_record tool_id r in
    is_new_enough (proposal_in found) (approval_in found) p

is_fresh-cases :
    (tool_id : String) (p : CatalogProposal) (r : Registry)
    → ((is_fresh tool_id p r ≡ true)
        × IsFresh (valid_proposal tool_id r) p (valid_approval tool_id r))
      ⊎ ((is_fresh tool_id p r ≡ false)
          × IsStale (valid_proposal tool_id r) p (valid_approval tool_id r))
is_fresh-cases tool_id p r =
    let (x, y) = record-valid tool_id r in
    elim (newness-cases (valid_proposal tool_id r) p (valid_approval tool_id r)) [
      | inl (e, k) ↦ inl (rw (x, y) e, k)
      | inr (e, k) ↦ inr (rw (x, y) e, k)
    ]

can_submit-eq-is_fresh :
    (tool_id : String) (p : CatalogProposal) (r : Registry)
    → validate_catalog_proposal (proposal_value p) ≡ some p
    → can_submit_catalog_proposal tool_id (proposal_value p) r ≡ is_fresh tool_id p r
unfolding can_submit_catalog_proposal
can_submit-eq-is_fresh tool_id p r again = rw again

-- Where the write succeeds, the commit returns.
committed_record-saved :
    (q : Reconciliation) (tool_id : String) (p : CatalogProposal) (w : World)
    → (a : Option CatalogRecord) × (after : World) × (committed_record saved q tool_id
          (proposed tool_id p w.registry.live.catalog)
          w
        ≡ (ok a, after))
unfolding committed_record commit_catalog ◌>>=◌
committed_record-saved q tool_id p w = (
  _,
  record w {
    registry =
        let next = with_catalog (proposed tool_id p w.registry.live.catalog) w.registry.live in
        record { live = next; file = next };
  },
  refl,
)

settle_valid :
    (q : Reconciliation) (tool_id : String) (v : Value) (w : World) (p : CatalogProposal)
    → validate_catalog_proposal v ≡ some p
    → ((tool_id ≢ "")
        × IsFresh
            (valid_proposal tool_id w.registry.live)
            p
            (valid_approval tool_id w.registry.live)
        × ((a : Option CatalogRecord) × (after : World) × (save_valid_proposal saved q tool_id
                (some p)
                w
              ≡ (ok a, after))))
      ⊎ (((m : String) × (save_valid_proposal saved q tool_id (some p) w ≡ (thrown (error m), w)))
          × IsRefused tool_id v w.registry.live)
settle_valid q tool_id v w p e = elim (Bool-cases (tool_id == "")) [
  | inl blank ↦
      inr (("Invalid catalog proposal", rw blank), inr (inl ((eq_iff tool_id "").0 blank)))
  | inr named ↦
      let same =
        can_submit-eq-is_fresh tool_id p w.registry.live (validate_catalog_proposal_again v p e) in
      elim (is_fresh-cases tool_id p w.registry.live) [
        | inl (fresh, is) ↦
            let (a, after, run) = committed_record-saved q tool_id p w in
            inl (
              (λ is_blank. let equal = (eq_iff tool_id "").1 is_blank in cc),
              is,
              (a, after, rw named (rw same (rw fresh run))),
            )
        | inr (stale, is) ↦ inr (
          ("Stale catalog proposal version", rw named (rw same (rw stale))),
          inr (inr (p, e, is)),
        )
      ]
]

-- Where the registry's file can be written, a proposal that is submitted is either taken or refused. It
-- is refused, with an exception and with the registry and the platform state as they were, where it
-- is invalid, names no tool, has a lower version than the valid approval of the tool, or has the same
-- version and is not the proposal that is stored. Where it is taken it names a tool, there is no valid
-- approval, or its version is higher, or it is the same and so is the stored proposal; it is stored, in memory and in the file; every
-- other proposal, every approval, the histories and the ledger are left as they are, and the review
-- of the tool is pending, or what it was where the stored proposal was the same.
pub save_catalog_proposal_settles :
    (q : Reconciliation) (tool_id : String) (v : Value) (w : World)
    → ((a : Option CatalogRecord) × (after : World) × (save_catalog_proposal saved q tool_id v w
          ≡ (ok a, after))
        × IsTaken tool_id v w after)
      ⊎ (((m : String) × (save_catalog_proposal saved q tool_id v w ≡ (thrown (error m), w)))
          × IsRefused tool_id v w.registry.live)
unfolding save_catalog_proposal
save_catalog_proposal_settles q tool_id v w = elim (Option-cases (validate_catalog_proposal v)) [
  | inl e ↦ inr (("Invalid catalog proposal", rw e), inl e)
  | inr (p, e) ↦ elim (settle_valid q tool_id v w p e) [
    | inl (named, fresh, (a, after, run)) ↦
        let done : save_catalog_proposal saved q tool_id v w ≡ (ok a, after) = rw e run in
        let (p', e', _, changed, file) =
          save_catalog_proposal_outcome saved q tool_id v w a after done in
        let same : p' ≡ p = some_inj.0 (sym e' ∙ e) in
        inl (a, after, done, (named, p, e, fresh, rw same at changed, file))
    | inr ((m, run), why) ↦ inr ((m, rw e run), why)
  ]
]
