-- ===== src/SystemsApi/Registry/Governance/Ledger.antt =====
-- A decision and its audit event are written together, and a key decides once:
-- `decideCatalog` of src/systems-api/registry.ts.
use nexus_cloud.Base.{
  is_some, WriteOutcome, Env, now, Result, pure, proceed, ◌>>=◌, saved, lost, replaced, ok, thrown,
  write_failed, String, ◌≡◌, refl, ◌⊎◌, inl, inr, Bool, true, false, ◌&&◌, Option, none, some, [],
  ◌∷◌, ◌++◌, arith,
}
use nexus_cloud.Base.Json.{Value}
use nexus_cloud.Observability.Types.{ObservabilityEvent}
use nexus_cloud.SystemsApi.Catalog.{CatalogRecord, CatalogState}
use nexus_cloud.SystemsApi.Registry.{Registry, World}
use nexus_cloud.SystemsApi.Registry.Governance.{
  Reconciliation, unread, synced, unsynced, with_catalog, commit_catalog, catalog_record,
  get_catalog_record,
}
use nexus_cloud.SystemsApi.Registry.Governance.Decisions.{
  CatalogAction, find_catalog_decision_by_key, decision_event, decided, with_event, commit_decision,
  decide_anew, decide_catalog,
}

-- Memory and file hold the snapshot.
abbrev pub Stored : World → Registry → World → Type 0
Stored w snapshot after = after.registry ≡ record { live = snapshot; file = snapshot }

-- Nothing was written, the file alone holds the snapshot, or both do.
abbrev pub Unreported : World → Registry → World → Type 0
Unreported w snapshot after =
    (after.registry ≡ w.registry)
    ⊎ (after.registry ≡ record { live = w.registry.live; file = snapshot })
    ⊎ Stored w snapshot after

-- What a write of a catalog leaves: the answer where it returns, or a failure.
abbrev pub Landed : {A : Type 0} → A → World → Registry → Result A × World → Type 0
Landed answer w snapshot r =
    ((r.0 ≡ ok answer) × Stored w snapshot r.1)
    ⊎ ((r.0 ≡ thrown write_failed) × (r.1.platform ≡ w.platform) × Unreported w snapshot r.1)

commit_decision-Landed :
    (env : Env) (o : WriteOutcome) (q : Reconciliation) (next : CatalogState)
    (event : ObservabilityEvent) (w : World)
    → env.write 0 ≡ o
    → Landed tt w
        (with_catalog (with_event next event) w.registry.live)
        (commit_decision env q next event w)
unfolding commit_decision commit_catalog ◌>>=◌
commit_decision-Landed env saved q next event w h = rw h (inl (refl, refl))
commit_decision-Landed env lost q next event w h = rw h (inr (refl, refl, inl refl))
commit_decision-Landed env replaced unread next event w h = rw h (inr (refl, refl, inr (inl refl)))
commit_decision-Landed env replaced synced next event w h = rw h (inl (refl, refl))
commit_decision-Landed env replaced unsynced next event w h =
    rw h (inr (refl, refl, inr (inr refl)))

&&-false : (b : Bool) → (b && false) ≡ false
&&-false true = refl
&&-false false = refl

-- What follows on a write that landed is the answer alone.
Landed-answer :
    {A : Type 0} (a : A) (w : World) (snapshot : Registry) (r : Result (Unit {0}) × World)
    → Landed tt w snapshot r
    → Landed a w snapshot (proceed r (λ _. pure a))
Landed-answer a w snapshot (ok _, u) h = elim h [
  | inl kept ↦ inl (refl, kept.1)
  | inr failed ↦ absurd (ground (arith, failed.0))
]
Landed-answer a w snapshot (thrown e, u) h = elim h [
  | inl kept ↦ absurd (ground (arith, kept.0))
  | inr failed ↦
      inr ((let same : e ≡ write_failed = ground (arith, failed.0) in rw same), failed.1, failed.2)
]

-- The event of a decision on the record of a catalog.
abbrev pub event_of :
    Env
    → String
    → CatalogAction
    → String
    → String
    → CatalogState
    → CatalogState
    → ObservabilityEvent
event_of env tool_id action actor key c next =
    decision_event (now env 0) tool_id action actor key (catalog_record c tool_id)
      (catalog_record next tool_id)

-- A decision that has something to decide writes the catalog that it decides on together with its
-- audit event. Where it returns, it answers with the new record, and memory and file hold both. Where
-- it throws, the file holds both or is untouched, memory holds both (with the file) or is untouched,
-- and the platform state is untouched: no decision is stored without its event, and no event without
-- its decision.
pub decision_is_atomic :
    (env : Env) (q : Reconciliation) (tool_id : String) (action : CatalogAction) (actor : String)
    (approved : Value) (key : String) (w : World) (next : CatalogState)
    → find_catalog_decision_by_key key w.registry.live ≡ none
    → decided w.registry.live.catalog tool_id action approved ≡ some next
    → Landed
        (catalog_record next tool_id)
        w
        (with_catalog
          (record next {
            audit_events =
                next.audit_events
                ++ event_of env tool_id action actor key w.registry.live.catalog next ∷ [];
          })
          w.registry.live)
        (decide_catalog env q tool_id action actor approved key w)
unfolding decide_catalog decide_anew ◌>>=◌
decision_is_atomic env q tool_id action actor approved key w next new found =
    let event = event_of env tool_id action actor key w.registry.live.catalog next in
    let written = commit_decision-Landed env (env.write 0) q next event w refl in
    rw new
      (rw found (rw &&-false (Landed-answer _ w _ (commit_decision env q next event w) written)))

-- The answer is the tool's record, or the write failed; memory is what it was.
abbrev pub Unchanged : String → World → Result (Option CatalogRecord) × World → Type 0
Unchanged tool_id w r =
    ((r.0 ≡ ok (get_catalog_record tool_id w.registry.live)) ⊎ (r.0 ≡ thrown write_failed))
    × (r.1.registry.live ≡ w.registry.live)
    × (r.1.platform ≡ w.platform)

abbrev known : String → Registry → Bool
known key r = is_some (find_catalog_decision_by_key key r)
