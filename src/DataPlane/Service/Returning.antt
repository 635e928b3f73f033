-- ===== src/DataPlane/Service/Returning.antt =====
-- Stopping a workload returns where the state file can be written: src/data-plane/service.ts.
use nexus_cloud.Base.{
  length, filter, All, Distinct, WriteOutcome, Env, later, Action, pure, ◌>>=◌, saved, ok, ℕ, ◌+◌,
  ◌*◌, String, ◌≡◌, refl, false, List, [], ◌∷◌,
}
use nexus_cloud.DataPlane.Types.{DataPlaneUnit}
use nexus_cloud.DataPlane.Units.{unit_draft, unit_check, save_unit}
use nexus_cloud.DataPlane.Service.{
  runs_for, stopped_unit, stopped_event, stop_units, report_stopped, stop_workload,
}
use nexus_cloud.DataPlane.Service.Stopping.{stop_workload_stops}
use nexus_cloud.Observability.Types.{ObservabilityEvent}
use nexus_cloud.Observability.Service.{
  Platform, on_store, append_if_audit, push_draft, check_draft, record_event, upsert_health_check,
}
use nexus_cloud.State.Types.{PlatformState}
use nexus_cloud.State.{mutate_state, save_state}

-- Every write of a state file succeeds.
abbrev pub AllSaved : Env → Type 0
AllSaved env = (i : ℕ) → env.write i ≡ saved

abbrev Returns : {A : Type 0} → Action Platform A → Type 0
Returns m = (p : Platform) → (a : _) × (p' : Platform) × (m p ≡ (ok a, p'))

bind-Returns :
    {A B : Type 0} (m : Action Platform A) (f : A → Action Platform B)
    → Returns m
    → ((a : A) → Returns (f a))
    → Returns (m >>= f)
unfolding ◌>>=◌
bind-Returns m f h k p = let (a, p1, e) = h p in let (b, p2, e2) = k a p1 in (b, p2, rw e e2)

pure-Returns : {A : Type 0} (a : A) → Returns (pure a)
pure-Returns a p = (a, p, refl)

stored-Returns :
    {A : Type 0} (o : WriteOutcome) (a : A) (f : PlatformState → PlatformState)
    → o ≡ saved
    → Returns (on_store (mutate_state o (λ s. (ok a, f s))))
unfolding mutate_state save_state
stored-Returns o a f h p =
    let next = f p.store.live in (a, record p { store = record { live = next; file = next } }, rw h)

record_event-Returns :
    (env : Env) (event : ObservabilityEvent) → AllSaved env → Returns (record_event env event)
unfolding record_event
record_event-Returns env event h p =
    stored-Returns (env.write 1) event (λ s. (push_draft event s).1) (h 1)
      (append_if_audit (env.write 0) event.kind event p)

save_unit-Returns : (env : Env) (unit : DataPlaneUnit) → AllSaved env → Returns (save_unit env unit)
unfolding save_unit upsert_health_check
save_unit-Returns env unit h =
    bind-Returns _ _ (stored-Returns (env.write 0) tt (λ s. (unit_draft unit s).1) (h 0)) λ _.
      bind-Returns _ _
        (stored-Returns (env.write 1) (unit_check env unit)
          (λ s. (check_draft (unit_check env unit) s).1) (h 1))
        (λ _. pure-Returns unit)

stop_units-Returns :
    (env : Env) (units : List DataPlaneUnit) → AllSaved env → Returns (stop_units env units)
unfolding stop_units
stop_units-Returns env [] h = pure-Returns []
stop_units-Returns env (unit ∷ units) h =
    bind-Returns _ _ (save_unit-Returns env (stopped_unit env unit) h) λ first.
      bind-Returns _ _ (stop_units-Returns (later 2 env) units (λ i. h (2 + i)))
        λ rest. pure-Returns (first ∷ rest)

report_stopped-Returns :
    (env : Env) (workload_id : String) (units : List DataPlaneUnit)
    → AllSaved env
    → Returns (report_stopped env workload_id units)
unfolding report_stopped
report_stopped-Returns env workload_id [] h = pure-Returns []
report_stopped-Returns env workload_id (unit ∷ units) h =
    bind-Returns _ _ (record_event-Returns env (stopped_event env workload_id) h)
      (λ _. pure-Returns (unit ∷ units))

stop_workload-Returns :
    (env : Env) (workload_id : String) → AllSaved env → Returns (stop_workload env workload_id)
unfolding stop_workload
stop_workload-Returns env workload_id h =
    bind-Returns _ _ (λ q. (filter (runs_for workload_id) q.store.live.units, q, refl))
      λ units. bind-Returns _ _ (stop_units-Returns env units h) λ out.
        report_stopped-Returns (later (2 * length units) env) workload_id out
          (λ i. h (2 * length units + i))

-- Where every write of the state file succeeds, stopping a workload returns, and none of its units is
-- running any more, if unit ids are distinct.
pub stop_workload_returns :
    (env : Env) (workload_id : String) (p : Platform)
    → AllSaved env
    → Distinct (λ u. u.id) p.store.live.units
    → (stopped : List DataPlaneUnit) × (p' : Platform) × (stop_workload env workload_id p
        ≡ (ok stopped, p'))
      × All (λ u. runs_for workload_id u ≡ false) p'.store.live.units
stop_workload_returns env workload_id p h d =
    let (stopped, p', e) = stop_workload-Returns env workload_id h p in
    (stopped, p', e, stop_workload_stops env workload_id p p' stopped d e)
