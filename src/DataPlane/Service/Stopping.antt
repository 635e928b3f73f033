-- ===== src/DataPlane/Service/Stopping.antt =====
-- After a workload is stopped none of its units is running: src/data-plane/service.ts.
use nexus_cloud.Base.{
  Bool-cases, opt_is, length, filter, upsert, All, Any, All-weaken, Distinct, Distinct-upsert,
  WriteOutcome, Env, later, Result, gets-bind, bind-eq-ok, saved, lost, replaced, ok, ◌*◌, String,
  ◌≡◌, refl, sym, ap, ◌∙◌, ◌≢◌, inl, inr, true, false, List, [], ◌∷◌, arith, ◌==◌, eq_iff,
}
use mathlib.Core.Path.{subst}
use nexus_cloud.Observability.Service.Effects.{upsert_health_check-eq-ok, record_event-eq-ok}
use nexus_cloud.DataPlane.Types.{DataPlaneUnit}
use nexus_cloud.Observability.Service.{Platform, on_store, record_event, upsert_health_check}
use nexus_cloud.State.Types.{PlatformState}
use nexus_cloud.State.{mutate_state, save_state}
use nexus_cloud.DataPlane.Units.{unit_draft, unit_check, save_unit}
use nexus_cloud.DataPlane.Service.{
  runs_for, stopped_unit, stop_units, report_stopped, stop_workload, stopped_event,
}

abbrev units_of : Platform → List DataPlaneUnit
units_of p = p.store.live.units

stored_unit :
    (o : WriteOutcome) (unit : DataPlaneUnit) (p p' : Platform) (a : Unit {0})
    → on_store (mutate_state o (unit_draft unit)) p ≡ (ok a, p')
    → units_of p' ≡ upsert (λ item. item.id == unit.id) unit (units_of p)
unfolding mutate_state save_state
stored_unit saved unit p p' a h = sym (ap (λ r. units_of r.1) h)
stored_unit lost unit p p' a h = absurd (ground (arith, h))
stored_unit replaced unit p p' a h = absurd (ground (arith, h))

save_unit-ok :
    (env : Env) (unit : DataPlaneUnit) (p p' : Platform) (a : DataPlaneUnit)
    → save_unit env unit p ≡ (ok a, p')
    → units_of p' ≡ upsert (λ item. item.id == unit.id) unit (units_of p)
unfolding save_unit
save_unit-ok env unit p p' a h =
    let (x, p1, e1, h1) =
      bind-eq-ok (on_store (mutate_state (env.write 0) (unit_draft unit))) _ p h in
    let (y, p2, e2, h2) =
      bind-eq-ok (upsert_health_check (env.write 1) (unit_check env unit)) _ p1 h1 in
    let stored = stored_unit (env.write 0) unit p p1 x e1 in
    let checked = upsert_health_check-eq-ok (env.write 1) (unit_check env unit) y p1 p2 e2 in
    let last : p2 ≡ p' = ap (λ (r : Result DataPlaneUnit × Platform). r.1) h2 in
    sym (ap (λ q. units_of q) last) ∙ ap (λ (t : PlatformState). t.units) checked ∙ stored

-- The running units of the workload are among those that are left to stop.
abbrev Covered : String → List DataPlaneUnit → List DataPlaneUnit → Type 0
Covered workload_id rest units =
    All (λ u. runs_for workload_id u ≡ true → Any (λ r. r.id ≡ u.id) rest) units

Covered-filter :
    (workload_id : String) (units : List DataPlaneUnit)
    → Covered workload_id (filter (runs_for workload_id) units) units
Covered-filter workload_id [] = tt
Covered-filter workload_id (u ∷ us) = elim (Bool-cases (runs_for workload_id u)) [
  | inl e ↦
      let more = u ∷ filter (runs_for workload_id) us in
      let grown : more ≡ filter (runs_for workload_id) (u ∷ us) = rw e in
      subst (λ f. Covered workload_id f (u ∷ us)) grown
        (
          (λ _. inl refl),
          All-weaken (λ v. runs_for workload_id v ≡ true → Any (λ r. r.id ≡ v.id) more)
              (λ v k b. inr (k b)) us (Covered-filter workload_id us),
        )
  | inr e ↦
      let same : filter (runs_for workload_id) us ≡ filter (runs_for workload_id) (u ∷ us) = rw e in
      subst (λ f. Covered workload_id f (u ∷ us)) same
        ((λ b. absurd (ground (arith, e, b))), Covered-filter workload_id us)
]

-- Once the first of them is stored as stopped, they are among the others.
Covered-upsert :
    (workload_id : String) (x stopped : DataPlaneUnit) (rest units : List DataPlaneUnit)
    → stopped.id ≡ x.id
    → runs_for workload_id stopped ≡ false
    → Distinct (λ u. u.id) units
    → Covered workload_id (x ∷ rest) units
    → Covered workload_id rest (upsert (λ item. item.id == stopped.id) stopped units)
Covered-upsert workload_id x stopped rest [] same idle d h =
    ((λ b. absurd (ground (arith, idle, b))), tt)
Covered-upsert workload_id x stopped rest (u ∷ us) same idle d h =
    elim (Bool-cases (u.id == stopped.id)) [
      | inl e ↦
          let here = (eq_iff u.id stopped.id).0 e ∙ same in
          rw e ((λ b. absurd (ground (arith, idle, b))), others us here d.0 h.1)
      | inr e ↦ rw e (
        (λ b. elim (h.0 b) [ inl k ↦ absurd (apart (same ∙ k) e) | inr k ↦ k ]),
        Covered-upsert workload_id x stopped rest us same idle d.1 h.1,
      )
    ]
  where
    apart : stopped.id ≡ u.id → (u.id == stopped.id) ≡ false → ⊥
    apart k e =
        let yes_they = (eq_iff u.id stopped.id).1 (sym k) in absurd (ground (arith, e, yes_they))

    others :
        (vs : List DataPlaneUnit)
        → u.id ≡ x.id
        → All (λ v. v.id ≢ u.id) vs
        → Covered workload_id (x ∷ rest) vs
        → Covered workload_id rest vs
    others [] here far k = tt
    others (v ∷ vs) here far k = (
      (λ b. elim (k.0 b) [
        | inl near ↦ absurd (far.0 (sym (here ∙ near)))
        | inr later_one ↦ later_one
      ]),
      others vs here far.1 k.1,
    )

Covered-idle :
    (workload_id : String) (units : List DataPlaneUnit)
    → Covered workload_id [] units
    → All (λ u. runs_for workload_id u ≡ false) units
Covered-idle workload_id [] h = tt
Covered-idle workload_id (u ∷ us) h = (
  elim (Bool-cases (runs_for workload_id u)) [ inl e ↦ absurd (h.0 e) | inr e ↦ e ],
  Covered-idle workload_id us h.1,
)

stopped-idle :
    (env : Env) (workload_id : String) (x : DataPlaneUnit)
    → runs_for workload_id (stopped_unit env x) ≡ false
stopped-idle env workload_id x = elim (Bool-cases (opt_is x.workload_id workload_id)) [
  | inl e ↦ rw e
  | inr e ↦ rw e
]

stop_units-ok :
    (env : Env) (workload_id : String) (rest : List DataPlaneUnit) (p p' : Platform)
    (out : List DataPlaneUnit)
    → Distinct (λ u. u.id) (units_of p)
    → Covered workload_id rest (units_of p)
    → stop_units env rest p ≡ (ok out, p')
    → All (λ u. runs_for workload_id u ≡ false) (units_of p')
unfolding stop_units
stop_units-ok env workload_id [] p p' out d c h =
    let last : p ≡ p' = ap (λ (r : Result (List DataPlaneUnit) × Platform). r.1) h in
    rw (← last) (Covered-idle workload_id (units_of p) c)
stop_units-ok env workload_id (x ∷ rest) p p' out d c h =
    let (a, p1, e1, h1) = bind-eq-ok (save_unit env (stopped_unit env x)) _ p h in
    let (b, p2, e2, h2) = bind-eq-ok (stop_units (later 2 env) rest) _ p1 h1 in
    let last : p2 ≡ p' = ap (λ (r : Result (List DataPlaneUnit) × Platform). r.1) h2 in
    let units = save_unit-ok env (stopped_unit env x) p p1 a e1 in
    rw (← last) (
      stop_units-ok (later 2 env) workload_id rest p1 p2 b
        (rw units (Distinct-upsert (λ u. u.id) (stopped_unit env x) (units_of p) d))
        (rw units (
          Covered-upsert workload_id x (stopped_unit env x) rest (units_of p) refl
            (stopped-idle env workload_id x) d c))
        e2)

report-units :
    (env : Env) (workload_id : String) (stopped out : List DataPlaneUnit) (p p' : Platform)
    → report_stopped env workload_id stopped p ≡ (ok out, p')
    → units_of p' ≡ units_of p
unfolding report_stopped
report-units env workload_id [] out p p' h =
    sym (ap (λ (r : Result (List DataPlaneUnit) × Platform). units_of r.1) h)
report-units env workload_id (u ∷ us) out p p' h =
    let (e, p1, e1, h1) = bind-eq-ok (record_event env (stopped_event env workload_id)) _ p h in
    let recorded = record_event-eq-ok env (stopped_event env workload_id) e p p1 e1 in
    sym (ap (λ (r : Result (List DataPlaneUnit) × Platform). units_of r.1) h1)
    ∙ ap (λ (t : PlatformState). t.units) recorded

-- When stopping a workload returns, none of its units is running any more, if unit ids are distinct.
pub stop_workload_stops :
    (env : Env) (workload_id : String) (p p' : Platform) (stopped : List DataPlaneUnit)
    → Distinct (λ u. u.id) p.store.live.units
    → stop_workload env workload_id p ≡ (ok stopped, p')
    → All (λ u. runs_for workload_id u ≡ false) p'.store.live.units
unfolding stop_workload
stop_workload_stops env workload_id p p' stopped d h =
    let targets = filter (runs_for workload_id) (units_of p) in
    let (out, p1, e1, h1) = bind-eq-ok (stop_units env targets) _ p (sym (gets-bind _ _ p) ∙ h) in
    let kept = report-units (later (2 * length targets) env) workload_id out stopped p1 p' h1 in
    rw kept (
      stop_units-ok env workload_id targets p p1 out d (Covered-filter workload_id (units_of p)) e1)
