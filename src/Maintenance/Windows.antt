-- ===== src/Maintenance/Windows.antt =====
-- At most one window a subject, whose start survives updates until it is cleared.
use nexus_cloud.Base.{
  if◌then◌else◌, Bool-cases, is_some, find, remove_first, any-eq-is_some, Distinct, Distinct-upsert,
  find-upsert_key, find-remove_first_other, find-remove_first_self, Distinct-remove_first, Stamp,
  Env, later, now, bind-eq-ok, ok, String, ◌≡◌, refl, sym, ap, ◌∙◌, inl, inr, Bool, false, Option,
  none, some, List, arith, ◌==◌, eq_iff,
}
use nexus_cloud.Observability.Service.{Platform}
use nexus_cloud.Observability.Service.Effects.{on_store-eq-ok, record_event-eq-ok}
use nexus_cloud.State.Types.{PlatformState, MaintenanceRecord}
use nexus_cloud.Maintenance.{
  SetMaintenanceInput, concerns, started, window, write_window, set_maintenance, clear_maintenance,
  take_window, report_cleared, get_maintenance, is_under_maintenance,
}

abbrev pub OneWindowEach : List MaintenanceRecord → Type 0
OneWindowEach = Distinct (λ m. m.subject_id)

-- A search by subject finds the window just written there, and elsewhere what it found before.
find-write_window :
    (t : Stamp) (input : SetMaintenanceInput) (subject_id : String) (s : PlatformState)
    → find (concerns subject_id) (write_window t input s).1.maintenance ≡ (
        if input.subject_id == subject_id
        then some (window t input s.maintenance)
        else find (concerns subject_id) s.maintenance)
unfolding write_window
find-write_window t input subject_id s =
    find-upsert_key (λ m. m.subject_id) (window t input s.maintenance) input.subject_id subject_id
      s.maintenance refl

-- What a return of `set_maintenance` means: the window is the mutator's, and it is in the state.
set_maintenance-eq-ok :
    (env : Env) (input : SetMaintenanceInput) (p q : Platform) (rec : MaintenanceRecord)
    → set_maintenance env input p ≡ (ok rec, q)
    → (rec ≡ window (now env 0) input p.store.live.maintenance)
      × (q.store.live.maintenance ≡ (write_window (now env 0) input p.store.live).1.maintenance)
unfolding set_maintenance write_window
set_maintenance-eq-ok env input p q rec h =
    let (was_active, p0, e0, k0) = bind-eq-ok _ _ p h in
    let (rec', p1, e1, k1) = bind-eq-ok _ _ p0 k0 in
    let (event, p2, e2, k2) = bind-eq-ok _ _ p1 k1 in
    let (written, _) =
      on_store-eq-ok (env.write 0) (write_window (now env 0) input) p0 p1 rec' e1 in
    let recorded = record_event-eq-ok (later 1 env) _ event p1 p2 e2 in (ground arith, ground arith)

-- When setting a window returns, a lookup of its subject finds exactly that window, started when
-- the window it replaces was, or now if there was none; every other subject is looked up as
-- before, and no subject has two windows if none had.
pub set_maintenance_in_force :
    (env : Env) (input : SetMaintenanceInput) (p q : Platform) (rec : MaintenanceRecord)
    (subject_id : String)
    → OneWindowEach p.store.live.maintenance
    → set_maintenance env input p ≡ (ok rec, q)
    → OneWindowEach q.store.live.maintenance
      × (get_maintenance subject_id q.store.live ≡ (
          if input.subject_id == subject_id
          then some rec
          else get_maintenance subject_id p.store.live))
      × (rec.started_at ≡ started (get_maintenance input.subject_id p.store.live) (now env 0))
unfolding get_maintenance
set_maintenance_in_force env input p q rec subject_id one h =
    let (made, left) = set_maintenance-eq-ok env input p q rec h in
    let new = window (now env 0) input p.store.live.maintenance in
    (
      rw left (
          unfold write_window in
          Distinct-upsert (λ m. m.subject_id) new p.store.live.maintenance one),
      rw (left, made) (find-write_window (now env 0) input subject_id p.store.live),
      rw made,
    )

clear_maintenance-eq-ok :
    (env : Env) (subject_id cleared_by : String) (p q : Platform) (b : Bool)
    → clear_maintenance env subject_id cleared_by p ≡ (ok b, q)
    → (b ≡ is_some (find (concerns subject_id) p.store.live.maintenance))
      × (q.store.live.maintenance ≡ remove_first (concerns subject_id) p.store.live.maintenance)
unfolding clear_maintenance take_window
clear_maintenance-eq-ok env subject_id cleared_by p q b h =
    let (removed, p1, e1, k1) = bind-eq-ok _ _ p h in
    let (written, _) = on_store-eq-ok (env.write 0) (take_window subject_id) p p1 removed e1 in
    let (answer, kept) = reported removed p1 k1 in (ground arith, ground arith)
  where
    reported :
        (removed : Option MaintenanceRecord) (p1 : Platform)
        → report_cleared env subject_id cleared_by removed p1 ≡ (ok b, q)
        → (b ≡ is_some removed) × (q.store.live.maintenance ≡ p1.store.live.maintenance)
    reported none p1 k = (ground arith, ground arith)
    reported (some window) p1 k =
        let (event, p2, e2, k2) = bind-eq-ok _ _ p1 k in
        let recorded = record_event-eq-ok (later 1 env) _ event p1 p2 e2 in
        (ground arith, ground arith)

-- When clearing a window returns, the answer says whether the subject was under maintenance, the
-- subject is not under maintenance any more, and every other subject is looked up as before, if no
-- subject had two windows; and none has afterwards.
clear_maintenance_ends :
    (env : Env) (subject_id cleared_by other : String) (p q : Platform) (b : Bool)
    → OneWindowEach p.store.live.maintenance
    → clear_maintenance env subject_id cleared_by p ≡ (ok b, q)
    → OneWindowEach q.store.live.maintenance
      × (b ≡ is_under_maintenance subject_id p.store.live)
      × (is_under_maintenance subject_id q.store.live ≡ false)
      × (get_maintenance other q.store.live
          ≡ (if subject_id == other then none else get_maintenance other p.store.live))
unfolding get_maintenance is_under_maintenance
clear_maintenance_ends env subject_id cleared_by other p q b one h =
    let (answer, left) = clear_maintenance-eq-ok env subject_id cleared_by p q b h in
    let windows = p.store.live.maintenance in
    let gone = find-remove_first_self (λ m. m.subject_id) subject_id windows one in
    (
      rw left (Distinct-remove_first (λ m. m.subject_id) (concerns subject_id) windows one),
      answer ∙ sym (any-eq-is_some (concerns subject_id) windows),
      rw left (
          any-eq-is_some (concerns subject_id) (remove_first (concerns subject_id) windows)
          ∙ ap is_some gone),
      elim (Bool-cases (subject_id == other)) [
        | inl e ↦ rw (e, left, sym ((eq_iff subject_id other).0 e)) gone
        | inr e ↦
            rw (e, left)
              (find-remove_first_other (concerns subject_id) (concerns other) windows
                (λ m k. let same = (eq_iff m.subject_id subject_id).0 k in rw same e))
      ],
    )
