-- ===== src/Maintenance.antt =====
-- Operator-set maintenance windows: src/maintenance/index.ts.
pub mod Windows
use nexus_cloud.Base.{
  if◌then◌else◌, template, any, find, upsert, remove_first, Stamp, Env, later, now, Action, pure,
  gets, ◌>>=◌, ◌>>◌, ok, String, Bool, true, false, Option, none, some, List, [], ◌∷◌, ◌==◌,
}
use nexus_cloud.Observability.Types.{SignalKind, Level, ObservabilityEvent}
use nexus_cloud.Observability.Service.{Platform, on_store, record_event}
use nexus_cloud.State.Types.{PlatformState, MaintenanceRecord}
use nexus_cloud.State.{mutate_state}

pub record SetMaintenanceInput : Type 0 where
  pub subject_id : String
  pub part : String
  pub reason : Option String
  pub expected_end_at : Option Stamp
  pub set_by : String

-- `item.subjectId === subjectId`
abbrev pub concerns : String → MaintenanceRecord → Bool
concerns subject_id item = item.subject_id == subject_id

-- `existing?.startedAt ?? now()`
abbrev pub started : Option MaintenanceRecord → Stamp → Stamp
started none t = t
started (some existing) t = existing.started_at

-- `record.reason ? `: ${record.reason}` : ""`
abbrev pub reason_suffix : Option String → String
reason_suffix none = ""
reason_suffix (some reason) = if reason == "" then "" else template (": " ∷ reason ∷ [])

abbrev pub window : Stamp → SetMaintenanceInput → List MaintenanceRecord → MaintenanceRecord
window t input windows = record {
  subject_id = input.subject_id;
  part = input.part;
  reason = input.reason;
  started_at = started (find (concerns input.subject_id) windows) t;
  expected_end_at = input.expected_end_at;
  set_by = input.set_by;
}

-- The mutator of `setMaintenance`.
unfoldable pub write_window : Stamp → SetMaintenanceInput → Action PlatformState MaintenanceRecord
write_window t input s =
    let rec = window t input s.maintenance in
    (ok rec, record s { maintenance = upsert (concerns input.subject_id) rec s.maintenance })

abbrev pub maintenance_event : Level → String → String → Stamp → ObservabilityEvent
maintenance_event level subject_id message t = record {
  kind = SignalKind.audit;
  subject_id = subject_id;
  message = message;
  timestamp = t;
  level = some level;
  source = some "maintenance";
  metadata = [];
}

unfoldable pub set_maintenance : Env → SetMaintenanceInput → Action Platform MaintenanceRecord
set_maintenance env input = do
  was_active ← gets (λ p. any (concerns input.subject_id) p.store.live.maintenance)
  rec ← on_store (mutate_state (env.write 0) (write_window (now env 0) input))
  record_event (later 1 env) (
      maintenance_event Level.warn rec.subject_id
        (template (
          "Maintenance "
          ∷ (if was_active then "updated" else "started")
          ∷ " for "
          ∷ rec.part
          ∷ " by "
          ∷ rec.set_by
          ∷ reason_suffix rec.reason
          ∷ []))
        (now env 1))
  pure rec

-- The mutator of `clearMaintenance`: the first window of the subject is taken out.
unfoldable pub take_window : String → Action PlatformState (Option MaintenanceRecord)
take_window subject_id s = (
  ok (find (concerns subject_id) s.maintenance),
  record s { maintenance = remove_first (concerns subject_id) s.maintenance },
)

abbrev pub report_cleared : Env → String → String → Option MaintenanceRecord → Action Platform Bool
report_cleared env subject_id cleared_by none = pure false
report_cleared env subject_id cleared_by (some removed) = do
  record_event (later 1 env) (
      maintenance_event Level.info subject_id
        (template ("Maintenance ended for " ∷ removed.part ∷ " by " ∷ cleared_by ∷ [])) (now env 0))
  pure true

unfoldable pub clear_maintenance : Env → String → String → Action Platform Bool
clear_maintenance env subject_id cleared_by = do
  removed ← on_store (mutate_state (env.write 0) (take_window subject_id))
  report_cleared env subject_id cleared_by removed

unfoldable pub get_maintenance : String → PlatformState → Option MaintenanceRecord
get_maintenance subject_id s = find (concerns subject_id) s.maintenance

unfoldable pub is_under_maintenance : String → PlatformState → Bool
is_under_maintenance subject_id s = any (concerns subject_id) s.maintenance
