-- ===== src/Tests/Network.antt =====
-- Planning, maintenance, the guardian and the federation at concrete inputs.
use nexus_cloud.Base.{
  if◌then◌else◌, or_else, find, trim, strip_scheme, Action, ◌>>=◌, saved, at, ℕ, String, ◌≡◌, refl,
  ◌≢◌, false, ◌&&◌, Option, none, some, List, [], ◌∷◌, ◌==◌,
}
use nexus_cloud.ControlPlane.Types.{WorkloadSpec}
use nexus_cloud.ControlPlane.Admission.{evaluate_quota, evaluate_placement_policy}
use nexus_cloud.ControlPlane.Scheduler.{plan_workload}
use nexus_cloud.ControlPlane.Service.{plan, upsert_workload}
use nexus_cloud.ControlPlane.Service.Planning.{IsPlanned, plan_success}
use nexus_cloud.State.{Store, mutate_state, save_state}
use nexus_cloud.State.Types.{
  PlatformState, MaintenanceRecord, GuardianStatus, GuardianScope, GuardianDecision, Actor,
}
use nexus_cloud.Observability.Service.{Platform, record_event, upsert_health_check, push_event}
use nexus_cloud.Maintenance.{
  SetMaintenanceInput, set_maintenance, get_maintenance, write_window, started,
}
use nexus_cloud.Maintenance.Windows.{OneWindowEach, set_maintenance_in_force}
use nexus_cloud.Guardian.Policy.{
  evaluate_host, evaluate_health, evaluate_guardian_request, extract_hostname, trimmed,
  is_public_scope, is_offline_registration, is_local_or_private_host,
}
use nexus_cloud.Guardian.Policy.Admission.{IsVouched, IsSound, evaluate_approved}
use nexus_cloud.Guardian.Decisions.{
  DecisionInput, record_guardian_decision, get_guardian_decision, operator_decision,
  upsert_decision, create_decision_record, write_decision, same_scope,
}
use nexus_cloud.Guardian.Decisions.Ledger.{record_guardian_decision_found}
use nexus_cloud.SystemsApi.Types.{Tool}
use nexus_cloud.Federation.Types.{FederationPeer, PeerTrustState}
use nexus_cloud.Federation.Gossip.{
  GossipAnnouncement, handle_inbound_announcement, handle_inbound_bootstrap_announcement,
}
use nexus_cloud.Federation.Gossip.Escalation.{
  trust_at, announcement_resets_trust, bootstrap_lifts_sanctions,
}
use nexus_cloud.Tests.Data.{env, two_nodes, workload, peer, state, store, platform, hostname, tool}

abbrev planned_store : Store PlatformState
planned_store =
    let next = record state { workloads = workload ∷ [] } in record { live = next; file = next }

plan_success_example :
    (find (λ item. item.id == "w") planned_store.live.workloads ≡ some workload)
    × (planned_store.file ≡ planned_store.live)
    × (planned_store.live.nodes ≡ two_nodes)
    × IsPlanned 200 (plan_workload two_nodes workload) workload two_nodes
unfolding plan upsert_workload evaluate_quota evaluate_placement_policy plan_workload mutate_state
    save_state
plan_success_example =
    plan_success saved workload store planned_store 200 workload (plan_workload two_nodes workload)
      (evaluate_placement_policy workload two_nodes) (evaluate_quota workload) none refl

abbrev conflict : ℕ
conflict = 409

abbrev no_replicas : WorkloadSpec
no_replicas = record workload { replicas = 0 }

abbrev input : SetMaintenanceInput
input = record {
  subject_id = "notes";
  part = "Notes";
  reason = some "upgrade";
  expected_end_at = none;
  set_by = "ada";
}

abbrev notes_window : MaintenanceRecord
notes_window = record {
  subject_id = "notes";
  part = "Notes";
  reason = some "upgrade";
  started_at = at 1000;
  expected_end_at = none;
  set_by = "ada";
}

set_maintenance_in_force_example :
    OneWindowEach (set_maintenance env input platform).1.store.live.maintenance
    × (get_maintenance "photos" (set_maintenance env input platform).1.store.live
        ≡ (if "notes" == "photos" then some notes_window else get_maintenance "photos" state))
    × (at 1000 ≡ started (get_maintenance "notes" state) (at 1000))
unfolding set_maintenance record_event mutate_state save_state write_window push_event ◌>>=◌
    get_maintenance
set_maintenance_in_force_example =
    set_maintenance_in_force env input platform (set_maintenance env input platform).1 notes_window
      "photos" (tt, tt) refl

evaluate_approved_example :
    (t : Tool) × (host : String) × (some tool ≡ some t)
    × (trimmed t.upstream_url ≢ "")
    × (extract_hostname hostname (or_else t.upstream_url "") ≡ some host)
    × IsVouched hostname [] host
    × (is_public_scope GuardianScope.exposure && is_offline_registration t.registration_status
        ≡ false)
    × IsSound hostname t.health none
unfolding evaluate_guardian_request extract_hostname is_local_or_private_host trim strip_scheme
    evaluate_host evaluate_health
evaluate_approved_example =
    evaluate_approved hostname [] GuardianScope.exposure (some tool) none refl

abbrev decision_input : DecisionInput
decision_input = record {
  tool_id = "photos";
  scope = GuardianScope.exposure;
  subject_id = "photos:exposure";
  status = GuardianStatus.approved;
  reason = "ok";
  actor = none;
  metadata = none;
}

abbrev decided : Platform
decided = (record_guardian_decision env decision_input platform).1

record_guardian_decision_found_example :
    ((create_decision_record env decision_input).status ≡ GuardianStatus.approved)
    × ((create_decision_record env decision_input).reason ≡ "ok")
    × (get_guardian_decision GuardianScope.exposure "photos:exposure" decided.store.live ≡ (
        if same_scope GuardianScope.exposure GuardianScope.exposure
          && "photos:exposure" == "photos:exposure"
        then some (create_decision_record env decision_input)
        else get_guardian_decision GuardianScope.exposure "photos:exposure" state))
unfolding record_guardian_decision upsert_decision write_decision record_event upsert_health_check
    mutate_state save_state push_event ◌>>=◌ create_decision_record
record_guardian_decision_found_example =
    record_guardian_decision_found env decision_input (create_decision_record env decision_input)
      platform decided GuardianScope.exposure "photos:exposure" refl

abbrev denied_record : GuardianDecision
denied_record = record {
  id = "guardian_0123456789";
  tool_id = "photos";
  scope = GuardianScope.exposure;
  subject_id = "photos:exposure";
  status = GuardianStatus.denied;
  reason = "Denied by operator";
  actor = Actor.operator;
  created_at = at 1000;
  updated_at = at 1000;
  metadata = none;
}

abbrev deny : Action Platform (Option GuardianDecision)
deny =
    operator_decision GuardianStatus.denied "Denied by operator" env GuardianScope.exposure
      "photos:exposure" none

abbrev announcement : GossipAnnouncement
announcement = record {
  did = "did:key:z2";
  short_id = "2";
  upstream_url = "https://b.example";
  storage_pools = none;
}

announcement_resets_trust_example :
    trust_at "https://b.example"
      (handle_inbound_announcement env none "did:key:z1" announcement store).1
    ≡ some PeerTrustState.pending
announcement_resets_trust_example =
    announcement_resets_trust env none "did:key:z1" announcement store (λ _. refl) refl

bootstrap_lifts_sanctions_example :
    trust_at "https://b.example"
      (handle_inbound_bootstrap_announcement env none "did:key:z1" announcement store).1
    ≡ some PeerTrustState.verified
bootstrap_lifts_sanctions_example =
    bootstrap_lifts_sanctions env none "did:key:z1" announcement store (λ _. refl) refl (refl, tt)

abbrev trusted_peers : List FederationPeer
trusted_peers = peer "b.example" PeerTrustState.trusted ∷ []
