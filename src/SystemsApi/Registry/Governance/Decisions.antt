-- ===== src/SystemsApi/Registry/Governance/Decisions.antt =====
-- The audited decisions on catalog records, `decideCatalog` of src/systems-api/registry.ts, and the
-- catalog proposals of a registration and of an edit.
use nexus_cloud.Base.{
  if◌then◌else◌, is_some, opt_is, template, find, Stamp, Env, later, now, Result, Action, pure,
  gets, ◌>>=◌, ◌>>◌, ok, String, Bool, true, false, not, ◌&&◌, Option, none, some, List, [], ◌∷◌,
  ◌++◌, ◌==◌,
}
use nexus_cloud.Base.Json.{Value, obj, str, null, fields_of, stringify}
use nexus_cloud.Observability.Types.{SignalKind, Level, ObservabilityEvent}
use nexus_cloud.Observability.Service.{record_event}
use nexus_cloud.SystemsApi.Catalog.{ApprovedCatalog, CatalogRecord, CatalogState, ReviewStatus}
use nexus_cloud.SystemsApi.Catalog.Validation.{
  validate_approved_catalog, proposal_value, approved_value,
}
use nexus_cloud.SystemsApi.Registry.{Registry, World, on_platform}
use nexus_cloud.SystemsApi.Registry.Governance.{
  review_word, proposal_in, catalog_record, get_catalog_record, commit_catalog, Reconciliation,
  apply_approval, apply_review, apply_rollback,
}

pub data CatalogAction : Type 0 where
  approve defer reject rollback : CatalogAction

abbrev pub action_word : CatalogAction → String
action_word CatalogAction.approve = "approve"
action_word CatalogAction.defer = "defer"
action_word CatalogAction.reject = "reject"
action_word CatalogAction.rollback = "rollback"

abbrev pub value_or_null : {A : Type 0} → (A → Value) → Option A → Value
value_or_null f none = null
value_or_null f (some a) = f a

-- A record as the JSON value that is written into the ledger.
abbrev pub record_value : CatalogRecord → Value
record_value r = obj (
    fields_of (
      ("toolId", str r.tool_id)
      ∷ ("proposal", value_or_null proposal_value r.proposal)
      ∷ ("approved", value_or_null approved_value r.approved)
      ∷ ("reviewStatus", str (review_word r.review_status))
      ∷ []))

-- `metadata[name]`
unfoldable pub entry_of : String → List (String × String) → Option String
entry_of name [] = none
entry_of name ((k, v) ∷ rest) =
    let later_one = entry_of name rest in if k == name then some v else later_one

abbrev pub has_key : String → ObservabilityEvent → Bool
has_key key event = opt_is (entry_of "idempotencyKey" event.metadata) key

unfoldable pub find_catalog_decision_by_key : String → Registry → Option ObservabilityEvent
unfolding entry_of
find_catalog_decision_by_key key r = find (has_key key) r.catalog.audit_events

-- `idempotencyKey ? { idempotencyKey } : {}`
abbrev pub key_entry : String → List (String × String)
key_entry key = if key == "" then [] else ("idempotencyKey", key) ∷ []

unfoldable pub decision_event :
    Stamp
    → String
    → CatalogAction
    → String
    → String
    → Option CatalogRecord
    → Option CatalogRecord
    → ObservabilityEvent
decision_event t tool_id action actor key previous current = record {
  kind = SignalKind.audit;
  subject_id = tool_id;
  message = template ("Catalog " ∷ action_word action ∷ []);
  timestamp = t;
  level = some Level.info;
  source = some "systems-api";
  metadata =
      ("eventType", "catalog-approval")
      ∷ ("action", action_word action)
      ∷ ("actor", actor)
      ∷ (key_entry key
          ++ ("previousValue", stringify (value_or_null record_value previous))
            ∷ ("newValue", stringify (value_or_null record_value current))
            ∷ []);
}

abbrev pub approved_draft :
    CatalogState → String → Bool → Option ApprovedCatalog → Option CatalogState
approved_draft c tool_id true (some valid) = some (apply_approval c tool_id valid)
approved_draft c tool_id has_proposal valid = none

abbrev pub reviewed_draft : CatalogState → String → Bool → ReviewStatus → Option CatalogState
reviewed_draft c tool_id true status = some (apply_review c tool_id status)
reviewed_draft c tool_id false status = none

-- The draft that a decision makes; none where there is nothing to decide on.
unfoldable pub decided : CatalogState → String → CatalogAction → Value → Option CatalogState
decided c tool_id CatalogAction.approve approved =
    approved_draft c tool_id (is_some (proposal_in (catalog_record c tool_id)))
      (validate_approved_catalog approved)
decided c tool_id CatalogAction.rollback approved = apply_rollback c tool_id
decided c tool_id CatalogAction.defer approved =
    reviewed_draft c tool_id (is_some (proposal_in (catalog_record c tool_id)))
      ReviewStatus.deferred
decided c tool_id CatalogAction.reject approved =
    reviewed_draft c tool_id (is_some (proposal_in (catalog_record c tool_id)))
      ReviewStatus.rejected

-- `try { recordEvent(event); } catch {}`
abbrev pub forget_failure : Result ObservabilityEvent × World → Result (Unit {0}) × World
forget_failure (r, w) = (ok tt, w)

abbrev pub record_quietly : Env → ObservabilityEvent → Action World (Unit {0})
record_quietly env event w = forget_failure (on_platform (record_event env event) w)

abbrev pub with_event : CatalogState → ObservabilityEvent → CatalogState
with_event c event = record c { audit_events = c.audit_events ++ event ∷ [] }

unfoldable pub commit_decision :
    Env → Reconciliation → CatalogState → ObservabilityEvent → Action World (Unit {0})
commit_decision env q next event = do
  commit_catalog (env.write 0) q (with_event next event)
  record_quietly (later 1 env) event

unfoldable pub decide_anew :
    Env
    → Reconciliation
    → String
    → CatalogAction
    → String
    → String
    → Option CatalogState
    → Action World (Option CatalogRecord)
decide_anew env q tool_id action actor key none w = (ok none, w)
decide_anew env q tool_id action actor key (some next) w =
    let previous = catalog_record w.registry.live.catalog tool_id in
    let current = catalog_record next tool_id in
    let event = decision_event (now env 0) tool_id action actor key previous current in
    (commit_decision env q next event >>= λ _. pure current) w

-- The write that a repeated decision makes, and the record as it is.
unfoldable pub repeat_decision : Env → Reconciliation → String → Action World (Option CatalogRecord)
repeat_decision env q tool_id w =
    (commit_catalog (env.write 0) q w.registry.live.catalog >>= λ _.
    gets (λ after. get_catalog_record tool_id after.registry.live))
      w

-- `decideCatalog`; an idempotency key that is not given is the empty text.
unfoldable pub decide_catalog :
    Env
    → Reconciliation
    → String
    → CatalogAction
    → String
    → Value
    → String
    → Action World (Option CatalogRecord)
unfolding find_catalog_decision_by_key
decide_catalog env q tool_id action actor approved key w =
    if not (key == "") && is_some (find_catalog_decision_by_key key w.registry.live)
    then repeat_decision env q tool_id w
    else decide_anew env q tool_id action actor key
        (decided w.registry.live.catalog tool_id action approved) w
