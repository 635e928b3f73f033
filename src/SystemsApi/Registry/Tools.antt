-- ===== src/SystemsApi/Registry/Tools.antt =====
-- Registering, editing and timing out tools: the tool operations of src/systems-api/registry.ts. A
-- registration and an edit are given here from the look-up of the tool to the write of the file;
-- Governance/Proposals has the whole of the two operations, with their catalog proposal.
pub mod Gate
use mathlib.Core.Option
use nexus_cloud.Base.{
  if◌then◌else◌, or_else, or_maybe, template, filter, remove_first, Stamp, WriteOutcome, Env, now,
  Result, Action, pure, gets, ◌>>=◌, ◌>>◌, ok, thrown, error, suc, String, Bool, true, false, not,
  Option, none, some, List, [], ◌∷◌, ◌==◌,
}
use nexus_cloud.SystemsApi.Types.{
  Mode, Tool, ToolHealth, RegistrationStatus, Delivery, HistoryAction, PhantomProfile,
}
use nexus_cloud.SystemsApi.Paths.{is_safe_relative_path}
use nexus_cloud.SystemsApi.Registry.{
  Settings, Registry, World, has_id, get_tool, change_registry, persist, lift, exposure_from_flag,
  push_history, update_tool_record, upsert_tool_record,
}

pub record ToolRegistrationInput : Type 0 where
  pub id : String
  pub name : String
  pub description : String
  pub mode : Option Mode
  pub exposed : Option Bool
  pub health : Option ToolHealth
  pub capabilities : Option (List String)
  pub phantom_security_profile : Option PhantomProfile
  pub path : Option String
  pub public_url : Option String
  pub delivery : Option Delivery
  pub upstream_url : Option String

pub record ToolPatchInput : Type 0 where
  pub name : Option String
  pub description : Option String
  pub mode : Option Mode
  pub exposed : Option Bool
  pub health : Option ToolHealth
  pub capabilities : Option (List String)
  pub upstream_url : Option String
  pub phantom_security_profile : Option PhantomProfile
  pub requires_auth : Option Bool

pub record HeartbeatPatch : Type 0 where
  pub upstream_url : Option String
  pub health : Option ToolHealth
  pub phantom_security_profile : Option PhantomProfile

-- `previous?.field`, for a field that may be undefined itself
abbrev pub of_previous : {A : Type 0} → (Tool → Option A) → Option Tool → Option A
of_previous field none = none
of_previous field (some tool) = field tool

-- `input.path === undefined ? previous?.path : requireSafeRelativePath(input.path)`
abbrev pub checked_path : Option String → Option Tool → Result (Option String)
checked_path none previous = ok (of_previous (λ tool. tool.path) previous)
checked_path (some path) previous =
    if is_safe_relative_path path
    then ok (some path)
    else thrown (error "path must be a safe relative path")

abbrev pub built : Settings → Env → ToolRegistrationInput → Option Tool → Option String → Tool
built settings env input previous path =
    let exposed = or_else (or_maybe input.exposed (Option.map (λ t. t.exposed) previous)) false in
    record {
      id = input.id;
      name = input.name;
      description = input.description;
      mode =
          or_else (or_maybe input.mode (Option.map (λ t. t.mode) previous)) settings.current_mode;
      exposed = exposed;
      exposure = exposure_from_flag exposed;
      health =
          or_else (or_maybe input.health (Option.map (λ t. t.health) previous)) ToolHealth.healthy;
      registration_status =
          or_else (Option.map (λ t. t.registration_status) previous) RegistrationStatus.registered;
      capabilities =
          or_else (or_maybe input.capabilities (Option.map (λ t. t.capabilities) previous)) [];
      phantom_security_profile =
          or_maybe input.phantom_security_profile
            (of_previous (λ t. t.phantom_security_profile) previous);
      path = path;
      public_url = or_maybe input.public_url (of_previous (λ t. t.public_url) previous);
      delivery = or_maybe input.delivery (of_previous (λ t. t.delivery) previous);
      upstream_url = or_maybe input.upstream_url (of_previous (λ t. t.upstream_url) previous);
      requires_auth = of_previous (λ t. t.requires_auth) previous;
      last_heartbeat_at = of_previous (λ t. t.last_heartbeat_at) previous;
      heartbeat_count = or_else (Option.map (λ t. t.heartbeat_count) previous) 0;
      registered_at = or_else (Option.map (λ t. t.registered_at) previous) (now env 0);
      updated_at = now env 1;
    }

abbrev pub with_path :
    Settings → Env → ToolRegistrationInput → Option Tool → Result (Option String) → Result Tool
with_path settings env input previous (ok path) = ok (built settings env input previous path)
with_path settings env input previous (thrown e) = thrown e

unfoldable pub build_tool : Settings → Env → ToolRegistrationInput → Option Tool → Result Tool
build_tool settings env input previous =
    with_path settings env input previous (checked_path input.path previous)

-- The history entry of a registration, by whether the tool was known.
abbrev pub log_registration : Settings → Option Tool → Tool → Registry → Registry
log_registration settings none tool =
    push_history settings tool.id HistoryAction.registered
      (template ("Registered " ∷ tool.name ∷ [])) tool.updated_at
log_registration settings (some _) tool =
    push_history settings tool.id HistoryAction.updated (template ("Updated " ∷ tool.name ∷ []))
      tool.updated_at

unfoldable pub log_tool : Settings → Env → Option Tool → Tool → Action World Tool
log_tool settings env previous tool = do
  change_registry (log_registration settings previous tool)
  persist (env.write 0)
  pure tool

unfoldable pub register_tool : Settings → Env → ToolRegistrationInput → Action World Tool
register_tool settings env input = do
  previous ← gets (λ w. get_tool input.id w.registry.live)
  tool ← lift (build_tool settings env input previous)
  change_registry (upsert_tool_record tool)
  log_tool settings env previous tool

abbrev pub persist_if : Bool → WriteOutcome → Action World (Unit {0})
persist_if true o = persist o
persist_if false o = pure tt

-- The common body of the operations that edit a tool: `updateToolRecord` or `upsertToolRecord`, then
-- a history entry at the tool's new `updatedAt`, then `persist` unless the caller defers it.
unfoldable pub edited :
    Settings
    → WriteOutcome
    → Bool
    → String
    → (Tool → Tool)
    → HistoryAction
    → (Tool → String)
    → Option Tool
    → Action World (Option Tool)
edited settings o persists tool_id updater action summary none = pure none
edited settings o persists tool_id updater action summary (some current) = do
  change_registry (update_tool_record tool_id updater)
  change_registry (
      push_history settings tool_id action (summary (updater current)) (updater current).updated_at)
  persist_if persists o
  pure (some (updater current))

unfoldable pub edit_tool :
    Settings
    → WriteOutcome
    → Bool
    → String
    → (Tool → Tool)
    → HistoryAction
    → (Tool → String)
    → Action World (Option Tool)
edit_tool settings o persists tool_id updater action summary = do
  found ← gets (λ w. get_tool tool_id w.registry.live)
  edited settings o persists tool_id updater action summary found

-- `current.health === "offline" ? "healthy" : current.health`
abbrev pub woken : ToolHealth → ToolHealth
woken ToolHealth.offline = ToolHealth.healthy
woken h = h

unfoldable pub beat : Stamp → HeartbeatPatch → Tool → Tool
beat t patch current = record current {
  upstream_url = or_maybe patch.upstream_url current.upstream_url;
  health = or_else patch.health (woken current.health);
  registration_status = RegistrationStatus.active;
  phantom_security_profile =
      or_maybe patch.phantom_security_profile current.phantom_security_profile;
  last_heartbeat_at = some t;
  heartbeat_count = suc current.heartbeat_count;
  updated_at = t;
}

unfoldable pub record_tool_heartbeat :
    Settings → Env → String → HeartbeatPatch → Bool → Action World (Option Tool)
record_tool_heartbeat settings env tool_id patch persists =
    edit_tool settings (env.write 0) persists tool_id (beat (now env 0) patch)
      HistoryAction.heartbeat_received
      (λ tool. template ("Recorded heartbeat for " ∷ tool.name ∷ []))

unfoldable pub lapse : Stamp → Tool → Tool
lapse t current = record current {
  health = ToolHealth.offline;
  registration_status = RegistrationStatus.offline;
  updated_at = t;
}

unfoldable pub expire_tool_heartbeat :
    Settings → Env → String → Stamp → Bool → Action World (Option Tool)
expire_tool_heartbeat settings env tool_id expired_at persists =
    edit_tool settings (env.write 0) persists tool_id (lapse expired_at) HistoryAction.updated
      (λ tool. template ("Marked " ∷ tool.name ∷ " offline after missed heartbeat" ∷ []))

unfoldable pub patched : Stamp → ToolPatchInput → Tool → Tool
patched t patch previous = record previous {
  name = or_else patch.name previous.name;
  description = or_else patch.description previous.description;
  mode = or_else patch.mode previous.mode;
  exposed = or_else patch.exposed previous.exposed;
  exposure = exposure_from_flag (or_else patch.exposed previous.exposed);
  health = or_else patch.health previous.health;
  capabilities = or_else patch.capabilities previous.capabilities;
  upstream_url = or_maybe patch.upstream_url previous.upstream_url;
  phantom_security_profile =
      or_maybe patch.phantom_security_profile previous.phantom_security_profile;
  requires_auth = or_maybe patch.requires_auth previous.requires_auth;
  updated_at = t;
}

unfoldable pub edit_metadata : Settings → Env → String → ToolPatchInput → Action World (Option Tool)
edit_metadata settings env tool_id patch =
    edit_tool settings (env.write 0) true tool_id (patched (now env 0) patch) HistoryAction.updated
      (λ tool. template ("Edited metadata for " ∷ tool.name ∷ []))

abbrev pub flagged : Bool → Stamp → Tool → Tool
flagged exposed t current = record current {
  exposed = exposed;
  exposure = exposure_from_flag exposed;
  updated_at = t;
}

unfoldable pub enable_systems_api_tool : Settings → Env → String → Action World (Option Tool)
enable_systems_api_tool settings env tool_id =
    edit_tool settings (env.write 0) true tool_id (flagged true (now env 0)) HistoryAction.enabled
      (λ tool. template ("Enabled " ∷ tool.name ∷ []))

unfoldable pub disable_systems_api_tool : Settings → Env → String → Action World (Option Tool)
disable_systems_api_tool settings env tool_id =
    edit_tool settings (env.write 0) true tool_id (flagged false (now env 0)) HistoryAction.disabled
      (λ tool. template ("Disabled " ∷ tool.name ∷ []))

-- The first tool of the id goes, and the history of the id with it.
abbrev pub without_tool : String → Registry → Registry
without_tool tool_id r = record r {
  tools = remove_first (has_id tool_id) r.tools;
  history = filter (λ entry. not (entry.tool_id == tool_id)) r.history;
}

unfoldable pub drop_tool : WriteOutcome → String → Option Tool → Action World (Option Tool)
drop_tool o tool_id none = pure none
drop_tool o tool_id (some removed) = do
  change_registry (without_tool tool_id)
  persist o
  pure (some removed)

unfoldable pub deregister_tool : Env → String → Action World (Option Tool)
deregister_tool env tool_id = do
  found ← gets (λ w. get_tool tool_id w.registry.live)
  drop_tool (env.write 0) tool_id found
