-- ===== src/SystemsApi/Registry/Invariant/Steps.antt =====
-- The registry's operations keep its invariant, whether they return or throw.
use nexus_cloud.Base.{
  length-filter, Distinct-remove_first, Stamp, WriteOutcome, Env, Result, gets, Preserves-pure,
  Preserves-gets, Preserves-bind, preserves_rules, saved, lost, replaced, String, ◌≡◌, refl, Bool,
  true, false, not, Option, none, some, arith, ◌==◌, Preserves,
}
use nexus_cloud.Observability.Service.{Platform}
use nexus_cloud.SystemsApi.Types.{Tool, HistoryAction}
use nexus_cloud.State.{save_state}
use nexus_cloud.Base.Json.{Value}
use nexus_cloud.SystemsApi.Catalog.{CatalogState}
use nexus_cloud.SystemsApi.Registry.Governance.{Reconciliation, with_catalog}
use nexus_cloud.SystemsApi.Registry.Governance.Proposals.{register_systems_api_tool, update_tool}
use nexus_cloud.SystemsApi.Registry.Governance.Submitting.{
  Preserves-register_systems_api_tool, Preserves-update_tool,
}
use nexus_cloud.SystemsApi.Registry.{
  Settings, Registry, World, has_id, get_tool, change_registry, persist, on_platform, lift,
}
use nexus_cloud.SystemsApi.Registry.Invariant.{
  IsSound, push_history-IsSound, update_tool_record-IsSound, upsert_tool_record-IsSound,
}
use nexus_cloud.SystemsApi.Registry.Tools.{
  ToolRegistrationInput, HeartbeatPatch, ToolPatchInput, log_registration, register_tool, log_tool,
  persist_if, edited, edit_tool, beat, lapse, patched, record_tool_heartbeat, expire_tool_heartbeat,
  edit_metadata, enable_systems_api_tool, disable_systems_api_tool, without_tool, drop_tool,
  deregister_tool,
}

-- The invariant of the registry in a world.
abbrev pub RegistryIsSound : Settings → World → Type 0
RegistryIsSound settings w = IsSound settings w.registry.live

module _ (settings : Settings) where
  pub Preserves-change_registry :
      (f : Registry → Registry)
      → ((r : Registry) → IsSound settings r → IsSound settings (f r))
      → Preserves (RegistryIsSound settings) (change_registry f)
  Preserves-change_registry f k = record { afterwards = λ w h. k w.registry.live h }

  pub Preserves-persist : (o : WriteOutcome) → Preserves (RegistryIsSound settings) (persist o)
  unfolding persist save_state
  Preserves-persist saved = record { afterwards = λ w h. h }
  Preserves-persist lost = record { afterwards = λ w h. h }
  Preserves-persist replaced = record { afterwards = λ w h. h }

  pub Preserves-on_platform :
      {A : Type 0} (m : Platform → Result A × Platform)
      → Preserves (RegistryIsSound settings) (on_platform m)
  Preserves-on_platform m = record { afterwards = λ w h. h }

  pub Preserves-lift : {A : Type 0} (r : Result A) → Preserves (RegistryIsSound settings) (lift r)
  Preserves-lift r = record { afterwards = λ w h. h }

  Preserves-persist_if :
      (b : Bool) (o : WriteOutcome) → Preserves (RegistryIsSound settings) (persist_if b o)
  Preserves-persist_if true o = Preserves-persist o
  Preserves-persist_if false o = Preserves-pure tt

  Preserves-edit_tool :
      (o : WriteOutcome) (persists : Bool) (tool_id : String) (f : Tool → Tool)
      (action : HistoryAction) (summary : Tool → String)
      → ((t : Tool) → (f t).id ≡ t.id)
      → Preserves
          (RegistryIsSound settings)
          (edit_tool settings o persists tool_id f action summary)
  unfolding edit_tool edited
  Preserves-edit_tool o persists tool_id f action summary k =
      Preserves-bind (gets (λ w. get_tool tool_id w.registry.live))
        (edited settings o persists tool_id f action summary)
        (Preserves-gets (λ w. get_tool tool_id w.registry.live)) found
    where
      found :
          (t : Option Tool)
          → Preserves
              (RegistryIsSound settings)
              (edited settings o persists tool_id f action summary t)
      found none = Preserves-pure none
      found (some t) = search (
        preserves_rules, Preserves-change_registry, Preserves-persist_if, push_history-IsSound,
        update_tool_record-IsSound,
      )

  without_tool-IsSound :
      (tool_id : String) (r : Registry)
      → IsSound settings r
      → IsSound settings (without_tool tool_id r)
  without_tool-IsSound tool_id r h = record {
    history_bounded = omega (
      arith,
      h.history_bounded,
      length-filter (λ entry. not (entry.tool_id == tool_id)) r.history,
    );
    tools_distinct = Distinct-remove_first (λ t. t.id) (has_id tool_id) r.tools h.tools_distinct;
    urls_distinct = h.urls_distinct;
    exposures_distinct = h.exposures_distinct;
    domains_distinct = h.domains_distinct;
    addresses_apart = h.addresses_apart;
  }

  log_registration-IsSound :
      (previous : Option Tool) (tool : Tool) (r : Registry)
      → IsSound settings r
      → IsSound settings (log_registration settings previous tool r)
  log_registration-IsSound none tool r h = push_history-IsSound settings _ _ _ _ r h
  log_registration-IsSound (some _) tool r h = push_history-IsSound settings _ _ _ _ r h

  Preserves-register :
      (env : Env) (input : ToolRegistrationInput)
      → Preserves (RegistryIsSound settings) (register_tool settings env input)
  unfolding register_tool log_tool
  Preserves-register env input =
      search
        (
          preserves_rules, Preserves-change_registry, Preserves-persist, Preserves-lift,
          upsert_tool_record-IsSound, log_registration-IsSound,
        )
        depth 14

  Preserves-deregister :
      (env : Env) (tool_id : String)
      → Preserves (RegistryIsSound settings) (deregister_tool env tool_id)
  unfolding deregister_tool drop_tool
  Preserves-deregister env tool_id =
      Preserves-bind (gets (λ w. get_tool tool_id w.registry.live))
        (drop_tool (env.write 0) tool_id) (Preserves-gets (λ w. get_tool tool_id w.registry.live))
        found
    where
      found :
          (t : Option Tool)
          → Preserves (RegistryIsSound settings) (drop_tool (env.write 0) tool_id t)
      found none = Preserves-pure none
      found (some t) =
          search
            (preserves_rules, Preserves-change_registry, Preserves-persist, without_tool-IsSound)

  with_catalog-IsSound :
      (next : CatalogState) (r : Registry)
      → IsSound settings r
      → IsSound settings (with_catalog next r)
  with_catalog-IsSound next r h = record {
    history_bounded = h.history_bounded;
    tools_distinct = h.tools_distinct;
    urls_distinct = h.urls_distinct;
    exposures_distinct = h.exposures_distinct;
    domains_distinct = h.domains_distinct;
    addresses_apart = h.addresses_apart;
  }

  -- Every operation on tools, with or without a catalog proposal where it can carry one, keeps the
  -- registry's invariant, whether it returns or throws: the history is within its limit, no two tools, public URLs or exposures share a tool id, no two
  -- bindings a domain, and no two addresses the tool, kind and subject.
  pub tool_operations_keep_invariant :
      (env : Env) (tool_id : String) (q : Reconciliation) (input : ToolRegistrationInput)
      (patch : ToolPatchInput) (submitted : Option Value) (beat_patch : HeartbeatPatch) (t : Stamp)
      (persists : Bool)
      → Preserves
          (RegistryIsSound settings)
          (register_systems_api_tool settings env q input submitted)
        × Preserves
            (RegistryIsSound settings)
            (record_tool_heartbeat settings env tool_id beat_patch persists)
        × Preserves
            (RegistryIsSound settings)
            (expire_tool_heartbeat settings env tool_id t persists)
        × Preserves (RegistryIsSound settings) (update_tool settings env q tool_id patch submitted)
        × Preserves (RegistryIsSound settings) (enable_systems_api_tool settings env tool_id)
        × Preserves (RegistryIsSound settings) (disable_systems_api_tool settings env tool_id)
        × Preserves (RegistryIsSound settings) (deregister_tool env tool_id)
  unfolding record_tool_heartbeat expire_tool_heartbeat edit_metadata enable_systems_api_tool
      disable_systems_api_tool beat lapse patched
  tool_operations_keep_invariant env tool_id q input patch submitted beat_patch t persists = (
    Preserves-register_systems_api_tool (IsSound settings) with_catalog-IsSound settings env q input
        submitted (Preserves-register env input),
    Preserves-edit_tool _ _ _ _ _ _ (λ t. refl),
    Preserves-edit_tool _ _ _ _ _ _ (λ t. refl),
    Preserves-update_tool (IsSound settings) with_catalog-IsSound settings env q tool_id patch
        submitted (Preserves-edit_tool _ _ _ _ _ _ (λ t. refl)),
    Preserves-edit_tool _ _ _ _ _ _ (λ t. refl),
    Preserves-edit_tool _ _ _ _ _ _ (λ t. refl),
    Preserves-deregister env tool_id,
  )
