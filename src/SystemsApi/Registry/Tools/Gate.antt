-- ===== src/SystemsApi/Registry/Tools/Gate.antt =====
-- Who can change whether a tool requires a sign-in.
use nexus_cloud.Base.{
  Bool-cases, find, update_first, find-upsert_key, Stamp, WriteOutcome, Env, Result, value_or,
  ◌>>=◌, ◌>>◌, Preserves-pure, Preserves-gets, Preserves-bind, preserves_rules, saved, lost,
  replaced, ok, thrown, String, ◌≡◌, refl, sym, ap, ◌∙◌, inl, inr, Bool, true, false, Option, none,
  some, List, [], ◌∷◌, ◌==◌, eq_iff, Preserves,
}
use nexus_cloud.SystemsApi.Types.{Tool, HistoryAction}
use nexus_cloud.State.{save_state}
use nexus_cloud.Base.Json.{Value}
use nexus_cloud.SystemsApi.Catalog.{CatalogState}
use nexus_cloud.SystemsApi.Registry.Governance.{Reconciliation, with_catalog}
use nexus_cloud.SystemsApi.Registry.Governance.Proposals.{register_systems_api_tool}
use nexus_cloud.SystemsApi.Registry.Governance.Submitting.{Preserves-register_systems_api_tool}
use nexus_cloud.SystemsApi.Registry.{
  lift, Settings, Registry, World, has_id, get_tool, change_registry, persist, push_history,
  update_tool_record, upsert_tool_record,
}
use nexus_cloud.SystemsApi.Registry.Tools.{
  checked_path, with_path, build_tool, log_tool, beat, lapse, record_tool_heartbeat,
  expire_tool_heartbeat, enable_systems_api_tool, disable_systems_api_tool, HeartbeatPatch,
  ToolRegistrationInput, edited, log_registration, edit_tool, persist_if, register_tool,
  of_previous,
}

-- The gate of a tool: its `requiresAuth`, none where there is no such tool.
abbrev pub gate_of : String → Registry → Option Bool
gate_of tool_id r = of_previous (λ t. t.requires_auth) (get_tool tool_id r)

abbrev pub GateIs : String → Option Bool → World → Type 0
GateIs tool_id g w = gate_of tool_id w.registry.live ≡ g

-- An edit that leaves ids and gates alone leaves every tool's gate alone.
pub gate_of-update_tool_record :
    (j tool_id : String) (f : Tool → Tool) (r : Registry)
    → ((t : Tool) → (f t).id ≡ t.id)
    → ((t : Tool) → (f t).requires_auth ≡ t.requires_auth)
    → gate_of j (update_tool_record tool_id f r) ≡ gate_of j r
unfolding update_tool_record get_tool
gate_of-update_tool_record j tool_id f r k g = over r.tools
  where
    over :
        (tools : List Tool)
        → of_previous
            (λ t. t.requires_auth)
            (find (has_id j) (update_first (has_id tool_id) f tools))
          ≡ of_previous (λ t. t.requires_auth) (find (has_id j) tools)
    over [] = refl
    over (t ∷ rest) = elim (Bool-cases (has_id tool_id t)) [
      | inl e ↦ elim (Bool-cases (has_id j t)) [
        | inl q ↦ rw (e, k t, q, g t) refl
        | inr q ↦ rw (e, k t, q) refl
      ]
      | inr e ↦ elim (Bool-cases (has_id j t)) [
        | inl q ↦ rw (e, q) refl
        | inr q ↦ rw (e, q) (over rest)
      ]
    ]

module _ (j : String) (g : Option Bool) where
  Preserves-change_gate :
      (f : Registry → Registry)
      → ((r : Registry) → gate_of j (f r) ≡ gate_of j r)
      → Preserves (GateIs j g) (change_registry f)
  Preserves-change_gate f k = record { afterwards = λ w h. k w.registry.live ∙ h }

  Preserves-persist_gate : (o : WriteOutcome) → Preserves (GateIs j g) (persist o)
  unfolding persist save_state
  Preserves-persist_gate saved = record { afterwards = λ w h. h }
  Preserves-persist_gate lost = record { afterwards = λ w h. h }
  Preserves-persist_gate replaced = record { afterwards = λ w h. h }

  Preserves-persist_if_gate :
      (b : Bool) (o : WriteOutcome) → Preserves (GateIs j g) (persist_if b o)
  Preserves-persist_if_gate true o = Preserves-persist_gate o
  Preserves-persist_if_gate false o = Preserves-pure tt

  gate_of-push_history :
      (settings : Settings) (tool_id : String) (action : HistoryAction) (summary : String)
      (t : Stamp) (r : Registry)
      → gate_of j (push_history settings tool_id action summary t r) ≡ gate_of j r
  unfolding push_history get_tool
  gate_of-push_history settings tool_id action summary t r = refl

  gate_of-log_registration :
      (settings : Settings) (previous : Option Tool) (tool : Tool) (r : Registry)
      → gate_of j (log_registration settings previous tool r) ≡ gate_of j r
  gate_of-log_registration settings none tool r = gate_of-push_history settings _ _ _ _ r
  gate_of-log_registration settings (some _) tool r = gate_of-push_history settings _ _ _ _ r

  Preserves-edit_gate :
      (settings : Settings) (o : WriteOutcome) (persists : Bool) (tool_id : String)
      (f : Tool → Tool) (action : HistoryAction) (summary : Tool → String)
      → ((t : Tool) → (f t).id ≡ t.id)
      → ((t : Tool) → (f t).requires_auth ≡ t.requires_auth)
      → Preserves (GateIs j g) (edit_tool settings o persists tool_id f action summary)
  unfolding edit_tool edited
  Preserves-edit_gate settings o persists tool_id f action summary k q =
      Preserves-bind _ (edited settings o persists tool_id f action summary) (Preserves-gets _)
        found
    where
      found :
          (t : Option Tool)
          → Preserves (GateIs j g) (edited settings o persists tool_id f action summary t)
      found none = Preserves-pure none
      found (some t) = search (
        preserves_rules, Preserves-change_gate, Preserves-persist_if_gate, gate_of-push_history,
        gate_of-update_tool_record,
      )

-- The record that is built for a registration has its input's id and the previous record's gate.
build_tool-gate :
    (settings : Settings) (env : Env) (input : ToolRegistrationInput) (previous : Option Tool)
    (tool : Tool)
    → build_tool settings env input previous ≡ ok tool
    → (tool.id ≡ input.id) × (tool.requires_auth ≡ of_previous (λ t. t.requires_auth) previous)
unfolding build_tool
build_tool-gate settings env input previous tool h = of (checked_path input.path previous) h
  where
    of :
        (path : Result (Option String))
        → with_path settings env input previous path ≡ ok tool
        → (tool.id ≡ input.id) × (tool.requires_auth ≡ of_previous (λ t. t.requires_auth) previous)
    of (ok path) k = let same = ap (value_or tool) k in rw (sym same) (refl, refl)
    of (thrown e) k = cc

gate_of-upsert_tool_record :
    (j : String) (tool : Tool) (r : Registry)
    → tool.requires_auth ≡ gate_of tool.id r
    → gate_of j (upsert_tool_record tool r) ≡ gate_of j r
unfolding upsert_tool_record get_tool
gate_of-upsert_tool_record j tool r h = elim (Bool-cases (tool.id == j)) [
  | inl e ↦
      rw (find-upsert_key (λ t. t.id) tool tool.id j r.tools refl, e)
        (h
          ∙ ap (λ i. of_previous (λ t. t.requires_auth) (find (has_id i) r.tools))
              ((eq_iff tool.id j).0 e))
  | inr e ↦ rw (find-upsert_key (λ t. t.id) tool tool.id j r.tools refl, e) refl
]

Preserves-log_tool_gate :
    (j : String) (g : Option Bool) (settings : Settings) (env : Env) (previous : Option Tool)
    (tool : Tool)
    → Preserves (GateIs j g) (log_tool settings env previous tool)
unfolding log_tool
Preserves-log_tool_gate j g settings env previous tool =
    search
      (preserves_rules, Preserves-change_gate, Preserves-persist_gate, gate_of-log_registration)
      depth 12

-- Registering a tool, anew or again, changes no tool's gate.
Preserves-register_gate :
    (j : String) (g : Option Bool) (settings : Settings) (env : Env) (input : ToolRegistrationInput)
    → Preserves (GateIs j g) (register_tool settings env input)
unfolding register_tool ◌>>=◌
Preserves-register_gate j g settings env input = record {
  afterwards =
      λ w h. after w h (build_tool settings env input (get_tool input.id w.registry.live)) refl;
}
  where
    after :
        (w : World)
        → GateIs j g w
        → (r : Result Tool) → build_tool settings env input (get_tool input.id w.registry.live) ≡ r
        → GateIs j g
            ((lift r >>= λ tool.
                change_registry (upsert_tool_record tool)
                >> log_tool settings env (get_tool input.id w.registry.live) tool)
              w).1
    after w h (thrown e) b = h
    after w h (ok tool) b =
        let (i, q) = build_tool-gate settings env input _ tool b in
        (Preserves-log_tool_gate j g settings env (get_tool input.id w.registry.live)
            tool).afterwards
          _
          (gate_of-upsert_tool_record j tool w.registry.live
              (q ∙ ap (λ k. gate_of k w.registry.live) (sym i))
            ∙ h)

gate_of-with_catalog :
    (j : String) (g : Option Bool) (next : CatalogState) (r : Registry)
    → gate_of j r ≡ g
    → gate_of j (with_catalog next r) ≡ g
unfolding get_tool
gate_of-with_catalog j g next r h = h

-- Registering a tool, anew or again and with or without a catalog proposal, its heartbeats, their
-- expiry, enabling and disabling it change no tool's `requiresAuth`, whatever their input carries and
-- whether they return or throw.
pub GateIs-kept :
    (j : String) (g : Option Bool) (settings : Settings) (env : Env) (tool_id : String)
    (q : Reconciliation) (input : ToolRegistrationInput) (submitted : Option Value)
    (beat_patch : HeartbeatPatch) (t : Stamp) (persists : Bool)
    → Preserves (GateIs j g) (register_systems_api_tool settings env q input submitted)
      × Preserves (GateIs j g) (record_tool_heartbeat settings env tool_id beat_patch persists)
      × Preserves (GateIs j g) (expire_tool_heartbeat settings env tool_id t persists)
      × Preserves (GateIs j g) (enable_systems_api_tool settings env tool_id)
      × Preserves (GateIs j g) (disable_systems_api_tool settings env tool_id)
unfolding record_tool_heartbeat expire_tool_heartbeat enable_systems_api_tool
    disable_systems_api_tool beat lapse
GateIs-kept j g settings env tool_id q input submitted beat_patch t persists = (
  Preserves-register_systems_api_tool (λ r. gate_of j r ≡ g) (gate_of-with_catalog j g) settings env
      q input submitted (Preserves-register_gate j g settings env input),
  Preserves-edit_gate j g _ _ _ _ _ _ _ (λ _. refl) (λ _. refl),
  Preserves-edit_gate j g _ _ _ _ _ _ _ (λ _. refl) (λ _. refl),
  Preserves-edit_gate j g _ _ _ _ _ _ _ (λ _. refl) (λ _. refl),
  Preserves-edit_gate j g _ _ _ _ _ _ _ (λ _. refl) (λ _. refl),
)
