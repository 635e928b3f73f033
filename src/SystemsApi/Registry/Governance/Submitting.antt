-- ===== src/SystemsApi/Registry/Governance/Submitting.antt =====
-- What the operations keep that may save a catalog proposal: registerSystemsApiTool, updateTool and
-- saveCatalogProposal of src/systems-api/registry.ts.
use nexus_cloud.Base.{
  Bool-cases, WriteOutcome, Env, Preserves-pure, Preserves-gets, Preserves-bind, saved, lost,
  replaced, String, inl, inr, Option, none, some, ◌==◌, Preserves,
}
use nexus_cloud.Base.Json.{Value}
use nexus_cloud.SystemsApi.Types.{Tool}
use nexus_cloud.SystemsApi.Catalog.{CatalogProposal, CatalogState}
use nexus_cloud.SystemsApi.Catalog.Validation.{validate_catalog_proposal, proposal_value}
use nexus_cloud.SystemsApi.Registry.{Settings, Registry}
use nexus_cloud.SystemsApi.Registry.Tools.{
  ToolRegistrationInput, ToolPatchInput, register_tool, edit_metadata,
}
use nexus_cloud.SystemsApi.Registry.Governance.{
  Reconciliation, unread, synced, unsynced, with_catalog, commit_catalog, committed_record,
  can_submit_catalog_proposal, proposed, save_valid_proposal, save_catalog_proposal,
}
use nexus_cloud.SystemsApi.Registry.Governance.Proposals.{
  save_if_given, save_if_edited, register_systems_api_tool, update_tool,
}

-- What is said of the registry in memory, whatever its catalog is.
module _ (Inv : Registry → Type 0)
    (other_catalog : (next : CatalogState) (r : Registry) → Inv r → Inv (with_catalog next r)) where
  Preserves-commit_catalog :
      (o : WriteOutcome) (q : Reconciliation) (next : CatalogState)
      → Preserves (λ w. Inv w.registry.live) (commit_catalog o q next)
  unfolding commit_catalog
  Preserves-commit_catalog saved q next = record {
    afterwards = λ w h. other_catalog next w.registry.live h;
  }
  Preserves-commit_catalog lost q next = record { afterwards = λ w h. h }
  Preserves-commit_catalog replaced unread next = record { afterwards = λ w h. h }
  Preserves-commit_catalog replaced synced next = record {
    afterwards = λ w h. other_catalog next w.registry.live h;
  }
  Preserves-commit_catalog replaced unsynced next = record {
    afterwards = λ w h. other_catalog next w.registry.live h;
  }

  Preserves-committed_record :
      (o : WriteOutcome) (q : Reconciliation) (tool_id : String) (next : CatalogState)
      → Preserves (λ w. Inv w.registry.live) (committed_record o q tool_id next)
  unfolding committed_record
  Preserves-committed_record o q tool_id next =
      Preserves-bind _ _ (Preserves-commit_catalog o q next) (λ _. Preserves-gets _)

  Preserves-save_valid_proposal :
      (o : WriteOutcome) (q : Reconciliation) (tool_id : String) (p : Option CatalogProposal)
      → Preserves (λ w. Inv w.registry.live) (save_valid_proposal o q tool_id p)
  Preserves-save_valid_proposal o q tool_id none = record { afterwards = λ w h. h }
  Preserves-save_valid_proposal o q tool_id (some p) = record {
    afterwards = λ w h. elim (Bool-cases (tool_id == "")) [
      | inl blank ↦ rw blank h
      | inr named ↦
          elim (Bool-cases
            (can_submit_catalog_proposal tool_id (proposal_value p) w.registry.live)) [
              | inl fresh ↦
                  let next = proposed tool_id p w.registry.live.catalog in
                  rw named (rw fresh ((Preserves-committed_record o q tool_id next).afterwards w h))
              | inr stale ↦ rw named (rw stale h)
            ]
    ];
  }

  Preserves-save_if_given :
      (o : WriteOutcome) (q : Reconciliation) (tool_id : String) (submitted : Option Value)
      → Preserves (λ w. Inv w.registry.live) (save_if_given o q tool_id submitted)
  unfolding save_if_given save_catalog_proposal
  Preserves-save_if_given o q tool_id none = Preserves-pure tt
  Preserves-save_if_given o q tool_id (some v) =
      Preserves-bind _ _ (Preserves-save_valid_proposal o q tool_id (validate_catalog_proposal v))
        (λ _. Preserves-pure tt)

  Preserves-save_if_edited :
      (o : WriteOutcome) (q : Reconciliation) (tool_id : String) (submitted : Option Value)
      (found : Option Tool)
      → Preserves (λ w. Inv w.registry.live) (save_if_edited o q tool_id submitted found)
  unfolding save_if_edited
  Preserves-save_if_edited o q tool_id submitted none = Preserves-pure none
  Preserves-save_if_edited o q tool_id submitted (some tool) =
      Preserves-bind _ _ (Preserves-save_if_given o q tool_id submitted)
        (λ _. Preserves-pure (some tool))

  -- What a registration keeps without a proposal it keeps with one.
  pub Preserves-register_systems_api_tool :
      (settings : Settings) (env : Env) (q : Reconciliation) (input : ToolRegistrationInput)
      (submitted : Option Value)
      → Preserves (λ w. Inv w.registry.live) (register_tool settings env input)
      → Preserves
          (λ w. Inv w.registry.live)
          (register_systems_api_tool settings env q input submitted)
  unfolding register_systems_api_tool
  Preserves-register_systems_api_tool settings env q input submitted kept =
      Preserves-bind _ _ (Preserves-gets _) λ checked.
        Preserves-bind _ _ (record { afterwards = λ w h. h })
          λ _. Preserves-bind _ _ kept λ tool.
            Preserves-bind _ _ (Preserves-save_if_given (env.write 1) q tool.id submitted)
              (λ _. Preserves-pure tool)

  -- And an edit.
  pub Preserves-update_tool :
      (settings : Settings) (env : Env) (q : Reconciliation) (tool_id : String)
      (patch : ToolPatchInput) (submitted : Option Value)
      → Preserves (λ w. Inv w.registry.live) (edit_metadata settings env tool_id patch)
      → Preserves (λ w. Inv w.registry.live) (update_tool settings env q tool_id patch submitted)
  unfolding update_tool
  Preserves-update_tool settings env q tool_id patch submitted kept =
      Preserves-bind _ _ (Preserves-gets _) λ checked.
        Preserves-bind _ _ (record { afterwards = λ w h. h })
          λ _.
            Preserves-bind _ _ kept
              λ found. Preserves-save_if_edited (env.write 1) q tool_id submitted found
