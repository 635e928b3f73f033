-- ===== src/SystemsApi/Registry/Invariant.antt =====
-- What every operation of the registry keeps: a bounded history, and records that do not repeat.
pub mod Steps
pub mod Publishing
pub mod Withdrawing
pub mod Operations
use nexus_cloud.Base.{
  str-eq_self, str-eq_comm, &&-eq-true, length, length-drop, Distinct, Distinct-upsert,
  Distinct-update_first, Apart, Sameness, Apart-upsert, Stamp, ℕ, ◌-◌, ◌≤◌, String, ◌≡◌, refl, true,
  ◌&&◌, List, [], ◌∷◌, ◌++◌, arith, ◌==◌, eq_iff,
}
use nexus_cloud.SystemsApi.Types.{
  Tool, HistoryAction, HistoryEntry, ExposureRecord, PublicUrl, AddressKind, Address, DomainBinding,
}
use nexus_cloud.SystemsApi.Registry.{
  Settings, Registry, has_id, same_kind, same_address, history_limit, trim_history, push_history,
  update_tool_record, upsert_tool_record, upsert_exposure_record, upsert_public_url_record,
  upsert_address_record, upsert_domain_record,
}

pub record IsSound (settings : Settings) (r : Registry) : Type 0 where
  pub history_bounded : length r.history ≤ history_limit settings
  pub tools_distinct : Distinct (λ t. t.id) r.tools
  pub urls_distinct : Distinct (λ u. u.tool_id) r.public_urls
  pub exposures_distinct : Distinct (λ e. e.tool_id) r.exposures
  pub domains_distinct : Distinct (λ b. b.domain) r.domains
  pub addresses_apart : Apart same_address r.addresses

pub trim_history-bound :
    (limit : ℕ) (history : List HistoryEntry) → length (trim_history limit history) ≤ limit
unfolding trim_history
trim_history-bound limit history = omega (arith, length-drop (length history - limit) history)

module _ (settings : Settings) where
  pub push_history-IsSound :
      (tool_id : String) (action : HistoryAction) (summary : String) (t : Stamp) (r : Registry)
      → IsSound settings r
      → IsSound settings (push_history settings tool_id action summary t r)
  unfolding push_history
  push_history-IsSound tool_id action summary t r h = record {
    history_bounded = trim_history-bound (history_limit settings) (
        r.history
        ++ record { tool_id = tool_id; action = action; summary = summary; logged_at = t } ∷ []);
    tools_distinct = h.tools_distinct;
    urls_distinct = h.urls_distinct;
    exposures_distinct = h.exposures_distinct;
    domains_distinct = h.domains_distinct;
    addresses_apart = h.addresses_apart;
  }

  pub update_tool_record-IsSound :
      (tool_id : String) (f : Tool → Tool) (r : Registry)
      → ((t : Tool) → (f t).id ≡ t.id)
      → IsSound settings r
      → IsSound settings (update_tool_record tool_id f r)
  unfolding update_tool_record
  update_tool_record-IsSound tool_id f r k h = record {
    history_bounded = h.history_bounded;
    tools_distinct =
        Distinct-update_first (λ t. t.id) (has_id tool_id) f r.tools k h.tools_distinct;
    urls_distinct = h.urls_distinct;
    exposures_distinct = h.exposures_distinct;
    domains_distinct = h.domains_distinct;
    addresses_apart = h.addresses_apart;
  }

  pub upsert_tool_record-IsSound :
      (tool : Tool) (r : Registry)
      → IsSound settings r
      → IsSound settings (upsert_tool_record tool r)
  unfolding upsert_tool_record
  upsert_tool_record-IsSound tool r h = record {
    history_bounded = h.history_bounded;
    tools_distinct = Distinct-upsert (λ t. t.id) tool r.tools h.tools_distinct;
    urls_distinct = h.urls_distinct;
    exposures_distinct = h.exposures_distinct;
    domains_distinct = h.domains_distinct;
    addresses_apart = h.addresses_apart;
  }

  pub upsert_exposure_record-IsSound :
      (e : ExposureRecord) (r : Registry)
      → IsSound settings r
      → IsSound settings (upsert_exposure_record e r)
  unfolding upsert_exposure_record
  upsert_exposure_record-IsSound e r h = record {
    history_bounded = h.history_bounded;
    tools_distinct = h.tools_distinct;
    urls_distinct = h.urls_distinct;
    exposures_distinct = Distinct-upsert (λ x. x.tool_id) e r.exposures h.exposures_distinct;
    domains_distinct = h.domains_distinct;
    addresses_apart = h.addresses_apart;
  }

  pub upsert_public_url_record-IsSound :
      (u : PublicUrl) (r : Registry)
      → IsSound settings r
      → IsSound settings (upsert_public_url_record u r)
  unfolding upsert_public_url_record
  upsert_public_url_record-IsSound u r h = record {
    history_bounded = h.history_bounded;
    tools_distinct = h.tools_distinct;
    urls_distinct = Distinct-upsert (λ x. x.tool_id) u r.public_urls h.urls_distinct;
    exposures_distinct = h.exposures_distinct;
    domains_distinct = h.domains_distinct;
    addresses_apart = h.addresses_apart;
  }

  pub upsert_domain_record-IsSound :
      (b : DomainBinding) (r : Registry)
      → IsSound settings r
      → IsSound settings (upsert_domain_record b r)
  unfolding upsert_domain_record
  upsert_domain_record-IsSound b r h = record {
    history_bounded = h.history_bounded;
    tools_distinct = h.tools_distinct;
    urls_distinct = h.urls_distinct;
    exposures_distinct = h.exposures_distinct;
    domains_distinct = Distinct-upsert (λ x. x.domain) b r.domains h.domains_distinct;
    addresses_apart = h.addresses_apart;
  }

same_kind-eq : (k l : AddressKind) → same_kind k l ≡ true → k ≡ l
same_kind-eq AddressKind.website AddressKind.website h = refl
same_kind-eq AddressKind.email AddressKind.email h = refl
same_kind-eq AddressKind.server AddressKind.server h = refl
same_kind-eq AddressKind.custom AddressKind.custom h = refl
same_kind-eq _ _ h = cc

same_kind_self : (k : AddressKind) → same_kind k k ≡ true
same_kind_self AddressKind.website = refl
same_kind_self AddressKind.email = refl
same_kind_self AddressKind.server = refl
same_kind_self AddressKind.custom = refl

same_kind_comm : (k l : AddressKind) → same_kind k l ≡ same_kind l k
same_kind_comm k l = ground arith

pub same_address-Sameness : Sameness same_address
same_address-Sameness = record {
  self = λ x. rw (str-eq_self x.tool_id, str-eq_self x.subject, same_kind_self x.kind) refl;
  either = λ x y.
      rw
        (
          str-eq_comm x.tool_id y.tool_id,
          str-eq_comm x.subject y.subject,
          same_kind_comm x.kind y.kind,
        )
        refl;
  alike = λ x y z h.
      let same_id = y.tool_id == x.tool_id in
      let (both, u) = &&-eq-true (same_id && same_kind y.kind x.kind) (y.subject == x.subject) h in
      let (t, k) = &&-eq-true same_id (same_kind y.kind x.kind) both in
      rw
        (
          (eq_iff y.tool_id x.tool_id).0 t,
          same_kind-eq y.kind x.kind k,
          (eq_iff y.subject x.subject).0 u,
        )
        refl;
}

module _ (settings : Settings) where
  pub upsert_address_record-IsSound :
      (a : Address) (r : Registry)
      → IsSound settings r
      → IsSound settings (upsert_address_record a r)
  unfolding upsert_address_record
  upsert_address_record-IsSound a r h = record {
    history_bounded = h.history_bounded;
    tools_distinct = h.tools_distinct;
    urls_distinct = h.urls_distinct;
    exposures_distinct = h.exposures_distinct;
    domains_distinct = h.domains_distinct;
    addresses_apart =
        Apart-upsert same_address same_address-Sameness a r.addresses h.addresses_apart;
  }
