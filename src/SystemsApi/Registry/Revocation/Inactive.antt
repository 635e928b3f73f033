-- ===== src/SystemsApi/Registry/Revocation/Inactive.antt =====
-- After addresses are revoked none of them is active.
use mathlib.Core.Path.{subst}
use nexus_cloud.Base.{
  if◌then◌else◌, Bool-cases, length, filter, any, All, All-weaken, Stamp, Env, now, pure-eq-ok,
  gets-bind, bind-eq-ok, ok, ℕ, suc, String, ◌≡◌, refl, sym, ap, ◌∙◌, inl, inr, Bool, true, false,
  ◌&&◌, Option, none, some, List, [], ◌∷◌, ◌==◌,
}
use nexus_cloud.SystemsApi.Types.{Address, AddressKind, PublicUrl}
use nexus_cloud.SystemsApi.Records.{address_is_active, revoke_address_record}
use nexus_cloud.SystemsApi.Registry.{
  Settings, Registry, World, same_address, get_public_url, push_history, update_tool_record,
  upsert_public_url_record,
}
use nexus_cloud.SystemsApi.Registry.Requests.{is_website}
use nexus_cloud.SystemsApi.Registry.Invariant.{IsSound, same_address-Sameness}
use nexus_cloud.SystemsApi.Registry.Revocation.{
  kind_matches, has_active_address, withdraw, revoke_addresses, revoke_found_url,
  revoke_public_url_record, revoke_matching, revoked_addresses, revoke_address_list,
  revoke_systems_api_address,
}
use nexus_cloud.SystemsApi.Registry.Revocation.Sweep.{sweep, sweep-owned-dead}
use nexus_cloud.SystemsApi.Registry.Revocation.Silence.{revoke_addresses-sweep, persist-live}

-- The address is one of the tool's, and of the kind that is asked for.
abbrev pub owned : String → Option AddressKind → Address → Bool
owned tool_id kind a = a.tool_id == tool_id && kind_matches kind a.kind

revoke_found_url-addresses :
    (settings : Settings) (t : Stamp) (tool_id : String) (u : Option PublicUrl) (r : Registry)
    → (revoke_found_url settings t tool_id u r).addresses ≡ r.addresses
unfolding push_history upsert_public_url_record
revoke_found_url-addresses settings t tool_id none r = refl
revoke_found_url-addresses settings t tool_id (some u) r = refl

pub if-addresses :
    (b : Bool) (one other : Registry) (xs : List Address)
    → one.addresses ≡ xs
    → other.addresses ≡ xs
    → (if b then one else other).addresses ≡ xs
if-addresses true one other xs h k = h
if-addresses false one other xs h k = k

-- What follows the loop leaves the addresses as they are.
revoke_matching-addresses :
    (settings : Settings) (env : Env) (tool_id : String) (matches : List Address) (r : Registry)
    → (revoke_matching settings env tool_id matches r).addresses
      ≡ (revoke_addresses settings env 0 tool_id matches r).addresses
unfolding revoke_matching revoke_public_url_record update_tool_record
revoke_matching-addresses settings env tool_id matches r =
    let gone = revoke_addresses settings env 0 tool_id matches r in
    let n = length matches in
    let website = any (λ a. is_website a.kind) matches in
    let url = get_public_url tool_id gone in
    let unlisted =
      if website then revoke_found_url settings (now env n) tool_id url gone else gone in
    let kept : unlisted.addresses ≡ gone.addresses =
      if-addresses website (revoke_found_url settings (now env n) tool_id url gone) gone
        gone.addresses (revoke_found_url-addresses settings (now env n) tool_id url gone) refl in
    if-addresses (has_active_address tool_id unlisted) unlisted
      (update_tool_record tool_id (withdraw none (now env (suc n))) unlisted) gone.addresses kept
      kept

length-revoked_addresses :
    (env : Env) (i : ℕ) (ms : List Address) → length (revoked_addresses env i ms) ≡ length ms
unfolding revoked_addresses
length-revoked_addresses env i [] = refl
length-revoked_addresses env i (m ∷ ms) = ap suc (length-revoked_addresses env (suc i) ms)

-- The addresses that are left, and how many were returned.
abbrev swept : Env → String → Option AddressKind → List Address → List Address → List Address
swept env tool_id kind =
    sweep same_address (λ a. address_is_active a.status) (owned tool_id kind)
      (λ k. revoke_address_record (now env k)) 0

revoke_address_list-eq-ok :
    (settings : Settings) (env : Env) (tool_id : String) (kind : Option AddressKind)
    (ms revoked : List Address) (w t : World)
    → revoke_address_list settings env tool_id ms w ≡ (ok revoked, t)
    → (t.registry.live.addresses ≡ swept env tool_id kind ms w.registry.live.addresses)
      × (length revoked ≡ length ms)
unfolding revoke_address_list
revoke_address_list-eq-ok settings env tool_id kind [] revoked w t h =
    (ap (λ r. r.1.registry.live.addresses) (sym h), ap length (sym (pure-eq-ok [] revoked w t h)))
revoke_address_list-eq-ok settings env tool_id kind (a ∷ rest) revoked w t h =
    let ms = a ∷ rest in
    let (_, w1, p1, q1) = bind-eq-ok _ _ w h in
    let (_, w2, p2, q2) = bind-eq-ok _ _ w1 q1 in
    let live =
      sym (ap (λ r. r.1.registry.live) q2)
      ∙ (sym (ap (λ r. r.1.registry.live) p2)
          ∙ (persist-live (env.write 0) w1 ∙ sym (ap (λ r. r.1.registry.live) p1))) in
    (
      ap (λ r. r.addresses) live
          ∙ (revoke_matching-addresses settings env tool_id ms w.registry.live
              ∙ (revoke_addresses-sweep settings env 0 tool_id ms w.registry.live).0),
      ap length (sym (pure-eq-ok (revoked_addresses env 0 ms) revoked w2 t q2))
          ∙ length-revoked_addresses env 0 ms,
    )

-- Where the registry is sound and addresses of a tool are revoked, of one kind or of all, none of
-- them is active afterwards, and as many records are returned as there were addresses of that tool
-- and kind.
revoked_addresses_are_inactive :
    (settings : Settings) (env : Env) (tool_id : String) (kind : Option AddressKind) (w t : World)
    (revoked : List Address)
    → IsSound settings w.registry.live
    → revoke_systems_api_address settings env tool_id kind w ≡ (ok revoked, t)
    → All
        (λ a. owned tool_id kind a && address_is_active a.status ≡ false)
        t.registry.live.addresses
      × (length revoked ≡ length (filter (owned tool_id kind) w.registry.live.addresses))
unfolding revoke_systems_api_address revoke_address_record
revoked_addresses_are_inactive settings env tool_id kind w t revoked h k =
    let addresses = w.registry.live.addresses in
    let (left, count) =
      revoke_address_list-eq-ok settings env tool_id kind (filter (owned tool_id kind) addresses)
        revoked w t (sym (gets-bind _ _ w) ∙ k) in
    (
      subst (All (λ a. owned tool_id kind a && address_is_active a.status ≡ false)) (sym left) (
          All-weaken (λ a. owned tool_id kind a && address_is_active a.status ≡ false)
            (λ a f. elim (Bool-cases (owned tool_id kind a)) [
              | inl e ↦ let n = f e in rw (e, n) refl
              | inr e ↦ rw e refl
            ])
            (swept env tool_id kind (filter (owned tool_id kind) addresses) addresses)
            (sweep-owned-dead same_address (λ a. address_is_active a.status) (owned tool_id kind)
              (λ i. revoke_address_record (now env i)) same_address-Sameness (λ _ _ _. refl)
              (λ _ _. refl) 0 addresses h.addresses_apart)),
      count,
    )
