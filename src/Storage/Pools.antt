-- ===== src/Storage/Pools.antt =====
-- The shared storage pools of src/storage/index.ts.
use Prim.Native.Char.{code}
use Prim.Native.String
use mathlib.Core.Option
use nexus_cloud.Base.{
  ltb, leb, eqb, if◌then◌else◌, or_else, template, length, filter, find, update_first, upsert, trim,
  lower, take_chars, Env, now, Action, ok, ℕ, String, Bool, true, false, not, ◌&&◌, ◌||◌, Option,
  none, some, List, [], ◌∷◌, ◌==◌,
}
use nexus_cloud.Base.Int.{pos, leb_ℤ}
use nexus_cloud.Base.Sorting.{sort_by}
use nexus_cloud.Federation.Types.{PoolStatus}
use nexus_cloud.State.Types.{PlatformState}
use nexus_cloud.State.{Store, mutate_state}
use nexus_cloud.Storage.Types.{SharedStoragePool}

-- `S3Config`
pub record S3Config : Type 0 where
  pub endpoint : String
  pub access_key : String
  pub secret_key : String
  pub region : String

-- What the storage reads from the environment: `s3Config()` and `bucketPrefix()`.
pub record StorageSettings : Type 0 where
  pub s3_config : S3Config
  pub bucket_prefix : String

-- `[a-z0-9-]`
abbrev pub is_id_char : ℕ → Bool
is_id_char c = (leb b'a' c && leb c b'z') || (leb b'0' c && leb c b'9') || eqb c b'-'

-- `s.replace(/[^a-z0-9-]/g, "-")`
unfoldable pub dashed : String → String
dashed String.[] = ""
dashed (String.◌∷◌ c s) =
    String.◌++◌ (if is_id_char (code c) then String.◌∷◌ c "" else "-") (dashed s)

-- `s.replace(/-+$/, "")`
unfoldable pub strip_dashes : String → String
strip_dashes String.[] = ""
strip_dashes (String.◌∷◌ c s) =
    let rest = strip_dashes s in if eqb (code c) b'-' && rest == "" then "" else String.◌∷◌ c rest

-- The id that a name gives, or one made of a UUID.
unfoldable pub id_of_name : String → String → String → String
unfolding dashed strip_dashes
id_of_name kind uuid name =
    let id = strip_dashes (dashed (lower (trim name))) in
    if id == "" then template (kind ∷ "-" ∷ take_chars 8 uuid ∷ []) else id

unfoldable pub sanitize_pool_id : String → String → String
unfolding id_of_name
sanitize_pool_id uuid name = id_of_name "pool" uuid name

abbrev pub has_pool_id : String → SharedStoragePool → Bool
has_pool_id pool_id p = p.id == pool_id

unfoldable pub list_pools : PlatformState → List SharedStoragePool
list_pools s = s.shared_storage_pools

unfoldable pub get_pool : String → PlatformState → Option SharedStoragePool
unfolding list_pools
get_pool pool_id s = find (has_pool_id pool_id) (list_pools s)

unfoldable pub storage_config_for_pool : StorageSettings → SharedStoragePool → S3Config
storage_config_for_pool settings pool = record {
  endpoint = pool.endpoint;
  region = pool.region;
  access_key = settings.s3_config.access_key;
  secret_key = settings.s3_config.secret_key;
}

pub record SharedStoragePoolRequest : Type 0 where
  pub name : String
  pub total_capacity_gb : ℕ
  pub tags : Option (List String)
  pub replication_factor : Option ℕ

unfoldable pub new_pool :
    Env → StorageSettings → SharedStoragePoolRequest → String → String → SharedStoragePool
unfolding sanitize_pool_id
new_pool env settings input owner_node_id owner_node_did = record {
  id = sanitize_pool_id (env.uuid 0) input.name;
  name = trim input.name;
  owner_node_id = owner_node_id;
  owner_node_did = owner_node_did;
  endpoint = settings.s3_config.endpoint;
  region = settings.s3_config.region;
  total_capacity_gb = input.total_capacity_gb;
  available_capacity_gb = pos input.total_capacity_gb;
  status = PoolStatus.active;
  tags = or_else input.tags [];
  replication_factor = or_else input.replication_factor 1;
  created_at = now env 0;
  updated_at = now env 1;
  last_heartbeat_at = none;
}

abbrev pub put_pool : SharedStoragePool → PlatformState → PlatformState
put_pool pool s = record s {
  shared_storage_pools = upsert (λ p. p.id == pool.id) pool s.shared_storage_pools;
}

unfoldable pub register_pool :
    Env
    → StorageSettings
    → SharedStoragePoolRequest
    → String
    → String
    → Action (Store PlatformState) SharedStoragePool
unfolding mutate_state new_pool
register_pool env settings input owner_node_id owner_node_did =
    let pool = new_pool env settings input owner_node_id owner_node_did in
    mutate_state (env.write 0) (λ s. (ok pool, put_pool pool s))

abbrev pub edit_pools :
    String → (SharedStoragePool → SharedStoragePool) → PlatformState → PlatformState
edit_pools pool_id change s = record s {
  shared_storage_pools = update_first (has_pool_id pool_id) change s.shared_storage_pools;
}

-- The draft of an operation on one pool: the first of the id is changed, and what it became is
-- returned.
unfoldable pub pool_draft :
    String
    → (SharedStoragePool → SharedStoragePool)
    → Action PlatformState (Option SharedStoragePool)
pool_draft pool_id change s = (
  ok (Option.map change (find (has_pool_id pool_id) s.shared_storage_pools)),
  edit_pools pool_id change s,
)

abbrev pub beaten : Env → SharedStoragePool → SharedStoragePool
beaten env pool = record pool { last_heartbeat_at = some (now env 0); updated_at = now env 1 }

unfoldable pub update_pool_heartbeat :
    Env → String → Action (Store PlatformState) (Option SharedStoragePool)
unfolding mutate_state pool_draft
update_pool_heartbeat env pool_id = mutate_state (env.write 0) (pool_draft pool_id (beaten env))

abbrev pub drained : Env → SharedStoragePool → SharedStoragePool
drained env pool = record pool { status = PoolStatus.draining; updated_at = now env 0 }

unfoldable pub drain_pool : Env → String → Action (Store PlatformState) (Option SharedStoragePool)
unfolding mutate_state pool_draft
drain_pool env pool_id = mutate_state (env.write 0) (pool_draft pool_id (drained env))

abbrev pub without_pool : String → Action PlatformState Bool
without_pool pool_id s =
    let kept = filter (λ p. not (has_pool_id pool_id p)) s.shared_storage_pools in
    (
      ok (ltb (length kept) (length s.shared_storage_pools)),
      record s { shared_storage_pools = kept },
    )

unfoldable pub remove_pool : Env → String → Action (Store PlatformState) Bool
unfolding mutate_state
remove_pool env pool_id = mutate_state (env.write 0) (without_pool pool_id)

abbrev pub is_active_pool : PoolStatus → Bool
is_active_pool PoolStatus.active = true
is_active_pool _ = false

abbrev pub has_room : ℕ → SharedStoragePool → Bool
has_room size_gb p = is_active_pool p.status && leb_ℤ (pos size_gb) p.available_capacity_gb

-- `b.availableCapacityGb - a.availableCapacityGb > 0`
abbrev pub has_less : SharedStoragePool → SharedStoragePool → Bool
has_less a b = not (leb_ℤ b.available_capacity_gb a.available_capacity_gb)

-- `candidates[0]`
abbrev pub first : List SharedStoragePool → Option SharedStoragePool
first [] = none
first (p ∷ ps) = some p

unfoldable pub select_pool_for_volume : List SharedStoragePool → ℕ → Option SharedStoragePool
unfolding sort_by
select_pool_for_volume pools size_gb = first (sort_by has_less (filter (has_room size_gb) pools))
