-- ===== src/Auth.antt =====
-- documentai-api/src/documentai_api/utils/auth.py: the API keys, in a table by their hash, and the cache
-- of a container. The two hash functions are arguments. A stored time is a moment or a text that is
-- none, an empty one counts as absent. The thread that writes when a key was last used is an operation
-- of its own; `authenticate` notes that it is started. The table is configured, and its calls do
-- not fail.
pub mod Admin
pub mod Access
pub mod Issued
pub mod Withdrawn
use strata_documentai_api_en.Prelude.{
  ℕ, ◌-◌, ◌/◌, ◌*◌, String, Bool, true, false, not, ◌&&◌, Option, none, some, List, [], ◌∷◌, ◌++◌,
  is_true, ltb, leb, ◌==◌, length, codes, lookup, insert, delete, Table, if◌then◌else◌,
}
use strata_documentai_api_en.Response.{truthy}
use strata_documentai_api_en.Batch.{or_zero}
use strata_documentai_api_en.Cache.{CacheItem}
use strata_documentai_api_en.Cache
use strata_documentai_api_en.Store.Actions.{Outcome, returned, raised, http_error}

pub data StoredTime : Type 0 where
  moment : ℕ → StoredTime
  unreadable : String → StoredTime

-- An item of the api-keys table, under its key `keyHash` (schemas/api_key.py).
pub record ApiKey : Type 0 where
  pub api_key_name : Option String
  pub tenant_id : Option String
  pub environment : Option String
  pub is_active : Option Bool
  pub created_at : Option ℕ
  pub expires_at : Option StoredTime
  pub last_used : Option ℕ
  pub created_by : Option String
  pub email_address : Option String

abbrev pub empty_key : ApiKey
empty_key = record {
  api_key_name = none;
  tenant_id = none;
  environment = none;
  is_active = none;
  created_at = none;
  expires_at = none;
  last_used = none;
  created_by = none;
  email_address = none;
}

abbrev pub key_or_empty : Option ApiKey → ApiKey
key_or_empty none = empty_key
key_or_empty (some k) = k

pub record AuthConfig : Type 0 where
  pub hash_key : String → String
  pub hash_key_with_pepper : String → String → String
  pub pepper : Option String
  pub cache_ttl_seconds : Option ℕ

-- `pending_updates` holds the hashes of the keys whose threads are started and have not run.
pub record AuthState : Type 0 where
  pub api_keys : Table ApiKey
  pub cache : Table (CacheItem ApiKey)
  pub last_used_written_at : Table ℕ
  pub pending_updates : List String
  pub now : ℕ

abbrev pub AuthAction : Type 0 → Type 0
AuthAction A = AuthState → Outcome A × AuthState

abbrev pub unauthorized : {A : Type 0} → AuthAction A
unauthorized s = (raised (http_error 401), s)

abbrev pub is_prefix : List ℕ → List ℕ → Bool
is_prefix [] ds = true
is_prefix (c ∷ cs) [] = false
is_prefix (c ∷ cs) (d ∷ ds) = c == d && is_prefix cs ds

abbrev pub key_prefix : String
key_prefix = "docai_"

-- `_API_KEY_MIN_LENGTH`
abbrev pub min_length : ℕ
min_length = 38

unfoldable pub is_valid_key_format : String → Bool
is_valid_key_format api_key =
    is_prefix (codes key_prefix) (codes api_key) && leb min_length (length (codes api_key))

-- `_validate_key_record`
abbrev pub is_valid_at : ℕ → Option StoredTime → Bool
is_valid_at now none = true
is_valid_at now (some (moment expiry)) = not (ltb expiry now)
is_valid_at now (some (unreadable s)) = false

unfoldable pub validate_key_record : ℕ → ApiKey → Bool
validate_key_record now k = is_true k.is_active && is_valid_at now k.expires_at

module _ (cfg : AuthConfig) where
  abbrev pub hash_by : String → Option String → String
  hash_by api_key none = cfg.hash_key api_key
  hash_by api_key (some pepper) = cfg.hash_key_with_pepper api_key pepper

  unfoldable pub compute_key_hash : String → String
  compute_key_hash api_key = hash_by api_key (truthy cfg.pepper)

  abbrev pub ttl_of : Option ℕ → ℕ
  ttl_of none = 5
  ttl_of (some seconds) = if ltb 1 (seconds / 60) then seconds / 60 else 1

  unfoldable pub get_cache_ttl_minutes : ℕ
  get_cache_ttl_minutes = ttl_of cfg.cache_ttl_seconds

  abbrev pub moved : String → String → Option ApiKey → AuthState → AuthState
  moved old_hash new_hash none s = s
  moved old_hash new_hash (some k) s = record s {
    api_keys = delete old_hash (insert new_hash k s.api_keys);
    cache = Cache.invalidate old_hash s.cache;
  }

  unfoldable pub migrate_key_hash : String → String → AuthState → AuthState
  unfolding Cache.invalidate
  migrate_key_hash old_hash new_hash s = moved old_hash new_hash (lookup old_hash s.api_keys) s

  -- the legacy fallback, with what is found under the legacy hash
  abbrev pub from_legacy :
      String → Option String → Option ApiKey → AuthState → Option ApiKey × AuthState
  from_legacy api_key pepper none s = (none, s)
  from_legacy api_key none (some k) s = (some k, s)
  from_legacy api_key (some pepper) (some k) s =
      (some k, migrate_key_hash (cfg.hash_key api_key) (cfg.hash_key_with_pepper api_key pepper) s)

  abbrev pub unless_found :
      String → Option String → Option ApiKey → AuthState → Option ApiKey × AuthState
  unless_found api_key pepper (some k) s = (some k, s)
  unless_found api_key pepper none s =
      from_legacy api_key pepper (lookup (cfg.hash_key api_key) s.api_keys) s

  abbrev pub found_by : String → Option String → AuthState → Option ApiKey × AuthState
  found_by api_key none s = unless_found api_key none none s
  found_by api_key (some pepper) s =
      unless_found api_key (some pepper)
        (lookup (cfg.hash_key_with_pepper api_key pepper) s.api_keys) s

  unfoldable pub lookup_and_maybe_migrate : String → AuthState → Option ApiKey × AuthState
  unfolding migrate_key_hash
  lookup_and_maybe_migrate api_key s = found_by api_key (truthy cfg.pepper) s

  -- A record that is looked up is cached.
  abbrev pub cached : String → Option ApiKey × AuthState → Option ApiKey × AuthState
  cached key_hash (none, s) = (none, s)
  cached key_hash (some k, s) =
      (some k, record s { cache = Cache.add key_hash k get_cache_ttl_minutes s.now s.cache })

  abbrev pub from_cache :
      String
      → String
      → Option ApiKey × Table (CacheItem ApiKey)
      → AuthState
      → Option ApiKey × AuthState
  from_cache api_key key_hash (some k, c) s = (some k, record s { cache = c })
  from_cache api_key key_hash (none, c) s =
      cached key_hash (lookup_and_maybe_migrate api_key (record s { cache = c }))

  abbrev pub with_key_tenant : String → ApiKey → Option String → AuthAction (ApiKey × String)
  with_key_tenant key_hash k none s = unauthorized s
  with_key_tenant key_hash k (some tenant_id) s =
      (returned (k, tenant_id), record s { pending_updates = s.pending_updates ++ (key_hash ∷ []) })

  abbrev pub checked_record : String → Option ApiKey → AuthAction (ApiKey × String)
  checked_record key_hash none s = unauthorized s
  checked_record key_hash (some k) s =
      if validate_key_record s.now k
      then with_key_tenant key_hash k (truthy k.tenant_id) s
      else unauthorized s

  unfoldable pub authenticate : String → AuthAction (ApiKey × String)
  unfolding is_valid_key_format compute_key_hash lookup_and_maybe_migrate validate_key_record
      get_cache_ttl_minutes Cache.get Cache.add
  authenticate api_key s =
      if is_valid_key_format api_key
      then (let h = compute_key_hash api_key in
          let (o, s') = from_cache api_key h (Cache.get h s.now s.cache) s in checked_record h o s')
      else unauthorized s

-- `_LAST_USED_DEBOUNCE_SECONDS` and `_LAST_USED_MAX_ENTRIES`
abbrev pub debounce : ℕ
debounce = 60 * 100

abbrev pub max_entries : ℕ
max_entries = 50000

abbrev pub evict : Table ℕ → Table ℕ
evict [] = []
evict (entry ∷ entries) =
    let rest = evict entries in
    if ltb max_entries (length (entry ∷ entries)) then rest else entry ∷ entries

-- The thread that `authenticate` starts.
unfoldable pub update_last_used : String → AuthState → AuthState
update_last_used key_hash s =
    if ltb (s.now - or_zero (lookup key_hash s.last_used_written_at)) debounce
    then s
    else record s {
      last_used_written_at =
          evict (delete key_hash s.last_used_written_at ++ ((key_hash, s.now) ∷ []));
      api_keys =
          insert key_hash
            (record (key_or_empty (lookup key_hash s.api_keys)) { last_used = some s.now })
            s.api_keys;
    }
