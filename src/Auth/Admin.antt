-- ===== src/Auth/Admin.antt =====
-- The issue and the withdrawal of API keys, of documentai-api/src/documentai_api/utils/auth.py. The random
-- part of a new key is an argument.
use strata_documentai_api_en.Prelude.{
  ℕ, ◌+◌, String, Bool, true, false, ◌&&◌, Option, none, some, [], ◌∷◌, has_text, is_true, str_eq,
  codes, lookup, insert, Table, if◌then◌else◌, joined, filter_if, length, ltb,
}
use strata_documentai_api_en.Response.{truthy}
use strata_documentai_api_en.Store.Actions.{Outcome, returned, raised, value_error}
use strata_documentai_api_en.Cache
use strata_documentai_api_en.Auth.{
  ApiKey, AuthConfig, AuthState, StoredTime, moment, compute_key_hash, key_prefix, is_prefix,
}

abbrev pub is_text : String → Option String → Bool
is_text s none = false
is_text s (some t) = str_eq t s

abbrev pub in_tenant : String → String × ApiKey → Bool
in_tenant tenant_id (h, k) = is_text tenant_id k.tenant_id

abbrev pub is_active_item : String × ApiKey → Bool
is_active_item (h, k) = is_true k.is_active

abbrev pub is_named : String → String × ApiKey → Bool
is_named name (h, k) = is_text name k.api_key_name

-- `query_by_key` on the index by tenant
abbrev pub keys_of_tenant : String → AuthState → Table ApiKey
keys_of_tenant tenant_id s = filter_if (in_tenant tenant_id) s.api_keys

-- the sort condition of `query_by_key`, which an empty name leaves out
abbrev pub with_name : String → Table ApiKey → Table ApiKey
with_name name items = if has_text (some name) then filter_if (is_named name) items else items

abbrev pub named_in : String → Option String → AuthState → Table ApiKey
named_in name none s = filter_if (is_named name) s.api_keys
named_in name (some tenant_id) s = with_name name (keys_of_tenant tenant_id s)

unfoldable pub get_active_keys_by_name : String → Option String → AuthState → Table ApiKey
get_active_keys_by_name name tenant_id s = filter_if is_active_item (named_in name tenant_id s)

unfoldable pub is_duplicate_key_name : String → String → AuthState → Bool
is_duplicate_key_name tenant_id name s =
    ltb 0 (length (with_name name (keys_of_tenant tenant_id s)))

-- What a key is issued for.
pub record KeyRequest : Type 0 where
  pub api_key_name : String
  pub environment : String
  pub tenant_id : String
  pub expires_at : Option ℕ
  pub created_by : Option String
  pub email_address : Option String

abbrev pub time_of : Option ℕ → Option StoredTime
time_of none = none
time_of (some t) = some (moment t)

abbrev pub new_key : KeyRequest → ℕ → ApiKey
new_key q now = record {
  api_key_name = some q.api_key_name;
  tenant_id = some q.tenant_id;
  environment = some q.environment;
  is_active = some true;
  created_at = some now;
  expires_at = time_of q.expires_at;
  last_used = none;
  created_by = truthy q.created_by;
  email_address = truthy q.email_address;
}

unfoldable pub generate_api_key :
    AuthConfig → KeyRequest → String → AuthState → (String × Table ApiKey) × AuthState
unfolding compute_key_hash get_active_keys_by_name
generate_api_key cfg q random_part s =
    let api_key = joined key_prefix random_part in
    (
      (api_key, get_active_keys_by_name q.api_key_name (some q.tenant_id) s),
      record s { api_keys = insert (compute_key_hash cfg api_key) (new_key q s.now) s.api_keys },
    )

abbrev pub is_in_scope : Option String → String × ApiKey → Bool
is_in_scope none item = true
is_in_scope (some tenant_id) item = in_tenant tenant_id item

abbrev pub matches : String → Option String → String × ApiKey → Bool
matches prefix tenant_id (h, k) =
    is_active_item (h, k) && is_prefix (codes prefix) (codes h) && is_in_scope tenant_id (h, k)

abbrev pub only_match : Table ApiKey → Outcome (Option String)
only_match [] = returned none
only_match ((h, k) ∷ []) = returned (some h)
only_match (a ∷ b ∷ items) = raised value_error

unfoldable pub find_api_key_by_prefix : String → Option String → AuthState → Outcome (Option String)
find_api_key_by_prefix prefix tenant_id s =
    only_match (filter_if (matches prefix tenant_id) s.api_keys)

abbrev pub deactivated : String → Option ApiKey → AuthState → Bool × AuthState
deactivated key_hash none s = (false, s)
deactivated key_hash (some k) s = (
  true,
  record s {
    api_keys = insert key_hash (record k { is_active = some false }) s.api_keys;
    cache = Cache.invalidate key_hash s.cache;
  },
)

unfoldable pub deactivate_api_key : String → AuthState → Bool × AuthState
unfolding Cache.invalidate
deactivate_api_key key_hash s = deactivated key_hash (lookup key_hash s.api_keys) s

-- the loop over the active items; an item with an empty hash is left out
unfoldable pub deactivate_all : Table ApiKey → ℕ → AuthState → ℕ × AuthState
unfolding deactivate_api_key
deactivate_all [] count s = (count, s)
deactivate_all ((h, k) ∷ items) count s =
    if has_text (some h)
    then deactivate_all items (count + 1) (deactivate_api_key h s).1
    else deactivate_all items count s

unfoldable pub deactivate_keys_for_tenant : String → AuthState → ℕ × AuthState
unfolding deactivate_all
deactivate_keys_for_tenant tenant_id s =
    deactivate_all (filter_if is_active_item (keys_of_tenant tenant_id s)) 0 s
