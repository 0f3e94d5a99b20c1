-- ===== src/Auth/Access.antt =====
-- Who a caller is, and the tenant for which it may ask: the last part of
-- documentai-api/src/documentai_api/utils/auth.py, and the roles of utils/jwt_auth.py. The verification of
-- a token is an argument: it finds claims, or nothing where it raises.
use strata_documentai_api_en.Prelude.{
  String, Bool, ◌||◌, Option, none, some, List, has_text, text_in, str_eq, if◌then◌else◌,
}
use strata_documentai_api_en.Response.{truthy}
use strata_documentai_api_en.Store.Actions.{Outcome, returned, raised, http_error}
use strata_documentai_api_en.Auth.{ApiKey, AuthConfig, AuthState, AuthAction, authenticate}

pub data AuthMethod : Type 0 where
  api_key jwt : AuthMethod

pub record UserContext : Type 0 where
  pub tenant_id : String
  pub api_key_name : String
  pub auth_method : AuthMethod

-- The claims of a token that are read, the groups as a list.
pub record Claims : Type 0 where
  pub groups : List String
  pub tenant_id : Option String
  pub email : Option String
  pub sub : Option String

abbrev pub super_admin : String
super_admin = "__admin__"

abbrev pub is_super_admin : Claims → Bool
is_super_admin claims = text_in "super-admin" claims.groups

abbrev pub is_tenant_admin : Claims → Bool
is_tenant_admin claims = text_in "tenant-admin" claims.groups

pub record Access : Type 0 where
  pub is_enabled : Bool
  pub insecure_shared_key : Option String
  pub claims_of : String → Option Claims

abbrev pub or_unknown : Option String → String
or_unknown none = "unknown"
or_unknown (some s) = s

abbrev pub is_shared_key : Option String → Outcome (Unit {0}) → String → Outcome (Unit {0})
is_shared_key none refused key = raised (http_error 500)
is_shared_key (some expected) refused key = if str_eq key expected then returned tt else refused

-- `_verify_with_insecure_shared_key`; an empty key is refused like a wrong one
unfoldable pub verify_with_insecure_shared_key : Access → String → Outcome (Unit {0})
verify_with_insecure_shared_key a key =
    is_shared_key (truthy a.insecure_shared_key) (raised (http_error 401)) key

abbrev pub context_of_key : Outcome (ApiKey × String) → Outcome UserContext
context_of_key (raised e) = raised e
context_of_key (returned (k, tenant_id)) = returned (record {
  tenant_id = tenant_id;
  api_key_name = or_unknown k.api_key_name;
  auth_method = api_key;
})

abbrev pub local_context : Outcome (Unit {0}) → Outcome UserContext
local_context (raised e) = raised e
local_context (returned done) =
    returned (record { tenant_id = "local"; api_key_name = "local-dev"; auth_method = api_key })

unfoldable pub get_user_context_from_api_key : AuthConfig → Access → String → AuthAction UserContext
unfolding authenticate verify_with_insecure_shared_key
get_user_context_from_api_key cfg a key s =
    if a.is_enabled
    then (let (r, s') = authenticate cfg key s in (context_of_key r, s'))
    else (local_context (verify_with_insecure_shared_key a key), s)

abbrev pub name_of_claims : Claims → String
name_of_claims claims =
    if has_text claims.email then or_unknown claims.email else or_unknown claims.sub

abbrev pub jwt_context : Claims → String → Outcome UserContext
jwt_context claims tenant_id =
    returned
      (record { tenant_id = tenant_id; api_key_name = name_of_claims claims; auth_method = jwt })

abbrev pub scoped_context : Claims → Option String → Outcome UserContext
scoped_context claims none = raised (http_error 403)
scoped_context claims (some tenant_id) = jwt_context claims tenant_id

unfoldable pub context_of_claims : Claims → Outcome UserContext
context_of_claims claims =
    if is_super_admin claims || is_tenant_admin claims
    then if is_super_admin claims
      then jwt_context claims super_admin
      else scoped_context claims (truthy claims.tenant_id)
    else raised (http_error 403)

abbrev pub verified : Option Claims → Outcome UserContext
verified none = raised (http_error 401)
verified (some claims) = context_of_claims claims

abbrev pub by_token : Access → Option String → AuthAction UserContext
by_token a none s = (raised (http_error 401), s)
by_token a (some token) s = (verified (a.claims_of token), s)

abbrev pub unless_http_error :
    Access → Option String → Outcome UserContext × AuthState → Outcome UserContext × AuthState
unless_http_error a token (returned c, s) = (returned c, s)
unless_http_error a token (raised (http_error status), s) = by_token a token s
unless_http_error a token (raised e, s) = (raised e, s)

abbrev pub by_key : AuthConfig → Access → Option String → Option String → AuthAction UserContext
by_key cfg a none token s = by_token a token s
by_key cfg a (some key) token s =
    unless_http_error a token (get_user_context_from_api_key cfg a key s)

unfoldable pub get_user_context_with_fallback :
    AuthConfig → Access → Option String → Option String → AuthAction UserContext
unfolding get_user_context_from_api_key context_of_claims
get_user_context_with_fallback cfg a key token s = by_key cfg a (truthy key) token s

abbrev pub own_tenant : UserContext → Option String → Outcome (Option String)
own_tenant c none = returned (some c.tenant_id)
own_tenant c (some requested) =
    if str_eq requested c.tenant_id then returned (some c.tenant_id) else raised (http_error 403)

unfoldable pub resolve_tenant_from_context : UserContext → Option String → Outcome (Option String)
resolve_tenant_from_context c requested = elim c.auth_method [
  | api_key ↦ own_tenant c (truthy requested)
  | jwt ↦
      if str_eq c.tenant_id super_admin then returned requested else own_tenant c (truthy requested)
]
