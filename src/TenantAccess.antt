-- ===== src/TenantAccess.antt =====
-- Whose a document, a batch and a build are: documentai-api/src/documentai_api/utils/tenant_access.py, and the
-- scope of an administrator, of utils/jwt_auth.py.
use strata_documentai_api_en.Prelude.{
  String, Bool, false, Option, none, some, str_eq, if◌then◌else◌,
}
use strata_documentai_api_en.Response.{truthy}
use strata_documentai_api_en.Document.{Document, BuildItem}
use strata_documentai_api_en.Batch.{get_batch}
use strata_documentai_api_en.Builds.{get_build_metadata}
use strata_documentai_api_en.Auth.Access.{Claims, is_super_admin}
use strata_documentai_api_en.Store.State.{Batch}
use strata_documentai_api_en.Store.Actions.{
  Action, Outcome, returned, raised, http_error, pure, raise, ◌>>=◌,
}

-- whether a stored tenant is the one given
abbrev pub is_tenant : String → Option String → Bool
is_tenant tenant_id none = false
is_tenant tenant_id (some t) = str_eq t tenant_id

abbrev pub or_not_found : Bool → Action (Unit {0})
or_not_found b = if b then pure tt else raise (http_error 404)

abbrev pub tenant_of_document : Option Document → Option String
tenant_of_document none = none
tenant_of_document (some d) = d.tenant_id

abbrev pub tenant_of_batch : Option Batch → Option String
tenant_of_batch none = none
tenant_of_batch (some b) = b.tenant_id

abbrev pub tenant_of_build : Option BuildItem → Option String
tenant_of_build none = none
tenant_of_build (some i) = i.tenant_id

unfoldable pub validate_document_tenant_access : Option Document → String → Action (Unit {0})
validate_document_tenant_access d tenant_id =
    or_not_found (is_tenant tenant_id (tenant_of_document d))

unfoldable pub validate_batch_tenant_access : String → String → Action (Unit {0})
unfolding get_batch
validate_batch_tenant_access batch_id tenant_id =
    get_batch batch_id >>= λ b. or_not_found (is_tenant tenant_id (tenant_of_batch b))

unfoldable pub validate_build_tenant_access : String → String → Action (Unit {0})
unfolding get_build_metadata
validate_build_tenant_access build_id tenant_id =
    get_build_metadata build_id >>= λ i. or_not_found (is_tenant tenant_id (tenant_of_build i))

unfoldable pub require_super_admin : Claims → Outcome (Unit {0})
require_super_admin claims = if is_super_admin claims then returned tt else raised (http_error 403)

-- The record's tenant against a scope; no scope is that of a super-administrator.
unfoldable pub assert_tenant_scope : Option String → Option String → Outcome (Unit {0})
assert_tenant_scope tenant_id none = returned tt
assert_tenant_scope tenant_id (some scope) =
    if is_tenant scope tenant_id then returned tt else raised (http_error 404)

abbrev pub scope_of : Option String → Outcome (Option String)
scope_of none = raised (http_error 403)
scope_of (some tenant_id) = returned (some tenant_id)

unfoldable pub tenant_scope : Claims → Outcome (Option String)
tenant_scope claims =
    if is_super_admin claims then returned none else scope_of (truthy claims.tenant_id)

abbrev pub own_or_requested : Option String → Outcome (Option String) → Outcome (Option String)
own_or_requested requested (raised e) = raised e
own_or_requested requested (returned none) = returned requested
own_or_requested requested (returned (some scope)) = returned (some scope)

unfoldable pub resolve_tenant : Claims → Option String → Outcome (Option String)
unfolding tenant_scope
resolve_tenant claims requested = own_or_requested requested (tenant_scope claims)
