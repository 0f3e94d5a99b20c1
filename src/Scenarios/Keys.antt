-- ===== src/Scenarios/Keys.antt =====
-- A key that is issued, and withdrawn with the other keys of its tenant.
use strata_documentai_api_en.Prelude.{◌≡◌, refl, String, true, none, some, [], ◌∷◌, joined, lookup}
use strata_documentai_api_en.Store.Actions.{returned, raised, http_error}
use strata_documentai_api_en.Auth.{
  ApiKey, empty_key, AuthConfig, AuthState, authenticate, compute_key_hash,
}
use strata_documentai_api_en.Auth.Admin.{
  KeyRequest, new_key, generate_api_key, deactivate_keys_for_tenant,
}
use strata_documentai_api_en.Auth.Issued.{generate_api_key-authenticate}
use strata_documentai_api_en.Auth.Withdrawn.{deactivate_keys_for_tenant-authenticate}

abbrev config : AuthConfig
config = record {
  hash_key = λ k. joined "sha-" k;
  hash_key_with_pepper = λ k pepper. joined pepper k;
  pepper = some "pepper-";
  cache_ttl_seconds = some 300;
}

abbrev old_key : ApiKey
old_key = record empty_key {
  api_key_name = some "client";
  tenant_id = some "tenant";
  is_active = some true;
}

abbrev random_part : String
random_part = "0123456789abcdef0123456789abcdef"

abbrev other_key : String
other_key = "docai_fedcba9876543210fedcba9876543210"

abbrev keys : AuthState
keys = record {
  api_keys = ("pepper-docai_fedcba9876543210fedcba9876543210", old_key) ∷ [];
  cache =
      (
        "pepper-docai_fedcba9876543210fedcba9876543210",
        record { value = old_key; expires_at = 90000 },
      )
      ∷ [];
  last_used_written_at = [];
  pending_updates = [];
  now = 1000;
}

abbrev request : KeyRequest
request = record {
  api_key_name = "client";
  environment = "prod";
  tenant_id = "tenant";
  expires_at = some 50000;
  created_by = none;
  email_address = none;
}

generate_api_key-authenticate_example :
    let r = generate_api_key config request random_part keys in
    (authenticate config r.0.0 (record r.1 { now = 20000 })).0
    ≡ returned (new_key request 1000, "tenant")
unfolding compute_key_hash lookup
generate_api_key-authenticate_example =
    generate_api_key-authenticate config request random_part keys 20000 refl refl refl refl

deactivate_keys_for_tenant-authenticate_example :
    let s' = (deactivate_keys_for_tenant "tenant" keys).1 in
    (authenticate config other_key (record s' { now = 2000 })).0 ≡ raised (http_error 401)
unfolding compute_key_hash lookup
deactivate_keys_for_tenant-authenticate_example =
    deactivate_keys_for_tenant-authenticate config other_key "tenant" old_key keys 2000 refl refl
      refl refl
