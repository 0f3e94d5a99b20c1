-- ===== src/Auth/Issued.antt =====
-- A key that is issued opens the API: documentai-api/src/documentai_api/utils/auth.py.
use text.Mathlib.TextLemmas.{cons-append, nil-append}
use strata_documentai_api_en.Prelude.{
  Bool-cases, inr, inl, Option-cases, ℕ, ◌+◌, ◌≡◌, refl, ap, ◌∙◌, sym, String, true, Option, none,
  some, List, [], ◌∷◌, ◌++◌, has_text, ◌==◌, length, codes, lookup, lookup-insert_self, Table,
  joined, arith, length-append, if◌then◌else◌,
}
use strata_documentai_api_en.Response.{truthy}
use strata_documentai_api_en.Cache.{CacheItem}
use strata_documentai_api_en.Cache
use strata_documentai_api_en.Store.Actions.{Outcome, returned}
use Prim.Native.Char.{code}
use strata_documentai_api_en.Auth.{
  http_error, get_cache_ttl_minutes, raised, ApiKey, AuthConfig, AuthState, authenticate,
  compute_key_hash, is_valid_key_format, is_prefix, key_prefix, hash_by, is_valid_at,
  validate_key_record, lookup_and_maybe_migrate, checked_record,
}
use strata_documentai_api_en.Auth.Admin.{KeyRequest, new_key, time_of, generate_api_key}

codes-joined : (s t : String) → codes (joined s t) ≡ codes s ++ codes t
codes-joined String.[] t = ap codes (nil-append t)
codes-joined (String.◌∷◌ c s) t =
    ap codes (cons-append c s t) ∙ ap (λ cs. code c ∷ cs) (codes-joined s t)

equal_self : (c : ℕ) → (c == c) ≡ true
equal_self c = ground arith

is_prefix-append : (cs ds : List ℕ) → is_prefix cs (cs ++ ds) ≡ true
is_prefix-append [] ds = refl
is_prefix-append (c ∷ cs) ds = rw (equal_self c) (is_prefix-append cs ds)

-- A key as `generate_api_key` makes them has the format that is asked for.
issued_format :
    (random_part : String)
    → length (codes random_part) ≡ 32
    → is_valid_key_format (joined key_prefix random_part) ≡ true
unfolding is_valid_key_format
issued_format random_part h =
    let e = codes-joined key_prefix random_part in
    let n : length (codes key_prefix ++ codes random_part) ≡ 38 =
      length-append (codes key_prefix) (codes random_part) ∙ ap (λ n. 6 + n) h in
    rw e (rw (is_prefix-append (codes key_prefix) (codes random_part), n) refl)

pub nothing_cached :
    (key : String) (now : ℕ) (c : Table (CacheItem ApiKey))
    → lookup key c ≡ none
    → Cache.get key now c ≡ (none, c)
unfolding Cache.get
nothing_cached key now c h = rw h

abbrev opened_for : ApiKey → Option String → Outcome (ApiKey × String)
opened_for k none = raised (http_error 401)
opened_for k (some tenant_id) = returned (k, tenant_id)

-- What the holder of a key with this record is told at a time.
abbrev pub key_answer : ℕ → ApiKey → Outcome (ApiKey × String)
key_answer now k =
    if validate_key_record now k then opened_for k (truthy k.tenant_id) else raised (http_error 401)

checked_answer :
    (cfg : AuthConfig) (key_hash : String) (k : ApiKey) (s : AuthState)
    → (checked_record cfg key_hash (some k) s).0 ≡ key_answer s.now k
checked_answer cfg key_hash k s = elim (Bool-cases (validate_key_record s.now k)) [
  | inl v ↦ elim (Option-cases (truthy k.tenant_id)) [ inl n ↦ rw (v, n) | inr (t, e) ↦ rw (v, e) ]
  | inr i ↦ rw i
]

module _ (cfg : AuthConfig) (api_key : String) (s : AuthState) where
  -- Under the hash of the configuration a record is found as it stands, and nothing is moved.
  pub looked_up :
      (k : ApiKey)
      → lookup (compute_key_hash cfg api_key) s.api_keys ≡ some k
      → lookup_and_maybe_migrate cfg api_key s ≡ (some k, s)
  unfolding lookup_and_maybe_migrate compute_key_hash
  looked_up k h = elim (Option-cases (truthy cfg.pepper)) [
    | inl n ↦
        let g : lookup (cfg.hash_key api_key) s.api_keys ≡ some k =
          sym (ap (λ p. lookup (hash_by cfg api_key p) s.api_keys) n) ∙ h in
        rw n (rw g)
    | inr (p, e) ↦
        let g : lookup (cfg.hash_key_with_pepper api_key p) s.api_keys ≡ some k =
          sym (ap (λ p. lookup (hash_by cfg api_key p) s.api_keys) e) ∙ h in
        rw e (rw g)
  ]

  -- Where the cache has nothing under the hash, what stands in the table decides.
  pub authenticate_stored :
      (k : ApiKey)
      → is_valid_key_format api_key ≡ true
      → lookup (compute_key_hash cfg api_key) s.cache ≡ none
      → lookup (compute_key_hash cfg api_key) s.api_keys ≡ some k
      → (authenticate cfg api_key s).0 ≡ key_answer s.now k
  unfolding authenticate
  authenticate_stored k f c h =
      let found = looked_up k h in
      rw (f, nothing_cached (compute_key_hash cfg api_key) s.now s.cache c)
        (rw found (
          checked_answer cfg (compute_key_hash cfg api_key) k (record s {
            cache =
                Cache.add (compute_key_hash cfg api_key) k (get_cache_ttl_minutes cfg) s.now
                  s.cache;
          })))

-- A key that is issued, with a random part of 32 characters, for a tenant and with no expiry or one that is not over
-- yet, opens the API at once and later, as the record that was stored and for the tenant that was named, whatever
-- else the table and the cache hold, as long as the cache has nothing under its hash.
pub generate_api_key-authenticate :
    (cfg : AuthConfig) (q : KeyRequest) (random_part : String) (s : AuthState) (later : ℕ)
    → length (codes random_part) ≡ 32
    → has_text (some q.tenant_id) ≡ true
    → is_valid_at later (time_of q.expires_at) ≡ true
    → lookup (compute_key_hash cfg (joined key_prefix random_part)) s.cache ≡ none
    → let r = generate_api_key cfg q random_part s in
      (authenticate cfg r.0.0 (record r.1 { now = later })).0
      ≡ returned (new_key q s.now, q.tenant_id)
unfolding generate_api_key validate_key_record
generate_api_key-authenticate cfg q random_part s later l t v c =
    let r = generate_api_key cfg q random_part s in
    authenticate_stored cfg (joined key_prefix random_part) (record r.1 { now = later })
      (new_key q s.now) (issued_format random_part l) c
      (lookup-insert_self (compute_key_hash cfg (joined key_prefix random_part)) (new_key q s.now)
        s.api_keys)
    ∙ rw v (rw t refl)
