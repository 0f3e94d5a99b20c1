-- ===== src/Auth/Withdrawn.antt =====
-- A key that is withdrawn is refused: documentai-api/src/documentai_api/utils/auth.py, on the container on
-- which it is withdrawn.
use text.Mathlib.TextEquality.{eq_iff}
use strata_documentai_api_en.Prelude.{
  ap, ◌∷◌, [], any_of, filter_if, if_both, ◌+◌, filter_if, ℕ, any_of, sym, Bool, subst, true,
  Option-cases, has_text, Table, ◌≡◌, refl, ◌∙◌, String, false, none, some, is_true, str_eq, lookup,
  lookup-insert_self, lookup-insert, lookup-delete, Bool-cases, inl, inr, str_refl,
}
use strata_documentai_api_en.Cache
use strata_documentai_api_en.Store.Actions.{raised, http_error}
use strata_documentai_api_en.Auth.{
  key_or_empty, ApiKey, AuthConfig, AuthState, authenticate, compute_key_hash, is_valid_key_format,
  validate_key_record,
}
use strata_documentai_api_en.Auth.Admin.{
  keys_of_tenant, deactivate_keys_for_tenant, in_tenant, is_active_item, is_text, deactivate_all,
  deactivate_api_key,
}
use strata_documentai_api_en.Auth.Issued.{authenticate_stored}

-- The key with this hash is stored as inactive, and not cached.
pub record IsWithdrawn (key_hash : String) (s : AuthState) : Type 0 where
  pub item : ApiKey
  pub found : lookup key_hash s.api_keys ≡ some item
  pub is_inactive : is_true item.is_active ≡ false
  pub is_uncached : lookup key_hash s.cache ≡ none

abbrev IsKnown : String → AuthState → Type 0
IsKnown key_hash s = (k : ApiKey) × (lookup key_hash s.api_keys ≡ some k)

withdrawn_refused :
    (cfg : AuthConfig) (api_key : String) (s : AuthState)
    → IsWithdrawn (compute_key_hash cfg api_key) s
    → (authenticate cfg api_key s).0 ≡ raised (http_error 401)
unfolding authenticate validate_key_record
withdrawn_refused cfg api_key s p = elim (Bool-cases (is_valid_key_format api_key)) [
  | inl f ↦ authenticate_stored cfg api_key s p.item f p.is_uncached p.found ∙ rw p.is_inactive refl
  | inr f ↦ rw f
]

deactivate_other :
    (g h : String) (k : ApiKey) (s : AuthState)
    → lookup g s.api_keys ≡ some k
    → str_eq g h ≡ false
    → (lookup h (deactivate_api_key g s).1.api_keys ≡ lookup h s.api_keys)
      × (lookup h (deactivate_api_key g s).1.cache ≡ lookup h s.cache)
unfolding deactivate_api_key Cache.invalidate
deactivate_other g h k s e n =
    rw e (rw (lookup-insert g h) (rw n refl), rw (lookup-delete g h) (rw n refl))

deactivate_self :
    (h : String) (k : ApiKey) (s : AuthState)
    → lookup h s.api_keys ≡ some k
    → IsWithdrawn h (deactivate_api_key h s).1
unfolding deactivate_api_key Cache.invalidate
deactivate_self h k s e = rw e (record {
  item = record k { is_active = some false };
  found = lookup-insert_self h (record k { is_active = some false }) s.api_keys;
  is_inactive = refl;
  is_uncached = lookup-delete h h s.cache ∙ rw (str_refl h) refl;
})

deactivate_absent :
    (g : String) (s : AuthState) → lookup g s.api_keys ≡ none → deactivate_api_key g s ≡ (false, s)
unfolding deactivate_api_key
deactivate_absent g s e = rw e

-- What the withdrawal of any key does to a key that is known, and to one that is withdrawn.
deactivate_IsKnown :
    (g h : String) (s : AuthState) → IsKnown h s → IsKnown h (deactivate_api_key g s).1
deactivate_IsKnown g h s (k, e) = elim (Option-cases (lookup g s.api_keys)) [
  | inl n ↦ subst (λ r. IsKnown h r.1) (sym (deactivate_absent g s n)) (k, e)
  | inr (l, f) ↦ elim (Bool-cases (str_eq g h)) [
    | inl y ↦
        let p = deactivate_self g l s f in
        subst (λ j. IsKnown j (deactivate_api_key g s).1) ((eq_iff g h).0 y) (p.item, p.found)
    | inr n ↦ (k, (deactivate_other g h l s f n).0 ∙ e)
  ]
]

deactivate_IsWithdrawn :
    (g h : String) (s : AuthState) → IsWithdrawn h s → IsWithdrawn h (deactivate_api_key g s).1
deactivate_IsWithdrawn g h s p = elim (Option-cases (lookup g s.api_keys)) [
  | inl n ↦ subst (λ r. IsWithdrawn h r.1) (sym (deactivate_absent g s n)) p
  | inr (l, f) ↦ elim (Bool-cases (str_eq g h)) [
    | inl y ↦
        subst (λ j. IsWithdrawn j (deactivate_api_key g s).1) ((eq_iff g h).0 y)
          (deactivate_self g l s f)
    | inr n ↦
        let (same_item, same_cache) = deactivate_other g h l s f n in
        record {
          item = p.item;
          found = same_item ∙ p.found;
          is_inactive = p.is_inactive;
          is_uncached = same_cache ∙ p.is_uncached;
        }
  ]
]

-- whether the item of this hash is among the items
abbrev is_listed : String → Table ApiKey → Bool
is_listed h items = any_of (λ (i : String × ApiKey). str_eq i.0 h) items

module _ (h : String) (t : has_text (some h) ≡ true) where
  all_IsWithdrawn :
      (items : Table ApiKey) (count : ℕ) (s : AuthState)
      → IsWithdrawn h s
      → IsWithdrawn h (deactivate_all items count s).1
  unfolding deactivate_all
  all_IsWithdrawn [] count s p = p
  all_IsWithdrawn ((g, k) ∷ items) count s p =
      if_both (λ (r : ℕ × AuthState). IsWithdrawn h r.1) (has_text (some g)) _ _
        (all_IsWithdrawn items (count + 1) (deactivate_api_key g s).1
          (deactivate_IsWithdrawn g h s p))
        (all_IsWithdrawn items count s p)

  listed_IsWithdrawn :
      (items : Table ApiKey) (count : ℕ) (s : AuthState)
      → IsKnown h s
      → is_listed h items ≡ true
      → IsWithdrawn h (deactivate_all items count s).1
  unfolding deactivate_all
  listed_IsWithdrawn [] count s p i = cc
  listed_IsWithdrawn ((g, k) ∷ items) count s (l, e) i = elim (Bool-cases (str_eq g h)) [
    | inl y ↦
        let same = (eq_iff g h).0 y in
        let has : has_text (some g) ≡ true = ap (λ j. has_text (some j)) same ∙ t in
        let p : IsWithdrawn h (deactivate_api_key g s).1 =
          subst (λ j. IsWithdrawn h (deactivate_api_key j s).1) (sym same)
            (deactivate_self h l s e) in
        rw has (all_IsWithdrawn items (count + 1) (deactivate_api_key g s).1 p)
    | inr n ↦
        let rest : is_listed h items ≡ true = rw n at i in
        if_both (λ (r : ℕ × AuthState). IsWithdrawn h r.1) (has_text (some g)) _ _
          (listed_IsWithdrawn items (count + 1) (deactivate_api_key g s).1
            (deactivate_IsKnown g h s (l, e)) rest)
          (listed_IsWithdrawn items count s (l, e) rest)
  ]

found_listed :
    (h tenant_id : String) (items : Table ApiKey) (k : ApiKey)
    → lookup h items ≡ some k
    → is_true k.is_active ≡ true
    → is_text tenant_id k.tenant_id ≡ true
    → is_listed h (filter_if is_active_item (filter_if (in_tenant tenant_id) items)) ≡ true
unfolding lookup
found_listed h tenant_id [] k e a t = cc
found_listed h tenant_id ((g, l) ∷ items) k e a t = elim (Bool-cases (str_eq g h)) [
  | inl y ↦
      let same : some l ≡ some k = rw y at e in
      let active : is_true l.is_active ≡ true =
        ap (λ o. is_true (key_or_empty o).is_active) same ∙ a in
      let of_tenant : is_text tenant_id l.tenant_id ≡ true =
        ap (λ o. is_text tenant_id (key_or_empty o).tenant_id) same ∙ t in
      rw of_tenant (rw active (rw y refl))
  | inr n ↦
      let rest = found_listed h tenant_id items k (rw n at e) a t in
      if_both (λ xs. is_listed h (filter_if is_active_item xs) ≡ true) (in_tenant tenant_id (g, l))
        _ _ (if_both (λ xs. is_listed h xs ≡ true) (is_active_item (g, l)) _ _ (rw n rest) rest)
        rest
]

-- After the keys of a tenant are withdrawn, a key whose record was active and of the tenant is refused with 401 on
-- this container, at once and later, whatever the cache held.
pub deactivate_keys_for_tenant-authenticate :
    (cfg : AuthConfig) (api_key tenant_id : String) (k : ApiKey) (s : AuthState) (later : ℕ)
    → has_text (some (compute_key_hash cfg api_key)) ≡ true
    → lookup (compute_key_hash cfg api_key) s.api_keys ≡ some k
    → is_true k.is_active ≡ true
    → is_text tenant_id k.tenant_id ≡ true
    → let s' = (deactivate_keys_for_tenant tenant_id s).1 in
      (authenticate cfg api_key (record s' { now = later })).0 ≡ raised (http_error 401)
unfolding deactivate_keys_for_tenant
deactivate_keys_for_tenant-authenticate cfg api_key tenant_id k s later t e a o =
    let h = compute_key_hash cfg api_key in
    let p =
      listed_IsWithdrawn h t (filter_if is_active_item (keys_of_tenant tenant_id s)) 0 s (k, e)
        (found_listed h tenant_id s.api_keys k e a o) in
    withdrawn_refused cfg api_key
      (record (deactivate_keys_for_tenant tenant_id s).1 { now = later })
      (record {
        item = p.item;
        found = p.found;
        is_inactive = p.is_inactive;
        is_uncached = p.is_uncached;
      })
