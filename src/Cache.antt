-- ===== src/Cache.antt =====
-- documentai-api/src/documentai_api/utils/cache.py: values that are kept for some minutes. The time is
-- an argument of the operations that read the clock.
pub mod Refines
use strata_documentai_api_en.Prelude.{
  ℕ, ◌+◌, ◌*◌, String, Bool, Option, none, some, List, [], ◌∷◌, ltb, if◌then◌else◌, Table, lookup,
  insert, delete,
}

abbrev ticks_per_minute : ℕ
ticks_per_minute = 60 * 100

module _ {ℓ} where
  pub record CacheItem (V : Type ℓ) : Type ℓ where
    pub value : V
    pub expires_at : ℕ

  unfoldable pub cache_item : {V : Type ℓ} → V → ℕ → ℕ → CacheItem V
  cache_item value ttl_minutes now = record {
    value = value;
    expires_at = now + ttl_minutes * ticks_per_minute;
  }

  abbrev pub is_expired : {V : Type ℓ} → ℕ → CacheItem V → Bool
  is_expired now item = ltb item.expires_at now

module _ {ℓ} {V : Type ℓ} where
  unfoldable pub add : String → V → ℕ → ℕ → Table (CacheItem V) → Table (CacheItem V)
  unfolding cache_item
  add key value ttl_minutes now cache = insert key (cache_item value ttl_minutes now) cache

  abbrev pub fresh :
      String → ℕ → Table (CacheItem V) → Option (CacheItem V) → Option V × Table (CacheItem V)
  fresh key now cache none = (none, cache)
  fresh key now cache (some item) =
      if is_expired now item then (none, delete key cache) else (some item.value, cache)

  unfoldable pub get : String → ℕ → Table (CacheItem V) → Option V × Table (CacheItem V)
  get key now cache = fresh key now cache (lookup key cache)

  unfoldable pub invalidate : String → Table (CacheItem V) → Table (CacheItem V)
  invalidate key cache = delete key cache

  unfoldable pub clear : Table (CacheItem V) → Table (CacheItem V)
  clear cache = []
