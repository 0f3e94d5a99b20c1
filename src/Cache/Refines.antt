-- ===== src/Cache/Refines.antt =====
-- The cache against its description: what was added last under a key and not taken away since, as
-- long as its time has not run out. The description forgets nothing when a value expires.
use text.Mathlib.TextEquality.{eq_iff}
use strata_documentai_api_en.Prelude.{
  ◌+◌, ℕ, ◌<◌, ◌≤◌, ◌≡◌, inl, inr, refl, sym, ap, ◌∙◌, String, true, Option, none, some, List, [],
  ◌∷◌, ltb→lt, lt→ltb, str_eq, Bool-cases, arith, if◌then◌else◌, Table, lookup, delete,
  lookup-insert, lookup-delete, if_cases,
}
use strata_documentai_api_en.Cache.{
  CacheItem, cache_item, is_expired, add, fresh, get, invalidate, clear,
}

module _ {ℓ} where
  pub data Operation (V : Type ℓ) : Type ℓ where
    adds : String → V → ℕ → Operation V
    gets invalidates : String → Operation V
    clears : Operation V

-- The value last added under a key, with the time when it runs out.
abbrev pub Described {ℓ} : Type ℓ → Type ℓ
Described V = String → Option (CacheItem V)

module _ {ℓ} {V : Type ℓ} where
  -- An operation at a time: what it returns (`none` where it returns nothing) and the cache after it.
  abbrev pub perform : ℕ → Operation V → Table (CacheItem V) → Option V × Table (CacheItem V)
  perform now (adds key value ttl) cache = (none, add key value ttl now cache)
  perform now (gets key) cache = get key now cache
  perform now (invalidates key) cache = (none, invalidate key cache)
  perform now clears cache = (none, clear cache)

  abbrev pub value_now : ℕ → Option (CacheItem V) → Option V
  value_now now none = none
  value_now now (some item) = if is_expired now item then none else some item.value

  abbrev pub described : ℕ → Operation V → Described V → Option V × Described V
  described now (adds key value ttl) d =
      (none, λ k. if str_eq key k then some (cache_item value ttl now) else d k)
  described now (gets key) d = (value_now now (d key), d)
  described now (invalidates key) d = (none, λ k. if str_eq key k then none else d k)
  described now clears d = (none, λ k. none)

  -- The cache holds what is described, less some values whose time has run out.
  pub data Agrees (cache : Table (CacheItem V)) (d : Described V) (now : ℕ) (key : String)
      : Type ℓ where
    same : lookup key cache ≡ d key → Agrees cache d now key
    expired :
        (item : CacheItem V)
        → lookup key cache ≡ none
        → d key ≡ some item
        → item.expires_at < now
        → Agrees cache d now key

  Agrees-later :
      (cache : Table (CacheItem V)) (d : Described V) (now later : ℕ) (key : String)
      → now ≤ later
      → Agrees cache d now key
      → Agrees cache d later key
  Agrees-later cache d now later key h (same e) = same e
  Agrees-later cache d now later key h (expired item e f l) = expired item e f (omega (arith, h, l))

  value_expired :
      (now : ℕ) (item : CacheItem V) → item.expires_at < now → value_now now (some item) ≡ none
  value_expired now item l = rw (lt→ltb item.expires_at now l)

  fresh_value :
      (now : ℕ) (key : String) (cache : Table (CacheItem V)) (o : Option (CacheItem V))
      → (fresh key now cache o).0 ≡ value_now now o
  fresh_value now key cache none = refl
  fresh_value now key cache (some item) = elim (Bool-cases (is_expired now item)) [
    | inl y ↦ rw y
    | inr n ↦ rw n
  ]

  get_value :
      (cache : Table (CacheItem V)) (d : Described V) (now : ℕ) (key : String)
      → Agrees cache d now key
      → (get key now cache).0 ≡ value_now now (d key)
  unfolding get
  get_value cache d now key (same e) =
      fresh_value now key cache (lookup key cache) ∙ ap (value_now now) e
  get_value cache d now key (expired item e f l) =
      fresh_value now key cache (lookup key cache)
      ∙ ap (value_now now) e
      ∙ sym (value_expired now item l)
      ∙ ap (value_now now) (sym f)

  Agrees-moved :
      (cache cache' : Table (CacheItem V)) (d d' : Described V) (now : ℕ) (key : String)
      → lookup key cache' ≡ lookup key cache
      → d' key ≡ d key
      → Agrees cache d now key
      → Agrees cache' d' now key
  Agrees-moved cache cache' d d' now key h g (same e) = same (h ∙ e ∙ sym g)
  Agrees-moved cache cache' d d' now key h g (expired item e f l) = expired item (h ∙ e) (g ∙ f) l

  Agrees-lookup :
      (cache cache' : Table (CacheItem V)) (d : Described V) (now : ℕ) (key : String)
      → lookup key cache' ≡ lookup key cache
      → Agrees cache d now key
      → Agrees cache' d now key
  Agrees-lookup cache cache' d now key h a = Agrees-moved cache cache' d d now key h refl a

  -- An item that is there is the one described.
  described_item :
      (cache : Table (CacheItem V)) (d : Described V) (now : ℕ) (key : String) (item : CacheItem V)
      → lookup key cache ≡ some item
      → Agrees cache d now key
      → d key ≡ some item
  described_item cache d now key item h (same e) = sym e ∙ h
  described_item cache d now key item h (expired i e f l) = cc (h, e)

  delete-Agrees :
      (cache : Table (CacheItem V)) (d : Described V) (now : ℕ) (key : String) (item : CacheItem V)
      → lookup key cache ≡ some item
      → is_expired now item ≡ true
      → ((k : String) → Agrees cache d now k)
      → (k : String) → Agrees (delete key cache) d now k
  delete-Agrees cache d now key item h x agrees k = elim (Bool-cases (str_eq key k)) [
    | inl y ↦
        expired item (lookup-delete key k cache ∙ rw y)
          (ap d (sym ((eq_iff key k).0 y)) ∙ described_item cache d now key item h (agrees key))
          (ltb→lt item.expires_at now x)
    | inr n ↦
        Agrees-lookup cache (delete key cache) d now k (lookup-delete key k cache ∙ rw n) (agrees k)
  ]

  fresh-Agrees :
      (cache : Table (CacheItem V)) (d : Described V) (now : ℕ) (key : String)
      (o : Option (CacheItem V))
      → lookup key cache ≡ o
      → ((k : String) → Agrees cache d now k)
      → (k : String) → Agrees (fresh key now cache o).1 d now k
  fresh-Agrees cache d now key none h agrees k = agrees k
  fresh-Agrees cache d now key (some item) h agrees k =
      if_cases (λ (r : Option V × Table (CacheItem V)). Agrees r.1 d now k) (is_expired now item)
        (none, delete key cache) (some item.value, cache)
        (λ x. delete-Agrees cache d now key item h x agrees k) (λ n. agrees k)

  -- One operation, at a time that is not before the last: it returns what the description says, and
  -- the cache agrees with the description after it.
  perform-Agrees :
      (now : ℕ) (o : Operation V) (cache : Table (CacheItem V)) (d : Described V)
      → ((k : String) → Agrees cache d now k)
      → ((perform now o cache).0 ≡ (described now o d).0)
        × ((k : String) → Agrees (perform now o cache).1 (described now o d).1 now k)
  unfolding add invalidate clear get lookup
  perform-Agrees now (adds key value ttl) cache d agrees = (
    refl,
    λ k. elim (Bool-cases (str_eq key k)) [
      | inl y ↦ same (lookup-insert key k (cache_item value ttl now) cache ∙ rw y)
      | inr n ↦
          Agrees-moved cache (add key value ttl now cache) d
            (described now (adds key value ttl) d).1 now k
            (lookup-insert key k (cache_item value ttl now) cache ∙ rw n) (rw n) (agrees k)
    ],
  )
  perform-Agrees now (gets key) cache d agrees = (
    get_value cache d now key (agrees key),
    fresh-Agrees cache d now key (lookup key cache) refl agrees,
  )
  perform-Agrees now (invalidates key) cache d agrees = (
    refl,
    λ k. elim (Bool-cases (str_eq key k)) [
      | inl y ↦ same (lookup-delete key k cache ∙ rw y)
      | inr n ↦
          Agrees-moved cache (invalidate key cache) d (described now (invalidates key) d).1 now k
            (lookup-delete key k cache ∙ rw n) (rw n) (agrees k)
    ],
  )
  perform-Agrees now clears cache d agrees = (refl, λ k. same refl)

  cons-eq : {a b : Option V} {l m : List (Option V)} → a ≡ b → l ≡ m → a ∷ l ≡ b ∷ m
  cons-eq e f = λ i. e i ∷ f i

  -- The outputs of operations, each some time after the one before it.
  abbrev pub outputs : ℕ → List (ℕ × Operation V) → Table (CacheItem V) → List (Option V)
  outputs now [] cache = []
  outputs now ((gap, o) ∷ os) cache =
      (perform (now + gap) o cache).0 ∷ outputs (now + gap) os (perform (now + gap) o cache).1

  abbrev pub described_outputs : ℕ → List (ℕ × Operation V) → Described V → List (Option V)
  described_outputs now [] d = []
  described_outputs now ((gap, o) ∷ os) d =
      (described (now + gap) o d).0 ∷ described_outputs (now + gap) os (described (now + gap) o d).1

  outputs_agree :
      (now : ℕ) (os : List (ℕ × Operation V)) (cache : Table (CacheItem V)) (d : Described V)
      → ((k : String) → Agrees cache d now k)
      → outputs now os cache ≡ described_outputs now os d
  outputs_agree now [] cache d agrees = refl
  outputs_agree now ((gap, o) ∷ os) cache d agrees =
      let later : (k : String) → Agrees cache d (now + gap) k =
        λ k. Agrees-later cache d now (now + gap) k (omega arith) (agrees k) in
      let (e, after) = perform-Agrees (now + gap) o cache d later in
      cons-eq e (
        outputs_agree (now + gap) os (perform (now + gap) o cache).1 (described (now + gap) o d).1
          after)

  -- From an empty cache on, whatever is done with it and however the clock runs, it returns what the
  -- description tells: what was added last under the key and not taken away since, unless its time
  -- has run out.
  pub outputs_lem :
      (now : ℕ) (os : List (ℕ × Operation V))
      → outputs now os [] ≡ described_outputs now os (λ k. none)
  unfolding lookup
  outputs_lem now os = outputs_agree now os [] (λ k. none) (λ k. same refl)
