-- ===== src/Store/Keeps.antt =====
-- Predicates on the shared state that an action keeps, whatever its outcome.
use strata_documentai_api_en.Prelude.{ap, ◌≡◌, Bool, true, false}
use strata_documentai_api_en.Store.State.{World}
use strata_documentai_api_en.Store.Actions.{
  Action, Outcome, returned, raised, proceed, ◌>>=◌, ◌>>◌, when,
}

abbrev pub Keeps : {A : Type 0} → (World → Type 0) → Action A → Type 0
Keeps P m = (w : World) → P w → P (m w).1

module _ {A B : Type 0} {P : World → Type 0} where
  Keeps-proceed :
      (r : Outcome A) (f : A → Action B) → ((a : A) → Keeps P (f a)) → Keeps P (proceed r f)
  Keeps-proceed (returned a) f k w p = k a w p
  Keeps-proceed (raised e) f k w p = p

  pub Keeps-bind :
      (m : Action A) (f : A → Action B) → Keeps P m → ((a : A) → Keeps P (f a)) → Keeps P (m >>= f)
  Keeps-bind m f h k w p = Keeps-proceed (m w).0 f k (m w).1 (h w p)

  pub Keeps-then : (m : Action A) (n : Action B) → Keeps P m → Keeps P n → Keeps P (m >> n)
  Keeps-then m n h k = Keeps-bind m (λ _. n) h (λ _. k)

module _ {P : World → Type 0} where
  pub Keeps-when : (b : Bool) (m : Action (Unit {0})) → Keeps P m → Keeps P (when b m)
  Keeps-when true m h w p = h w p
  Keeps-when false m h w p = p

module _ {A B : Type 0} where
  -- What follows an action that returns.
  pub bind_returned :
      (m : Action A) (f : A → Action B) (w : World) (a : A)
      → (m w).0 ≡ returned a
      → (m >>= f) w ≡ f a (m w).1
  bind_returned m f w a h = ap (λ o. proceed o f (m w).1) h
