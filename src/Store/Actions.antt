-- ===== src/Store/Actions.antt =====
-- Actions on the shared state that may raise: what was written before a raise stays written.
use strata_documentai_api_en.Prelude.{ℕ, Bool, true, false}
use strata_documentai_api_en.Store.State.{World}

pub data Error : Type 0 where
  conditional_check_failed validation_error value_error runtime_error retry_error : Error
  http_error : ℕ → Error

pub data Outcome {ℓ} (A : Type ℓ) : Type ℓ where
  returned : A → Outcome A
  raised : Error → Outcome A

abbrev pub Action : Type 0 → Type 0
Action A = World → Outcome A × World

module _ {A : Type 0} where
  abbrev pub pure : A → Action A
  pure a w = (returned a, w)

  abbrev pub raise : Error → Action A
  raise e w = (raised e, w)

  -- the handler of a `try`
  abbrev pub recover : Outcome A → (Error → Action A) → Action A
  recover (returned a) h w = (returned a, w)
  recover (raised e) h w = h e w

  abbrev pub catch : Action A → (Error → Action A) → Action A
  catch m h w = let (r, w') = m w in recover r h w'

module _ {A B : Type 0} where
  abbrev pub proceed : Outcome A → (A → Action B) → Action B
  proceed (returned a) f w = f a w
  proceed (raised e) f w = (raised e, w)

  -- a `try` with what follows each outcome
  abbrev pub attempt : Action A → (Outcome A → Action B) → Action B
  attempt m f w = let (r, w') = m w in f r w'

  infixl 10 ◌>>=◌ ◌>>◌
  abbrev pub ◌>>=◌ : Action A → (A → Action B) → Action B
  ◌>>=◌ m f w = let (r, w') = m w in proceed r f w'

  abbrev pub ◌>>◌ : Action A → Action B → Action B
  first >> second = first >>= λ done. second

abbrev pub get_state : Action World
get_state w = (returned w, w)

abbrev pub put_state : World → Action (Unit {0})
put_state w' w = (returned tt, w')

abbrev pub when : Bool → Action (Unit {0}) → Action (Unit {0})
when true m = m
when false m = pure tt
