-- ===== src/Base/Outcomes.antt =====
-- Code that may throw, over a state that outlives the exception.

use mathlib.Core.Path.{◌≡◌, refl}

-- What C++ code throws. `vnv_exception` stands for VnVExceptionBase, which the INJECTION_EXCEPTION and
-- INJECTION_BUG_REPORT macros throw and which is a std::exception; `text` is a thrown literal;
-- `fault` is undefined behaviour, such as a null pointer read, and no handler catches it.
pub data Exn : Type 0 where
  vnv_exception standard text fault : Exn

pub data Outcome {ℓ} (A : Type ℓ) : Type ℓ where
  ok : A → Outcome A
  raise : Exn → Outcome A

abbrev pub Act {ℓ} : Type 0 → Type ℓ → Type ℓ
Act S A = S → Outcome A × S

module _ {ℓ} {S : Type 0} {A : Type ℓ} where
  abbrev pub pure : A → Act S A
  pure a s = (ok a, s)

  abbrev pub throw : Exn → Act S A
  throw e s = (raise e, s)

module _ {ℓ κ} {S : Type 0} {A : Type ℓ} {B : Type κ} where
  abbrev pub and_then : Outcome A → (A → Act S B) → Act S B
  and_then (ok a) f = f a
  and_then (raise e) f = throw e

  infixl 5 ◌>>=◌
  abbrev pub ◌>>=◌ : Act S A → (A → Act S B) → Act S B
  m >>= f = λ s. let (r, s') = m s in and_then r f s'

module _ {κ} {S : Type 0} {B : Type κ} where
  infixl 5 ◌>>◌
  abbrev pub ◌>>◌ : Act S (Unit {0}) → Act S B → Act S B
  m >> k = m >>= λ _. k

module _ {S : Type 0} {A : Type 0} where
  -- `catch (VnVExceptionBase&)`
  abbrev pub handle_vnv : Outcome A → Act S A → Act S A
  handle_vnv (raise vnv_exception) h = h
  handle_vnv (ok a) h = pure a
  handle_vnv (raise e) h = throw e

  abbrev pub catch_vnv : Act S A → Act S A → Act S A
  catch_vnv m h = λ s. let (r, s') = m s in handle_vnv r h s'

  -- `catch (std::exception&)`
  abbrev pub handle_standard : Outcome A → Act S A → Act S A
  handle_standard (raise vnv_exception) h = h
  handle_standard (raise standard) h = h
  handle_standard (ok a) h = pure a
  handle_standard (raise e) h = throw e

  abbrev pub catch_standard : Act S A → Act S A → Act S A
  catch_standard m h = λ s. let (r, s') = m s in handle_standard r h s'

raise-ne-ok : {B : Type 0} {e : Exn} {b : B} → raise e ≡ ok b → ⊥
raise-ne-ok h = cc

-- Code that throws, and keeps no state.
module _ {A B : Type 0} where
  abbrev pub bind : Outcome A → (A → Outcome B) → Outcome B
  bind (ok a) f = f a
  bind (raise e) f = raise e

  -- What went on before a result.
  pub bind-ok :
      (m : Outcome A) (f : A → Outcome B) (b : B)
      → bind m f ≡ ok b
      → (a : A) × (m ≡ ok a) × (f a ≡ ok b)
  bind-ok (ok a) f b h = (a, refl, h)
  bind-ok (raise e) f b h = absurd (raise-ne-ok h)
