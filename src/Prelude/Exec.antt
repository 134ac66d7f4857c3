-- ===== src/Prelude/Exec.antt =====
-- Code that reads and writes a state inside a transaction and may raise. An exception that leaves
-- the function takes the transaction with it, so an error carries no state: what was written before
-- the raise is rolled back.
pub mod Keeps
use mathlib.Core.Path.{◌≡◌, refl}
use mathlib.Core.Option.{Option, none, some}
use mathlib.Core.List.{List, [], ◌∷◌}

pub data Result {ℓ} (E A : Type ℓ) : Type ℓ where
  ok : A → Result E A
  err : E → Result E A

abbrev pub Exec : Type 0 → Type 0 → Type 0 → Type 0
Exec E S A = S → Result E (A × S)

module _ {E S A : Type 0} where
  unfoldable pub pure : A → Exec E S A
  pure a s = ok (a, s)

  unfoldable pub raise : E → Exec E S A
  raise e s = err e

  unfoldable pub gets : (S → A) → Exec E S A
  gets f s = ok (f s, s)

module _ {E S : Type 0} where
  unfoldable pub modify : (S → S) → Exec E S Unit
  modify f s = ok (tt, f s)

module _ {E S A B : Type 0} where
  abbrev pub continue : Result E (A × S) → (A → Exec E S B) → Result E (B × S)
  continue (ok (a, s)) f = f a s
  continue (err e) f = err e

  infixl 5 ◌>>=◌ ◌>>◌
  -- Opening this opens the primitive steps too.
  unfoldable pub ◌>>=◌ : Exec E S A → (A → Exec E S B) → Exec E S B
  unfolding pure raise gets modify
  ◌>>=◌ m f s = continue (m s) f

  abbrev pub ◌>>◌ : Exec E S A → Exec E S B → Exec E S B
  m >> n = m >>= λ _. n

  -- `if x is None: … else: …` on a value that was read
  unfoldable pub on_option : Option A → Exec E S B → (A → Exec E S B) → Exec E S B
  on_option none m f = m
  on_option (some a) m f = f a

  -- A successful sequence is a successful first part and a successful rest.
  pub >>=-eq-ok :
      (m : Exec E S A) (f : A → Exec E S B) (s : S) {r : B × S}
      → (m >>= f) s ≡ ok r
      → (a : A) × (t : S) × (m s ≡ ok (a, t)) × (f a t ≡ ok r)
  unfolding ◌>>=◌
  >>=-eq-ok m f s {r} h = split (m s) refl h
    where
      split :
          (x : Result E (A × S))
          → m s ≡ x
          → continue x f ≡ ok r
          → (a : A) × (t : S) × (m s ≡ ok (a, t)) × (f a t ≡ ok r)
      split (ok (a, t)) e k = (a, t, e, k)
      split (err e') e k = cc

module _ {E S A : Type 0} where
  abbrev rescue : Result E (A × S) → (E → Exec E S A) → Exec E S A
  rescue (ok r) f s = ok r
  rescue (err e) f s = f e s

  -- A savepoint: an exception rolls back to it, and its handler goes on from there.
  unfoldable pub catch : Exec E S A → (E → Exec E S A) → Exec E S A
  catch m f s = rescue (m s) f s

  abbrev pub attempted : Result E (A × S) → S → Result E (Result E A × S)
  attempted (ok (a, t)) s = ok (ok a, t)
  attempted (err e) s = ok (err e, s)

  -- One transaction of several: if it raises, its own writes alone are rolled back.
  unfoldable pub attempt : Exec E S A → Exec E S (Result E A)
  attempt m s = attempted (m s) s

  unfoldable pub for_each : List A → (A → Exec E S Unit) → Exec E S Unit
  for_each [] body = pure tt
  for_each (x ∷ xs) body = body x >> for_each xs body
