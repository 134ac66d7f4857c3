-- ===== src/Prelude/Exec/Keeps.antt =====
-- Invariants of code, one rule for each way to build it.
use mathlib.Core.Path.{◌≡◌, refl, subst}
use mathlib.Core.Bool.{Bool, true, false}
use mathlib.Core.Option.{Option, none, some}
use mathlib.Core.List.{List, [], ◌∷◌}
use run_buoy.Prelude.Tests.{if◌then◌else◌}
use run_buoy.Prelude.Exec.{
  Result, ok, err, Exec, pure, raise, gets, modify, continue, ◌>>=◌, on_option, catch, for_each,
}

-- The state that a successful run leaves satisfies `P`.
abbrev pub Leaves : {E S A : Type 0} → (S → Type 0) → Result E (A × S) → Type 0
Leaves P (ok (a, t)) = P t
Leaves P (err e) = Unit

-- `m` keeps `P` whenever it returns.
pub record Keeps {E S A : Type 0} (P : S → Type 0) (m : Exec E S A) : Type 0 where
  pub at : (s : S) → P s → Leaves P (m s)

module _ {E S A : Type 0} {P : S → Type 0} where
  pub Keeps-if :
      (test : Bool) (one other : Exec E S A)
      → (test ≡ true → Keeps P one)
      → (test ≡ false → Keeps P other)
      → Keeps P (if test then one else other)
  Keeps-if true one other keep _ = keep refl
  Keeps-if false one other _ keep = keep refl

  pub Keeps-raise : (error : E) → Keeps {A = A} P (raise error)
  unfolding raise
  Keeps-raise _ = record { at = λ s kept. tt }

  pub Keeps-gets : (query : S → A) → Keeps {E = E} P (gets query)
  unfolding gets
  Keeps-gets _ = record { at = λ s kept. kept }

  pub Keeps-pure : (value : A) → Keeps {E = E} P (pure value)
  unfolding pure
  Keeps-pure _ = record { at = λ s kept. kept }

  pub Keeps-catch :
      (m : Exec E S A) (f : E → Exec E S A)
      → Keeps P m
      → ((e : E) → Keeps P (f e))
      → Keeps P (catch m f)
  unfolding catch
  Keeps-catch m f km kf = record { at = λ s h. split s h (m s) (km.at s h) }
    where
      split : (s : S) → P s → (x : Result E (A × S)) → Leaves P x → Leaves P (catch (λ _. x) f s)
      split s h (ok (a, t)) k = k
      split s h (err e) k = (kf e).at s h

module _ {E S : Type 0} {P : S → Type 0} where
  pub Keeps-modify : (f : S → S) → ((s : S) → P s → P (f s)) → Keeps {E = E} P (modify f)
  unfolding modify
  Keeps-modify f k = record { at = k }

module _ {E S A B : Type 0} {P : S → Type 0} where
  pub Keeps-bind :
      (first : Exec E S A) (rest : A → Exec E S B)
      → Keeps P first
      → ((value : A) → Keeps P (rest value))
      → Keeps P (first >>= rest)
  unfolding ◌>>=◌
  Keeps-bind first rest keep keep_rest = record { at = λ s kept. go (first s) (keep.at s kept) }
    where
      go : (x : Result E (A × S)) → Leaves P x → Leaves P (continue x rest)
      go (ok (value, t)) kept = (keep_rest value).at t kept
      go (err _) _ = tt

  pub Keeps-on_option :
      (o : Option A) (m : Exec E S B) (f : A → Exec E S B)
      → (o ≡ none → Keeps P m)
      → ((a : A) → o ≡ some a → Keeps P (f a))
      → Keeps P (on_option o m f)
  unfolding on_option
  Keeps-on_option none m f km kf = km refl
  Keeps-on_option (some a) m f km kf = kf a refl

module _ {E S A : Type 0} {P : S → Type 0} where
  pub Keeps-for_each :
      (xs : List A) (body : A → Exec E S Unit)
      → ((a : A) → Keeps P (body a))
      → Keeps P (for_each xs body)
  unfolding for_each
  Keeps-for_each [] body k = Keeps-pure tt
  Keeps-for_each (x ∷ xs) body k =
      Keeps-bind (body x) (λ _. for_each xs body) (k x) (λ _. Keeps-for_each xs body k)

  -- What a kept predicate says of a run that returned.
  pub at_ok : (m : Exec E S A) → Keeps P m → (s : S) {a : A} {t : S} → P s → m s ≡ ok (a, t) → P t
  at_ok m k s {a} {t} h e = subst (Leaves P) e (k.at s h)

-- From a state in `P`, a run of `m` that returns leaves a state in `Q`.
pub record Leads {E S A : Type 0} (P : S → Type 0) (m : Exec E S A) (Q : S → Type 0) : Type 0 where
  pub at : (s : S) → P s → Leaves Q (m s)

module _ {E S A : Type 0} {P Q : S → Type 0} where
  pub Leads-raise : (e : E) → Leads {A = A} P (raise e) Q
  unfolding raise
  Leads-raise e = record { at = λ s h. tt }

  pub Leads-if :
      (b : Bool) (m n : Exec E S A)
      → (b ≡ true → Leads P m Q)
      → (b ≡ false → Leads P n Q)
      → Leads P (if b then m else n) Q
  Leads-if true m n km kn = km refl
  Leads-if false m n km kn = kn refl

module _ {E S A B : Type 0} {P Q : S → Type 0} where
  pub Leads-on_option :
      (o : Option A) (m : Exec E S B) (f : A → Exec E S B)
      → (o ≡ none → Leads P m Q)
      → ((a : A) → o ≡ some a → Leads P (f a) Q)
      → Leads P (on_option o m f) Q
  unfolding on_option
  Leads-on_option none m f km kf = km refl
  Leads-on_option (some a) m f km kf = kf a refl

  pub Leads-before :
      (m : Exec E S A) (f : A → Exec E S B)
      → Leads P m Q
      → ((a : A) → Keeps Q (f a))
      → Leads P (m >>= f) Q
  unfolding ◌>>=◌
  Leads-before m f km kf = record { at = λ s h. split (m s) (km.at s h) }
    where
      split : (x : Result E (A × S)) → Leaves Q x → Leaves Q (continue x f)
      split (ok (a, t)) k = (kf a).at t k
      split (err e) k = tt

  pub Leads-after :
      (m : Exec E S A) (f : A → Exec E S B)
      → Keeps P m
      → ((a : A) → Leads P (f a) Q)
      → Leads P (m >>= f) Q
  unfolding ◌>>=◌
  Leads-after m f km kf = record { at = λ s h. split (m s) (km.at s h) }
    where
      split : (x : Result E (A × S)) → Leaves P x → Leaves Q (continue x f)
      split (ok (a, t)) k = (kf a).at t k
      split (err e) k = tt

pub ruleset keeps_rules = (
  Keeps-pure, Keeps-raise, Keeps-gets, Keeps-if, Keeps-catch, Keeps-modify, Keeps-bind,
  Keeps-on_option, Keeps-for_each,
)

pub ruleset leads_rules = (Leads-raise, Leads-if, Leads-on_option)

abbrev pub IsOk : {E A : Type 0} → Result E A → Type 0
IsOk (ok r) = Unit
IsOk (err e) = ⊥

-- `m` raises nothing.
pub record Returns {E S A : Type 0} (m : Exec E S A) : Type 0 where
  pub at : (s : S) → IsOk (m s)

module _ {E S A : Type 0} where
  pub Returns-pure : (a : A) → Returns {E = E} {S = S} (pure a)
  unfolding pure
  Returns-pure a = record { at = λ s. tt }

  pub Returns-gets : (f : S → A) → Returns {E = E} (gets f)
  unfolding gets
  Returns-gets f = record { at = λ s. tt }

  pub Returns-if :
      (b : Bool) (m n : Exec E S A) → Returns m → Returns n → Returns (if b then m else n)
  Returns-if true m n km kn = km
  Returns-if false m n km kn = kn

module _ {E S : Type 0} where
  pub Returns-modify : (f : S → S) → Returns {E = E} (modify f)
  unfolding modify
  Returns-modify f = record { at = λ s. tt }

module _ {E S A B : Type 0} where
  pub Returns-bind :
      (m : Exec E S A) (f : A → Exec E S B)
      → Returns m
      → ((a : A) → Returns (f a))
      → Returns (m >>= f)
  unfolding ◌>>=◌
  Returns-bind m f km kf = record { at = λ s. split (m s) (km.at s) }
    where
      split : (x : Result E (A × S)) → IsOk x → IsOk (continue x f)
      split (ok (a, t)) k = (kf a).at t
      split (err e) k = k

  pub Returns-on_option :
      (o : Option A) (m : Exec E S B) (f : A → Exec E S B)
      → (o ≡ none → Returns m)
      → ((a : A) → Returns (f a))
      → Returns (on_option o m f)
  unfolding on_option
  Returns-on_option none m f km kf = km refl
  Returns-on_option (some a) m f km kf = kf a

-- The value of a run that raises nothing.
pub ok_of_IsOk : {E A : Type 0} (x : Result E A) → IsOk x → (a : A) × (x ≡ ok a)
ok_of_IsOk (ok a) k = (a, refl)
ok_of_IsOk (err e) k = absurd k

pub ruleset returns_rules =
    (Returns-pure, Returns-gets, Returns-if, Returns-modify, Returns-bind, Returns-on_option)
