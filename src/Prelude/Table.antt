-- ===== src/Prelude/Table.antt =====
-- A table is the list of its rows, oldest first. These are the statements that the code sends to
-- its database: SELECT, UPDATE and DELETE with a WHERE clause.
use Prim.Native.Nat.{ℕ, ◌+◌, ◌≤◌}
use mathlib.Core.Path.{◌≡◌, refl}
use mathlib.Core.Bool.{Bool, true, false, ◌||◌}
use mathlib.Core.Option.{Option, none, some}
use mathlib.Core.List.{List, [], ◌∷◌, ◌++◌}
use native.Mathlib.Omega.{arith}
use run_buoy.Prelude.Tests.{if◌then◌else◌, ◌==◌}

module _ {ℓ} {A : Type ℓ} where
  abbrev pub select_where : (A → Bool) → List A → List A
  select_where p [] = []
  select_where p (x ∷ xs) = let rest = select_where p xs in if p x then x ∷ rest else rest

  -- the first row, as `session.scalar` returns it
  abbrev pub find_where : (A → Bool) → List A → Option A
  find_where p [] = none
  find_where p (x ∷ xs) = let rest = find_where p xs in if p x then some x else rest

  abbrev pub exists_where : (A → Bool) → List A → Bool
  exists_where p [] = false
  exists_where p (x ∷ xs) = p x || exists_where p xs

  abbrev pub count_where : (A → Bool) → List A → ℕ
  count_where p [] = 0
  count_where p (x ∷ xs) = (if p x then 1 else 0) + count_where p xs

  abbrev pub update_where : (A → Bool) → (A → A) → List A → List A
  update_where p f [] = []
  update_where p f (x ∷ xs) = (if p x then f x else x) ∷ update_where p f xs

  abbrev pub delete_where : (A → Bool) → List A → List A
  delete_where p [] = []
  delete_where p (x ∷ xs) = let rest = delete_where p xs in if p x then rest else x ∷ rest

  -- session.add
  abbrev pub insert : A → List A → List A
  insert x xs = xs ++ x ∷ []

-- column IN (…)
abbrev pub is_one_of : List ℕ → ℕ → Bool
is_one_of ids id = exists_where (λ i. i == id) ids

module _ {A : Type 0} (p : A → Bool) where
  pub count-append :
      (xs ys : List A) → count_where p (xs ++ ys) ≡ count_where p xs + count_where p ys
  count-append [] ys = omega arith
  count-append (x ∷ xs) ys = omega (arith, count-append xs ys)

  pub count_of_find_none : (xs : List A) → find_where p xs ≡ none → count_where p xs ≡ 0
  count_of_find_none [] h = refl
  count_of_find_none (x ∷ xs) h = ground (arith, count_of_find_none xs)

  pub holds_of_find : (xs : List A) (r : A) → find_where p xs ≡ some r → p r ≡ true
  holds_of_find [] r h = cc
  holds_of_find (x ∷ xs) r h = ground (arith, holds_of_find xs r)

  pub count-update-le :
      (q : A → Bool) (f : A → A) (xs : List A)
      → ((a : A) → q a ≡ true → p (f a) ≡ true → p a ≡ true)
      → count_where p (update_where q f xs) ≤ count_where p xs
  count-update-le q f [] h = omega arith
  count-update-le q f (x ∷ xs) h = ground (arith, h x, count-update-le q f xs h)

  pub count-update-eq :
      (q : A → Bool) (f : A → A) (xs : List A)
      → ((a : A) → q a ≡ true → p (f a) ≡ p a)
      → count_where p (update_where q f xs) ≡ count_where p xs
  count-update-eq q f [] h = refl
  count-update-eq q f (x ∷ xs) h = ground (arith, h x, count-update-eq q f xs h)

  pub count-delete-le :
      (q : A → Bool) (xs : List A) → count_where p (delete_where q xs) ≤ count_where p xs
  count-delete-le q [] = omega arith
  count-delete-le q (x ∷ xs) = ground (arith, count-delete-le q xs)

  -- An update that does not change what is searched for updates the row that is found.
  pub find-update_some :
      (q : A → Bool) (f : A → A) (xs : List A) (r : A)
      → ((a : A) → q a ≡ true → p (f a) ≡ p a)
      → find_where p xs ≡ some r
      → find_where p (update_where q f xs) ≡ some (if q r then f r else r)
  find-update_some q f [] r h e = cc
  find-update_some q f (x ∷ xs) r h e = ground (arith, h x, find-update_some q f xs r h)

  pub find-insert-none :
      (xs : List A) (y : A)
      → find_where p xs ≡ none
      → p y ≡ true
      → find_where p (insert y xs) ≡ some y
  find-insert-none [] y h k = ground arith
  find-insert-none (x ∷ xs) y h k = ground (arith, find-insert-none xs y)
