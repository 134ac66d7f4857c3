-- ===== src/Prelude/Absent.antt =====
-- Rows that are not there any more after an update or a deletion.
use Prim.Native.Nat.{ℕ}
use mathlib.Core.Path.{◌≡◌, refl, ap}
use mathlib.Core.Logic.{inl, inr}
use mathlib.Core.Bool.{Bool, true, false}
use mathlib.Core.Option.{none, some}
use mathlib.Core.List.{List, [], ◌∷◌, map}
use native.Mathlib.Omega.{arith}
use run_buoy.Prelude.Tests.{Bool-cases}
use run_buoy.Prelude.Table.{
  find_where, select_where, exists_where, update_where, delete_where, insert,
}

module _ {A : Type 0} where
  pub none-update :
      (p q : A → Bool) (f : A → A) (xs : List A)
      → ((a : A) → q a ≡ true → p (f a) ≡ false)
      → ((a : A) → q a ≡ false → p a ≡ false)
      → exists_where p (update_where q f xs) ≡ false
  none-update p q f [] h k = refl
  none-update p q f (x ∷ xs) h k = ground (arith, h x, k x, none-update p q f xs h k)

  pub none_of_find :
      (p q : A → Bool) (xs : List A) (r : A)
      → find_where p xs ≡ some r
      → exists_where q xs ≡ false
      → q r ≡ false
  none_of_find p q [] r e h = cc
  none_of_find p q (x ∷ xs) r e h = ground (arith, none_of_find p q xs r)

  pub none-delete :
      (p q : A → Bool) (xs : List A)
      → ((a : A) → q a ≡ false → p a ≡ false)
      → exists_where p (delete_where q xs) ≡ false
  none-delete p q [] k = refl
  none-delete p q (x ∷ xs) k = ground (arith, k x, none-delete p q xs k)

  pub ids-select-update :
      (id : A → ℕ) (p q : A → Bool) (f : A → A) (xs : List A)
      → ((a : A) → p (f a) ≡ p a)
      → ((a : A) → id (f a) ≡ id a)
      → map id (select_where p (update_where q f xs)) ≡ map id (select_where p xs)
  ids-select-update id p q f [] h k = refl
  ids-select-update id p q f (x ∷ xs) h k = elim (Bool-cases (q x)) [
    | inl e ↦
        rw (e, h x)
          (elim (Bool-cases (p x)) [
            | inl e' ↦ rw (e', k x) (ap (λ is. id x ∷ is) (ids-select-update id p q f xs h k))
            | inr e' ↦ rw e' (ids-select-update id p q f xs h k)
          ])
    | inr e ↦ rw e (elim (Bool-cases (p x)) [
      | inl e' ↦ rw e' (ap (λ is. id x ∷ is) (ids-select-update id p q f xs h k))
      | inr e' ↦ rw e' (ids-select-update id p q f xs h k)
    ])
  ]

  pub find_none_of :
      (p : A → Bool) (xs : List A) → exists_where p xs ≡ false → find_where p xs ≡ none
  find_none_of p [] h = refl
  find_none_of p (x ∷ xs) h = ground (arith, find_none_of p xs)

  pub exists-insert :
      (p : A → Bool) (xs : List A) (y : A) → p y ≡ true → exists_where p (insert y xs) ≡ true
  exists-insert p [] y h = ground arith
  exists-insert p (x ∷ xs) y h = ground (arith, exists-insert p xs y h)
