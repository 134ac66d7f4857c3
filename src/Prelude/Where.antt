-- ===== src/Prelude/Where.antt =====
-- What holds of the rows that the statements of a table select, keep or change.
use mathlib.Core.Path.{◌≡◌, refl, ap}
use mathlib.Core.Option.{some}
use mathlib.Core.Logic.{inl, inr}
use mathlib.Core.Bool.{Bool, true, false, ◌&&◌}
use mathlib.Core.List.{List, [], ◌∷◌}
use native.Mathlib.Omega.{arith}
use run_buoy.Prelude.Tests.{Bool-cases}
use run_buoy.Prelude.Lists.{All, All-map_imp}
use run_buoy.Prelude.Table.{
  find_where, select_where, exists_where, update_where, delete_where, insert,
}

module _ {A : Type 0} where
  pub exists_none_All :
      (p : A → Bool) (xs : List A) → exists_where p xs ≡ false → All (λ x. p x ≡ false) xs
  exists_none_All p [] h = tt
  exists_none_All p (x ∷ xs) h = (ground arith, exists_none_All p xs (ground arith))

  pub none_exists :
      (p : A → Bool) (xs : List A) → All (λ x. p x ≡ false) xs → exists_where p xs ≡ false
  none_exists p [] h = refl
  none_exists p (x ∷ xs) h = rw h.0 (none_exists p xs h.1)

  pub All-of_each {κ} : (P : A → Type κ) (xs : List A) → ((a : A) → P a) → All P xs
  All-of_each P [] h = tt
  All-of_each P (x ∷ xs) h = (h x, All-of_each P xs h)

  pub find_of_exists :
      (p : A → Bool) (xs : List A) → exists_where p xs ≡ true → (x : A) × (find_where p xs ≡ some x)
  find_of_exists p [] h = cc
  find_of_exists p (x ∷ xs) h = elim (Bool-cases (p x)) [
    | inl e ↦ (x, rw e refl)
    | inr e ↦ rw e (find_of_exists p xs (ground arith))
  ]

  pub exists-update :
      (p q : A → Bool) (f : A → A) (xs : List A)
      → ((a : A) → p (f a) ≡ p a)
      → exists_where p (update_where q f xs) ≡ exists_where p xs
  exists-update p q f [] h = refl
  exists-update p q f (x ∷ xs) h = ground (arith, h x, exists-update p q f xs h)

  pub exists-update_kept :
      (p p' q : A → Bool) (f : A → A) (xs : List A)
      → All (λ x. p x ≡ true → (q x ≡ false) × (p' x ≡ true)) xs
      → exists_where p xs ≡ true
      → exists_where p' (update_where q f xs) ≡ true
  exists-update_kept p p' q f [] h k = k
  exists-update_kept p p' q f (x ∷ xs) h k = elim (Bool-cases (p x)) [
    | inl e ↦ rw ((h.0 e).0, (h.0 e).1) refl
    | inr e ↦ ground (arith, exists-update_kept p p' q f xs h.1)
  ]

  pub All-found {κ} :
      (D : A → Type κ) (p : A → A → Bool) (xs : List A)
      → ((a : A) → D a → p a a ≡ true)
      → All (λ x. D x → exists_where (p x) xs ≡ true) xs
  All-found D p [] h = tt
  All-found D p (x ∷ xs) h = (
    λ d. rw (h x d) refl,
    All-map_imp (λ y. D y → exists_where (p y) xs ≡ true)
        (λ y. D y → exists_where (p y) (x ∷ xs) ≡ true) (λ y k d. ground (arith, k d)) xs
        (All-found D p xs h),
  )

  pub All-select_if {κ} :
      (P : A → Type κ) (q : A → Bool) (xs : List A)
      → All (λ x. q x ≡ true → P x) xs
      → All P (select_where q xs)
  All-select_if P q [] h = tt
  All-select_if P q (x ∷ xs) h = elim (Bool-cases (q x)) [
    | inl e ↦ rw e (h.0 e, All-select_if P q xs h.1)
    | inr e ↦ rw e (All-select_if P q xs h.1)
  ]

  pub All-zip {κ μ} :
      (P : A → Type κ) (Q : A → Type μ) (xs : List A)
      → All P xs
      → All Q xs
      → All (λ x. P x × Q x) xs
  All-zip P Q [] h k = tt
  All-zip P Q (x ∷ xs) h k = ((h.0, k.0), All-zip P Q xs h.1 k.1)

  pub exists-and :
      (p q : A → Bool) (xs : List A)
      → exists_where (λ x. p x && q x) xs ≡ true
      → exists_where q xs ≡ true
  exists-and p q [] h = h
  exists-and p q (x ∷ xs) h = ground (arith, exists-and p q xs)

  pub exists-select_where :
      (p q : A → Bool) (xs : List A)
      → exists_where p (select_where q xs) ≡ exists_where (λ x. q x && p x) xs
  exists-select_where p q [] = refl
  exists-select_where p q (x ∷ xs) = ground (arith, exists-select_where p q xs)

  pub All-delete_where {κ} :
      (P : A → Type κ) (q : A → Bool) (xs : List A) → All P xs → All P (delete_where q xs)
  All-delete_where P q [] h = tt
  All-delete_where P q (x ∷ xs) h = elim (Bool-cases (q x)) [
    | inl e ↦ rw e (All-delete_where P q xs h.1)
    | inr e ↦ rw e (h.0, All-delete_where P q xs h.1)
  ]

  pub All-delete_left {κ} :
      (P : A → Type κ) (q : A → Bool) (xs : List A)
      → All (λ x. q x ≡ false → P x) xs
      → All P (delete_where q xs)
  All-delete_left P q [] h = tt
  All-delete_left P q (x ∷ xs) h = elim (Bool-cases (q x)) [
    | inl e ↦ rw e (All-delete_left P q xs h.1)
    | inr e ↦ rw e (h.0 e, All-delete_left P q xs h.1)
  ]

  pub All-select_where {κ} :
      (P : A → Type κ) (q : A → Bool) (xs : List A) → All P xs → All P (select_where q xs)
  All-select_where P q [] h = tt
  All-select_where P q (x ∷ xs) h = elim (Bool-cases (q x)) [
    | inl e ↦ rw e (h.0, All-select_where P q xs h.1)
    | inr e ↦ rw e (All-select_where P q xs h.1)
  ]

  pub All-update_where {κ} :
      (P : A → Type κ) (q : A → Bool) (f : A → A) (xs : List A)
      → ((a : A) → q a ≡ true → P a → P (f a))
      → All P xs
      → All P (update_where q f xs)
  All-update_where P q f [] k h = tt
  All-update_where P q f (x ∷ xs) k h = elim (Bool-cases (q x)) [
    | inl e ↦ rw e (k x e h.0, All-update_where P q f xs k h.1)
    | inr e ↦ rw e (h.0, All-update_where P q f xs k h.1)
  ]

  pub All-update_split {κ} :
      (P : A → Type κ) (q : A → Bool) (f : A → A) (xs : List A)
      → All (λ x. (q x ≡ true → P (f x)) × (q x ≡ false → P x)) xs
      → All P (update_where q f xs)
  All-update_split P q f [] h = tt
  All-update_split P q f (x ∷ xs) h = elim (Bool-cases (q x)) [
    | inl e ↦ rw e (h.0.0 e, All-update_split P q f xs h.1)
    | inr e ↦ rw e (h.0.1 e, All-update_split P q f xs h.1)
  ]

  pub select-delete :
      (p q : A → Bool) (xs : List A)
      → All (λ x. p x ≡ true → q x ≡ false) xs
      → select_where p (delete_where q xs) ≡ select_where p xs
  select-delete p q [] h = refl
  select-delete p q (x ∷ xs) h = elim (Bool-cases (p x)) [
    | inl e ↦ rw (h.0 e, e) (ap (λ ys. x ∷ ys) (select-delete p q xs h.1))
    | inr e ↦ elim (Bool-cases (q x)) [
      | inl e' ↦ rw (e', e) (select-delete p q xs h.1)
      | inr e' ↦ rw (e', e) (select-delete p q xs h.1)
    ]
  ]

  pub select-update :
      (q p : A → Bool) (f : A → A) (xs : List A)
      → All (λ x. p x ≡ true → (q x ≡ false) × (q (f x) ≡ false)) xs
      → select_where q (update_where p f xs) ≡ select_where q xs
  select-update q p f [] h = refl
  select-update q p f (x ∷ xs) h = elim (Bool-cases (p x)) [
    | inl e ↦ rw (e, (h.0 e).0, (h.0 e).1) (select-update q p f xs h.1)
    | inr e ↦ elim (Bool-cases (q x)) [
      | inl k ↦ rw (e, k) (ap (λ ys. x ∷ ys) (select-update q p f xs h.1))
      | inr k ↦ rw (e, k) (select-update q p f xs h.1)
    ]
  ]

  pub select-insert :
      (q : A → Bool) (xs : List A) (y : A)
      → q y ≡ false
      → select_where q (insert y xs) ≡ select_where q xs
  select-insert q [] y h = rw h refl
  select-insert q (x ∷ xs) y h = elim (Bool-cases (q x)) [
    | inl e ↦ rw e (ap (λ ys. x ∷ ys) (select-insert q xs y h))
    | inr e ↦ rw e (select-insert q xs y h)
  ]
