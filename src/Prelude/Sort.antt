-- ===== src/Prelude/Sort.antt =====
-- ORDER BY: insertion sort by a Boolean order, which keeps the order of the table between equals.
use Prim.Native.Nat.{ℕ, zero, suc, ◌≤◌}
use mathlib.Core.Path.{◌≡◌, refl, ap, ◌∙◌}
use mathlib.Core.Bool.{Bool, true, false, ◌&&◌}
use mathlib.Core.Logic.{◌⊎◌, inl, inr}
use mathlib.Core.List.{List, [], ◌∷◌, ◌++◌}
use native.Mathlib.Omega.{arith}
use run_buoy.Prelude.Tests.{if◌then◌else◌, Bool-cases}
use run_buoy.Prelude.Lists.{All, All-take, length, length-take-le, take}
use run_buoy.Prelude.Table.{select_where, count_where}

module _ {A : Type 0} (before : A → A → Bool) where
  abbrev pub insert_by : A → List A → List A
  insert_by r [] = r ∷ []
  insert_by r (x ∷ xs) = let rest = insert_by r xs in if before r x then r ∷ x ∷ xs else x ∷ rest

  abbrev pub sort_by : List A → List A
  sort_by [] = []
  sort_by (r ∷ rs) = insert_by r (sort_by rs)

  -- Each row comes before all that follow it.
  abbrev pub IsSorted : List A → Type 0
  IsSorted [] = Unit
  IsSorted (r ∷ rs) = All (λ x. before r x ≡ true) rs × IsSorted rs

  pub insert_by-All :
      (P : A → Type 0) (r : A) (xs : List A) → P r → All P xs → All P (insert_by r xs)
  insert_by-All P r [] h k = (h, tt)
  insert_by-All P r (x ∷ xs) h k = elim (Bool-cases (before r x)) [
    | inl e ↦ rw e (h, k)
    | inr e ↦ rw e (k.0, insert_by-All P r xs h k.1)
  ]

  pub sort_by-All : (P : A → Type 0) (xs : List A) → All P xs → All P (sort_by xs)
  sort_by-All P [] h = tt
  sort_by-All P (x ∷ xs) h = insert_by-All P x (sort_by xs) h.0 (sort_by-All P xs h.1)

  count-insert_by :
      (p : A → Bool) (r : A) (xs : List A) → count_where p (insert_by r xs) ≡ count_where p (r ∷ xs)
  count-insert_by p r [] = refl
  count-insert_by p r (x ∷ xs) = elim (Bool-cases (before r x)) [
    | inl e ↦ rw e refl
    | inr e ↦ rw e (omega (arith, count-insert_by p r xs))
  ]

  pub count-sort_by : (p : A → Bool) (xs : List A) → count_where p (sort_by xs) ≡ count_where p xs
  count-sort_by p [] = refl
  count-sort_by p (x ∷ xs) = omega (arith, count-insert_by p x (sort_by xs), count-sort_by p xs)

  length-insert_by : (r : A) (xs : List A) → length (insert_by r xs) ≡ suc (length xs)
  length-insert_by r [] = refl
  length-insert_by r (x ∷ xs) = elim (Bool-cases (before r x)) [
    | inl e ↦ rw e refl
    | inr e ↦ rw e (ap suc (length-insert_by r xs))
  ]

  pub length-sort_by : (xs : List A) → length (sort_by xs) ≡ length xs
  length-sort_by [] = refl
  length-sort_by (x ∷ xs) = length-insert_by x (sort_by xs) ∙ ap suc (length-sort_by xs)

  module _ (total : (a b : A) → before a b ≡ false → before b a ≡ true)
      (trans : (a b c : A) → before a b ≡ true → before b c ≡ true → before a c ≡ true) where
    before-All :
        (r x : A) (xs : List A)
        → before r x ≡ true
        → All (λ y. before x y ≡ true) xs
        → All (λ y. before r y ≡ true) xs
    before-All r x [] h k = tt
    before-All r x (y ∷ xs) h k = (trans r x y h k.0, before-All r x xs h k.1)

    insert_by-IsSorted : (r : A) (xs : List A) → IsSorted xs → IsSorted (insert_by r xs)
    insert_by-IsSorted r [] h = (tt, tt)
    insert_by-IsSorted r (x ∷ xs) h = elim (Bool-cases (before r x)) [
      | inl e ↦ rw e ((e, before-All r x xs e h.0), h)
      | inr e ↦ rw e (
        insert_by-All (λ y. before x y ≡ true) r xs (total r x e) h.0,
        insert_by-IsSorted r xs h.1,
      )
    ]

    pub sort_by-IsSorted : (xs : List A) → IsSorted (sort_by xs)
    sort_by-IsSorted [] = tt
    sort_by-IsSorted (x ∷ xs) = insert_by-IsSorted x (sort_by xs) (sort_by-IsSorted xs)

module _ {A : Type 0} where
  pub select_where-All : (q : A → Bool) (xs : List A) → All (λ r. q r ≡ true) (select_where q xs)
  select_where-All q [] = tt
  select_where-All q (x ∷ xs) = elim (Bool-cases (q x)) [
    | inl e ↦ rw e (e, select_where-All q xs)
    | inr e ↦ rw e (select_where-All q xs)
  ]

  pub count-select_where :
      (p q : A → Bool) (xs : List A)
      → count_where p (select_where q xs) ≡ count_where (λ r. q r && p r) xs
  count-select_where p q [] = refl
  count-select_where p q (x ∷ xs) = elim (Bool-cases (q x)) [
    | inl e ↦ rw e (omega (arith, count-select_where p q xs))
    | inr e ↦ rw e (omega (arith, count-select_where p q xs))
  ]

  abbrev pub drop : ℕ → List A → List A
  drop zero xs = xs
  drop (suc n) [] = []
  drop (suc n) (x ∷ xs) = drop n xs

  pub take-drop : (n : ℕ) (xs : List A) → take n xs ++ drop n xs ≡ xs
  take-drop zero xs = refl
  take-drop (suc n) [] = refl
  take-drop (suc n) (x ∷ xs) = ap (λ ys. x ∷ ys) (take-drop n xs)

  pub drop-or_full : (n : ℕ) (xs : List A) → (drop n xs ≡ []) ⊎ (length (take n xs) ≡ n)
  drop-or_full zero xs = inr refl
  drop-or_full (suc n) [] = inl refl
  drop-or_full (suc n) (x ∷ xs) = elim (drop-or_full n xs) [
    | inl e ↦ inl e
    | inr e ↦ inr (omega (arith, e))
  ]

  -- The rows that a query with a limit gives and those that it leaves out.
  pub record Page (due : A → Bool) (before : A → A → Bool) (limit : ℕ) (rows given : List A)
      : Type 0 where
    pub rest : List A
    pub bound : length given ≤ limit
    pub all_due : All (λ r. due r ≡ true) given
    pub sorted : IsSorted before (given ++ rest)
    pub complete :
        (p : A → Bool) → count_where p (given ++ rest) ≡ count_where (λ r. due r && p r) rows
    pub greedy : (rest ≡ []) ⊎ (length given ≡ limit)

  -- SELECT … WHERE … ORDER BY … LIMIT
  abbrev pub select_page : (A → Bool) → (A → A → Bool) → ℕ → List A → List A
  select_page due before limit rows = take limit (sort_by before (select_where due rows))

  pub select_page-Page :
      (due : A → Bool) (before : A → A → Bool)
      → ((a b : A) → before a b ≡ false → before b a ≡ true)
      → ((a b c : A) → before a b ≡ true → before b c ≡ true → before a c ≡ true)
      → (limit : ℕ) (rows : List A) → Page due before limit rows (select_page due before limit rows)
  select_page-Page due before total trans limit rows =
      let sorted = sort_by before (select_where due rows) in
      let joined : take limit sorted ++ drop limit sorted ≡ sorted = take-drop limit sorted in
      record {
        rest = drop limit sorted;
        bound = length-take-le limit sorted;
        all_due =
            All-take (λ r. due r ≡ true) limit sorted
              (sort_by-All before (λ r. due r ≡ true) (select_where due rows)
                (select_where-All due rows));
        sorted = rw joined (sort_by-IsSorted before total trans (select_where due rows));
        complete = λ p.
            ap (count_where p) joined
            ∙ count-sort_by before p (select_where due rows)
            ∙ count-select_where p due rows;
        greedy = drop-or_full limit sorted;
      }
