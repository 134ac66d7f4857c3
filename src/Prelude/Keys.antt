-- ===== src/Prelude/Keys.antt =====
-- Primary and foreign keys of tables: what a deletion by a list of identifiers keeps.
use Prim.Native.Nat.{ℕ, ◌+◌, ◌≤◌}
use mathlib.Core.Path.{◌≡◌, refl, sym, ap, ◌∙◌}
use mathlib.Core.Logic.{inl, inr}
use mathlib.Core.Bool.{Bool, true, false, ◌&&◌, ◌||◌}
use mathlib.Core.List.{List, [], ◌∷◌, map}
use mathlib.Core.Option.{some}
use native.Mathlib.Omega.{arith}
use run_buoy.Prelude.Tests.{◌==◌, ==-refl, eq_of_==, Bool-cases}
use run_buoy.Prelude.Lists.{All, All-take, All-map_imp, length}
use run_buoy.Prelude.Table.{
  find_where, select_where, exists_where, count_where, update_where, delete_where, is_one_of,
}
use run_buoy.Prelude.Sort.{sort_by, sort_by-All, select_page}
use run_buoy.Prelude.Where.{All-found, All-select_if, All-zip, exists-and, exists-select_where}

-- Each number occurs once.
abbrev pub IsDistinct : List ℕ → Type 0
IsDistinct [] = Unit
IsDistinct (i ∷ is) = (is_one_of is i ≡ false) × IsDistinct is

module _ {A : Type 0} (id : A → ℕ) where
  pub is_one_of-map :
      (xs : List A) (i : ℕ) → is_one_of (map id xs) i ≡ exists_where (λ r. id r == i) xs
  is_one_of-map [] i = refl
  is_one_of-map (x ∷ xs) i = ap (λ b. id x == i || b) (is_one_of-map xs i)

  -- An identifier in a page is that of a row that is due.
  pub is_one_of-page :
      (due : A → Bool) (before : A → A → Bool) (limit : ℕ) (rows : List A) (i : ℕ)
      → is_one_of (map id (select_page due before limit rows)) i ≡ true
      → exists_where (λ r. due r && id r == i) rows ≡ true
  is_one_of-page due before limit rows i h =
      pick (select_page due before limit rows)
        (All-take found limit (sort_by before (select_where due rows)) (
          sort_by-All before found (select_where due rows) (
            All-select_if found due rows (
              All-found (λ x. due x ≡ true) (λ x r. due r && id r == id x) rows
                (λ a d. ground (arith, ==-refl (id a)))))))
        h
    where
      found : A → Type 0
      found x = exists_where (λ r. due r && id r == id x) rows ≡ true

      pick :
          (xs : List A)
          → All found xs
          → is_one_of (map id xs) i ≡ true
          → exists_where (λ r. due r && id r == i) rows ≡ true
      pick [] a h = cc
      pick (x ∷ xs) a h = elim (Bool-cases (id x == i)) [
        | inl e ↦ rw (sym (eq_of_== (id x) i e)) a.0
        | inr e ↦ pick xs a.1 (ground arith)
      ]

  due_of_found :
      (due : A → Bool) (rows : List A)
      → IsDistinct (map id rows)
      → All (λ x. exists_where (λ r. due r && id r == id x) rows ≡ true → due x ≡ true) rows
  due_of_found due [] h = tt
  due_of_found due (x ∷ xs) h = (
    λ k. elim (Bool-cases (due x)) [
      | inl e ↦ e
      | inr e ↦ ground (arith, exists-and due (λ r. id r == id x) xs, is_one_of-map xs (id x))
    ],
    All-map_imp {0, 0, 0}
        (λ y.
          (exists_where (λ r. due r && id r == id y) xs ≡ true → due y ≡ true)
          × (Unit → exists_where (λ r. id r == id y) xs ≡ true))
        (λ y. exists_where (λ r. due r && id r == id y) (x ∷ xs) ≡ true → due y ≡ true)
        (λ y k found. elim (Bool-cases (id x == id y)) [
          | inl e ↦ ground (
            arith,
            is_one_of-map xs (id y) ∙ k.1 tt,
            ap (is_one_of (map id xs)) (eq_of_== (id x) (id y) e),
          )
          | inr e ↦ k.0 (ground arith)
        ])
        xs
        (All-zip (λ y. exists_where (λ r. due r && id r == id y) xs ≡ true → due y ≡ true)
          (λ y. Unit → exists_where (λ r. id r == id y) xs ≡ true) xs (due_of_found due xs h.1)
          (All-found (λ y. Unit) (λ y r. id r == id y) xs (λ a d. ==-refl (id a)))),
  )

  exists_found :
      (q : A → Bool) (rows : List A) (o : A) (i : ℕ)
      → find_where q rows ≡ some o
      → (id o == i) ≡ true
      → exists_where (λ r. q r && id r == i) rows ≡ true
  exists_found q [] o i h e = cc
  exists_found q (x ∷ xs) o i h e = elim (Bool-cases (q x)) [
    | inl k ↦
        let same : x ≡ o = ground (arith, h, k) in
        rw k (ap (λ y. id y == i || exists_where (λ r. q r && id r == i) xs) same ∙ rw e refl)
    | inr k ↦ rw k (exists_found q xs o i (ground (arith, h, k)) e)
  ]

  -- A row with the identifier of the row that a query finds is one of the query's.
  pub found_only :
      (q : A → Bool) (rows : List A) (o : A)
      → IsDistinct (map id rows)
      → find_where q rows ≡ some o
      → All (λ x. (id x == id o) ≡ true → q x ≡ true) rows
  found_only q rows o d h =
      All-map_imp (λ x. exists_where (λ r. q r && id r == id x) rows ≡ true → q x ≡ true)
        (λ x. (id x == id o) ≡ true → q x ≡ true)
        (λ x k e. k (exists_found q rows o (id x) h (ground (arith, e)))) rows
        (due_of_found q rows d)

  pub is_one_of-select_where :
      (q : A → Bool) (rows : List A) (i : ℕ)
      → is_one_of (map id (select_where q rows)) i ≡ exists_where (λ r. q r && id r == i) rows
  is_one_of-select_where q rows i =
      is_one_of-map (select_where q rows) i ∙ exists-select_where (λ r. id r == i) q rows

  -- Rows that are not due and keep their identifiers to themselves stay out of every page.
  pub not_in_page_All :
      (due : A → Bool) (before : A → A → Bool) (limit : ℕ) (rows : List A)
      → IsDistinct (map id rows)
      → All
          (λ x.
            due x ≡ false → is_one_of (map id (select_page due before limit rows)) (id x) ≡ false)
          rows
  not_in_page_All due before limit rows h =
      All-map_imp (λ x. exists_where (λ r. due r && id r == id x) rows ≡ true → due x ≡ true)
        (λ x. due x ≡ false → is_one_of (map id (select_page due before limit rows)) (id x) ≡ false)
        (λ x k d. ground (arith, k, is_one_of-page due before limit rows (id x))) rows
        (due_of_found due rows h)

  pub not_selected_All :
      (q : A → Bool) (rows : List A)
      → IsDistinct (map id rows)
      → All (λ x. q x ≡ false → is_one_of (map id (select_where q rows)) (id x) ≡ false) rows
  not_selected_All q rows h =
      All-map_imp (λ x. exists_where (λ r. q r && id r == id x) rows ≡ true → q x ≡ true)
        (λ x. q x ≡ false → is_one_of (map id (select_where q rows)) (id x) ≡ false)
        (λ x k d.
          is_one_of-map (select_where q rows) (id x)
          ∙ exists-select_where (λ r. id r == id x) q rows
          ∙ ground (arith, k))
        rows (due_of_found q rows h)

  pub is_one_of-delete :
      (ids : List ℕ) (rows : List A) (i : ℕ)
      → is_one_of ids i ≡ false
      → is_one_of (map id rows) i ≡ true
      → is_one_of (map id (delete_where (λ r. is_one_of ids (id r)) rows)) i ≡ true
  is_one_of-delete ids [] i h k = cc
  is_one_of-delete ids (x ∷ xs) i h k = elim (Bool-cases (id x == i)) [
    | inl e ↦ rw (ap (is_one_of ids) (eq_of_== (id x) i e) ∙ h) (rw e refl)
    | inr e ↦ elim (Bool-cases (is_one_of ids (id x))) [
      | inl e' ↦ rw e' (is_one_of-delete ids xs i h (ground arith))
      | inr e' ↦ rw e' (rw e (is_one_of-delete ids xs i h (ground arith)))
    ]
  ]

  pub is_one_of-select_All :
      (q : A → Bool) (rows : List A)
      → All (λ x. q x ≡ true → is_one_of (map id (select_where q rows)) (id x) ≡ true) rows
  is_one_of-select_All q rows =
      All-map_imp (λ x. q x ≡ true → exists_where (λ r. q r && id r == id x) rows ≡ true)
        (λ x. q x ≡ true → is_one_of (map id (select_where q rows)) (id x) ≡ true)
        (λ x k d.
          is_one_of-map (select_where q rows) (id x)
          ∙ exists-select_where (λ r. id r == id x) q rows
          ∙ k d)
        rows
        (All-found (λ x. q x ≡ true) (λ x r. q r && id r == id x) rows
          (λ a d. ground (arith, ==-refl (id a))))

  pub ids-update :
      (q : A → Bool) (f : A → A) (rows : List A)
      → ((a : A) → id (f a) ≡ id a)
      → map id (update_where q f rows) ≡ map id rows
  ids-update q f [] h = refl
  ids-update q f (x ∷ xs) h = elim (Bool-cases (q x)) [
    | inl e ↦ rw (e, h x) (ap (λ is. id x ∷ is) (ids-update q f xs h))
    | inr e ↦ rw e (ap (λ is. id x ∷ is) (ids-update q f xs h))
  ]

  absent-delete :
      (q : A → Bool) (rows : List A) (i : ℕ)
      → is_one_of (map id rows) i ≡ false
      → is_one_of (map id (delete_where q rows)) i ≡ false
  absent-delete q [] i h = h
  absent-delete q (x ∷ xs) i h = ground (arith, absent-delete q xs i)

  pub IsDistinct-delete :
      (q : A → Bool) (rows : List A)
      → IsDistinct (map id rows)
      → IsDistinct (map id (delete_where q rows))
  IsDistinct-delete q [] h = tt
  IsDistinct-delete q (x ∷ xs) h = elim (Bool-cases (q x)) [
    | inl e ↦ rw e (IsDistinct-delete q xs h.1)
    | inr e ↦ rw e (absent-delete q xs (id x) h.0, IsDistinct-delete q xs h.1)
  ]

  count_of_id :
      (i : ℕ) (rows : List A)
      → is_one_of (map id rows) i ≡ false
      → count_where (λ r. i == id r) rows ≡ 0
  count_of_id i [] h = refl
  count_of_id i (x ∷ xs) h = ground (arith, count_of_id i xs)

  count_of_id_le :
      (i : ℕ) (rows : List A) → IsDistinct (map id rows) → count_where (λ r. i == id r) rows ≤ 1
  count_of_id_le i [] h = omega arith
  count_of_id_le i (x ∷ xs) h = elim (Bool-cases (i == id x)) [
    | inl e ↦ rw e (omega (arith, count_of_id i xs (rw (eq_of_== i (id x) e) h.0)))
    | inr e ↦ rw e (omega (arith, count_of_id_le i xs h.1))
  ]

  count-or-le :
      (p q : A → Bool) (rows : List A)
      → count_where (λ r. p r || q r) rows ≤ count_where p rows + count_where q rows
  count-or-le p q [] = omega arith
  count-or-le p q (x ∷ xs) = ground (arith, count-or-le p q xs)

  none_counted : (rows : List A) → count_where (λ r. is_one_of [] (id r)) rows ≡ 0
  none_counted [] = refl
  none_counted (x ∷ xs) = omega (arith, none_counted xs)

  pub count_by_ids_le :
      (ids : List ℕ) (rows : List A)
      → IsDistinct (map id rows)
      → count_where (λ r. is_one_of ids (id r)) rows ≤ length ids
  count_by_ids_le [] rows h = omega (arith, none_counted rows)
  count_by_ids_le (i ∷ is) rows h = omega (
    arith,
    count-or-le (λ r. i == id r) (λ r. is_one_of is (id r)) rows,
    count_of_id_le i rows h,
    count_by_ids_le is rows h,
  )
