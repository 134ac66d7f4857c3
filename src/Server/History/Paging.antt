-- ===== src/Server/History/Paging.antt =====
-- A sorted table of which a cursor selects the rest.
use run_buoy.Prelude.{
  ℕ, ◌≡◌, refl, arith, Bool, true, false, ◌&&◌, some, List, [], ◌∷◌, ◌++◌, ◌==◌, if◌then◌else◌, map,
  Bool-cases, inl, inr, All, ◌∙◌, sym, ap,
}
use run_buoy.Prelude.Table.{select_where, is_one_of}
use run_buoy.Prelude.Keys.{IsDistinct}
use run_buoy.Prelude.Sort.{
  insert_by, insert_by-All, sort_by-All, sort_by, IsSorted, sort_by-IsSorted,
}
use run_buoy.Server.History.{last_of, is_newer, is_after_cursor}

module _ {A : Type 0} (time id : A → ℕ) where
  abbrev newer : A → A → Bool
  newer a b = is_newer time id a b

  is_newer_total : (a b : A) → newer a b ≡ false → newer b a ≡ true
  unfolding is_newer
  is_newer_total a b h = ground arith

  is_newer_trans : (a b c : A) → newer a b ≡ true → newer b c ≡ true → newer a c ≡ true
  unfolding is_newer
  is_newer_trans a b c h k = ground arith

  newer-All :
      (r x : A) (xs : List A)
      → newer r x ≡ true
      → All (λ y. newer x y ≡ true) xs
      → All (λ y. newer r y ≡ true) xs
  newer-All r x [] h k = tt
  newer-All r x (y ∷ xs) h k = (is_newer_trans r x y h k.0, newer-All r x xs h k.1)

  insert_by-first :
      (r : A) (xs : List A) → All (λ y. newer r y ≡ true) xs → insert_by newer r xs ≡ r ∷ xs
  insert_by-first r [] h = refl
  insert_by-first r (x ∷ xs) h = rw h.0 refl

  select_where-All-newer :
      (p : A → Bool) (r : A) (xs : List A)
      → All (λ y. newer r y ≡ true) xs
      → All (λ y. newer r y ≡ true) (select_where p xs)
  select_where-All-newer p r [] h = tt
  select_where-All-newer p r (x ∷ xs) h = elim (Bool-cases (p x)) [
    | inl e ↦ rw e (h.0, select_where-All-newer p r xs h.1)
    | inr e ↦ rw e (select_where-All-newer p r xs h.1)
  ]

  select_where-insert_by :
      (p : A → Bool) (r : A) (xs : List A)
      → IsSorted newer xs
      → select_where p (insert_by newer r xs)
        ≡ (if p r then insert_by newer r (select_where p xs) else select_where p xs)
  select_where-insert_by p r [] h = refl
  select_where-insert_by p r (x ∷ xs) h = elim (Bool-cases (newer r x)) [
    | inl e ↦ elim (Bool-cases (p r)) [
      | inl k ↦
          let firsts = select_where-All-newer p r (x ∷ xs) (e, newer-All r x xs e h.0) in
          rw (e, k) (sym (insert_by-first r (select_where p (x ∷ xs)) firsts))
      | inr k ↦ rw (e, k) refl
    ]
    | inr e ↦ elim (Bool-cases (p x)) [
      | inl k ↦ elim (Bool-cases (p r)) [
        | inl l ↦
            rw (e, k, l, e)
              (ap (λ ys. x ∷ ys)
                (select_where-insert_by p r xs h.1
                  ∙ ap (λ b. if b then insert_by newer r (select_where p xs) else select_where p xs)
                      l))
        | inr l ↦
            rw (e, k, l)
              (ap (λ ys. x ∷ ys)
                (select_where-insert_by p r xs h.1
                  ∙ ap (λ b. if b then insert_by newer r (select_where p xs) else select_where p xs)
                      l))
      ]
      | inr k ↦ rw (e, k) (select_where-insert_by p r xs h.1)
    ]
  ]

  -- A further condition on a sorted query selects of its rows.
  pub select_where-sort_by :
      (p : A → Bool) (xs : List A)
      → sort_by newer (select_where p xs) ≡ select_where p (sort_by newer xs)
  select_where-sort_by p [] = refl
  select_where-sort_by p (x ∷ xs) =
      let step =
        select_where-insert_by p x (sort_by newer xs)
          (sort_by-IsSorted newer is_newer_total is_newer_trans xs) in
      elim (Bool-cases (p x)) [
        | inl e ↦ rw (e, step, e) (ap (insert_by newer x) (select_where-sort_by p xs))
        | inr e ↦ rw (e, step, e) (select_where-sort_by p xs)
      ]

  pub select_where-twice :
      (q p : A → Bool) (xs : List A)
      → select_where (λ r. q r && p r) xs ≡ select_where p (select_where q xs)
  select_where-twice q p [] = refl
  select_where-twice q p (x ∷ xs) = elim (Bool-cases (q x)) [
    | inl e ↦ elim (Bool-cases (p x)) [
      | inl k ↦ rw (e, k) (ap (λ ys. x ∷ ys) (select_where-twice q p xs))
      | inr k ↦ rw (e, k) (select_where-twice q p xs)
    ]
    | inr e ↦ rw e (select_where-twice q p xs)
  ]

  -- The cursor of a row.
  abbrev pub comes_after : A → A → Bool
  comes_after r x = is_after_cursor time id (time r, id r) x

  abbrev pub IsStrict : List A → Type 0
  IsStrict [] = Unit
  IsStrict (r ∷ rs) = All (λ x. comes_after r x ≡ true) rs × IsStrict rs

  select_where-All :
      (p : A → Bool) (xs : List A) → All (λ x. p x ≡ true) xs → select_where p xs ≡ xs
  select_where-All p [] h = refl
  select_where-All p (x ∷ xs) h = rw h.0 (ap (λ ys. x ∷ ys) (select_where-All p xs h.1))

  comes_after_asym : (r y : A) → comes_after r y ≡ true → comes_after y r ≡ false
  unfolding is_after_cursor
  comes_after_asym r y h = ground arith

  comes_after_irrefl : (y : A) → comes_after y y ≡ false
  unfolding is_after_cursor
  comes_after_irrefl y = ground arith

  comes_after-newer : (a b : A) → newer a b ≡ true → (id b == id a) ≡ false → comes_after a b ≡ true
  unfolding is_after_cursor is_newer
  comes_after-newer a b h k = ground arith

  All-at : (P : A → Type 0) (ys zs : List A) (y : A) → All P (ys ++ y ∷ zs) → P y
  All-at P [] zs y h = h.0
  All-at P (x ∷ ys) zs y h = All-at P ys zs y h.1

  -- The cursor of a row of a strictly sorted table selects what follows it.
  pub select_where-after :
      (ys zs : List A) (y : A)
      → IsStrict (ys ++ y ∷ zs)
      → select_where (comes_after y) (ys ++ y ∷ zs) ≡ zs
  select_where-after [] zs y h = rw (comes_after_irrefl y) (select_where-All (comes_after y) zs h.0)
  select_where-after (x ∷ ys) zs y h =
      rw (comes_after_asym x y (All-at (λ r. comes_after x r ≡ true) ys zs y h.0))
        (select_where-after ys zs y h.1)

  -- Every other identifier.
  abbrev IsOther : A → A → Type 0
  IsOther r y = (id y == id r) ≡ false

  abbrev IsApart : List A → Type 0
  IsApart [] = Unit
  IsApart (r ∷ rs) = All (IsOther r) rs × IsApart rs

  newer-comes_after :
      (r : A) (xs : List A)
      → All (λ y. newer r y ≡ true) xs
      → All (IsOther r) xs
      → All (λ y. comes_after r y ≡ true) xs
  newer-comes_after r [] h k = tt
  newer-comes_after r (x ∷ xs) h k = (comes_after-newer r x h.0 k.0, newer-comes_after r xs h.1 k.1)

  comes_after-IsNewer : (r x : A) → comes_after r x ≡ true → newer r x ≡ true
  unfolding is_after_cursor is_newer
  comes_after-IsNewer r x h = ground arith

  comes_after-All-newer :
      (r : A) (xs : List A) → All (λ y. comes_after r y ≡ true) xs → All (λ y. newer r y ≡ true) xs
  comes_after-All-newer r [] h = tt
  comes_after-All-newer r (x ∷ xs) h = (comes_after-IsNewer r x h.0, comes_after-All-newer r xs h.1)

  comes_after-other :
      (r x : A) → newer r x ≡ false → (id x == id r) ≡ false → comes_after x r ≡ true
  unfolding is_after_cursor is_newer
  comes_after-other r x h k = ground arith

  insert_by-IsStrict :
      (r : A) (xs : List A) → IsStrict xs → All (IsOther r) xs → IsStrict (insert_by newer r xs)
  insert_by-IsStrict r [] h k = (tt, tt)
  insert_by-IsStrict r (x ∷ xs) h k = elim (Bool-cases (newer r x)) [
    | inl e ↦
        rw e (
          newer-comes_after r (x ∷ xs) (e, newer-All r x xs e (comes_after-All-newer x xs h.0)) k,
          h,
        )
    | inr e ↦ rw e (
      insert_by-All newer (λ y. comes_after x y ≡ true) r xs (comes_after-other r x e k.0) h.0,
      insert_by-IsStrict r xs h.1 k.1,
    )
  ]

  sort_by-IsStrict : (xs : List A) → IsApart xs → IsStrict (sort_by newer xs)
  sort_by-IsStrict [] h = tt
  sort_by-IsStrict (x ∷ xs) h =
      insert_by-IsStrict x (sort_by newer xs) (sort_by-IsStrict xs h.1)
        (sort_by-All newer (IsOther x) xs h.0)

  select_where-IsOther :
      (q : A → Bool) (r : A) (xs : List A)
      → is_one_of (map id xs) (id r) ≡ false
      → All (IsOther r) (select_where q xs)
  select_where-IsOther q r [] h = tt
  select_where-IsOther q r (x ∷ xs) h = elim (Bool-cases (id x == id r)) [
    | inl e ↦ absurd (ground (arith, h, e))
    | inr e ↦ elim (Bool-cases (q x)) [
      | inl k ↦ rw k (e, select_where-IsOther q r xs (ground (arith, h, e)))
      | inr k ↦ rw k (select_where-IsOther q r xs (ground (arith, h, e)))
    ]
  ]

  select_where-IsApart :
      (q : A → Bool) (xs : List A) → IsDistinct (map id xs) → IsApart (select_where q xs)
  select_where-IsApart q [] h = tt
  select_where-IsApart q (x ∷ xs) h = elim (Bool-cases (q x)) [
    | inl e ↦ rw e (select_where-IsOther q x xs h.0, select_where-IsApart q xs h.1)
    | inr e ↦ rw e (select_where-IsApart q xs h.1)
  ]

  -- A query whose rows have one identifier each is strictly sorted.
  pub query-IsStrict :
      (q : A → Bool) (xs : List A)
      → IsDistinct (map id xs)
      → IsStrict (sort_by newer (select_where q xs))
  query-IsStrict q xs h = sort_by-IsStrict (select_where q xs) (select_where-IsApart q xs h)

module _ {A : Type 0} where
  -- The last row of a list that has one.
  pub last_of-split :
      (x : A) (xs : List A)
      → (ys : List A) × (y : A) × (x ∷ xs ≡ ys ++ y ∷ []) × (last_of (x ∷ xs) ≡ some y)
  last_of-split x [] = ([], x, refl, refl)
  last_of-split x (x' ∷ xs) =
      let (ys, y, e, l) = last_of-split x' xs in (x ∷ ys, y, ap (λ zs. x ∷ zs) e, l)
