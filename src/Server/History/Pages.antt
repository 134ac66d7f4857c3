-- ===== src/Server/History/Pages.antt =====
-- The pages of history, joined.
use run_buoy.Prelude.{
  ℕ, zero, suc, ◌+◌, ◌≤◌, ◌≡◌, refl, sym, arith, Bool, true, false, ◌&&◌, Option, none, some, List,
  [], ◌∷◌, ◌++◌, ltb, map, length, length-append, take, Bool-cases, Option-cases, inl, inr, ap, ◌∙◌,
  subst, opt_eq, ==-refl,
}
use run_buoy.Prelude.Table.{select_where}
use run_buoy.Prelude.Keys.{IsDistinct}
use run_buoy.Prelude.Sort.{sort_by, length-sort_by, drop, take-drop}
use run_buoy.Prelude.Exec.{ok, pure, ◌>>=◌, on_option}
use run_buoy.Server.Auth.{Principal}
use run_buoy.Server.Rows.{Run}
use run_buoy.Server.History.{
  CursorKind, run_history, notification_history, cursor_kind_eq, HistoryCursor, HistoryPage,
  encode_history_cursor, decode_history_cursor, last_of, is_newer, is_after_cursor, history_rows,
  next_cursor_of, history_page, list_history, is_ended_run, list_run_history,
}
use run_buoy.Server.History.Paging.{
  select_where-sort_by, select_where-twice, comes_after, IsStrict, select_where-after,
  query-IsStrict, last_of-split,
}
use run_buoy.Server.Database.{Database, Handler}

-- A reader that asks for pages, each with the cursor of the one before, until there is none.
abbrev pub read_history :
    {A : Type 0}
    → (Option HistoryCursor → Handler (HistoryPage A))
    → ℕ
    → Option HistoryCursor
    → Handler (List A)
read_history fetch zero cursor = pure []
read_history fetch (suc n) cursor = do
  page ← fetch cursor
  on_option page.next_cursor (pure page.items)
      (λ c. do rest ← read_history fetch n (some c); pure (page.items ++ rest))

cursor_kind_eq_refl : (kind : CursorKind) → cursor_kind_eq kind kind ≡ true
cursor_kind_eq_refl run_history = refl
cursor_kind_eq_refl notification_history = refl

opt_eq_refl : (o : Option ℕ) → opt_eq o o ≡ true
opt_eq_refl none = refl
opt_eq_refl (some i) = ==-refl i

-- A cursor that was given out names the position that it was made of.
decode-encode :
    (kind : CursorKind) (time id : ℕ) (machine_id : Option ℕ) (db : Database)
    → decode_history_cursor (encode_history_cursor kind time id machine_id) kind machine_id db
      ≡ ok ((time, id), db)
unfolding decode_history_cursor encode_history_cursor pure
decode-encode kind time id machine_id db =
    rw (cursor_kind_eq_refl kind, opt_eq_refl machine_id) refl

module _ {A : Type 0} where
  take-all : (n : ℕ) (xs : List A) → length xs ≤ n → take n xs ≡ xs
  take-all zero [] h = refl
  take-all zero (x ∷ xs) h = absurd (omega (arith, h))
  take-all (suc n) [] h = refl
  take-all (suc n) (x ∷ xs) h = ap (λ ys. x ∷ ys) (take-all n xs (omega (arith, h)))

  take-take-suc : (n : ℕ) (xs : List A) → take n (take (suc n) xs) ≡ take n xs
  take-take-suc zero xs = refl
  take-take-suc (suc n) [] = refl
  take-take-suc (suc n) (x ∷ xs) = ap (λ ys. x ∷ ys) (take-take-suc n xs)

  length-take-suc : (n : ℕ) (xs : List A) → suc n ≤ length xs → length (take (suc n) xs) ≡ suc n
  length-take-suc n [] h = absurd (omega (arith, h))
  length-take-suc zero (x ∷ xs) h = refl
  length-take-suc (suc n) (x ∷ xs) h = ap suc (length-take-suc n xs (omega (arith, h)))

  length-drop : (n : ℕ) (xs : List A) → length (drop (suc n) xs) ≤ length xs
  length-drop n [] = omega arith
  length-drop zero (x ∷ xs) = omega arith
  length-drop (suc n) (x ∷ xs) = omega (arith, length-drop n xs)

  append_assoc : (xs ys zs : List A) → (xs ++ ys) ++ zs ≡ xs ++ (ys ++ zs)
  append_assoc [] ys zs = refl
  append_assoc (x ∷ xs) ys zs = ap (λ l. x ∷ l) (append_assoc xs ys zs)

-- `limit` is the number of rows of a page, less one.
module _ {A : Type 0} (time id : A → ℕ) (table : Database → List A) (due : A → Bool)
    (kind : CursorKind) (limit : ℕ) (machine_id : Option ℕ) (db : Database) where
  abbrev fetch : Option HistoryCursor → Handler (HistoryPage A)
  fetch c = list_history time id table due kind c (suc limit) machine_id

  abbrev all_rows : List A
  all_rows = sort_by (is_newer time id) (select_where due (table db))

  abbrev page_of : List A → HistoryPage A
  page_of rest = history_page time id kind machine_id (suc limit) (take (suc limit + 1) rest)

  fetch-first : fetch none db ≡ ok (page_of all_rows, db)
  unfolding list_history history_rows ◌>>=◌ on_option pure
  fetch-first = refl

  -- The rows after the cursor of a row.
  pub after_cursor_lem :
      (ys rest : List A) (y : A)
      → IsDistinct (map id (table db))
      → all_rows ≡ ys ++ y ∷ rest
      → sort_by
          (is_newer time id)
          (select_where (λ r. due r && is_after_cursor time id (time y, id y) r) (table db))
        ≡ rest
  after_cursor_lem ys rest y distinct e =
      ap (sort_by (is_newer time id))
        (select_where-twice time id due (comes_after time id y) (table db))
      ∙ select_where-sort_by time id (comes_after time id y) (select_where due (table db))
      ∙ ap (select_where (comes_after time id y)) e
      ∙ select_where-after time id ys rest y
          (subst (IsStrict time id) e (query-IsStrict time id due (table db) distinct))

  fetch-next :
      (ys rest : List A) (y : A)
      → IsDistinct (map id (table db))
      → all_rows ≡ ys ++ y ∷ rest
      → fetch (some (encode_history_cursor kind (time y) (id y) machine_id)) db
        ≡ ok (page_of rest, db)
  unfolding list_history history_rows ◌>>=◌ on_option pure
  fetch-next ys rest y distinct e =
      rw (decode-encode kind (time y) (id y) machine_id db)
        (rw (after_cursor_lem ys rest y distinct e) refl)

  asked : suc limit + 1 ≡ suc (suc limit)
  asked = omega arith

  page-last :
      (rest : List A)
      → length rest ≤ suc limit
      → page_of rest ≡ (record { items = rest; next_cursor = none; has_more = false })
  unfolding history_page next_cursor_of
  page-last rest h =
      let whole : take (suc limit + 1) rest ≡ rest =
        ap (λ n. take n rest) asked ∙ take-all (suc (suc limit)) rest (omega (arith, h)) in
      let few : ltb (suc limit) (length rest) ≡ false = ground (arith, h) in
      rw (whole, few, take-all (suc limit) rest h)
        (elim (Option-cases (last_of rest)) [
          | inl e ↦ rw (next_cursor_of, e) refl
          | inr e ↦ rw (next_cursor_of, e.1) refl
        ])

  page-more :
      (rest : List A)
      → suc (suc limit) ≤ length rest
      → (ys : List A) × (y : A) × (take (suc limit) rest ≡ ys ++ y ∷ [])
        × (page_of rest ≡ (record {
          items = take (suc limit) rest;
          next_cursor = some (encode_history_cursor kind (time y) (id y) machine_id);
          has_more = true;
        }))
  unfolding history_page next_cursor_of
  page-more [] h = absurd (omega (arith, h))
  page-more (x ∷ rest) h =
      let (ys, y, e, l) = last_of-split x (take limit rest) in
      let many : ltb (suc limit) (length (take (suc limit + 1) (x ∷ rest))) ≡ true = ground (
        arith,
        ap (λ n. length (take n (x ∷ rest))) asked,
        length-take-suc (suc limit) (x ∷ rest) h,
      ) in
      let front : take (suc limit) (take (suc limit + 1) (x ∷ rest)) ≡ x ∷ take limit rest =
        ap (λ n. take (suc limit) (take n (x ∷ rest))) asked
        ∙ take-take-suc (suc limit) (x ∷ rest) in
      (ys, y, e, rw (front, next_cursor_of, l, many) refl)

  read-rest :
      (n : ℕ) (cursor : Option HistoryCursor) (front rest : List A)
      → IsDistinct (map id (table db))
      → all_rows ≡ front ++ rest
      → fetch cursor db ≡ ok (page_of rest, db)
      → length rest ≤ n
      → read_history fetch n cursor db ≡ ok (rest, db)
  unfolding ◌>>=◌ on_option pure
  read-rest zero cursor front [] distinct e fetched h = refl
  read-rest zero cursor front (x ∷ rest) distinct e fetched h = absurd (omega (arith, h))
  read-rest (suc n) cursor front rest distinct e fetched h =
      elim (Bool-cases (ltb (suc limit) (length rest))) [
        | inr last ↦ rw (fetched, page-last rest (ground (arith, last))) refl
        | inl more ↦
            let (ys, y, split, page) = page-more rest (ground (arith, more)) in
            let others = drop (suc limit) rest in
            let joined : (ys ++ y ∷ []) ++ others ≡ rest =
              ap (λ zs. zs ++ others) (sym split) ∙ take-drop (suc limit) rest in
            let moved : all_rows ≡ (front ++ ys) ++ y ∷ others =
              e
              ∙ ap (λ zs. front ++ zs) (sym joined ∙ append_assoc ys (y ∷ []) others)
              ∙ sym (append_assoc front ys (y ∷ others)) in
            let next =
              read-rest n (some (encode_history_cursor kind (time y) (id y) machine_id))
                ((front ++ ys) ++ y ∷ []) others distinct
                (moved ∙ sym (append_assoc (front ++ ys) (y ∷ []) others))
                (fetch-next (front ++ ys) others y distinct moved)
                (ground (
                  arith,
                  h,
                  more,
                  length-append (ys ++ y ∷ []) others,
                  length-append ys (y ∷ []),
                  ap length joined,
                )) in
            rw (fetched, page) (rw next (ap (λ zs. ok (zs, db)) (take-drop (suc limit) rest)))
      ]

  -- From the cursor of a row the rows after it are read.
  pub list_history-continue :
      (n : ℕ) (ys rest : List A) (y : A)
      → IsDistinct (map id (table db))
      → all_rows ≡ ys ++ y ∷ rest
      → length rest ≤ n
      → read_history fetch n (some (encode_history_cursor kind (time y) (id y) machine_id)) db
        ≡ ok (rest, db)
  list_history-continue n ys rest y distinct e h =
      read-rest n (some (encode_history_cursor kind (time y) (id y) machine_id)) (ys ++ y ∷ []) rest
        distinct (e ∙ sym (append_assoc ys (y ∷ []) rest)) (fetch-next ys rest y distinct e) h

  pub list_history-read :
      (n : ℕ)
      → IsDistinct (map id (table db))
      → length all_rows ≤ n
      → read_history fetch n none db ≡ ok (all_rows, db)
  list_history-read n distinct h = read-rest n none [] all_rows distinct refl fetch-first h

-- A phone that reads the history of runs page by page, with any size of a page but zero, each time
-- with the cursor that it was given, gets each ended run of its workspace, and of the machine that it
-- asks for, once, the latest first; as many requests as there are such runs are enough, while no run
-- changes and the identifiers of runs are distinct.
pub list_run_history-read :
    (principal : Principal) (limit n : ℕ) (machine_id : Option ℕ) (db : Database)
    → IsDistinct (map (λ (r : Run). r.id) db.runs)
    → length (select_where (is_ended_run principal.workspace_id machine_id) db.runs) ≤ n
    → read_history (λ c. list_run_history principal c (suc limit) machine_id) n none db
      ≡ ok (
        sort_by
            (is_newer (λ (r : Run). r.updated_at) (λ (r : Run). r.id))
            (select_where (is_ended_run principal.workspace_id machine_id) db.runs),
        db,
      )
unfolding list_run_history
list_run_history-read principal limit n machine_id db distinct h =
    list_history-read (λ (r : Run). r.updated_at) (λ (r : Run). r.id) (λ s. s.runs)
      (is_ended_run principal.workspace_id machine_id) run_history limit machine_id db n distinct
      (rw
        (length-sort_by (is_newer (λ (r : Run). r.updated_at) (λ (r : Run). r.id))
          (select_where (is_ended_run principal.workspace_id machine_id) db.runs))
        h)
