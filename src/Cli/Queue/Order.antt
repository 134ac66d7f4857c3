-- ===== src/Cli/Queue/Order.antt =====
-- The events that the queue hands out for an upload, and their order.
use run_buoy.Prelude.{
  ℕ, ◌≤◌, ◌<◌, ◌≡◌, refl, ◌⊎◌, inl, inr, Bool, true, false, ◌&&◌, Option, none, some, List, [], ◌∷◌,
  ◌++◌, ◌==◌, ==-refl, length, arith, All, All-map_imp, Bool-cases,
}
use run_buoy.Prelude.Table.{exists_where, count_where}
use run_buoy.Prelude.Where.{All-found}
use run_buoy.Prelude.Sort.{IsSorted, select_page-Page}
use run_buoy.Cli.Store.{EventRow, Store}
use run_buoy.Cli.Queue.{comes_before, is_deliverable_row, pending_rows}

comes_before_total : (a b : EventRow) → comes_before a b ≡ false → comes_before b a ≡ true
comes_before_total a b h = ground arith

comes_before_trans :
    (a b c : EventRow) → comes_before a b ≡ true → comes_before b c ≡ true → comes_before a c ≡ true
comes_before_trans a b c h k = ground arith

-- The run that the upload asks for, if it asks for one.
abbrev pub IsOfRun : Option ℕ → EventRow → Type 0
IsOfRun none r = Unit
IsOfRun (some id) r = r.event.run_id ≡ id

-- The row is not delivered, due, and of the run that is asked for.
pub record Waits (run_id : Option ℕ) (now : ℕ) (r : EventRow) : Type 0 where
  pub delivered : r.delivered ≡ false
  pub due : r.next_attempt_at ≤ now
  pub own : IsOfRun run_id r

-- Each row comes before all that follow it, by run and then by sequence number.
abbrev pub IsInOrder : List EventRow → Type 0
IsInOrder [] = Unit
IsInOrder (r ∷ rs) =
    All
      (λ x.
        (r.event.run_id < x.event.run_id)
        ⊎ ((r.event.run_id ≡ x.event.run_id) × (r.event.seq ≤ x.event.seq)))
      rs
    × IsInOrder rs

-- What an upload takes, and the rows that wait for the next one.
pub record Upload (run_id : Option ℕ) (now limit : ℕ) (rows given : List EventRow) : Type 0 where
  pub rest : List EventRow
  pub bound : length given ≤ limit
  pub waiting : All (Waits run_id now) given
  pub in_order : IsInOrder (given ++ rest)
  pub complete :
      All
        (λ r.
          Waits run_id now r
          → exists_where (λ x. x.event.event_id == r.event.event_id) (given ++ rest) ≡ true)
        rows
  pub greedy : (rest ≡ []) ⊎ (length given ≡ limit)

Waits-is_deliverable_row :
    (run_id : Option ℕ) (now : ℕ) (r : EventRow)
    → is_deliverable_row run_id now r ≡ true
    → Waits run_id now r
Waits-is_deliverable_row none now r h = record {
  delivered = ground (arith, h);
  due = ground (arith, h);
  own = tt;
}
Waits-is_deliverable_row (some id) now r h = record {
  delivered = ground (arith, h);
  due = ground (arith, h);
  own = ground (arith, h);
}

is_deliverable_row-Waits :
    (run_id : Option ℕ) (now : ℕ) (r : EventRow)
    → Waits run_id now r
    → is_deliverable_row run_id now r ≡ true
is_deliverable_row-Waits none now r h = ground (arith, h.delivered, h.due)
is_deliverable_row-Waits (some id) now r h = ground (arith, h.delivered, h.due, h.own)

IsInOrder-IsSorted : (rows : List EventRow) → IsSorted comes_before rows → IsInOrder rows
IsInOrder-IsSorted [] h = tt
IsInOrder-IsSorted (r ∷ rs) h = (
  All-map_imp (λ x. comes_before r x ≡ true) _ (λ x k. ground (arith, k)) rs h.0,
  IsInOrder-IsSorted rs h.1,
)

count_of_exists :
    (p : EventRow → Bool) (rows : List EventRow)
    → exists_where p rows ≡ true
    → 1 ≤ count_where p rows
count_of_exists p [] h = cc
count_of_exists p (x ∷ xs) h = elim (Bool-cases (p x)) [
  | inl e ↦ rw e (omega arith)
  | inr e ↦ rw e (omega (arith, count_of_exists p xs (ground (arith, h, e))))
]

exists_of_count :
    (p : EventRow → Bool) (rows : List EventRow)
    → 1 ≤ count_where p rows
    → exists_where p rows ≡ true
exists_of_count p [] h = absurd (omega (arith, h))
exists_of_count p (x ∷ xs) h = elim (Bool-cases (p x)) [
  | inl e ↦ rw e refl
  | inr e ↦ rw e (exists_of_count p xs (ground (arith, h, e)))
]

-- An upload takes at most `limit` rows, each undelivered, due and of the run that is asked for; every
-- such row of the table is taken or waits for the next upload, by its event identifier; those taken and
-- then those that wait are in the order of runs and of sequence numbers in a run; and rows wait only if
-- the limit is reached.
pub pending_rows-Upload :
    (limit : ℕ) (run_id : Option ℕ) (now : ℕ) (s : Store)
    → Upload run_id now limit s.events (pending_rows limit run_id now s)
unfolding pending_rows
pending_rows-Upload limit run_id now s =
    let page =
      select_page-Page (is_deliverable_row run_id now) comes_before comes_before_total
        comes_before_trans limit s.events in
    record {
      rest = page.rest;
      bound = page.bound;
      waiting =
          All-map_imp (λ r. is_deliverable_row run_id now r ≡ true) (Waits run_id now)
            (λ r. Waits-is_deliverable_row run_id now r) _ page.all_due;
      in_order = IsInOrder-IsSorted _ page.sorted;
      complete =
          All-map_imp
            (λ r.
              is_deliverable_row run_id now r ≡ true
              → exists_where
                  (λ x. is_deliverable_row run_id now x && x.event.event_id == r.event.event_id)
                  s.events
                ≡ true)
            _
            (λ r k w.
              exists_of_count (λ x. x.event.event_id == r.event.event_id) _
                (omega (
                  arith,
                  page.complete (λ x. x.event.event_id == r.event.event_id),
                  count_of_exists
                      (λ x. is_deliverable_row run_id now x && x.event.event_id == r.event.event_id)
                      s.events (k (is_deliverable_row-Waits run_id now r w)),
                )))
            s.events
            (All-found (λ r. is_deliverable_row run_id now r ≡ true)
              (λ r x. is_deliverable_row run_id now x && x.event.event_id == r.event.event_id)
              s.events (λ a d. ground (arith, d, ==-refl a.event.event_id)));
      greedy = page.greedy;
    }
