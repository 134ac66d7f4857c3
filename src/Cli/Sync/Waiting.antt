-- ===== src/Cli/Sync/Waiting.antt =====
-- The events of the queue that wait, and that no step of an upload makes more of them.
use run_buoy.Prelude.{
  ℕ, ◌+◌, ◌≤◌, ◌≡◌, refl, ap, Bool, true, false, not, ◌&&◌, Option, none, some, List, [], ◌∷◌, map,
  ◌==◌, ==-refl, eq_of_==, arith, All, All-append, All-take, All-map_imp, Bool-cases, inl, inr,
}
use run_buoy.Prelude.Table.{count_where, select_where, update_where, is_one_of, count-update-le}
use run_buoy.Prelude.Where.{All-select_if}
use run_buoy.Prelude.Sort.{sort_by, sort_by-All}
use run_buoy.Prelude.Exec.Keeps.{Keeps, Keeps-modify, Keeps-bind, Keeps-pure, keeps_rules}
use run_buoy.Cli.Store.{QueuedEvent, LocalRun, EventRow, RemoteError, Store}
use run_buoy.Cli.Queue.{
  mark_remote_initialized, mark_delivered, mark_failed, pending_rows, pending_events, comes_before,
  is_deliverable_row,
}
use run_buoy.Cli.Metadata.{mark_machine_metadata_delivered, mark_machine_metadata_failed}
use run_buoy.Cli.Sync.{
  Request, Response, send_metadata, flush_metadata, initialize_remote, upload_group, flush_group,
  flush_groups, add_to_group, add_all,
}

-- The events that are not delivered, among those of a condition.
abbrev pub left_of : (QueuedEvent → Bool) → Store → ℕ
left_of p s = count_where (λ (r : EventRow). not r.delivered && p r.event) s.events

abbrev pub AtMost : (QueuedEvent → Bool) → ℕ → Store → Type 0
AtMost p k s = left_of p s ≤ k

abbrev pub has_id : ℕ → QueuedEvent → Bool
has_id i e = e.event_id == i

module _ (p : QueuedEvent → Bool) (k : ℕ) where
  delivered-AtMost : (ids : List ℕ) → Keeps (AtMost p k) (mark_delivered ids)
  unfolding mark_delivered
  delivered-AtMost ids = Keeps-modify _ λ s h. omega (
    arith,
    h,
    count-update-le (λ (r : EventRow). not r.delivered && p r.event)
        (λ r. is_one_of ids r.event.event_id)
        (λ r. record r { delivered = true; last_error = none }) s.events (λ r e f. cc),
  )

  failed-AtMost :
      (ids : List ℕ) (e : RemoteError) (delay now : ℕ)
      → Keeps (AtMost p k) (mark_failed ids e delay now)
  unfolding mark_failed
  failed-AtMost ids error delay now = Keeps-modify _ λ s h. omega (
    arith,
    h,
    count-update-le (λ (r : EventRow). not r.delivered && p r.event)
        (λ r. is_one_of ids r.event.event_id)
        (λ r. record r {
          attempt_count = r.attempt_count + 1;
          next_attempt_at = now + delay;
          last_error = some error;
        })
        s.events (λ r e f. f),
  )

  module _ (respond : Request → Response) (now : ℕ) where
    pub metadata-AtMost : Keeps (AtMost p k) (flush_metadata respond now)
    unfolding flush_metadata send_metadata mark_machine_metadata_delivered
        mark_machine_metadata_failed
    metadata-AtMost = search keeps_rules

    initialize-AtMost : (r : LocalRun) → Keeps (AtMost p k) (initialize_remote respond now r)
    unfolding initialize_remote mark_remote_initialized
    initialize-AtMost r = search keeps_rules

    upload-AtMost :
        (run_id : ℕ) (batch : List QueuedEvent)
        → Keeps (AtMost p k) (upload_group respond now run_id batch)
    unfolding upload_group
    upload-AtMost run_id batch = search (keeps_rules, initialize-AtMost) depth 8

    group-AtMost : (g : ℕ × List QueuedEvent) → Keeps (AtMost p k) (flush_group respond now g)
    unfolding flush_group
    group-AtMost (run_id, batch) =
        search (keeps_rules, upload-AtMost, delivered-AtMost, failed-AtMost) depth 8

    pub groups-AtMost :
        (gs : List (ℕ × List QueuedEvent)) → Keeps (AtMost p k) (flush_groups respond now gs)
    unfolding flush_groups
    groups-AtMost [] = Keeps-pure _
    groups-AtMost (g ∷ gs) =
        Keeps-bind _ _ (group-AtMost g) λ n. Keeps-bind _ _ (groups-AtMost gs) λ m. Keeps-pure _

-- No event with the identifier is left once a list with it is marked.
pub none_left :
    (ids : List ℕ) (i : ℕ) (f : EventRow → EventRow) (rows : List EventRow)
    → is_one_of ids i ≡ true
    → ((r : EventRow) → (f r).delivered ≡ true)
    → count_where
        (λ (r : EventRow). not r.delivered && r.event.event_id == i)
        (update_where (λ r. is_one_of ids r.event.event_id) f rows)
      ≡ 0
none_left ids i f [] h k = refl
none_left ids i f (r ∷ rows) h k = elim (Bool-cases (is_one_of ids r.event.event_id)) [
  | inl e ↦ ground (arith, e, k r, none_left ids i f rows h k)
  | inr e ↦ elim (Bool-cases (r.event.event_id == i)) [
    | inl same ↦ let q = eq_of_== r.event.event_id i same in let u = ap (is_one_of ids) q in cc
    | inr other ↦ ground (arith, e, other, none_left ids i f rows h k)
  ]
]

abbrev pub Waits : Store → QueuedEvent → Type 0
Waits s e = 1 ≤ left_of (has_id e.event_id) s

pub add_all-All :
    (Q : QueuedEvent → Type 0) (gs : List (ℕ × List QueuedEvent)) (es : List QueuedEvent)
    → All (λ (g : ℕ × List QueuedEvent). All Q g.1) gs
    → All Q es
    → All (λ (g : ℕ × List QueuedEvent). All Q g.1) (add_all gs es)
add_all-All Q gs [] h k = h
add_all-All Q gs (e ∷ es) h k = add_all-All Q (add_to_group e gs) es (one gs h) k.1
  where
    one :
        (gs : List (ℕ × List QueuedEvent))
        → All (λ (g : ℕ × List QueuedEvent). All Q g.1) gs
        → All (λ (g : ℕ × List QueuedEvent). All Q g.1) (add_to_group e gs)
    one [] h = ((k.0, tt), tt)
    one (g ∷ gs) h = elim (Bool-cases (g.0 == e.run_id)) [
      | inl own ↦ rw own (All-append Q g.1 (e ∷ []) h.0 (k.0, tt), h.1)
      | inr other ↦ rw other (h.0, one gs h.1)
    ]

-- The events of a page wait.
rows_wait :
    (rows : List EventRow)
    → All
        (λ (r : EventRow).
          r.delivered ≡ false
          → 1
            ≤ count_where
                (λ (x : EventRow). not x.delivered && x.event.event_id == r.event.event_id)
                rows)
        rows
rows_wait [] = tt
rows_wait (r ∷ rows) = (
  λ d. ground (arith, d, ==-refl r.event.event_id),
  All-map_imp
      (λ (a : EventRow).
        a.delivered ≡ false
        → 1
          ≤ count_where (λ (x : EventRow). not x.delivered && x.event.event_id == a.event.event_id)
              rows)
      (λ (a : EventRow).
        a.delivered ≡ false
        → 1
          ≤ count_where (λ (x : EventRow). not x.delivered && x.event.event_id == a.event.event_id)
              (r ∷ rows))
      (λ a h d. omega (arith, h d)) rows (rows_wait rows),
)

All-map_event :
    (Q : QueuedEvent → Type 0) (rows : List EventRow)
    → All (λ (r : EventRow). Q r.event) rows
    → All Q (map (λ (r : EventRow). r.event) rows)
All-map_event Q [] h = tt
All-map_event Q (r ∷ rows) h = (h.0, All-map_event Q rows h.1)

pub pending_events-Waits :
    (limit : ℕ) (run_id : Option ℕ) (now : ℕ) (s : Store)
    → All (Waits s) (pending_events limit run_id now s)
unfolding pending_events pending_rows
pending_events-Waits limit run_id now s =
    All-map_event (Waits s) (pending_rows limit run_id now s) (
      All-take Q limit (sort_by comes_before (select_where due s.events)) (
        sort_by-All comes_before Q (select_where due s.events) (
          All-select_if Q due s.events (
            All-map_imp (λ (r : EventRow). r.delivered ≡ false → Q r)
              (λ (r : EventRow). due r ≡ true → Q r) (λ r h d. h (ground arith)) s.events
              (rows_wait s.events)))))
  where
    Q : EventRow → Type 0
    Q r = Waits s r.event

    due : EventRow → Bool
    due r = is_deliverable_row run_id now r

-- The rows that wait are those of a condition and the others.
pub split_left :
    (p : QueuedEvent → Bool) (rows : List EventRow)
    → count_where (λ (r : EventRow). not r.delivered) rows
      ≡ count_where (λ (r : EventRow). not r.delivered && p r.event) rows
        + count_where (λ (r : EventRow). not r.delivered && not (p r.event)) rows
split_left p [] = omega arith
split_left p (r ∷ rows) = ground (arith, split_left p rows)
