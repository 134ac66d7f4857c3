-- ===== src/Cli/Queue/Sequence.antt =====
-- The sequence numbers of a run's events in the local queue.
use run_buoy.Prelude.{
  ℕ, ◌+◌, max, ◌≡◌, refl, sym, ap, ◌∙◌, subst, inl, inr, true, false, Option, none, some, List, [],
  ◌∷◌, ◌++◌, if◌then◌else◌, length, or_else, arith, Bool-cases, Option-cases, ==-refl, eq_of_==,
}
use run_buoy.Prelude.Table.{find_where, update_where, insert, find-update_some, holds_of_find}
use run_buoy.Prelude.Exec.{Result, ok, err, ◌>>=◌, on_option}
use run_buoy.Server.Enums.{ExecutionStatus, EventType, event_status, is_terminal}
use run_buoy.Cli.Redaction.{Fields, object, unsafe_key}
use run_buoy.Cli.Queue.{
  ends_run, apply_event, last_seq_of, new_row, uuid7, new_queued_event, store_event, append_to_run,
  append_event,
}
use run_buoy.Cli.Store.{
  LocalRun, QueuedEvent, EventRow, Store, QueueError, already_terminal, is_run, is_of,
}

-- The sequence numbers of run `id`, in the order of storage.
abbrev pub queued_seqs : ℕ → List EventRow → List ℕ
queued_seqs id [] = []
queued_seqs id (r ∷ rs) =
    let rest = queued_seqs id rs in if is_of id r then r.event.seq ∷ rest else rest

-- `low + 1, low + 2, …` without a gap
abbrev pub Counts : ℕ → List ℕ → Type 0
Counts low [] = Unit
Counts low (n ∷ ns) = (n ≡ low + 1) × Counts (low + 1) ns

pub record IsContiguous (s : Store) : Type 0 where
  pub at_run : (id : ℕ) → Counts 0 (queued_seqs id s.events)

abbrev top : List ℕ → ℕ
top [] = 0
top (n ∷ ns) = max n (top ns)

last_seq_of-eq-top : (id : ℕ) (rs : List EventRow) → last_seq_of id rs ≡ top (queued_seqs id rs)
last_seq_of-eq-top id [] = refl
last_seq_of-eq-top id (r ∷ rs) = ground (arith, last_seq_of-eq-top id rs)

top_of_Counts : (low : ℕ) (ns : List ℕ) → Counts low ns → max low (top ns) ≡ low + length ns
top_of_Counts low [] h = omega arith
top_of_Counts low (n ∷ ns) h = omega (arith, h.0, top_of_Counts (low + 1) ns h.1)

last_seq_of_contiguous :
    (id : ℕ) (rs : List EventRow)
    → Counts 0 (queued_seqs id rs)
    → last_seq_of id rs ≡ length (queued_seqs id rs)
last_seq_of_contiguous id rs h =
    omega (arith, last_seq_of-eq-top id rs, top_of_Counts 0 (queued_seqs id rs) h)

Counts-append :
    (low : ℕ) (ns : List ℕ) (n : ℕ)
    → n ≡ low + length ns + 1
    → Counts low ns
    → Counts low (ns ++ n ∷ [])
Counts-append low [] n e h = (omega arith, tt)
Counts-append low (m ∷ ns) n e h = (h.0, Counts-append (low + 1) ns n (omega arith) h.1)

queued_seqs-append_own :
    (id : ℕ) (rs : List EventRow) (r : EventRow)
    → is_of id r ≡ true
    → queued_seqs id (rs ++ r ∷ []) ≡ queued_seqs id rs ++ r.event.seq ∷ []
queued_seqs-append_own id [] r e = ground arith
queued_seqs-append_own id (x ∷ rs) r e = ground (arith, queued_seqs-append_own id rs r e)

queued_seqs-append_other :
    (id : ℕ) (rs : List EventRow) (r : EventRow)
    → is_of id r ≡ false
    → queued_seqs id (rs ++ r ∷ []) ≡ queued_seqs id rs
queued_seqs-append_other id [] r e = ground arith
queued_seqs-append_other id (x ∷ rs) r e = ground (arith, queued_seqs-append_other id rs r e)

-- A successful append, taken apart.
pub record Appended (run_id : ℕ) (type : EventType) (payload : Fields) (now : ℕ) (s : Store)
    (e : QueuedEvent) (t : Store) : Type 0 where
  pub run : LocalRun
  pub found : find_where (is_run run_id) s.runs ≡ some run
  pub live : is_terminal run.status ≡ false
  pub event :
      e ≡ new_queued_event run type payload now (last_seq_of run.run_id s.events + 1) s.next_id
  pub store : t ≡ record {
    runs = update_where (is_run e.run_id) (apply_event e) s.runs;
    events = insert (new_row e) s.events;
    metadata = s.metadata;
    next_id = s.next_id + 1;
  }

abbrev result_of :
    Result QueueError (QueuedEvent × Store) → QueuedEvent × Store → QueuedEvent × Store
result_of (ok z) d = z
result_of (err _) d = d

pub append_event-Appended :
    (run_id : ℕ) (type : EventType) (payload : Fields) (now : ℕ) (s : Store) {e : QueuedEvent}
    {t : Store}
    → append_event run_id type payload now s ≡ ok (e, t)
    → Appended run_id type payload now s e t
unfolding append_event append_to_run on_option ◌>>=◌ uuid7 store_event
append_event-Appended run_id type payload now s {e} {t} h =
    elim (Option-cases (unsafe_key (object payload))) [
      | inr (key, bad) ↦ let k = rw bad at h in cc
      | inl safe ↦ elim (Option-cases (find_where (is_run run_id) s.runs)) [
        | inl missing ↦ let k = rw (safe, missing) at h in cc
        | inr (r, found) ↦ elim (Bool-cases (is_terminal r.status)) [
          | inl over ↦ let k = rw (safe, found, over) at h in cc
          | inr live ↦
              subst (λ (x : QueuedEvent × Store). Appended run_id type payload now s x.0 x.1)
                (ap (λ x. result_of x (e, t)) (rw (safe, found, live) at h))
                (record { run = r; found = found; live = live; event = refl; store = refl })
        ]
      ]
    ]

owns :
    {run_id : ℕ} {type : EventType} {payload : Fields} {now : ℕ} {s : Store} {e : QueuedEvent}
    {t : Store}
    → Appended run_id type payload now s e t
    → (e.run_id ≡ run_id) × (e.seq ≡ last_seq_of run_id s.events + 1)
unfolding new_queued_event
owns {run_id} {s = s} a =
    let same : a.run.run_id ≡ run_id =
      eq_of_== _ _ (holds_of_find (is_run run_id) s.runs a.run a.found) in
    (
      ap (λ x. x.run_id) a.event ∙ same,
      ap (λ x. x.seq) a.event ∙ ap (λ n. last_seq_of n s.events + 1) same,
    )

queued_seqs-new_row :
    (e : QueuedEvent) (rows : List EventRow)
    → queued_seqs e.run_id (rows ++ new_row e ∷ []) ≡ queued_seqs e.run_id rows ++ e.seq ∷ []
unfolding new_row
queued_seqs-new_row e rows = queued_seqs-append_own e.run_id rows (new_row e) (==-refl e.run_id)

Counts-new_row :
    (e : QueuedEvent) (rows : List EventRow) (id : ℕ)
    → e.seq ≡ length (queued_seqs e.run_id rows) + 1
    → Counts 0 (queued_seqs id rows)
    → Counts 0 (queued_seqs id (rows ++ new_row e ∷ []))
unfolding new_row
Counts-new_row e rows id number c = elim (Bool-cases (is_of id (new_row e))) [
  | inr other ↦ rw (queued_seqs-append_other id rows (new_row e) other) c
  | inl mine ↦
      let same : e.run_id ≡ id = eq_of_== _ _ mine in
      rw (queued_seqs-append_own id rows (new_row e) mine) (
        Counts-append 0 (queued_seqs id rows) e.seq
          (omega (arith, number ∙ ap (λ n. length (queued_seqs n rows) + 1) same)) c)
]

-- If no log has a gap, an append that succeeds gives the event the number that follows those of its run, adds the event
-- at the end of that run's log, and leaves every log without a gap.
pub append_event-IsContiguous :
    (run_id : ℕ) (type : EventType) (payload : Fields) (now : ℕ) (s : Store) {e : QueuedEvent}
    {t : Store}
    → IsContiguous s
    → append_event run_id type payload now s ≡ ok (e, t)
    → IsContiguous t
      × (e.seq ≡ length (queued_seqs run_id s.events) + 1)
      × (queued_seqs run_id t.events ≡ queued_seqs run_id s.events ++ e.seq ∷ [])
append_event-IsContiguous run_id type payload now s {e} {t} c h =
    let a = append_event-Appended run_id type payload now s {e = e} {t = t} h in
    let (own, next) = owns a in
    let number : e.seq ≡ length (queued_seqs run_id s.events) + 1 =
      next ∙ ap (λ n. n + 1) (last_seq_of_contiguous run_id s.events (c.at_run run_id)) in
    let here : e.seq ≡ length (queued_seqs e.run_id s.events) + 1 =
      number ∙ ap (λ n. length (queued_seqs n s.events) + 1) (sym own) in
    let log : queued_seqs e.run_id t.events ≡ queued_seqs e.run_id s.events ++ e.seq ∷ [] =
      rw a.store (queued_seqs-new_row e s.events) in
    (
      record { at_run = λ id. rw a.store (Counts-new_row e s.events id here (c.at_run id)) },
      number,
      subst (λ n. queued_seqs n t.events ≡ queued_seqs n s.events ++ e.seq ∷ []) own log,
    )

refuses :
    (run_id : ℕ) (type : EventType) (payload : Fields) (now : ℕ) (s : Store) (r : LocalRun)
    → unsafe_key (object payload) ≡ none
    → find_where (is_run run_id) s.runs ≡ some r
    → is_terminal r.status ≡ true
    → append_event run_id type payload now s ≡ err (already_terminal r.run_id)
unfolding append_event append_to_run on_option ◌>>=◌
refuses run_id type payload now s r safe found over = rw (safe, found, over) refl

ended :
    (e : QueuedEvent) (r : LocalRun)
    → ends_run (event_status e.type) ≡ true
    → is_terminal (apply_event e r).status ≡ true
unfolding apply_event
ended e r h = status (event_status e.type) h
  where
    status :
        (o : Option ExecutionStatus) → ends_run o ≡ true → is_terminal (or_else o r.status) ≡ true
    status none k = cc
    status (some x) k = k

found_ended :
    (e : QueuedEvent) (run_id : ℕ) (runs : List LocalRun) (r : LocalRun)
    → e.run_id ≡ run_id
    → find_where (is_run run_id) runs ≡ some r
    → find_where (is_run run_id) (update_where (is_run e.run_id) (apply_event e) runs)
      ≡ some (apply_event e r)
unfolding apply_event
found_ended e run_id runs r own found =
    find-update_some (is_run run_id) (is_run e.run_id) (apply_event e) runs r (λ _ _. refl) found
    ∙ rw (own, holds_of_find (is_run run_id) runs r found) refl

-- Once an event that ends a run was appended, every later append to that run is refused, whatever
-- its safe payload says.
pub terminal_event_closes :
    (run_id : ℕ) (type next : EventType) (payload other : Fields) (now later : ℕ) (s : Store)
    {e : QueuedEvent} {t : Store}
    → ends_run (event_status type) ≡ true
    → unsafe_key (object other) ≡ none
    → append_event run_id type payload now s ≡ ok (e, t)
    → append_event run_id next other later t ≡ err (already_terminal run_id)
unfolding apply_event new_queued_event
terminal_event_closes run_id type next payload other now later s {e} {t} ends safe h =
    let a = append_event-Appended run_id type payload now s {e = e} {t = t} h in
    let (own, _) = owns a in
    let kind : e.type ≡ type = ap (λ x. x.type) a.event in
    let found : find_where (is_run run_id) t.runs ≡ some (apply_event e a.run) =
      rw a.store (found_ended e run_id s.runs a.run own a.found) in
    let over : is_terminal (apply_event e a.run).status ≡ true = ended e a.run (rw kind ends) in
    refuses run_id next other later t (apply_event e a.run) safe found over
    ∙ ap (λ n. err (already_terminal n))
        (eq_of_== _ _ (holds_of_find (is_run run_id) s.runs a.run a.found))
