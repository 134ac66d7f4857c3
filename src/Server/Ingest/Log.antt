-- ===== src/Server/Ingest/Log.antt =====
-- The event log of each run: sequence numbers grow along it, up to the run's last one.
use mathlib.Core.Path.{subst₂}
use run_buoy.Prelude.{
  ℕ, ◌≤◌, ◌<◌, ◌≡◌, refl, sym, subst, inl, inr, false, none, String, List, [], ◌∷◌, ◌++◌, arith,
  All, ◌==◌, if◌then◌else◌, Bool-cases,
}
use run_buoy.Prelude.Table.{update_where}
use run_buoy.Prelude.Exec.{ok, ◌>>=◌, >>=-eq-ok}
use run_buoy.Server.Rows.{Run, RunEvent}
use run_buoy.Server.Ingest.{
  EventInput, Progressed, project_event, new_event, rejection, sort_by_seq, ingest_event,
  ingest_loop, ingest_events,
}
use run_buoy.Server.Ingest.Step.{ingest_event-cases}
use run_buoy.Server.Database.{Database, Settings}

-- The sequence numbers of run `id`, in the order in which its events were stored.
abbrev pub seqs_of : ℕ → List RunEvent → List ℕ
seqs_of id [] = []
seqs_of id (r ∷ rs) = let rest = seqs_of id rs in if r.run_id == id then r.seq ∷ rest else rest

-- The numbers grow, from above `low` up to `high` at most.
abbrev pub Ascending : ℕ → List ℕ → ℕ → Type 0
Ascending low [] high = low ≤ high
Ascending low (n ∷ ns) high = (low < n) × Ascending n ns high

abbrev pub IsOrdered : List RunEvent → Run → Type 0
IsOrdered events run = Ascending 0 (seqs_of run.id events) run.last_seq

-- Every run's log is in order.
abbrev pub IsLogged : Database → Type 0
IsLogged db = All (IsOrdered db.events) db.runs

Ascending-append :
    (low : ℕ) (ns : List ℕ) (high n : ℕ)
    → Ascending low ns high
    → high < n
    → Ascending low (ns ++ n ∷ []) n
Ascending-append low [] high n h k = omega arith
Ascending-append low (m ∷ ns) high n h k = (h.0, Ascending-append m ns high n h.1 k)

seqs_of-append_self :
    (id : ℕ) (rs : List RunEvent) (r : RunEvent)
    → r.run_id ≡ id
    → seqs_of id (rs ++ r ∷ []) ≡ seqs_of id rs ++ r.seq ∷ []
seqs_of-append_self id [] r e = ground arith
seqs_of-append_self id (x ∷ rs) r e = ground (arith, seqs_of-append_self id rs r e)

seqs_of-append_ne :
    (id : ℕ) (rs : List RunEvent) (r : RunEvent)
    → (r.run_id == id) ≡ false
    → seqs_of id (rs ++ r ∷ []) ≡ seqs_of id rs
seqs_of-append_ne id [] r e = ground arith
seqs_of-append_ne id (x ∷ rs) r e = ground (arith, seqs_of-append_ne id rs r e)

rejection-ordered :
    (db : Database) (run : Run) (e : EventInput) → rejection db run e ≡ none → run.last_seq < e.seq
unfolding rejection
rejection-ordered db run e h = ground arith

-- The log of the run that takes a new event.
IsOrdered-self :
    (events : List RunEvent) (run : Run) (e : EventInput) (now id : ℕ)
    → IsOrdered events run
    → run.last_seq < e.seq
    → IsOrdered (events ++ new_event run e now id ∷ []) (project_event run e)
unfolding project_event new_event
IsOrdered-self events run e now id h k =
    subst (λ ns. Ascending 0 ns e.seq)
      (sym (seqs_of-append_self run.id events (new_event run e now id) refl))
      (Ascending-append 0 (seqs_of run.id events) run.last_seq e.seq h k)

-- The logs of all runs, when `run` takes a new event.
IsOrdered-rows :
    (events : List RunEvent) (run : Run) (e : EventInput) (now id : ℕ) (rows : List Run)
    → IsOrdered (events ++ new_event run e now id ∷ []) (project_event run e)
    → All (IsOrdered events) rows
    → All
        (IsOrdered (events ++ new_event run e now id ∷ []))
        (update_where (λ r. r.id == run.id) (λ _. project_event run e) rows)
IsOrdered-rows events run e now id [] h k = tt
IsOrdered-rows events run e now id (x ∷ rows) h k = (
  elim (Bool-cases (x.id == run.id)) [
    | inl same ↦ rw same h
    | inr other ↦ rw other (
        subst (λ ns. Ascending 0 ns x.last_seq)
          (sym (
            seqs_of-append_ne x.id events (new_event run e now id)
              (unfold new_event in ground arith)))
          k.0)
  ],
  IsOrdered-rows events run e now id rows h k.1,
)

-- What the loop keeps: every log is in order, that of the run in hand included.
abbrev LoopLogged : Progressed → Database → Type 0
LoopLogged p db = IsOrdered db.events p.run × IsLogged db

module _ (settings : Settings) (id_text : ℕ → String) (now : ℕ) where
  logged-event :
      (p : Progressed) (e : EventInput) (s : Database) {q : Progressed} {t : Database}
      → LoopLogged p s
      → ingest_event settings id_text now p e s ≡ ok (q, t)
      → LoopLogged q t
  logged-event p e s {q} {t} h k = elim (ingest_event-cases settings id_text now p e s k) [
    | inl r ↦ rw (r.result, r.database) h
    | inr r ↦
        let own =
          IsOrdered-self s.events p.run e now s.next_id h.0
            (rejection-ordered s p.run e r.passed) in
        rw (r.accepted.next_run, r.accepted.event_rows, r.accepted.run_rows)
          (own, IsOrdered-rows s.events p.run e now s.next_id s.runs own h.1)
  ]

  logged-loop :
      (es : List EventInput) (p : Progressed) (s : Database) {q : Progressed} {t : Database}
      → LoopLogged p s
      → ingest_loop settings id_text now p es s ≡ ok (q, t)
      → LoopLogged q t
  unfolding ingest_loop ◌>>=◌
  logged-loop [] p s {q} {t} h k =
      let a : p ≡ q = ground arith in let b : s ≡ t = ground arith in subst₂ LoopLogged a b h
  logged-loop (e ∷ es) p s {q} {t} h k =
      let (p', s', first, rest) =
        >>=-eq-ok (ingest_event settings id_text now p e) _ s {r = (q, t)} k in
      logged-loop es p' s' {q = q} {t = t} (logged-event p e s {q = p'} {t = s'} h first) rest

  -- If the log of this run and that of every stored run is in order, an accepted batch leaves them so:
  -- sequence numbers strictly grow in the order of storage, and none passes the run's last one.
  pub ingest_events-IsLogged :
      (run : Run) (es : List EventInput) (s : Database) {q : Progressed} {t : Database}
      → IsOrdered s.events run
      → IsLogged s
      → ingest_events settings id_text now run es s ≡ ok (q, t)
      → IsOrdered t.events q.run × IsLogged t
  unfolding ingest_events
  ingest_events-IsLogged run es s {q} {t} o h k =
      logged-loop (sort_by_seq es) (record { run = run; inserted = []; duplicates = [] }) s {q = q}
        {t = t} (o, h) k
