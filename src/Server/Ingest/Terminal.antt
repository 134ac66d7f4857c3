-- ===== src/Server/Ingest/Terminal.antt =====
-- A run in a terminal status, and the order of the statuses.
use run_buoy.Prelude.{
  ℕ, ◌+◌, ◌≤◌, ◌≡◌, ap, ◌∙◌, inl, inr, true, none, String, List, [], ◌∷◌, arith, length,
  length-append,
}
use run_buoy.Prelude.Exec.{ok, ◌>>=◌, >>=-eq-ok}
use run_buoy.Server.Enums.{ExecutionStatus, is_terminal}
use run_buoy.Server.Rows.{Run}
use run_buoy.Server.Ingest.{
  EventInput, Progressed, project_event, rejection, sort_by_seq, ingest_event, ingest_loop,
  ingest_events,
}
use run_buoy.Server.Ingest.Step.{ingest_event-cases}
use run_buoy.Server.Database.{Database, Settings}

terminal-rejection :
    (db : Database) (run : Run) (e : EventInput)
    → is_terminal run.execution_status ≡ true
    → rejection db run e ≡ none
    → ⊥
unfolding rejection
terminal-rejection db run e h k = ground arith

-- CREATED, STARTING, RUNNING and then the terminal statuses
abbrev pub rank : ExecutionStatus → ℕ
rank ExecutionStatus.created = 0
rank ExecutionStatus.starting = 1
rank ExecutionStatus.running = 2
rank _ = 3

-- An event that passes the checks comes later than all before it, and leads to no earlier status.
rejection-advances :
    (db : Database) (run : Run) (e : EventInput)
    → rejection db run e ≡ none
    → (run.last_seq + 1 ≤ (project_event run e).last_seq)
      × (rank run.execution_status ≤ rank (project_event run e).execution_status)
unfolding rejection project_event
rejection-advances db run e h = ground arith

-- How a run that the loop leaves relates to the one that it was given.
pub record Advances (p q : Progressed) : Type 0 where
  pub same_id : q.run.id ≡ p.run.id
  pub same_machine : q.run.machine_id ≡ p.run.machine_id
  pub same_workspace : q.run.workspace_id ≡ p.run.workspace_id
  pub status : rank p.run.execution_status ≤ rank q.run.execution_status
  pub sequence : p.run.last_seq + length q.inserted ≤ q.run.last_seq + length p.inserted
  pub counted : length p.inserted ≤ length q.inserted

module _ (settings : Settings) (id_text : ℕ → String) (now : ℕ) where
  terminal-event :
      (p : Progressed) (e : EventInput) (s : Database) {q : Progressed} {t : Database}
      → is_terminal p.run.execution_status ≡ true
      → ingest_event settings id_text now p e s ≡ ok (q, t)
      → (q.run ≡ p.run) × (q.inserted ≡ p.inserted) × (t ≡ s)
  terminal-event p e s {q} {t} h k = elim (ingest_event-cases settings id_text now p e s k) [
    | inl r ↦ (
      ap (λ (x : Progressed). x.run) r.result,
      ap (λ (x : Progressed). x.inserted) r.result,
      r.database,
    )
    | inr r ↦ absurd (terminal-rejection s p.run e h r.passed)
  ]

  terminal-loop :
      (es : List EventInput) (p : Progressed) (s : Database) {q : Progressed} {t : Database}
      → is_terminal p.run.execution_status ≡ true
      → ingest_loop settings id_text now p es s ≡ ok (q, t)
      → (q.run ≡ p.run) × (q.inserted ≡ p.inserted) × (t ≡ s)
  unfolding ingest_loop ◌>>=◌
  terminal-loop [] p s h k = ground arith
  terminal-loop (e ∷ es) p s {q} {t} h k =
      let (p', s', first, rest) =
        >>=-eq-ok (ingest_event settings id_text now p e) _ s {r = (q, t)} k in
      let (a, b, c) = terminal-event p e s {q = p'} {t = s'} h first in
      let status : is_terminal p'.run.execution_status ≡ true =
        ap (λ (r : Run). is_terminal r.execution_status) a ∙ h in
      let (a', b', c') = terminal-loop es p' s' {q = q} {t = t} status rest in
      (a' ∙ a, b' ∙ b, c' ∙ c)

  -- A batch that is accepted for a run in a terminal status leaves the run, its status and the whole
  -- database as they were, and stores no event.
  pub terminal_frozen :
      (run : Run) (es : List EventInput) (s : Database) {q : Progressed} {t : Database}
      → is_terminal run.execution_status ≡ true
      → ingest_events settings id_text now run es s ≡ ok (q, t)
      → (q.run ≡ run) × (q.inserted ≡ []) × (t ≡ s)
  unfolding ingest_events
  terminal_frozen run es s h k = terminal-loop (sort_by_seq es) _ s h k

  Advances-event :
      (p : Progressed) (e : EventInput) (s : Database) {q : Progressed} {t : Database}
      → ingest_event settings id_text now p e s ≡ ok (q, t)
      → Advances p q
  unfolding project_event
  Advances-event p e s {q} {t} k = elim (ingest_event-cases settings id_text now p e s k) [
    | inl r ↦ ground (arith, r.result)
    | inr r ↦ ground (
      arith,
      r.result,
      rejection-advances s p.run e r.passed,
      length-append p.inserted (e.event_id ∷ []),
    )
  ]

  Advances-loop :
      (es : List EventInput) (p : Progressed) (s : Database) {q : Progressed} {t : Database}
      → ingest_loop settings id_text now p es s ≡ ok (q, t)
      → Advances p q
  unfolding ingest_loop ◌>>=◌
  Advances-loop [] p s k = ground arith
  Advances-loop (e ∷ es) p s {q} {t} k =
      let (p', s', first, rest) =
        >>=-eq-ok (ingest_event settings id_text now p e) _ s {r = (q, t)} k in
      let a : Advances p p' = Advances-event p e s {q = p'} {t = s'} first in
      let b : Advances p' q = Advances-loop es p' s' {q = q} {t = t} rest in ground arith

  -- An accepted batch keeps the run's identity, moves its status only forwards, and raises its last
  -- sequence number by at least one for each stored event.
  pub ingest_events-advances :
      (run : Run) (es : List EventInput) (s : Database) {q : Progressed} {t : Database}
      → ingest_events settings id_text now run es s ≡ ok (q, t)
      → (q.run.id ≡ run.id)
        × (rank run.execution_status ≤ rank q.run.execution_status)
        × (run.last_seq + length q.inserted ≤ q.run.last_seq)
  unfolding ingest_events
  ingest_events-advances run es s {q} {t} k =
      let a =
        Advances-loop (sort_by_seq es) (record { run = run; inserted = []; duplicates = [] }) s
          {q = q} {t = t} k in
      (a.same_id, a.status, omega arith)
