-- ===== src/Server/Ingest/Step.antt =====
-- What one round of the ingestion loop does, on each branch that returns.
use mathlib.Core.Path.{subst₂}
use run_buoy.Prelude.{
  ℕ, ◌+◌, ◌≡◌, refl, subst, ◌⊎◌, inl, inr, true, Option, none, some, String, List, [], ◌∷◌, ◌++◌,
  arith, ◌==◌, Bool-cases, Option-cases,
}
use run_buoy.Prelude.Table.{find_where, update_where}
use run_buoy.Prelude.Exec.{Exec, Result, ok, err, pure, continue, ◌>>=◌, on_option, >>=-eq-ok}
use run_buoy.Prelude.Exec.Keeps.{Keeps, Leaves}
use run_buoy.Server.Rows.{Run, RunEvent}
use run_buoy.Server.Schedule.{schedule_run_pushes}
use run_buoy.Server.Schedule.Frame.{schedule_run_pushes-SameRuns}
use run_buoy.Server.Ingest.{
  EventInput, Progressed, project_event, new_event, save_run, rejection, is_replay, accept_event,
  ingest_event,
}
use run_buoy.Server.Database.{Database, Settings, Error, new_id}

-- A step that keeps `P`, followed by a value.
then_pure :
    {S A : Type 0} {P : S → Type 0} (m : Exec Error S Unit) (x : A)
    → Keeps P m
    → (s : S) {a : A} {t : S} → P s
    → (m >>= λ _. pure x) s ≡ ok (a, t)
    → (a ≡ x) × P t
unfolding ◌>>=◌
then_pure {S} {A} {P} m x k s {a} {t} h e = split (m s) (k.at s h) e
  where
    split :
        (r : Result Error (Unit × S))
        → Leaves P r
        → continue r (λ _. pure x) ≡ ok (a, t)
        → (a ≡ x) × P t
    split (ok (u, v)) l q = let same : v ≡ t = ground arith in (ground arith, subst P same l)
    split (err c) l q = cc

-- The row with the event's identifier.
abbrev pub existing_by_id : EventInput → List RunEvent → Option RunEvent
existing_by_id e rows = find_where (λ r. r.event_id == e.event_id) rows

pub record Accepted (s : Database) (run : Run) (e : EventInput) (now : ℕ) (next : Run)
    (t : Database) : Type 0 where
  pub next_run : next ≡ project_event run e
  pub event_rows : t.events ≡ s.events ++ new_event run e now s.next_id ∷ []
  pub run_rows : t.runs ≡ update_where (λ r. r.id == run.id) (λ _. project_event run e) s.runs
  pub binding_rows : t.bindings ≡ s.bindings

module _ (settings : Settings) (id_text : ℕ → String) (now : ℕ) where
  accept_event-Accepted :
      (run : Run) (e : EventInput) (s : Database) {next : Run} {t : Database}
      → accept_event settings id_text now run e s ≡ ok (next, t)
      → Accepted s run e now next t
  unfolding accept_event new_id save_run ◌>>=◌
  accept_event-Accepted run e s {next} {t} h =
      let added : Database = record s {
        next_id = s.next_id + 1;
        events = s.events ++ new_event run e now s.next_id ∷ [];
        runs =
            update_where (λ (r : Run). r.id == (project_event run e).id) (λ _. project_event run e)
              s.runs;
      } in
      let (same, kept) =
        then_pure
          (schedule_run_pushes settings id_text (project_event run e) e.type run.progress now)
          (project_event run e)
          (schedule_run_pushes-SameRuns settings id_text (project_event run e) e.type run.progress
            now added)
          added {a = next} {t = t} (refl, refl, refl) h in
      record {
        next_run = same;
        event_rows = kept.0;
        run_rows = unfold project_event in kept.1;
        binding_rows = kept.2;
      }

-- The event was there already, with the same sequence number and type.
pub record Replayed (s : Database) (p : Progressed) (e : EventInput) (q : Progressed) (t : Database)
    : Type 0 where
  pub row : RunEvent
  pub found : existing_by_id e s.events ≡ some row
  pub replay : is_replay p.run e row ≡ true
  pub result : q ≡ record p { duplicates = p.duplicates ++ e.event_id ∷ [] }
  pub database : t ≡ s

-- The event is new and passed every check.
pub record Stored (s : Database) (p : Progressed) (e : EventInput) (now : ℕ) (q : Progressed)
    (t : Database) : Type 0 where
  pub fresh : existing_by_id e s.events ≡ none
  pub passed : rejection s p.run e ≡ none
  pub result :
      q ≡ record p { run = project_event p.run e; inserted = p.inserted ++ e.event_id ∷ [] }
  pub accepted : Accepted s p.run e now q.run t

module _ (settings : Settings) (id_text : ℕ → String) (now : ℕ) where
  pub ingest_event-cases :
      (p : Progressed) (e : EventInput) (s : Database) {q : Progressed} {t : Database}
      → ingest_event settings id_text now p e s ≡ ok (q, t)
      → Replayed s p e q t ⊎ Stored s p e now q t
  unfolding ingest_event ◌>>=◌ on_option
  ingest_event-cases p e s {q} {t} h = elim (Option-cases (existing_by_id e s.events)) [
    | inl fresh ↦ elim (Option-cases (rejection s p.run e)) [
      | inl passed ↦ inr (stored fresh passed (rw passed at (rw fresh at h)))
      | inr (c, failed) ↦ absurd (cc (rw failed at (rw fresh at h)))
    ]
    | inr (row, found) ↦ elim (Bool-cases (is_replay p.run e row)) [
      | inl replay ↦
          let k = rw replay at (rw found at h) in
          inl (record {
            row = row;
            found = found;
            replay = replay;
            result = ground arith;
            database = ground arith;
          })
      | inr other ↦ absurd (cc (rw other at (rw found at h)))
    ]
  ]
    where
      stored :
          existing_by_id e s.events ≡ none
          → rejection s p.run e ≡ none
          → (accept_event settings id_text now p.run e >>= λ next.
                pure (record p { run = next; inserted = p.inserted ++ e.event_id ∷ [] }))
              s
            ≡ ok (q, t)
          → Stored s p e now q t
      stored fresh passed k =
          let (next, v, first, last) =
            >>=-eq-ok (accept_event settings id_text now p.run e)
              (λ next. pure (record p { run = next; inserted = p.inserted ++ e.event_id ∷ [] })) s
              {r = (q, t)} k in
          let accepted : Accepted s p.run e now next v =
            accept_event-Accepted settings id_text now p.run e s {next = next} {t = v} first in
          let project : next ≡ project_event p.run e = accepted.next_run in
          let same_run : next ≡ q.run = ground arith in
          let same_database : v ≡ t = ground arith in
          record {
            fresh = fresh;
            passed = passed;
            result = ground arith;
            accepted = subst₂ (λ n w. Accepted s p.run e now n w) same_run same_database accepted;
          }
