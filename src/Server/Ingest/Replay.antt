-- ===== src/Server/Ingest/Replay.antt =====
-- Replaying a batch: the uploader sends a batch again when it saw no answer.
use mathlib.Core.Path.{subst₂}
use mathlib.Core.List.{append-nil, append_assoc}
use run_buoy.Prelude.{
  ℕ, ◌≡◌, refl, inl, inr, Bool, true, none, some, String, List, [], ◌∷◌, ◌++◌, map, arith, All,
  ◌==◌, ==-refl, if◌then◌else◌,
}
use run_buoy.Prelude.Table.{find_where}
use run_buoy.Prelude.Exec.{ok, ◌>>=◌, on_option, >>=-eq-ok}
use run_buoy.Server.Rows.{Run, RunEvent}
use run_buoy.Server.Ingest.{
  EventInput, Progressed, project_event, new_event, is_replay, sort_by_seq, ingest_event,
  ingest_loop, ingest_events,
}
use run_buoy.Server.Ingest.Step.{existing_by_id, ingest_event-cases}
use run_buoy.Server.Database.{Database, Settings}

module _ {A : Type 0} (p : A → Bool) where
  find-append_some :
      (xs ys : List A) (r : A) → find_where p xs ≡ some r → find_where p (xs ++ ys) ≡ some r
  find-append_some [] ys r h = cc
  find-append_some (x ∷ xs) ys r h = ground (arith, find-append_some xs ys r)

  pub find-append_none :
      (xs : List A) (y : A)
      → find_where p xs ≡ none
      → find_where p (xs ++ y ∷ []) ≡ (if p y then some y else none)
  find-append_none [] y h = refl
  find-append_none (x ∷ xs) y h = ground (arith, find-append_none xs y)

-- The event is stored, and is a replay for `run`.
pub record Known (run : Run) (rows : List RunEvent) (e : EventInput) : Type 0 where
  pub row : RunEvent
  pub found : existing_by_id e rows ≡ some row
  pub replay : is_replay run e row ≡ true

Known-append :
    (run next : Run) (rows more : List RunEvent) (e : EventInput)
    → next.id ≡ run.id
    → Known run rows e
    → Known next (rows ++ more) e
unfolding is_replay
Known-append run next rows more e same k = record {
  row = k.row;
  found = find-append_some _ rows more k.row k.found;
  replay = ground (arith, k.replay);
}

Known-new :
    (run : Run) (rows : List RunEvent) (e : EventInput) (now id : ℕ)
    → existing_by_id e rows ≡ none
    → Known (project_event run e) (rows ++ new_event run e now id ∷ []) e
unfolding is_replay project_event new_event
Known-new run rows e now id h = record {
  row = new_event run e now id;
  found = ground (
    arith,
    find-append_none (λ r. r.event_id == e.event_id) rows (new_event run e now id),
    ==-refl e.event_id,
  );
  replay = ground arith;
}

module _ (settings : Settings) (id_text : ℕ → String) (now : ℕ) where
  -- One round keeps what is known, and makes its own event known.
  Known-event :
      (p : Progressed) (e : EventInput) (s : Database) {q : Progressed} {t : Database}
      → ingest_event settings id_text now p e s ≡ ok (q, t)
      → Known q.run t.events e
        × ((x : EventInput) → Known p.run s.events x → Known q.run t.events x)
  Known-event p e s {q} {t} k = elim (ingest_event-cases settings id_text now p e s k) [
    | inl r ↦
        rw (r.result, r.database)
          (record { row = r.row; found = r.found; replay = r.replay }, λ x old. old)
    | inr r ↦
        rw (r.accepted.next_run, r.accepted.event_rows)
          (
            Known-new p.run s.events e now s.next_id r.fresh,
            λ x old.
                Known-append p.run (project_event p.run e) s.events _ x
                  (unfold project_event in refl) old,
          )
  ]

  Known-loop :
      (es : List EventInput) (p : Progressed) (s : Database) {q : Progressed} {t : Database}
      → ingest_loop settings id_text now p es s ≡ ok (q, t)
      → All (Known q.run t.events) es
        × ((x : EventInput) → Known p.run s.events x → Known q.run t.events x)
  unfolding ingest_loop ◌>>=◌
  Known-loop [] p s {q} {t} k =
      let a : p ≡ q = ground arith in
      let b : s ≡ t = ground arith in
      (tt, λ x old. subst₂ (λ (r : Progressed) (v : Database). Known r.run v.events x) a b old)
  Known-loop (e ∷ es) p s {q} {t} k =
      let (p', s', first, rest) =
        >>=-eq-ok (ingest_event settings id_text now p e) _ s {r = (q, t)} k in
      let (own, kept) = Known-event p e s {q = p'} {t = s'} first in
      let (others, kept') = Known-loop es p' s' {q = q} {t = t} rest in
      ((kept' e own, others), λ x old. kept' x (kept x old))

  replay-event :
      (p : Progressed) (e : EventInput) (s : Database)
      → Known p.run s.events e
      → ingest_event settings id_text now p e s
        ≡ ok (record p { duplicates = p.duplicates ++ e.event_id ∷ [] }, s)
  unfolding ingest_event ◌>>=◌ on_option
  replay-event p e s k = ground (arith, k.found, k.replay)

  replay-loop :
      (es : List EventInput) (p : Progressed) (s : Database)
      → All (Known p.run s.events) es
      → ingest_loop settings id_text now p es s
        ≡ ok (record p { duplicates = p.duplicates ++ map (λ e. e.event_id) es }, s)
  unfolding ingest_loop ◌>>=◌
  replay-loop [] p s h = ground (arith, append-nil p.duplicates)
  replay-loop (e ∷ es) p s h = rw (replay-event p e s h.0) (
      rw (replay-loop es (record p { duplicates = p.duplicates ++ e.event_id ∷ [] }) s h.1)
        (rw append_assoc refl))

  -- A batch that was accepted is accepted again: the second time every event is reported as a
  -- duplicate, none is stored, and the run and the whole database stay as they are.
  pub ingest_events-idempotent :
      (run : Run) (es : List EventInput) (s : Database) {q : Progressed} {t : Database}
      → ingest_events settings id_text now run es s ≡ ok (q, t)
      → ingest_events settings id_text now q.run es t
        ≡ ok (
          record {
            run = q.run;
            inserted = [];
            duplicates = map (λ e. e.event_id) (sort_by_seq es);
          },
          t,
        )
  unfolding ingest_events
  ingest_events-idempotent run es s {q} {t} k =
      replay-loop (sort_by_seq es) (record { run = q.run; inserted = []; duplicates = [] }) t
        (Known-loop (sort_by_seq es) (record { run = run; inserted = []; duplicates = [] }) s
          {q = q} {t = t} k).0
