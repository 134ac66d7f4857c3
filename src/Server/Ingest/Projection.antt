-- ===== src/Server/Ingest/Projection.antt =====
-- The run is the projection of its events: a batch does to it what its new events do, in order.
use mathlib.Core.Path.{ap₂}
use mathlib.Core.List.{append-nil, append_assoc, foldl}
use run_buoy.Prelude.{
  ℕ, ◌≡◌, refl, ap, ◌∙◌, ◌⊎◌, inl, inr, false, String, List, [], ◌∷◌, ◌++◌, map, arith, All, ◌==◌,
  leb, is_none, Bool-cases,
}
use run_buoy.Prelude.Table.{select_where}
use run_buoy.Prelude.Exec.{ok, ◌>>=◌, >>=-eq-ok}
use run_buoy.Server.Rows.{Run, RunEvent}
use run_buoy.Server.Ingest.{
  EventInput, Progressed, project_event, new_event, insert_by_seq, sort_by_seq, ingest_event,
  ingest_loop, ingest_events,
}
use run_buoy.Server.Ingest.Step.{existing_by_id, Replayed, Stored, ingest_event-cases}
use run_buoy.Server.Database.{Database, Settings}

abbrev pub HasOtherId : EventInput → EventInput → Type 0
HasOtherId e x = (x.event_id == e.event_id) ≡ false

-- EventBatch.unique_batch_keys: the identifiers of a batch differ.
abbrev pub HasUniqueIds : List EventInput → Type 0
HasUniqueIds [] = Unit
HasUniqueIds (e ∷ es) = All (HasOtherId e) es × HasUniqueIds es

-- The events of a batch that are not stored yet.
abbrev pub fresh_events : List RunEvent → List EventInput → List EventInput
fresh_events rows = select_where (λ e. is_none (existing_by_id e rows))

All-insert_by_seq :
    (P : EventInput → Type 0) (e : EventInput) (es : List EventInput)
    → P e
    → All P es
    → All P (insert_by_seq e es)
unfolding insert_by_seq
All-insert_by_seq P e [] h hs = (h, tt)
All-insert_by_seq P e (x ∷ es) h hs = elim (Bool-cases (leb e.seq x.seq)) [
  | inl le ↦ rw le (h, hs)
  | inr gt ↦ rw gt (hs.0, All-insert_by_seq P e es h hs.1)
]

HasUniqueIds-insert_by_seq :
    (e : EventInput) (es : List EventInput)
    → All (HasOtherId e) es
    → HasUniqueIds es
    → HasUniqueIds (insert_by_seq e es)
unfolding insert_by_seq
HasUniqueIds-insert_by_seq e [] h u = (tt, tt)
HasUniqueIds-insert_by_seq e (x ∷ es) h u = elim (Bool-cases (leb e.seq x.seq)) [
  | inl le ↦ rw le (h, u)
  | inr gt ↦ rw gt (
    All-insert_by_seq (HasOtherId x) e es (ground (arith, h.0)) u.0,
    HasUniqueIds-insert_by_seq e es h.1 u.1,
  )
]

All-sort_by_seq :
    (P : EventInput → Type 0) (es : List EventInput) → All P es → All P (sort_by_seq es)
unfolding sort_by_seq
All-sort_by_seq P [] h = tt
All-sort_by_seq P (e ∷ es) h = All-insert_by_seq P e (sort_by_seq es) h.0 (All-sort_by_seq P es h.1)

HasUniqueIds-sort_by_seq : (es : List EventInput) → HasUniqueIds es → HasUniqueIds (sort_by_seq es)
unfolding sort_by_seq
HasUniqueIds-sort_by_seq [] u = tt
HasUniqueIds-sort_by_seq (e ∷ es) u =
    HasUniqueIds-insert_by_seq e (sort_by_seq es) (All-sort_by_seq (HasOtherId e) es u.0)
      (HasUniqueIds-sort_by_seq es u.1)

existing_by_id-append :
    (x e : EventInput) (rows : List RunEvent) (r : RunEvent)
    → r.event_id ≡ e.event_id
    → HasOtherId e x
    → is_none (existing_by_id x (rows ++ r ∷ [])) ≡ is_none (existing_by_id x rows)
existing_by_id-append x e [] r h k = ground arith
existing_by_id-append x e (y ∷ rows) r h k = ground (arith, existing_by_id-append x e rows r h k)

fresh_events-append :
    (e : EventInput) (rows : List RunEvent) (r : RunEvent) (es : List EventInput)
    → r.event_id ≡ e.event_id
    → All (HasOtherId e) es
    → fresh_events (rows ++ r ∷ []) es ≡ fresh_events rows es
fresh_events-append e rows r [] h k = refl
fresh_events-append e rows r (x ∷ es) h k =
    rw (existing_by_id-append x e rows r h k.0, fresh_events-append e rows r es h k.1)

-- What a batch does, told without the loop.
pub record Projects (p : Progressed) (fresh : List EventInput) (q : Progressed) : Type 0 where
  pub run : q.run ≡ foldl project_event p.run fresh
  pub inserted : q.inserted ≡ p.inserted ++ map (λ e. e.event_id) fresh

Projects-step :
    {now : ℕ} (es : List EventInput) (p : Progressed) (e : EventInput) (s : Database)
    {p' : Progressed} {s' : Database} {q : Progressed}
    → All (HasOtherId e) es
    → Replayed s p e p' s' ⊎ Stored s p e now p' s'
    → Projects p' (fresh_events s'.events es) q
    → Projects p (fresh_events s.events (e ∷ es)) q
Projects-step es p e s {p'} {s'} {q} u (inl r) after = rw r.found (record {
  run =
      after.run
      ∙ ap₂ (foldl project_event) (ap (λ (x : Progressed). x.run) r.result)
          (ap (λ (v : Database). fresh_events v.events es) r.database);
  inserted =
      after.inserted
      ∙ ap₂
          (λ (x : Progressed) (v : Database).
            x.inserted ++ map (λ e. e.event_id) (fresh_events v.events es))
          r.result r.database;
})
Projects-step {now} es p e s {p'} {s'} {q} u (inr r) after =
    let same : fresh_events s'.events es ≡ fresh_events s.events es =
      ap (λ rows. fresh_events rows es) r.accepted.event_rows
      ∙ fresh_events-append e s.events (new_event p.run e now s.next_id) es
          (unfold new_event in refl) u in
    rw r.fresh (record {
      run = after.run ∙ ap₂ (foldl project_event) r.accepted.next_run same;
      inserted =
          after.inserted
          ∙ ap₂ (λ (x : Progressed) es. x.inserted ++ map (λ e. e.event_id) es) r.result same
          ∙ append_assoc p.inserted (e.event_id ∷ []) _;
    })

module _ (settings : Settings) (id_text : ℕ → String) (now : ℕ) where
  Projects-loop :
      (es : List EventInput) (p : Progressed) (s : Database) {q : Progressed} {t : Database}
      → HasUniqueIds es
      → ingest_loop settings id_text now p es s ≡ ok (q, t)
      → Projects p (fresh_events s.events es) q
  unfolding ingest_loop ◌>>=◌
  Projects-loop [] p s {q} {t} u k = ground (arith, append-nil p.inserted)
  Projects-loop (e ∷ es) p s {q} {t} u k =
      let (p', s', first, rest) =
        >>=-eq-ok (ingest_event settings id_text now p e) _ s {r = (q, t)} k in
      Projects-step es p e s {p' = p'} {s' = s'} {q = q} u.0
        (ingest_event-cases settings id_text now p e s first)
        (Projects-loop es p' s' {q = q} {t = t} u.1 rest)

  -- An accepted batch of differing identifiers leaves the run that is the fold of the projection over
  -- its events that were not stored before, in the order of their sequence numbers, and reports exactly
  -- these as inserted.
  pub ingest_events-eq-projection :
      (run : Run) (es : List EventInput) (s : Database) {q : Progressed} {t : Database}
      → HasUniqueIds es
      → ingest_events settings id_text now run es s ≡ ok (q, t)
      → let fresh = fresh_events s.events (sort_by_seq es) in
        (q.run ≡ foldl project_event run fresh) × (q.inserted ≡ map (λ e. e.event_id) fresh)
  unfolding ingest_events
  ingest_events-eq-projection run es s {q} {t} u k =
      let done : Projects (record { run = run; inserted = []; duplicates = [] })
          (fresh_events s.events (sort_by_seq es)) q =
        Projects-loop (sort_by_seq es) (record { run = run; inserted = []; duplicates = [] }) s
          {q = q} {t = t} (HasUniqueIds-sort_by_seq es u) k in
      (done.run, done.inserted)
