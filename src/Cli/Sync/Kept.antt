-- ===== src/Cli/Sync/Kept.antt =====
-- What an upload does to the queue: no event is lost or changed, and one is marked as delivered only
-- after the server accepted it.
use run_buoy.Prelude.{
  ℕ, zero, suc, ◌+◌, ◌≡◌, refl, sym, ap, ◌∙◌, ◌⊎◌, inl, inr, Bool, true, Option, none, some, List,
  [], ◌∷◌, ltb, Bool-cases, Option-cases,
}
use run_buoy.Prelude.Table.{is_one_of, update_where, find_where}
use run_buoy.Prelude.Exec.{Result, Exec, ok, err, pure, continue, ◌>>=◌, on_option, >>=-eq-ok}
use run_buoy.Prelude.Exec.Keeps.{
  Keeps, Leaves, Keeps-bind, Keeps-pure, Keeps-gets, Keeps-if, Keeps-modify, Keeps-on_option, at_ok,
  keeps_rules,
}
use run_buoy.Cli.Queue.{mark_delivered, mark_failed, mark_remote_initialized}
use run_buoy.Cli.Store.{QueuedEvent, LocalRun, EventRow, RemoteError, Store, QueueError, is_run}
use run_buoy.Cli.Metadata.{mark_machine_metadata_delivered, mark_machine_metadata_failed}
use run_buoy.Cli.Sync.{
  Request, Response, post_events, request_error, ids_of, send_metadata, flush_metadata,
  initialize_remote, upload_group, flush_group, flush_groups, flush_pending, drain_pending, grouped,
}

-- `m` can return `a`.
pub record CanReturn {E S A : Type 0} (m : Exec E S A) (a : A) : Type 0 where
  pub before : S
  pub after : S
  pub run : m before ≡ ok (a, after)

Keeps-bind_from :
    {E S A B : Type 0} {P : S → Type 0} (m : Exec E S A) (f : A → Exec E S B)
    → Keeps P m
    → ((a : A) → CanReturn m a → Keeps P (f a))
    → Keeps P (m >>= f)
unfolding ◌>>=◌
Keeps-bind_from {E} {S} {A} {P = P} m f km kf = record { at = λ s h. go s (m s) refl (km.at s h) }
  where
    go : (s : S) (x : Result E (A × S)) → m s ≡ x → Leaves P x → Leaves P (continue x f)
    go s (ok (a, t)) e k = (kf a (record { before = s; after = t; run = e })).at t k
    go s (err e') e k = tt

-- A batch that was uploaded and accepted in some round, and that has the event.
pub record Accepted (respond : ℕ → Request → Response) (e : QueuedEvent) : Type 0 where
  pub round : ℕ
  pub run_id : ℕ
  pub batch : List QueuedEvent
  pub listed : is_one_of (ids_of batch) e.event_id ≡ true
  pub accepted : request_error (respond round (post_events run_id batch)) ≡ none

-- What became of one row.
abbrev pub Became : (ℕ → Request → Response) → EventRow → EventRow → Type 0
Became respond a b =
    (b.event ≡ a.event)
    × ((b.delivered ≡ a.delivered) ⊎ ((b.delivered ≡ true) × Accepted respond a.event))

-- The same for every row, in place.
abbrev pub Faithful : (ℕ → Request → Response) → List EventRow → List EventRow → Type 0
Faithful respond [] [] = Unit
Faithful respond (a ∷ rows) (b ∷ others) = Became respond a b × Faithful respond rows others
Faithful respond _ _ = ⊥

Faithful-refl :
    (respond : ℕ → Request → Response) (rows : List EventRow) → Faithful respond rows rows
Faithful-refl respond [] = tt
Faithful-refl respond (r ∷ rows) = ((refl, inl refl), Faithful-refl respond rows)

-- A later change of the second table, row by row.
Faithful-update :
    (respond : ℕ → Request → Response) (p : EventRow → Bool) (f : EventRow → EventRow)
    → ((a b : EventRow) → p b ≡ true → Became respond a b → Became respond a (f b))
    → (rows others : List EventRow) → Faithful respond rows others
    → Faithful respond rows (update_where p f others)
Faithful-update respond p f step [] [] h = tt
Faithful-update respond p f step [] (b ∷ others) h = absurd h
Faithful-update respond p f step (a ∷ rows) [] h = absurd h
Faithful-update respond p f step (a ∷ rows) (b ∷ others) h = elim (Bool-cases (p b)) [
  | inl e ↦ rw e (step a b e h.0, Faithful-update respond p f step rows others h.1)
  | inr e ↦ rw e (h.0, Faithful-update respond p f step rows others h.1)
]

module _ (respond : ℕ → Request → Response) (rows : List EventRow) where
  abbrev Loyal : Store → Type 0
  Loyal s = Faithful respond rows s.events

  failed-Loyal :
      (ids : List ℕ) (e : RemoteError) (delay now : ℕ) → Keeps Loyal (mark_failed ids e delay now)
  unfolding mark_failed
  failed-Loyal ids e delay now =
      Keeps-modify _ λ s h. Faithful-update respond _ _ (λ a b _ k. k) rows s.events h

  delivered-Loyal :
      (round run_id : ℕ) (batch : List QueuedEvent)
      → request_error (respond round (post_events run_id batch)) ≡ none
      → Keeps Loyal (mark_delivered (ids_of batch))
  unfolding mark_delivered
  delivered-Loyal round run_id batch accepted = Keeps-modify _ λ s h.
      Faithful-update respond _ _
        (λ a b listed k. (
          k.0,
          inr (
            refl,
            record {
              round = round;
              run_id = run_id;
              batch = batch;
              listed =
                  ap (λ (e : QueuedEvent). is_one_of (ids_of batch) e.event_id) (sym k.0) ∙ listed;
              accepted = accepted;
            },
          ),
        ))
        rows s.events h

  module _ (round now : ℕ) where
    metadata-Loyal : Keeps Loyal (flush_metadata (respond round) now)
    unfolding flush_metadata send_metadata mark_machine_metadata_delivered
        mark_machine_metadata_failed
    metadata-Loyal = search keeps_rules

    initialize-Loyal : (r : LocalRun) → Keeps Loyal (initialize_remote (respond round) now r)
    unfolding initialize_remote mark_remote_initialized
    initialize-Loyal r = search keeps_rules

    upload-Loyal :
        (run_id : ℕ) (batch : List QueuedEvent)
        → Keeps Loyal (upload_group (respond round) now run_id batch)
    unfolding upload_group
    upload-Loyal run_id batch = Keeps-bind _ _ (Keeps-gets _) λ row.
        Keeps-on_option row _ _ (λ _. Keeps-pure _)
          λ r _. Keeps-bind _ _ (initialize-Loyal r) λ failed. search keeps_rules

    -- A group that ends without an exception was accepted.
    upload-accepted :
        (run_id : ℕ) (batch : List QueuedEvent) (s : Store) {t : Store}
        → upload_group (respond round) now run_id batch s ≡ ok (none, t)
        → request_error (respond round (post_events run_id batch)) ≡ none
    unfolding upload_group ◌>>=◌ on_option
    upload-accepted run_id batch s {t} h = elim (Option-cases (find_where (is_run run_id) s.runs)) [
      | inl missing ↦ let k = rw missing at h in cc
      | inr (r, found) ↦
          let k = rw found at h in
          let (failed, u, first, rest) =
            >>=-eq-ok (initialize_remote (respond round) now r)
              (λ failed.
                on_option failed (pure (request_error (respond round (post_events run_id batch))))
                  (λ e. pure (some e)))
              s {r = (none, t)} k in
          last failed u rest
    ]
      where
        last :
            (failed : Option RemoteError) (u : Store)
            → on_option {E = QueueError} failed
                (pure (request_error (respond round (post_events run_id batch))))
                (λ e. pure (some e))
                u
              ≡ ok (none, t)
            → request_error (respond round (post_events run_id batch)) ≡ none
        last none u k = cc
        last (some e) u k = cc

    group-Loyal :
        (run_id : ℕ) (batch : List QueuedEvent)
        → Keeps Loyal (flush_group (respond round) now (run_id, batch))
    unfolding flush_group
    group-Loyal run_id batch = Keeps-bind_from _ _ (upload-Loyal run_id batch) λ failed can.
        Keeps-bind _ _ (Keeps-gets _) λ attempts.
          Keeps-on_option failed _ _
            (λ e.
              Keeps-bind _ _
                (delivered-Loyal round run_id batch (
                  upload-accepted run_id batch can.before {t = can.after}
                    (can.run ∙ ap (λ x. ok (x, can.after)) e)))
                (λ _. Keeps-pure _))
            (λ e _. Keeps-bind _ _ (failed-Loyal (ids_of batch) e _ now) (λ _. Keeps-pure _))

    groups-Loyal :
        (groups : List (ℕ × List QueuedEvent))
        → Keeps Loyal (flush_groups (respond round) now groups)
    unfolding flush_groups
    groups-Loyal [] = Keeps-pure 0
    groups-Loyal ((run_id, batch) ∷ groups) =
        Keeps-bind _ _ (group-Loyal run_id batch)
          λ n. Keeps-bind _ _ (groups-Loyal groups) λ m. Keeps-pure (n + m)

    flush-Loyal :
        (batch_size : ℕ) (run_id : Option ℕ)
        → Keeps Loyal (flush_pending (respond round) now batch_size run_id)
    unfolding flush_pending
    flush-Loyal batch_size run_id =
        Keeps-bind _ _ metadata-Loyal
          λ _. Keeps-bind _ _ (Keeps-gets _) λ events. groups-Loyal (grouped events)

  drain-Loyal :
      (now : ℕ → ℕ) (batch_size : ℕ) (run_id : Option ℕ) (left round delivered : ℕ)
      → Keeps Loyal (drain_pending respond now batch_size run_id left round delivered)
  unfolding drain_pending
  drain-Loyal now batch_size run_id zero round delivered = Keeps-pure delivered
  drain-Loyal now batch_size run_id (suc left) round delivered =
      Keeps-bind _ _ (flush-Loyal round (now round) batch_size run_id) λ n.
        Keeps-if (ltb n batch_size) (pure (delivered + n)) _ (λ _. Keeps-pure (delivered + n))
          (λ _. drain-Loyal now batch_size run_id left (round + 1) (delivered + n))

-- A drain keeps every row of the queue with its event, in place, and a row's delivery flag changes
-- only to set, and only for an event that is listed in a batch that the server accepted in a round.
pub drain_pending-Faithful :
    (respond : ℕ → Request → Response) (now : ℕ → ℕ) (batch_size : ℕ) (run_id : Option ℕ)
    (batches : ℕ) (s : Store) {n : ℕ} {t : Store}
    → drain_pending respond now batch_size run_id batches 0 0 s ≡ ok (n, t)
    → Faithful respond s.events t.events
drain_pending-Faithful respond now batch_size run_id batches s {n} {t} h =
    at_ok _ (drain-Loyal respond s.events now batch_size run_id batches 0 0) s {a = n} {t = t}
      (Faithful-refl respond s.events) h
