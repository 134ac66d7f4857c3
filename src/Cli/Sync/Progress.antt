-- ===== src/Cli/Sync/Progress.antt =====
-- That an upload that counts events as delivered lowers the number of the events that wait.
use run_buoy.Prelude.{
  ℕ, ◌+◌, ◌≤◌, ◌<◌, ◌≡◌, refl, subst, Bool, true, not, Option, none, some, List, [], ◌∷◌, ==-refl,
  ltb, length, arith, All, All-map_imp, Bool-cases, inl, inr,
}
use run_buoy.Prelude.Exec.{Result, ok, err, pure, gets, continue, ◌>>=◌, ◌>>◌, on_option}
use run_buoy.Prelude.Exec.Keeps.{Keeps, Keeps-bind, Keeps-gets, Leaves}
use run_buoy.Cli.Store.{QueuedEvent, RemoteError, Store, QueueError}
use run_buoy.Cli.Queue.{mark_delivered, mark_failed, pending_events, pending_event_count}
use run_buoy.Cli.Sync.{
  Request, Response, ids_of, flush_metadata, upload_group, flush_group, flush_groups, flush_pending,
  grouped, retry_delay, most_attempts,
}
use run_buoy.Cli.Sync.Waiting.{
  left_of, AtMost, has_id, metadata-AtMost, groups-AtMost, none_left, Waits, add_all-All,
  pending_events-Waits, split_left,
}

-- What a run says of the number that it returns and of the state that it leaves.
abbrev Ends : (ℕ → Store → Type 0) → Result QueueError (ℕ × Store) → Type 0
Ends Q (ok (n, t)) = Q n t
Ends Q (err _) = Unit

-- A batch that counts events as delivered has a first one, which waits no longer.
abbrev IsMarked : List QueuedEvent → ℕ → Store → Type 0
IsMarked batch n t =
    1 ≤ n
    → (e : QueuedEvent) × (es : List QueuedEvent) × (batch ≡ e ∷ es)
      × (left_of (has_id e.event_id) t ≡ 0)

-- An event that waited no longer does, if any is counted.
abbrev IsLowered : Store → ℕ → Store → Type 0
IsLowered s n t = 1 ≤ n → (i : ℕ) × (1 ≤ left_of (has_id i) s) × (left_of (has_id i) t ≡ 0)

module _ (respond : Request → Response) (now : ℕ) where
  group-IsMarked :
      (run_id : ℕ) (batch : List QueuedEvent) (s : Store)
      → Ends (IsMarked batch) (flush_group respond now (run_id, batch) s)
  unfolding flush_group ◌>>=◌ mark_delivered mark_failed on_option
  group-IsMarked run_id batch s = go batch (upload_group respond now run_id batch s)
    where
      go :
          (events : List QueuedEvent) (x : Result QueueError (Option RemoteError × Store))
          → Ends (IsMarked events) (
              continue x (λ failed. do
                attempts ← gets (λ s. most_attempts run_id s.events)
                on_option failed
                    (do mark_delivered (ids_of events); pure (length events))
                    (λ e. do mark_failed (ids_of events) e (retry_delay attempts) now; pure 0)))
      go [] (ok (none, u)) = λ pos. absurd (omega arith)
      go (e ∷ es) (ok (none, u)) = λ pos. (
        e,
        es,
        refl,
        none_left (ids_of (e ∷ es)) e.event_id
            (λ r. record r { delivered = true; last_error = none }) u.events
            (ground (arith, ==-refl e.event_id)) (λ r. refl),
      )
      go events (ok (some e, u)) = λ pos. absurd (omega arith)
      go events (err e) = tt

  groups-IsLowered :
      (before : Store) (gs : List (ℕ × List QueuedEvent))
      → All (λ (g : ℕ × List QueuedEvent). All (Waits before) g.1) gs
      → (s : Store) → Ends (IsLowered before) (flush_groups respond now gs s)
  unfolding flush_groups ◌>>=◌
  groups-IsLowered before [] waits s = λ pos. absurd (omega arith)
  groups-IsLowered before ((run_id, batch) ∷ gs) waits s =
      first (flush_group respond now (run_id, batch) s) (group-IsMarked run_id batch s)
        (groups-IsLowered before gs waits.1)
    where
      rest :
          (n : ℕ) (u : Store) (x : Result QueueError (ℕ × Store))
          → IsMarked batch n u
          → Ends (IsLowered before) x
          → ((i : ℕ) → AtMost (has_id i) 0 u → Leaves (AtMost (has_id i) 0) x)
          → Ends (IsLowered before) (continue x (λ m. pure (n + m)))
      rest n u (ok (m, t)) marks lower keep = λ pos. elim (Bool-cases (ltb 0 n)) [
        | inl some_first ↦
            let (e, es, q, gone) = marks (ground arith) in
            let own = subst (All (Waits before)) q waits.0 in
            (e.event_id, own.0, omega (arith, keep e.event_id (omega (arith, gone))))
        | inr none_first ↦ lower (ground arith)
      ]
      rest n u (err e) marks lower keep = tt

      first :
          (x : Result QueueError (ℕ × Store))
          → Ends (IsMarked batch) x
          → ((u : Store) → Ends (IsLowered before) (flush_groups respond now gs u))
          → Ends
              (IsLowered before)
              (continue x (λ n. flush_groups respond now gs >>= λ m. pure (n + m)))
      first (ok (n, u)) marks lower =
          rest n u (flush_groups respond now gs u) marks (lower u)
            (λ i few. (groups-AtMost (has_id i) 0 respond now gs).at u few)
      first (err e) marks lower = tt

module _ (respond : Request → Response) (now batch_size : ℕ) (run_id : Option ℕ) where
  flush-AtMost :
      (p : QueuedEvent → Bool) (k : ℕ)
      → Keeps (AtMost p k) (flush_pending respond now batch_size run_id)
  unfolding flush_pending
  flush-AtMost p k =
      Keeps-bind _ _ (metadata-AtMost p k respond now)
        λ _. Keeps-bind _ _ (Keeps-gets _) λ es. groups-AtMost p k respond now (grouped es)

  flush-IsLowered : (s : Store) → Ends (IsLowered s) (flush_pending respond now batch_size run_id s)
  unfolding flush_pending ◌>>=◌
  flush-IsLowered s =
      go (flush_metadata respond now s)
        (λ i. (metadata-AtMost (has_id i) (left_of (has_id i) s) respond now).at s (omega arith))
    where
      go :
          (x : Result QueueError (Unit × Store))
          → ((i : ℕ) → Leaves (AtMost (has_id i) (left_of (has_id i) s)) x)
          → Ends (IsLowered s) (
              continue x (λ _. do
                events ← gets (pending_events batch_size run_id now)
                flush_groups respond now (grouped events)))
      go (ok (_, u)) keep =
          groups-IsLowered respond now s (grouped (pending_events batch_size run_id now u))
            (add_all-All (Waits s) [] (pending_events batch_size run_id now u) tt (
              All-map_imp (Waits u) (Waits s) (λ e h. omega (arith, h, keep e.event_id))
                (pending_events batch_size run_id now u)
                (pending_events-Waits batch_size run_id now u)))
            u
      go (err e) keep = tt

  -- A batch that counts an event as delivered lowers the number of the events that wait.
  pub flush_lowers :
      (s t : Store) (n : ℕ)
      → flush_pending respond now batch_size run_id s ≡ ok (n, t)
      → 1 ≤ n
      → pending_event_count t < pending_event_count s
  unfolding pending_event_count
  flush_lowers s t n h pos =
      let (i, some_before, none_after) = subst (Ends (IsLowered s)) h (flush-IsLowered s) pos in
      let others =
        subst (Leaves (AtMost (λ e. not (has_id i e)) (left_of (λ e. not (has_id i e)) s))) h (
          (flush-AtMost (λ e. not (has_id i e)) (left_of (λ e. not (has_id i e)) s)).at s
            (omega arith)) in
      omega (
        arith,
        some_before,
        none_after,
        others,
        split_left (has_id i) s.events,
        split_left (has_id i) t.events,
      )
