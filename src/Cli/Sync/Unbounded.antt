-- ===== src/Cli/Sync/Unbounded.antt =====
-- The drain of the queue without a bound on its batches: `drain_pending` of
-- cli/src/runbuoy/networking/client.py with `max_batches=None`, as the command line calls it.
use run_buoy.Prelude.{
  ℕ, zero, suc, ◌+◌, ◌≤◌, ◌<◌, ◌≡◌, refl, true, false, Option, arith, Bool-cases, inl, inr, ltb,
}
use run_buoy.Prelude.Exec.{Result, ok, err, ◌>>=◌}
use run_buoy.Cli.Store.{Store, QueueError}
use run_buoy.Cli.Queue.{pending_event_count}
use run_buoy.Cli.Sync.{Request, Response, flush_pending, drain_pending}
use run_buoy.Cli.Sync.Bounds.{Yielded, flush-Yields}
use run_buoy.Cli.Sync.Progress.{flush_lowers}

module _ (respond : ℕ → Request → Response) (now : ℕ → ℕ) (batch_size : ℕ) (run_id : Option ℕ) where
  -- The `while` loop with no bound, from a round, a count and a queue to the count and the queue at
  -- its end: the batch that is smaller than its bound is the last.
  pub data DrainsAll : ℕ → ℕ → Store → ℕ → Store → Type 0 where
    last :
        (round delivered : ℕ) (s : Store) (n : ℕ) (t : Store)
        → flush_pending (respond round) (now round) batch_size run_id s ≡ ok (n, t)
        → ltb n batch_size ≡ true
        → DrainsAll round delivered s (delivered + n) t
    next :
        (round delivered : ℕ) (s : Store) (n : ℕ) (u : Store) (total : ℕ) (t : Store)
        → flush_pending (respond round) (now round) batch_size run_id s ≡ ok (n, u)
        → ltb n batch_size ≡ false
        → DrainsAll (round + 1) (delivered + n) u total t
        → DrainsAll round delivered s total t

  flush_returns :
      (round : ℕ) (s : Store)
      → (n : ℕ) × (t : Store) × (flush_pending (respond round) (now round) batch_size run_id s
          ≡ ok (n, t))
  flush_returns round s =
      go (flush_pending (respond round) (now round) batch_size run_id s) refl
        ((flush-Yields (respond round) (now round) batch_size run_id).at s)
    where
      go :
          (x : Result QueueError (ℕ × Store))
          → flush_pending (respond round) (now round) batch_size run_id s ≡ x
          → Yielded (λ n. n ≤ batch_size) x
          → (n : ℕ) × (t : Store) × (flush_pending (respond round) (now round) batch_size run_id s
              ≡ ok (n, t))
      go (ok (n, t)) e k = (n, t, e)
      go (err e') e k = absurd k

  drains_within :
      (left round delivered : ℕ) (s : Store)
      → 1 ≤ batch_size
      → pending_event_count s < left
      → (n : ℕ) × (t : Store) × DrainsAll round delivered s n t
        × (drain_pending respond now batch_size run_id left round delivered s ≡ ok (n, t))
  unfolding drain_pending ◌>>=◌
  drains_within zero round delivered s size few = absurd (omega arith)
  drains_within (suc left) round delivered s size few =
      let (n, u, flushed) = flush_returns round s in
      elim (Bool-cases (ltb n batch_size)) [
        | inl small ↦
            (delivered + n, u, last round delivered s n u flushed small, rw (flushed, small) refl)
        | inr full ↦
            let (total, t, drains, returned) =
              drains_within left (round + 1) (delivered + n) u size (
                omega (
                  arith,
                  few,
                  flush_lowers (respond round) (now round) batch_size run_id s u n flushed
                      (ground arith),
                )) in
            (
              total,
              t,
              next round delivered s n u total t flushed full drains,
              rw (flushed, full) returned,
            )
      ]

-- A drain without a bound on its batches ends for every queue, network and clock, if a batch may hold
-- an event: one bounded by one batch more than the events that wait returns the same count and queue.
pub drain_pending-DrainsAll :
    (respond : ℕ → Request → Response) (now : ℕ → ℕ) (batch_size : ℕ) (run_id : Option ℕ)
    (s : Store)
    → 1 ≤ batch_size
    → (n : ℕ) × (t : Store) × DrainsAll respond now batch_size run_id 0 0 s n t
      × (drain_pending respond now batch_size run_id (pending_event_count s + 1) 0 0 s ≡ ok (n, t))
drain_pending-DrainsAll respond now batch_size run_id s size =
    drains_within respond now batch_size run_id (pending_event_count s + 1) 0 0 s size (omega arith)
