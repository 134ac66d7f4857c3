-- ===== src/Cli/Sync/Bounds.antt =====
-- An upload always returns, and how many events it counts.
use run_buoy.Prelude.{
  ℕ, zero, suc, ◌+◌, ◌*◌, ◌≤◌, ◌≡◌, refl, Bool, true, false, Option, none, some, List, [], ◌∷◌, map,
  ◌==◌, ltb, if◌then◌else◌, length, length-append, length-take-le, arith, Bool-cases, inl, inr,
}
use native.Mathlib.Nat.{suc-mul, zero-mul}
use run_buoy.Prelude.Table.{select_where}
use run_buoy.Prelude.Sort.{sort_by}
use run_buoy.Prelude.Exec.{Result, Exec, ok, err, pure, gets, continue, ◌>>=◌, ◌>>◌, on_option}
use run_buoy.Prelude.Exec.Keeps.{
  IsOk, Returns, returns_rules, Returns-bind, Returns-gets, Returns-pure, Returns-modify,
  Returns-on_option,
}
use run_buoy.Cli.Queue.{
  mark_delivered, mark_failed, mark_remote_initialized, comes_before, is_deliverable_row,
  pending_rows, pending_events,
}
use run_buoy.Cli.Store.{LocalRun, QueuedEvent, EventRow, RemoteError, Store, QueueError}
use run_buoy.Cli.Metadata.{mark_machine_metadata_delivered, mark_machine_metadata_failed}
use run_buoy.Cli.Sync.{
  Request, Response, ids_of, send_metadata, flush_metadata, initialize_remote, upload_group,
  flush_group, flush_groups, flush_pending, drain_pending, grouped, add_to_group, add_all,
  retry_delay,
}

-- A result that is no error, with a value in `Q`.
abbrev pub Yielded : {E S A : Type 0} → (A → Type 0) → Result E (A × S) → Type 0
Yielded Q (ok (a, _)) = Q a
Yielded Q (err _) = ⊥

pub record Yields {E S A : Type 0} (m : Exec E S A) (Q : A → Type 0) : Type 0 where
  pub at : (s : S) → Yielded Q (m s)

module _ {E S A : Type 0} where
  Yields-pure : (Q : A → Type 0) (a : A) → Q a → Yields {E = E} {S = S} (pure a) Q
  unfolding pure
  Yields-pure Q a q = record { at = λ _. q }

  Yields-gets : (Q : A → Type 0) (f : S → A) → ((s : S) → Q (f s)) → Yields {E = E} (gets f) Q
  unfolding gets
  Yields-gets Q f q = record { at = q }

  Yields_of_Returns : (m : Exec E S A) → Returns m → Yields m (λ _. Unit)
  Yields_of_Returns m r = record { at = λ s. go (m s) (r.at s) }
    where
      go : (x : Result E (A × S)) → IsOk x → Yielded (λ _. Unit) x
      go (ok (a, t)) k = tt
      go (err e) k = k

  Yields-if :
      (Q : A → Type 0) (test : Bool) (one other : Exec E S A)
      → (test ≡ true → Yields one Q)
      → (test ≡ false → Yields other Q)
      → Yields (if test then one else other) Q
  Yields-if Q true one other h k = h refl
  Yields-if Q false one other h k = k refl

module _ {E S A B : Type 0} where
  Yields-bind :
      (P : A → Type 0) (Q : B → Type 0) (m : Exec E S A) (f : A → Exec E S B)
      → Yields m P
      → ((a : A) → P a → Yields (f a) Q)
      → Yields (m >>= f) Q
  unfolding ◌>>=◌
  Yields-bind P Q m f y k = record { at = λ s. go (m s) (y.at s) }
    where
      go : (x : Result E (A × S)) → Yielded P x → Yielded Q (continue x f)
      go (ok (a, t)) p = (k a p).at t
      go (err e) p = p

Yields-le :
    {E S : Type 0} {m : Exec E S ℕ} {a b : ℕ}
    → Yields m (λ n. n ≤ a)
    → a ≤ b
    → Yields m (λ n. n ≤ b)
Yields-le {E} {S} {m} {a} {b} y le = record { at = λ s. go (m s) (y.at s) }
  where
    go : (x : Result E (ℕ × S)) → Yielded (λ n. n ≤ a) x → Yielded (λ n. n ≤ b) x
    go (ok (n, t)) k = omega arith
    go (err e) k = k

-- The events of all groups.
abbrev total : List (ℕ × List QueuedEvent) → ℕ
total [] = 0
total (g ∷ gs) = length g.1 + total gs

total-add_to_group :
    (e : QueuedEvent) (gs : List (ℕ × List QueuedEvent))
    → total (add_to_group e gs) ≡ suc (total gs)
total-add_to_group e [] = omega arith
total-add_to_group e (g ∷ gs) = elim (Bool-cases (g.0 == e.run_id)) [
  | inl own ↦ rw own (omega (arith, length-append g.1 (e ∷ [])))
  | inr other ↦ rw other (omega (arith, total-add_to_group e gs))
]

total-add_all :
    (gs : List (ℕ × List QueuedEvent)) (es : List QueuedEvent)
    → total (add_all gs es) ≡ total gs + length es
total-add_all gs [] = omega arith
total-add_all gs (e ∷ es) =
    omega (arith, total-add_all (add_to_group e gs) es, total-add_to_group e gs)

length-map : (rows : List EventRow) → length (map (λ (r : EventRow). r.event) rows) ≡ length rows
length-map [] = refl
length-map (r ∷ rows) = omega (arith, length-map rows)

pending_events-bound :
    (limit : ℕ) (run_id : Option ℕ) (now : ℕ) (s : Store)
    → total (grouped (pending_events limit run_id now s)) ≤ limit
unfolding pending_events pending_rows
pending_events-bound limit run_id now s = omega (
  arith,
  total-add_all [] (pending_events limit run_id now s),
  length-map (pending_rows limit run_id now s),
  length-take-le limit
      (sort_by comes_before (select_where (is_deliverable_row run_id now) s.events)),
)

module _ (respond : Request → Response) (now : ℕ) where
  metadata-Returns : Returns (flush_metadata respond now)
  unfolding flush_metadata send_metadata mark_machine_metadata_delivered
      mark_machine_metadata_failed
  metadata-Returns = search returns_rules

  initialize-Returns : (r : LocalRun) → Returns (initialize_remote respond now r)
  unfolding initialize_remote mark_remote_initialized
  initialize-Returns r = search returns_rules

  upload-Returns :
      (run_id : ℕ) (batch : List QueuedEvent) → Returns (upload_group respond now run_id batch)
  unfolding upload_group
  upload-Returns run_id batch = Returns-bind _ _ (Returns-gets _) λ row.
      Returns-on_option row _ _ (λ _. Returns-pure _)
        λ r. Returns-bind _ _ (initialize-Returns r) λ failed. search returns_rules

  group-Yields :
      (run_id : ℕ) (batch : List QueuedEvent)
      → Yields (flush_group respond now (run_id, batch)) (λ n. n ≤ length batch)
  unfolding flush_group mark_delivered mark_failed on_option
  group-Yields run_id batch =
      Yields-bind (λ _. Unit) _ _ _ (Yields_of_Returns _ (upload-Returns run_id batch))
        λ failed _.
          Yields-bind (λ _. Unit) _ _ _ (Yields-gets _ _ (λ _. tt))
            λ attempts _. finish failed attempts
    where
      finish :
          (failed : Option RemoteError) (attempts : ℕ)
          → Yields {E = QueueError} {S = Store}
              (on_option failed
                (do mark_delivered (ids_of batch); pure (length batch))
                (λ e. do mark_failed (ids_of batch) e (retry_delay attempts) now; pure 0))
              (λ n. n ≤ length batch)
      finish none attempts =
          Yields-bind (λ _. Unit) _ _ _ (Yields_of_Returns _ (Returns-modify _))
            (λ _ _. Yields-pure _ (length batch) (omega arith))
      finish (some e) attempts =
          Yields-bind (λ _. Unit) _ _ _ (Yields_of_Returns _ (Returns-modify _))
            (λ _ _. Yields-pure _ 0 (omega arith))

  groups-Yields :
      (groups : List (ℕ × List QueuedEvent))
      → Yields (flush_groups respond now groups) (λ n. n ≤ total groups)
  unfolding flush_groups
  groups-Yields [] = Yields-pure _ 0 (omega arith)
  groups-Yields ((run_id, batch) ∷ groups) =
      Yields-bind (λ n. n ≤ length batch) _ _ _ (group-Yields run_id batch)
        λ n small.
          Yields-bind (λ m. m ≤ total groups) _ _ _ (groups-Yields groups)
            λ m rest. Yields-pure _ (n + m) (omega arith)

  pub flush-Yields :
      (batch_size : ℕ) (run_id : Option ℕ)
      → Yields (flush_pending respond now batch_size run_id) (λ n. n ≤ batch_size)
  unfolding flush_pending
  flush-Yields batch_size run_id =
      Yields-bind (λ _. Unit) _ _ _ (Yields_of_Returns _ metadata-Returns)
        λ _ _.
          Yields-bind (λ es. total (grouped es) ≤ batch_size) _ _ _
            (Yields-gets _ _ (λ s. pending_events-bound batch_size run_id now s))
            λ es few. Yields-le (groups-Yields (grouped es)) few

drain-Yields :
    (respond : ℕ → Request → Response) (now : ℕ → ℕ) (batch_size : ℕ) (run_id : Option ℕ)
    (left round delivered : ℕ)
    → Yields
        (drain_pending respond now batch_size run_id left round delivered)
        (λ n. n ≤ delivered + left * batch_size)
unfolding drain_pending
drain-Yields respond now batch_size run_id zero round delivered =
    Yields-pure _ delivered (omega arith)
drain-Yields respond now batch_size run_id (suc left) round delivered =
    Yields-bind (λ n. n ≤ batch_size) _ _ _
      (flush-Yields (respond round) (now round) batch_size run_id)
      λ n small.
        Yields-if _ (ltb n batch_size) (pure (delivered + n)) _
          (λ _.
            Yields-pure _ (delivered + n)
              (omega (arith, suc-mul left batch_size, zero-mul batch_size)))
          (λ _.
            Yields-le (drain-Yields respond now batch_size run_id left (round + 1) (delivered + n))
              (omega (arith, suc-mul left batch_size, zero-mul batch_size)))

-- A drain returns for every queue, network and clock, and counts at most `batches` times the size of
-- a batch as delivered.
pub drain_pending_bound :
    (respond : ℕ → Request → Response) (now : ℕ → ℕ) (batch_size : ℕ) (run_id : Option ℕ)
    (batches : ℕ) (s : Store)
    → (n : ℕ) × (t : Store) × (drain_pending respond now batch_size run_id batches 0 0 s
        ≡ ok (n, t))
      × (n ≤ batches * batch_size)
drain_pending_bound respond now batch_size run_id batches s =
    go (drain_pending respond now batch_size run_id batches 0 0 s) refl
      ((drain-Yields respond now batch_size run_id batches 0 0).at s)
  where
    go :
        (x : Result QueueError (ℕ × Store))
        → drain_pending respond now batch_size run_id batches 0 0 s ≡ x
        → Yielded (λ n. n ≤ 0 + batches * batch_size) x
        → (n : ℕ) × (t : Store) × (drain_pending respond now batch_size run_id batches 0 0 s
            ≡ ok (n, t))
          × (n ≤ batches * batch_size)
    go (ok (n, t)) e k = (n, t, e, omega arith)
    go (err e') e k = absurd k
