-- ===== src/Server/Delivery/Choice.antt =====
-- Which row the worker takes: the first by priority, due time and creation.
use run_buoy.Prelude.{
  ℕ, ◌≡◌, ◌≤◌, ◌<◌, ap, refl, subst, ◌⊎◌, inl, inr, true, false, Option, none, some, List, [], ◌∷◌,
  arith, All, All-map_imp, ◌==◌, if◌then◌else◌, Bool-cases,
}
use run_buoy.Server.Enums.{OutboxStatus, is_pending}
use run_buoy.Server.Rows.{PushOutbox}
use run_buoy.Server.Delivery.{is_due, goes_before, better, next_due}

-- The row stands in the table.
abbrev pub Has : PushOutbox → List PushOutbox → Type 0
Has o [] = ⊥
Has o (x ∷ xs) = (o ≡ x) ⊎ Has o xs

-- Primary keys differ.
abbrev pub HasDistinctIds : List PushOutbox → Type 0
HasDistinctIds [] = Unit
HasDistinctIds (o ∷ os) = All (λ x. (x.id == o.id) ≡ false) os × HasDistinctIds os

pub next_due-Has :
    (now : ℕ) (rows : List PushOutbox) (o : PushOutbox) → next_due now rows ≡ some o → Has o rows
unfolding next_due
next_due-Has now [] o h = cc
next_due-Has now (x ∷ xs) o h = ground (arith, next_due-Has now xs o)

pub next_due-is_due :
    (now : ℕ) (rows : List PushOutbox) (o : PushOutbox)
    → next_due now rows ≡ some o
    → is_due now o ≡ true
unfolding next_due
next_due-is_due now [] o h = cc
next_due-is_due now (x ∷ xs) o h = ground (arith, next_due-is_due now xs o)

goes_before-asymm : (a b : PushOutbox) → goes_before a b ≡ true → goes_before b a ≡ false
unfolding goes_before
goes_before-asymm a b h = ground arith

-- Not before is transitive: the order on priority, time and creation is total.
not_before_trans :
    (a b c : PushOutbox)
    → goes_before a b ≡ false
    → goes_before b c ≡ false
    → goes_before a c ≡ false
unfolding goes_before
not_before_trans a b c h k = ground arith

goes_before_irrefl : (a : PushOutbox) → goes_before a a ≡ false
unfolding goes_before
goes_before_irrefl a = ground arith

abbrev pub NoneDue : ℕ → List PushOutbox → Type 0
NoneDue now rows = All (λ r. is_due now r ≡ false) rows

abbrev pub NoneBefore : ℕ → PushOutbox → List PushOutbox → Type 0
NoneBefore now o rows = All (λ r. is_due now r ≡ true → goes_before r o ≡ false) rows

pub next_due-none : (now : ℕ) (rows : List PushOutbox) → next_due now rows ≡ none → NoneDue now rows
unfolding next_due
next_due-none now [] h = tt
next_due-none now (x ∷ xs) h = (ground arith, next_due-none now xs (ground arith))

next_due-NoneBefore_cases :
    (now : ℕ) (x o : PushOutbox) (xs : List PushOutbox) (rest : Option PushOutbox)
    → next_due now xs ≡ rest
    → ((b : PushOutbox) → rest ≡ some b → NoneBefore now b xs)
    → (if is_due now x then some (better x rest) else rest) ≡ some o
    → NoneBefore now o (x ∷ xs)
next_due-NoneBefore_cases now x o xs none e ih h = (
  ground (arith, goes_before_irrefl x),
  All-map_imp (λ r. is_due now r ≡ false) _ (λ r f d. cc) xs (next_due-none now xs e),
)
next_due-NoneBefore_cases now x o xs (some b) e ih h = elim (Bool-cases (is_due now x)) [
  | inr waits ↦
      let same : b ≡ o = ground arith in
      (λ d. cc, subst (λ c. NoneBefore now c xs) same (ih b refl))
  | inl due ↦ elim (Bool-cases (goes_before b x)) [
    | inl first ↦
        let same : b ≡ o = ground arith in
        subst (λ c. NoneBefore now c (x ∷ xs)) same ((λ _. goes_before-asymm b x first), ih b refl)
    | inr later ↦
        let same : x ≡ o = ground arith in
        subst (λ c. NoneBefore now c (x ∷ xs)) same
          (
            (λ _. goes_before_irrefl x),
            All-map_imp _ _ (λ r k d. not_before_trans r b x (k d) later) xs (ih b refl),
          )
  ]
]

next_due-NoneBefore :
    (now : ℕ) (rows : List PushOutbox) (o : PushOutbox)
    → next_due now rows ≡ some o
    → NoneBefore now o rows
unfolding next_due
next_due-NoneBefore now [] o h = tt
next_due-NoneBefore now (x ∷ xs) o h =
    next_due-NoneBefore_cases now x o xs (next_due now xs) refl
      (λ b e. next_due-NoneBefore now xs b e) h

-- The row is pending and due, and no pending row that is due has a higher priority, or the same
-- priority and an earlier due time, or the same of both and an earlier creation.
pub record IsFirst (now : ℕ) (o : PushOutbox) (rows : List PushOutbox) : Type 0 where
  pub found : Has o rows
  pub pending : o.status ≡ OutboxStatus.pending
  pub due : o.available_at ≤ now
  pub first :
      All
        (λ r.
          r.status ≡ OutboxStatus.pending
          → r.available_at ≤ now
          → (r.priority < o.priority)
            ⊎ ((r.priority ≡ o.priority)
                × ((o.available_at < r.available_at)
                    ⊎ ((o.available_at ≡ r.available_at) × (o.created_at ≤ r.created_at)))))
        rows

-- No pending row is due.
abbrev pub IsIdle : ℕ → List PushOutbox → Type 0
IsIdle now rows = All (λ r. r.status ≡ OutboxStatus.pending → now < r.available_at) rows

pending_of : (status : OutboxStatus) → is_pending status ≡ true → status ≡ OutboxStatus.pending
pending_of status h = ground arith

is_due_of :
    (now : ℕ) (r : PushOutbox)
    → r.status ≡ OutboxStatus.pending
    → r.available_at ≤ now
    → is_due now r ≡ true
is_due_of now r h k = ground (arith, ap is_pending h, k)

not_before :
    (r o : PushOutbox)
    → goes_before r o ≡ false
    → (r.priority < o.priority)
      ⊎ ((r.priority ≡ o.priority)
          × ((o.available_at < r.available_at)
              ⊎ ((o.available_at ≡ r.available_at) × (o.created_at ≤ r.created_at))))
unfolding goes_before
not_before r o h = ground arith

pub next_due-IsFirst :
    (now : ℕ) (rows : List PushOutbox) (o : PushOutbox)
    → next_due now rows ≡ some o
    → IsFirst now o rows
next_due-IsFirst now rows o h = record {
  found = next_due-Has now rows o h;
  pending = pending_of o.status (ground (arith, next_due-is_due now rows o h));
  due = ground (arith, next_due-is_due now rows o h);
  first =
      All-map_imp (λ r. is_due now r ≡ true → goes_before r o ≡ false) _
        (λ r k p d. not_before r o (k (is_due_of now r p d))) rows
        (next_due-NoneBefore now rows o h);
}

pub next_due-IsIdle :
    (now : ℕ) (rows : List PushOutbox) → next_due now rows ≡ none → IsIdle now rows
next_due-IsIdle now rows h =
    All-map_imp (λ r. is_due now r ≡ false) _ (λ r k p. ground (arith, k, ap is_pending p)) rows
      (next_due-none now rows h)
