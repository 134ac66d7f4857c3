-- ===== src/Server/Delivery/Drain.antt =====
-- The worker makes progress: each row that it processes has fewer tries left, so draining ends.
use mathlib.Core.Path.{subst₂}
use run_buoy.Prelude.{
  ℕ, suc, zero, ◌+◌, ◌≤◌, ◌<◌, ◌≡◌, refl, sym, ap, subst, ◌∙◌, ◌⊎◌, inl, inr, Bool, true, false,
  not, Option, none, some, List, [], ◌∷◌, arith, All, ◌==◌, ==-refl, if◌then◌else◌, Option-cases,
}
use run_buoy.Prelude.Table.{update_where, count_where, select_where}
use run_buoy.Prelude.Exec.{
  Result, ok, err, attempt, attempted, continue, pure, ◌>>=◌, on_option, >>=-eq-ok,
}
use run_buoy.Prelude.Exec.Keeps.{Leaves, ok_of_IsOk}
use run_buoy.Server.Rows.{PushOutbox, CoalesceKey}
use run_buoy.Server.Payload.{ApnsResult}
use run_buoy.Server.Outbox.{is_pending_for}
use run_buoy.Server.Outbox.Pending.{OnePending}
use run_buoy.Server.Database.{Database, Settings, Error, token_undecryptable}
use run_buoy.Server.Delivery.{next_due, process_item, process_one, drain, DrainEnd, drained, raised}
use run_buoy.Server.Apns.{ApnsRequest}
use run_buoy.Server.Delivery.Choice.{
  Has, HasDistinctIds, NoneDue, next_due-Has, next_due-is_due, next_due-none, IsFirst, IsIdle,
  next_due-IsFirst, next_due-IsIdle,
}
use run_buoy.Server.Delivery.Round.{IsBlocked, process_item-outcome}
use run_buoy.Prelude.Where.{select-update, All-of_each}
use run_buoy.Server.Delivery.Settle.{weight, Settled, process_item-settles}

abbrev pub total : (PushOutbox → ℕ) → List PushOutbox → ℕ
total w [] = 0
total w (o ∷ os) = w o + total w os

-- All the tries that the outbox may still take.
abbrev pub work : ℕ → List PushOutbox → ℕ
work limit = total (weight limit)

count-eq-total :
    (p : PushOutbox → Bool) (rows : List PushOutbox)
    → count_where p rows ≡ total (λ o. if p o then 1 else 0) rows
count-eq-total p [] = refl
count-eq-total p (o ∷ os) = omega (arith, count-eq-total p os)

abbrev changed : PushOutbox → (PushOutbox → PushOutbox) → List PushOutbox → List PushOutbox
changed o f = update_where (λ (x : PushOutbox). x.id == o.id) f

changed-other :
    (o : PushOutbox) (f : PushOutbox → PushOutbox) (rows : List PushOutbox)
    → All (λ x. (x.id == o.id) ≡ false) rows
    → changed o f rows ≡ rows
changed-other o f [] h = refl
changed-other o f (x ∷ rows) h = rw (h.0, changed-other o f rows h.1)

All-Has :
    (P : PushOutbox → Type 0) (o : PushOutbox) (rows : List PushOutbox)
    → All P rows
    → Has o rows
    → P o
All-Has P o [] h k = absurd k
All-Has P o (x ∷ rows) h (inl e) = subst P (sym e) h.0
All-Has P o (x ∷ rows) h (inr k) = All-Has P o rows h.1 k

-- Among rows of different keys, an update by key changes the one row.
total-changed :
    (w : PushOutbox → ℕ) (o : PushOutbox) (f : PushOutbox → PushOutbox) (rows : List PushOutbox)
    → HasDistinctIds rows
    → Has o rows
    → total w (changed o f rows) + w o ≡ total w rows + w (f o)
total-changed w o f [] d k = absurd k
total-changed w o f (x ∷ rows) d (inl e) =
    subst (λ y. total w (changed o f (y ∷ rows)) + w o ≡ total w (y ∷ rows) + w (f o)) e
      (rw (==-refl o.id) (
        rw
          (changed-other o f rows (
            subst (λ (y : PushOutbox). All (λ (z : PushOutbox). (z.id == y.id) ≡ false) rows)
              (sym e) d.0))
          (omega arith)))
total-changed w o f (x ∷ rows) d (inr k) =
    let ne : (x.id == o.id) ≡ false =
      ground (arith, All-Has (λ z. (z.id == x.id) ≡ false) o rows d.0 k) in
    rw ne (omega (arith, total-changed w o f rows d.1 k))

module _ (o : PushOutbox) (f : PushOutbox → PushOutbox)
    (same : (x : PushOutbox) → (f x).id ≡ x.id) where
  All-changed :
      (i : ℕ) (rows : List PushOutbox)
      → All (λ z. (z.id == i) ≡ false) rows
      → All (λ z. (z.id == i) ≡ false) (changed o f rows)
  All-changed i [] h = tt
  All-changed i (x ∷ rows) h = (ground (arith, same x, h.0), All-changed i rows h.1)

  HasDistinctIds-changed :
      (rows : List PushOutbox) → HasDistinctIds rows → HasDistinctIds (changed o f rows)
  HasDistinctIds-changed [] d = tt
  HasDistinctIds-changed (x ∷ rows) d =
      let kept : (if x.id == o.id then f x else x).id ≡ x.id = ground (arith, same x) in
      (
        subst (λ (i : ℕ). All (λ (z : PushOutbox). (z.id == i) ≡ false) (changed o f rows))
            (sym kept) (All-changed x.id rows d.0),
        HasDistinctIds-changed rows d.1,
      )

module _ (settings : Settings) (decrypt : ℕ → Option ℕ) where
  -- One round: nothing was due, or a due row was settled.
  process_one-cases :
      (send : ApnsRequest → ApnsResult × ℕ) (now : ℕ) (s : Database) {b : Bool} {t : Database}
      → process_one settings decrypt send now s ≡ ok (b, t)
      → ((b ≡ false) × (t ≡ s) × (next_due now s.outbox ≡ none))
        ⊎ ((b ≡ true)
            × ((o : PushOutbox) × (next_due now s.outbox ≡ some o)
                × Settled settings.outbox_max_attempts o s.outbox t.outbox))
  unfolding process_one ◌>>=◌ on_option
  process_one-cases send now s {b} {t} h = elim (Option-cases (next_due now s.outbox)) [
    | inl idle ↦ let k = rw idle at h in inl (ground arith, ground arith, idle)
    | inr (o, found) ↦
        let (u, v, first, last) =
          >>=-eq-ok (process_item settings decrypt send o now) (λ _. pure true) s {r = (b, t)}
            (rw found at h) in
        let same : v ≡ t = ground arith in
        let settled : Settled settings.outbox_max_attempts o s.outbox v.outbox =
          subst
            (Leaves (λ (w : Database). Settled settings.outbox_max_attempts o s.outbox w.outbox))
            first ((process_item-settles settings decrypt send o now s.outbox).at s refl) in
        inr (
          ground arith,
          (
            o,
            found,
            subst (λ (w : Database). Settled settings.outbox_max_attempts o s.outbox w.outbox) same
                settled,
          ),
        )
  ]

-- The invariants of the outbox that the worker relies on.
pub record IsSound (rows : List PushOutbox) : Type 0 where
  pub distinct : HasDistinctIds rows
  pub single : OnePending rows

abbrev pending_count : CoalesceKey → PushOutbox → ℕ
pending_count key o = if is_pending_for key o then 1 else 0

Settled-OnePending :
    (limit now : ℕ) (o : PushOutbox) (rows rows' : List PushOutbox)
    → next_due now rows ≡ some o
    → Settled limit o rows rows'
    → IsSound rows
    → OnePending rows'
Settled-OnePending limit now o rows rows' due settled sound = record { at_key = bound }
  where
    fewer : (key : CoalesceKey) → pending_count key (settled.change o) ≤ pending_count key o
    fewer key = ground (arith, next_due-is_due now rows o due, settled.settles.same_key o)

    bound : (key : CoalesceKey) → count_where (is_pending_for key) rows' ≤ 1
    bound key = rw settled.outbox (
        omega (
          arith,
          fewer key,
          sound.single.at_key key,
          count-eq-total (is_pending_for key) rows,
          count-eq-total (is_pending_for key) (changed o settled.change rows),
          total-changed (pending_count key) o settled.change rows sound.distinct
              (next_due-Has now rows o due),
        ))

Settled-work :
    (limit now : ℕ) (o : PushOutbox) (rows rows' : List PushOutbox)
    → next_due now rows ≡ some o
    → Settled limit o rows rows'
    → HasDistinctIds rows
    → work limit rows' < work limit rows
Settled-work limit now o rows rows' due settled d = rw settled.outbox (
    omega (
      arith,
      settled.settles.lighter (ground (arith, next_due-is_due now rows o due)),
      total-changed (weight limit) o settled.change rows d (next_due-Has now rows o due),
    ))

Settled-IsSound :
    (limit now : ℕ) (o : PushOutbox) (rows rows' : List PushOutbox)
    → next_due now rows ≡ some o
    → Settled limit o rows rows'
    → IsSound rows
    → IsSound rows'
Settled-IsSound limit now o rows rows' due settled sound = record {
  distinct =
      rw settled.outbox
        (HasDistinctIds-changed o settled.change settled.settles.same_id rows sound.distinct);
  single = Settled-OnePending limit now o rows rows' due settled sound;
}

module _ (settings : Settings) (decrypt : ℕ → Option ℕ) where
  -- A round that returns.
  progress_of_ok :
      (send : ApnsRequest → ApnsResult × ℕ) (now : ℕ) (s : Database) {b : Bool} {t : Database}
      → IsSound s.outbox
      → process_one settings decrypt send now s ≡ ok (b, t)
      → IsSound t.outbox
        × (((b ≡ true)
              × (work settings.outbox_max_attempts t.outbox
                  < work settings.outbox_max_attempts s.outbox))
            ⊎ ((b ≡ false) × (t ≡ s) × NoneDue now s.outbox))
  progress_of_ok send now s sound h = elim (process_one-cases settings decrypt send now s h) [
    | inl (stop, same, idle) ↦ (rw same sound, inr (stop, same, next_due-none now s.outbox idle))
    | inr (went, (o, due, settled)) ↦ (
      Settled-IsSound settings.outbox_max_attempts now o s.outbox _ due settled sound,
      inl (
        went,
        Settled-work settings.outbox_max_attempts now o s.outbox _ due settled sound.distinct,
      ),
    )
  ]

  -- A round of the worker over a sound outbox, whatever the provider answers: it finds no row that is
  -- pending and due, and changes nothing; or it takes the first such row, by priority, due time and
  -- creation, and either returns, with the outbox sound and strictly fewer tries to make, or raises,
  -- and then the token stored for this row is one that the cipher cannot decrypt.
  pub process_one_progress :
      (send : ApnsRequest → ApnsResult × ℕ) (now : ℕ) (s : Database)
      → IsSound s.outbox
      → ((process_one settings decrypt send now s ≡ ok (false, s)) × IsIdle now s.outbox)
        ⊎ ((o : PushOutbox) × IsFirst now o s.outbox
            × (((t : Database) × (process_one settings decrypt send now s ≡ ok (true, t))
                  × IsSound t.outbox
                  × (work settings.outbox_max_attempts t.outbox
                      < work settings.outbox_max_attempts s.outbox))
                ⊎ ((process_one settings decrypt send now s ≡ err token_undecryptable)
                    × IsBlocked settings decrypt send s o)))
  unfolding process_one ◌>>=◌ on_option pure
  process_one_progress send now s sound = elim (Option-cases (next_due now s.outbox)) [
    | inl idle ↦ inl (rw idle refl, next_due-IsIdle now s.outbox idle)
    | inr (o, found) ↦
        let outcome = process_item-outcome settings decrypt send o now s in
        inr (
          o,
          next_due-IsFirst now s.outbox o found,
          elim outcome [
            | inr (blocked, e) ↦ inr (rw found (rw e refl), blocked)
            | inl fine ↦
                let ((u, t), e) = ok_of_IsOk (process_item settings decrypt send o now s) fine in
                let settled : Settled settings.outbox_max_attempts o s.outbox t.outbox =
                  subst
                    (Leaves
                      (λ (w : Database). Settled settings.outbox_max_attempts o s.outbox w.outbox))
                    e ((process_item-settles settings decrypt send o now s.outbox).at s refl) in
                inl (
                  t,
                  rw found (rw e refl),
                  Settled-IsSound settings.outbox_max_attempts now o s.outbox t.outbox found settled
                      sound,
                  Settled-work settings.outbox_max_attempts now o s.outbox t.outbox found settled
                      sound.distinct,
                )
          ],
        )
  ]

  -- A round of the worker that processes a row takes one that is pending and due, and no pending row
  -- that is due has a higher priority, or the same priority and an earlier due time, or the same of
  -- both and an earlier creation; and it leaves every other row of the outbox as it was, in order.
  pub process_one-IsFirst :
      (send : ApnsRequest → ApnsResult × ℕ) (now : ℕ) (s t : Database)
      → process_one settings decrypt send now s ≡ ok (true, t)
      → (o : PushOutbox) × IsFirst now o s.outbox
        × (select_where (λ x. not (x.id == o.id)) t.outbox
            ≡ select_where (λ x. not (x.id == o.id)) s.outbox)
  process_one-IsFirst send now s t h =
      elim (process_one-cases settings decrypt send now s {b = true} {t = t} h) [
        | inl (stop, _, _) ↦ absurd (ground (arith, stop))
        | inr (_, (o, due, settled)) ↦ (
          o,
          next_due-IsFirst now s.outbox o due,
          rw settled.outbox (
              select-update (λ x. not (x.id == o.id)) (λ x. x.id == o.id) settled.change s.outbox
                (All-of_each _ s.outbox
                  (λ x e. (ground (arith, e), ground (arith, e, settled.settles.same_id x))))),
        )
      ]

  -- The rest of a drain after a round.
  abbrev after_round :
      (ℕ → ApnsRequest → ApnsResult × ℕ)
      → (ℕ → ℕ)
      → ℕ
      → ℕ
      → Result Error (Bool × Database)
      → Database
      → Result Error (DrainEnd × Database)
  after_round send now limit n x s = continue (attempted x s) (λ round. elim round [
    | ok more ↦ if more then drain settings decrypt send now limit (n + 1) else pure (drained n)
    | err e ↦ pure (raised n e)
  ])

  -- What a drain that returns leaves behind.
  pub record Drained (now : ℕ → ℕ) (limit n : ℕ) (s : Database) (m : ℕ) (t : Database)
      : Type 0 where
    pub sound : IsSound t.outbox
    pub at_most : m ≤ n + limit
    pub paid :
        m + work settings.outbox_max_attempts t.outbox
        ≤ n + work settings.outbox_max_attempts s.outbox
    pub finished : m < n + limit → NoneDue (now m) t.outbox

  drain-round :
      (send : ℕ → ApnsRequest → ApnsResult × ℕ) (now : ℕ → ℕ) (limit n : ℕ) (s v : Database) {m : ℕ}
      {t : Database} (more : Bool)
      → IsSound v.outbox
      → ((more ≡ true)
          × (work settings.outbox_max_attempts v.outbox
              < work settings.outbox_max_attempts s.outbox))
        ⊎ ((more ≡ false) × (v ≡ s) × NoneDue (now n) s.outbox)
      → (if more then drain settings decrypt send now limit (n + 1) else pure (drained n)) v
        ≡ ok (drained m, t)
      → (drain settings decrypt send now limit (n + 1) v ≡ ok (drained m, t)
          → Drained now limit (n + 1) v m t)
      → Drained now (suc limit) n s m t
  unfolding ◌>>=◌
  drain-round send now limit n s v {m} {t} more kept (inl (went, less)) rest ih =
      let d = ih (rw went at rest) in
      record {
        sound = d.sound;
        at_most = omega (arith, d.at_most);
        paid = omega (arith, d.paid);
        finished = λ k. d.finished (omega arith);
      }
  drain-round send now limit n s v {m} {t} more kept (inr (stop, same, idle)) rest ih =
      stopped (rw stop at rest)
    where
      stopped : pure {E = Error} (drained n) v ≡ ok (drained m, t) → Drained now (suc limit) n s m t
      stopped k =
          let a : n ≡ m = ground arith in
          let b : v ≡ t = ground arith in
          record {
            sound = subst (λ (w : Database). IsSound w.outbox) b kept;
            at_most = omega arith;
            paid = omega (
              arith,
              ap (λ (w : Database). work settings.outbox_max_attempts w.outbox) (sym b ∙ same),
            );
            finished = λ _.
                subst₂ (λ (i : ℕ) (w : Database). NoneDue (now i) w.outbox) a (sym same ∙ b) idle;
          }

  after_round-Drained :
      (send : ℕ → ApnsRequest → ApnsResult × ℕ) (now : ℕ → ℕ) (limit n : ℕ) (s : Database)
      (x : Result Error (Bool × Database)) {m : ℕ} {t : Database}
      → IsSound s.outbox
      → process_one settings decrypt (send n) (now n) s ≡ x
      → after_round send now limit n x s ≡ ok (drained m, t)
      → ((v : Database)
          → IsSound v.outbox
          → drain settings decrypt send now limit (n + 1) v ≡ ok (drained m, t)
          → Drained now limit (n + 1) v m t)
      → Drained now (suc limit) n s m t
  unfolding pure
  after_round-Drained send now limit n s (ok (more, v)) {m} {t} sound e k ih =
      let (kept, outcome) = progress_of_ok (send n) (now n) s {b = more} {t = v} sound e in
      drain-round send now limit n s v {m = m} {t = t} more kept outcome k (ih v kept)
  after_round-Drained send now limit n s (err e') {m} {t} sound e k ih = cc

  pub drain-Drained :
      (send : ℕ → ApnsRequest → ApnsResult × ℕ) (now : ℕ → ℕ) (limit n : ℕ) (s : Database) {m : ℕ}
      {t : Database}
      → IsSound s.outbox
      → drain settings decrypt send now limit n s ≡ ok (drained m, t)
      → Drained now limit n s m t
  unfolding drain ◌>>=◌ attempt
  drain-Drained send now zero n s {m} {t} sound h =
      let a : n ≡ m = ground arith in
      let b : s ≡ t = ground arith in
      record {
        sound = subst (λ (w : Database). IsSound w.outbox) b sound;
        at_most = omega arith;
        paid = omega (arith, ap (λ (w : Database). work settings.outbox_max_attempts w.outbox) b);
        finished = λ k. absurd (omega arith);
      }
  drain-Drained send now (suc limit) n s {m} {t} sound h =
      after_round-Drained send now limit n s (process_one settings decrypt (send n) (now n) s)
        {m = m} {t = t} sound refl h
        (λ v kept k. drain-Drained send now limit (n + 1) v {m = m} {t = t} kept k)
