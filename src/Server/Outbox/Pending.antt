-- ===== src/Server/Outbox/Pending.antt =====
-- The outbox has at most one pending row for each coalesce key, and what coalescing leaves there.
use run_buoy.Prelude.{
  ℕ, ◌+◌, ◌≤◌, ◌≡◌, refl, sym, ◌∙◌, Bool, true, false, none, some, List, [], ◌∷◌, ◌++◌, arith, ◌==◌,
  ◌⊎◌, not, ap, All-map_imp, map, Option-cases, Bool-cases, inl, inr, ==-refl,
}
use run_buoy.Prelude.Table.{
  find_where, update_where, count_where, select_where, count-append, count_of_find_none,
  count-update-le, find-insert-none, find-update_some,
}
use run_buoy.Prelude.Where.{select-update, select-insert}
use run_buoy.Prelude.Keys.{IsDistinct, found_only}
use run_buoy.Prelude.Exec.{ok, ◌>>=◌, on_option}
use run_buoy.Prelude.Exec.Keeps.{Keeps, Leaves}
use run_buoy.Server.Rows.{CoalesceKey, PushOutbox, key_eq}
use run_buoy.Server.Outbox.{
  PushRequest, is_pending_for, signal_outbox_worker, signalled, merge_request, new_outbox,
  coalesce_outbox,
}
use run_buoy.Server.Database.{Database, new_id}

pub record OnePending (rows : List PushOutbox) : Type 0 where
  pub at_key : (key : CoalesceKey) → count_where (is_pending_for key) rows ≤ 1

pub key_eq_sound : (a b : CoalesceKey) → key_eq a b ≡ true → a ≡ b
key_eq_sound a b h = ground arith

pub key_eq_refl : (a : CoalesceKey) → key_eq a a ≡ true
key_eq_refl a = ground arith

-- An update that keeps the key of a row and makes no row pending keeps the invariant.
pub OnePending-update :
    (p : PushOutbox → Bool) (f : PushOutbox → PushOutbox) (rows : List PushOutbox)
    → ((key : CoalesceKey) (o : PushOutbox)
        → p o ≡ true
        → is_pending_for key (f o) ≡ true
        → is_pending_for key o ≡ true)
    → OnePending rows
    → OnePending (update_where p f rows)
OnePending-update p f rows calm h = record {
  at_key =
      λ key. omega (arith, h.at_key key, count-update-le (is_pending_for key) p f rows (calm key));
}

OnePending-insert :
    (rows : List PushOutbox) (r : PushRequest) (now id : ℕ)
    → find_where (is_pending_for r.coalesce_key) rows ≡ none
    → OnePending rows
    → OnePending (rows ++ new_outbox r now id ∷ [])
unfolding new_outbox
OnePending-insert rows r now id absent h = record {
  at_key = λ key.
      omega (arith, count-append (is_pending_for key) rows (new_outbox r now id ∷ []), bound key);
}
  where
    bound :
        (key : CoalesceKey)
        → count_where (is_pending_for key) rows
            + count_where (is_pending_for key) (new_outbox r now id ∷ [])
          ≤ 1
    bound key = elim (Bool-cases (key_eq r.coalesce_key key)) [
      | inl same ↦
          let none_yet = count_of_find_none (is_pending_for r.coalesce_key) rows absent in
          rw (← key_eq_sound r.coalesce_key key same)
            (ground (arith, none_yet, key_eq_refl r.coalesce_key))
      | inr other ↦ ground (arith, h.at_key key)
    ]

merge-pending :
    (r : PushRequest) (now : ℕ) (key : CoalesceKey) (o : PushOutbox)
    → is_pending_for key (merge_request r now o) ≡ is_pending_for key o
unfolding merge_request
merge-pending r now key o = refl

outbox-signalled : (db : Database) → (signalled db).outbox ≡ db.outbox
unfolding signalled
outbox-signalled db = ground arith

-- What `coalesce_outbox` answers and leaves in the table, on its two branches.
coalesce_outbox-cases :
    (r : PushRequest) (now : ℕ) (s : Database)
    → ((find_where (is_pending_for r.coalesce_key) s.outbox ≡ none)
        × ((t : Database) × (coalesce_outbox r now s ≡ ok (new_outbox r now s.next_id, t))
            × (t.outbox ≡ s.outbox ++ new_outbox r now s.next_id ∷ [])))
      ⊎ ((o : PushOutbox) × (find_where (is_pending_for r.coalesce_key) s.outbox ≡ some o)
          × (t : Database) × (coalesce_outbox r now s ≡ ok (merge_request r now o, t))
          × (t.outbox ≡ update_where (λ p. p.id == o.id) (merge_request r now) s.outbox))
unfolding coalesce_outbox ◌>>=◌ on_option signal_outbox_worker new_id
coalesce_outbox-cases r now s =
    elim (Option-cases (find_where (is_pending_for r.coalesce_key) s.outbox)) [
      | inl absent ↦
          let added : Database = record s {
            next_id = s.next_id + 1;
            outbox = s.outbox ++ new_outbox r now s.next_id ∷ [];
          } in
          inl (absent, (signalled added, rw absent, outbox-signalled added))
      | inr (o, found) ↦
          let merged : Database = record s {
            outbox = update_where (λ p. p.id == o.id) (merge_request r now) s.outbox;
          } in
          inr (o, found, signalled merged, rw found, outbox-signalled merged)
    ]

-- Coalescing keeps one pending row for each key.
pub coalesce_outbox-OnePending :
    (r : PushRequest) (now : ℕ) → Keeps (λ db. OnePending db.outbox) (coalesce_outbox r now)
coalesce_outbox-OnePending r now = record { at = kept }
  where
    kept :
        (s : Database)
        → OnePending s.outbox
        → Leaves (λ (db : Database). OnePending db.outbox) (coalesce_outbox r now s)
    kept s h = elim (coalesce_outbox-cases r now s) [
      | inl (absent, (t, e, rows)) ↦
          rw e (rw rows (OnePending-insert s.outbox r now s.next_id absent h))
      | inr (o, found, t, e, rows) ↦ rw e (
          rw rows (
            OnePending-update _ (merge_request r now) s.outbox
              (λ key p _ k. sym (merge-pending r now key p) ∙ k) h))
    ]

new_outbox-pending :
    (r : PushRequest) (now id : ℕ) → is_pending_for r.coalesce_key (new_outbox r now id) ≡ true
unfolding new_outbox
new_outbox-pending r now id = rw key_eq_refl

abbrev not_pending : CoalesceKey → PushOutbox → Bool
not_pending key o = not (is_pending_for key o)

others-insert :
    (rows : List PushOutbox) (r : PushRequest) (now id : ℕ)
    → select_where (not_pending r.coalesce_key) (rows ++ new_outbox r now id ∷ [])
      ≡ select_where (not_pending r.coalesce_key) rows
others-insert rows r now id =
    select-insert (not_pending r.coalesce_key) rows (new_outbox r now id)
      (rw (new_outbox-pending r now id) refl)

others-merge :
    (rows : List PushOutbox) (r : PushRequest) (now : ℕ) (o : PushOutbox)
    → IsDistinct (map (λ (x : PushOutbox). x.id) rows)
    → find_where (is_pending_for r.coalesce_key) rows ≡ some o
    → select_where
        (not_pending r.coalesce_key)
        (update_where (λ p. p.id == o.id) (merge_request r now) rows)
      ≡ select_where (not_pending r.coalesce_key) rows
others-merge rows r now o d h =
    select-update (not_pending r.coalesce_key) (λ p. p.id == o.id) (merge_request r now) rows
      (All-map_imp (λ x. (x.id == o.id) ≡ true → is_pending_for r.coalesce_key x ≡ true)
        (λ x.
          (x.id == o.id) ≡ true
          → (not_pending r.coalesce_key x ≡ false)
            × (not_pending r.coalesce_key (merge_request r now x) ≡ false))
        (λ x k e. (ap not (k e), ap not (merge-pending r now r.coalesce_key x ∙ k e))) rows
        (found_only (λ x. x.id) (is_pending_for r.coalesce_key) rows o d h))

merge-found :
    (rows : List PushOutbox) (r : PushRequest) (now : ℕ) (o : PushOutbox)
    → find_where (is_pending_for r.coalesce_key) rows ≡ some o
    → find_where
        (is_pending_for r.coalesce_key)
        (update_where (λ p. p.id == o.id) (merge_request r now) rows)
      ≡ some (merge_request r now o)
merge-found rows r now o found =
    find-update_some (is_pending_for r.coalesce_key) (λ p. p.id == o.id) (merge_request r now) rows
      o (λ p _. merge-pending r now r.coalesce_key p) found
    ∙ rw ==-refl refl

-- What coalescing promises for its request.
pub record Coalesced (r : PushRequest) (s : Database) (o : PushOutbox) (t : Database) : Type 0 where
  pub pending : find_where (is_pending_for r.coalesce_key) t.outbox ≡ some o
  pub single : count_where (is_pending_for r.coalesce_key) t.outbox ≡ 1
  pub kind : o.kind ≡ r.kind
  pub payload : o.desired_payload ≡ r.payload
  pub priority : r.priority ≤ o.priority
  pub available : o.available_at ≤ r.available_at
  pub others :
      select_where (λ x. not (is_pending_for r.coalesce_key x)) t.outbox
      ≡ select_where (λ x. not (is_pending_for r.coalesce_key x)) s.outbox

count_of_find :
    (p : PushOutbox → Bool) (rows : List PushOutbox) (o : PushOutbox)
    → find_where p rows ≡ some o
    → 1 ≤ count_where p rows
count_of_find p [] o h = cc
count_of_find p (x ∷ xs) o h = elim (Bool-cases (p x)) [
  | inl e ↦ rw e (omega arith)
  | inr e ↦ rw e (omega (arith, count_of_find p xs o (ground (arith, h, e))))
]

single_of :
    (key : CoalesceKey) (rows : List PushOutbox) (o : PushOutbox)
    → OnePending rows
    → find_where (is_pending_for key) rows ≡ some o
    → count_where (is_pending_for key) rows ≡ 1
single_of key rows o one h =
    omega (arith, one.at_key key, count_of_find (is_pending_for key) rows o h)

-- If the outbox has at most one pending row for each key and its identifiers differ, coalescing
-- returns; afterwards exactly one row is pending for the key of the request, the one that it returned,
-- with the request's kind and payload, at least its priority, and due no later than it asks; and all
-- rows that are not pending for this key are as before, in their order.
pub coalesce_outbox-Coalesced :
    (r : PushRequest) (now : ℕ) (s : Database)
    → OnePending s.outbox
    → IsDistinct (map (λ (x : PushOutbox). x.id) s.outbox)
    → (o : PushOutbox) × (t : Database) × (coalesce_outbox r now s ≡ ok (o, t)) × Coalesced r s o t
coalesce_outbox-Coalesced r now s one distinct = elim (coalesce_outbox-cases r now s) [
  | inl (absent, (t, e, rows)) ↦
      let found : find_where (is_pending_for r.coalesce_key) t.outbox
          ≡ some (new_outbox r now s.next_id) =
        rw rows (
          find-insert-none (is_pending_for r.coalesce_key) s.outbox (new_outbox r now s.next_id)
            absent (new_outbox-pending r now s.next_id)) in
      let kept : OnePending t.outbox =
        rw rows (OnePending-insert s.outbox r now s.next_id absent one) in
      (
        new_outbox r now s.next_id,
        t,
        e,
        unfold new_outbox in
            record {
              pending = found;
              single = single_of r.coalesce_key t.outbox (new_outbox r now s.next_id) kept found;
              kind = refl;
              payload = refl;
              priority = omega arith;
              available = omega arith;
              others = rw rows (others-insert s.outbox r now s.next_id);
            },
      )
  | inr (o, found, t, e, rows) ↦
      let merged : find_where (is_pending_for r.coalesce_key) t.outbox
          ≡ some (merge_request r now o) =
        rw rows (merge-found s.outbox r now o found) in
      let kept : OnePending t.outbox = rw rows (
        OnePending-update _ (merge_request r now) s.outbox
          (λ key p _ k. sym (merge-pending r now key p) ∙ k) one) in
      (
        merge_request r now o,
        t,
        e,
        unfold merge_request in
            record {
              pending = merged;
              single = single_of r.coalesce_key t.outbox (merge_request r now o) kept merged;
              kind = refl;
              payload = refl;
              priority = omega arith;
              available = omega arith;
              others = rw rows (others-merge s.outbox r now o distinct found);
            },
      )
]
