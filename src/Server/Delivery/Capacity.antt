-- ===== src/Server/Delivery/Capacity.antt =====
-- The limit on the live activities of a device.
use run_buoy.Prelude.{
  ℕ, ◌+◌, ◌≤◌, ◌<◌, ◌≡◌, Bool, true, false, not, ◌&&◌, Option, List, ◌++◌, [], ◌∷◌, ◌==◌, ltb,
  if◌then◌else◌, arith, Bool-cases, inl, inr, subst, eq_of_==,
}
use run_buoy.Prelude.Table.{count_where, count-append, count-update-le}
use run_buoy.Prelude.Exec.{ok, pure, ◌>>=◌, on_option}
use run_buoy.Prelude.Exec.Keeps.{
  Keeps, Leads, Keeps-gets, Keeps-on_option, Keeps-modify, Keeps-if, Keeps-pure, Keeps-bind,
  Leads-before, Leads-after, Leads-if, Leads-on_option, Leads-raise, at_ok,
}
use run_buoy.Server.Enums.{BindingState, is_live_start, is_live_end, is_device}
use run_buoy.Server.Rows.{Binding, Device, PushOutbox}
use run_buoy.Server.Payload.{ApnsResult, accepted, retryable}
use run_buoy.Server.Database.{Database, Settings, Handler, new_id}
use run_buoy.Server.Delivery.{
  is_live_on, has_live_activity_capacity, update_item, update_binding, update_device, start_binding,
  after_accepted, after_invalid_token, after_refusal, record_result, is_overdue, expire_item,
  deliver_item, try_item, process_item, process_one, token_for,
}
use run_buoy.Server.Outcome.{started_binding, end_binding, invalidate_binding}
use run_buoy.Server.Apns.{ApnsRequest, invalid_token}

-- No device has more live activities than the limit.
pub record IsWithin (limit : ℕ) (bindings : List Binding) : Type 0 where
  pub at_device : (device_id : ℕ) → count_where (is_live_on device_id) bindings ≤ limit

single-le : (d : ℕ) (b : Binding) → count_where (is_live_on d) (b ∷ []) ≤ 1
single-le d b = ground arith

single_other :
    (d : ℕ) (b : Binding) → (b.device_id == d) ≡ false → count_where (is_live_on d) (b ∷ []) ≡ 0
single_other d b h = ground arith

IsWithin-insert :
    (limit : ℕ) (xs : List Binding) (b : Binding)
    → IsWithin limit xs
    → count_where (is_live_on b.device_id) xs < limit
    → IsWithin limit (xs ++ b ∷ [])
IsWithin-insert limit xs b h room = record {
  at_device = λ d. elim (Bool-cases (b.device_id == d)) [
    | inl own ↦ omega (
      arith,
      count-append (is_live_on d) xs (b ∷ []),
      single-le d b,
      subst (λ n. count_where (is_live_on n) xs < limit) (eq_of_== b.device_id d own) room,
    )
    | inr other ↦
        omega
          (arith, count-append (is_live_on d) xs (b ∷ []), single_other d b other, h.at_device d)
  ];
}

module _ (limit : ℕ) where
  abbrev Within : Database → Type 0
  Within db = IsWithin limit db.bindings

  -- A change that makes no binding live keeps the limit.
  Within-update :
      (id : ℕ) (f : Binding → Binding)
      → ((device_id : ℕ) (b : Binding)
          → is_live_on device_id (f b) ≡ true
          → is_live_on device_id b ≡ true)
      → Keeps Within (update_binding id f)
  unfolding update_binding
  Within-update id f calm = Keeps-modify _ λ s h. record {
    at_device = λ d. omega (
      arith,
      h.at_device d,
      count-update-le (is_live_on d) (λ (b : Binding). b.id == id) f s.bindings
          (λ b _ k. calm d b k),
    );
  }

  end-Within : (id now : ℕ) → Keeps Within (update_binding id (end_binding BindingState.ended now))
  unfolding end_binding
  end-Within id now = Within-update id _ λ d b k. ground arith

  expire-Within :
      (id now : ℕ) → Keeps Within (update_binding id (end_binding BindingState.expired now))
  unfolding end_binding
  expire-Within id now = Within-update id _ λ d b k. ground arith

  invalidate-Within : (id now : ℕ) → Keeps Within (update_binding id (invalidate_binding now))
  unfolding invalidate_binding
  invalidate-Within id now = Within-update id _ λ d b k. ground arith

  -- The limit, with room for the binding that an item may start.
  abbrev Room : PushOutbox → Database → Type 0
  Room item db =
      Within db
      × (is_live_start item.kind ≡ true
          → count_where (is_live_on item.target_id) db.bindings < limit)

  start-Within :
      (item : PushOutbox) (now run_id : ℕ)
      → is_live_start item.kind ≡ true
      → Leads (Room item) (start_binding item now run_id) Within
  unfolding start_binding new_id ◌>>=◌ started_binding
  start-Within item now run_id start = record {
    at = λ s h.
        IsWithin-insert limit s.bindings (started_binding item run_id now s.next_id) h.0
          (h.1 start);
  }

  -- What does not touch the bindings keeps what is said of them.
  item-Keeps :
      (Q : List Binding → Type 0) (item : PushOutbox) (f : PushOutbox → PushOutbox)
      → Keeps (λ (db : Database). Q db.bindings) (update_item item f)
  unfolding update_item
  item-Keeps Q item f = Keeps-modify _ λ s h. h

  device-Keeps :
      (Q : List Binding → Type 0) (id : ℕ) (f : Device → Device)
      → Keeps (λ (db : Database). Q db.bindings) (update_device id f)
  unfolding update_device
  device-Keeps Q id f = Keeps-modify _ λ s h. h

  id-Keeps : (Q : List Binding → Type 0) → Keeps (λ (db : Database). Q db.bindings) new_id
  unfolding new_id
  id-Keeps Q = record { at = λ s h. h }

  module _ (item : PushOutbox) where
    abbrev RoomIn : List Binding → Type 0
    RoomIn bindings =
        IsWithin limit bindings
        × (is_live_start item.kind ≡ true
            → count_where (is_live_on item.target_id) bindings < limit)

    forget-Room : {A : Type 0} {m : Handler A} → Keeps Within m → Leads (Room item) m Within
    forget-Room k = record { at = λ s h. k.at s h.0 }

    started-Within :
        (now : ℕ)
        → Leads
            (Room item)
            (if is_live_start item.kind
              then on_option item.run_id (pure tt) (start_binding item now)
              else pure tt)
            Within
    started-Within now =
        Leads-if (is_live_start item.kind) _ _
          (λ start.
            Leads-on_option item.run_id _ _ (λ _. forget-Room (Keeps-pure tt))
              (λ run_id _. start-Within item now run_id start))
          (λ _. forget-Room (Keeps-pure tt))

    accepted-Within : (now : ℕ) → Leads (Room item) (after_accepted item now) Within
    unfolding after_accepted
    accepted-Within now = Leads-after _ _ (item-Keeps RoomIn item _) λ _.
        Leads-before _ _ (started-Within now) λ _.
          Keeps-if (is_live_end item.kind) _ _ (λ _. end-Within item.target_id now)
            (λ _. Keeps-pure tt)

    invalid-Within :
        (result : ApnsResult) (now : ℕ) → Keeps Within (after_invalid_token item result now)
    unfolding after_invalid_token
    invalid-Within result now = Keeps-bind _ _ (item-Keeps (IsWithin limit) item _) λ _.
        Keeps-if (is_device item.target_type) _ _
          (λ _. device-Keeps (IsWithin limit) item.target_id _)
          (λ _. invalidate-Within item.target_id now)

    refusal-Within :
        (settings : Settings) (result : ApnsResult) (now : ℕ)
        → Keeps Within (after_refusal settings item result now)
    unfolding after_refusal
    refusal-Within settings result now =
        Keeps-if (retryable result && ltb (item.attempt_count + 1) settings.outbox_max_attempts) _ _
          (λ _. item-Keeps (IsWithin limit) item _) (λ _. item-Keeps (IsWithin limit) item _)

    recorded-Within :
        (settings : Settings) (result : ApnsResult) (latency now : ℕ)
        → Leads (Room item) (record_result settings item result latency now) Within
    unfolding record_result
    recorded-Within settings result latency now = Leads-after _ _ (id-Keeps RoomIn) λ id.
        Leads-after _ _ (Keeps-modify _ (λ s h. h)) λ _.
          Leads-if (accepted result) _ _ (λ _. accepted-Within now)
            (λ _. forget-Room (
              Keeps-if (invalid_token result) _ _ (λ _. invalid-Within result now)
                (λ _. refusal-Within settings result now)))

    expired-Within : (now : ℕ) → Keeps Within (expire_item item now)
    unfolding expire_item
    expired-Within now = Keeps-bind _ _ (item-Keeps (IsWithin limit) item _) λ _.
        Keeps-if (is_live_end item.kind && not (is_device item.target_type)) _ _
          (λ _. expire-Within item.target_id now) (λ _. Keeps-pure tt)

module _ (settings : Settings) (decrypt : ℕ → Option ℕ) (send : ApnsRequest → ApnsResult × ℕ)
    (now : ℕ) where
  abbrev limit_of : ℕ
  limit_of = settings.live_activity_max_per_device

  delivered-Within :
      (item : PushOutbox) (encrypted : ℕ)
      → Leads
          (Room limit_of item)
          (deliver_item settings decrypt send item now encrypted)
          (Within limit_of)
  unfolding deliver_item
  delivered-Within item encrypted =
      Leads-on_option (decrypt encrypted) _ _ (λ _. Leads-raise _)
        (λ token _. recorded-Within limit_of item settings _ _ now)

  tried-Within :
      (item : PushOutbox) (encrypted : Option ℕ)
      → Leads
          (Room limit_of item)
          (try_item settings decrypt send item now true encrypted)
          (Within limit_of)
  unfolding try_item
  tried-Within item encrypted =
      Leads-on_option encrypted _ _
        (λ _. forget-Room limit_of item (item-Keeps limit_of (IsWithin limit_of) item _))
        (λ token _. delivered-Within item token)

  Room-of_capacity :
      (item : PushOutbox) (s : Database)
      → has_live_activity_capacity settings s item ≡ true
      → Within limit_of s
      → Room limit_of item s
  unfolding has_live_activity_capacity
  Room-of_capacity item s h w = (w, λ start. ground arith)

  suppressed-Within :
      (item : PushOutbox) (encrypted : Option ℕ)
      → Keeps (Within limit_of) (try_item settings decrypt send item now false encrypted)
  unfolding try_item
  suppressed-Within item encrypted = item-Keeps limit_of (IsWithin limit_of) item _

  item-Within :
      (item : PushOutbox) → Keeps (Within limit_of) (process_item settings decrypt send item now)
  unfolding process_item ◌>>=◌
  item-Within item = record {
    at = λ s h. elim (Bool-cases (is_overdue item now)) [
      | inl over ↦ rw over ((expired-Within limit_of item now).at s h)
      | inr fresh ↦ elim (Bool-cases (has_live_activity_capacity settings s item)) [
        | inl capacity ↦
            rw (fresh, capacity)
              ((tried-Within item (token_for s item)).at s (Room-of_capacity item s capacity h))
        | inr full ↦ rw (fresh, full) ((suppressed-Within item (token_for s item)).at s h)
      ]
    ];
  }

  one-Within : Keeps (Within limit_of) (process_one settings decrypt send now)
  unfolding process_one
  one-Within = Keeps-bind _ _ (Keeps-gets _) λ item.
      Keeps-on_option item _ _ (λ _. Keeps-pure false)
        (λ o _. Keeps-bind _ _ (item-Within o) λ _. Keeps-pure true)

-- A round of the worker never lets a device have more live activities than the limit, if none has
-- more before.
pub process_one-IsWithin :
    (settings : Settings) (decrypt : ℕ → Option ℕ) (send : ApnsRequest → ApnsResult × ℕ) (now : ℕ)
    (s : Database) {b : Bool} {t : Database}
    → IsWithin settings.live_activity_max_per_device s.bindings
    → process_one settings decrypt send now s ≡ ok (b, t)
    → IsWithin settings.live_activity_max_per_device t.bindings
process_one-IsWithin settings decrypt send now s {b} {t} h k =
    at_ok _ (one-Within settings decrypt send now) s {a = b} {t = t} h k
