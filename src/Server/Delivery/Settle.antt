-- ===== src/Server/Delivery/Settle.antt =====
-- What the processing of one row does to the outbox.
use run_buoy.Prelude.{
  ℕ, suc, ◌+◌, ◌&&◌, ◌-◌, ◌<◌, ◌≡◌, refl, ap, Bool, true, false, Option, List, arith, ◌==◌,
  if◌then◌else◌, ltb,
}
use run_buoy.Prelude.Table.{update_where}
use run_buoy.Prelude.Exec.{Exec, ◌>>=◌}
use run_buoy.Prelude.Exec.Keeps.{
  Keeps, Leads, Keeps-gets, Keeps-bind, Leads-before, Leads-after, Leads-if, Leads-on_option,
  Leads-raise, keeps_rules, leads_rules,
}
use run_buoy.Server.Enums.{OutboxStatus, is_pending}
use run_buoy.Server.Rows.{Device, Binding, PushError, payload_expired, PushOutbox}
use run_buoy.Server.Payload.{ApnsResult, retryable}
use run_buoy.Server.Database.{Database, Settings, Error, new_id}
use run_buoy.Server.Delivery.{
  update_item, update_binding, update_device, after_accepted, after_invalid_token, after_refusal,
  record_result, expire_item, start_binding, try_item, is_overdue, deliver_item, process_item,
}
use run_buoy.Server.Outcome.{settle, counted, mark_sent, mark_failed, mark_retry}
use run_buoy.Server.Apns.{ApnsRequest, error_of}

-- How often a row may still be tried: a pending row counts one more than its attempts left.
abbrev pub weight : ℕ → PushOutbox → ℕ
weight limit o = if is_pending o.status then suc (limit - o.attempt_count) else 0

-- `f` settles the row `o`: keys stay, and the row has fewer tries left.
pub record Settles (limit : ℕ) (o : PushOutbox) (f : PushOutbox → PushOutbox) : Type 0 where
  pub same_id : (x : PushOutbox) → (f x).id ≡ x.id
  pub same_key : (x : PushOutbox) → (f x).coalesce_key ≡ x.coalesce_key
  pub lighter : is_pending o.status ≡ true → weight limit (f o) < weight limit o

pub record Settled (limit : ℕ) (o : PushOutbox) (rows rows' : List PushOutbox) : Type 0 where
  pub change : PushOutbox → PushOutbox
  pub settles : Settles limit o change
  pub outbox : rows' ≡ update_where (λ x. x.id == o.id) change rows

-- `m` settles the row `o`.
abbrev pub DoesSettle : {A : Type 0} → ℕ → PushOutbox → Exec Error Database A → Type 0
DoesSettle limit o m =
    (rows : List PushOutbox)
    → Leads (λ (s : Database). s.outbox ≡ rows) m (λ t. Settled limit o rows t.outbox)

settle-Settles :
    (limit : ℕ) (o : PushOutbox) (status : OutboxStatus) (e : PushError) (now : ℕ)
    → is_pending status ≡ false
    → Settles limit o (settle status e now)
unfolding settle
settle-Settles limit o status e now h = record {
  same_id = λ x. refl;
  same_key = λ x. refl;
  lighter = λ k. ground arith;
}

sent-Settles : (limit : ℕ) (o : PushOutbox) (now : ℕ) → Settles limit o (mark_sent now)
unfolding mark_sent counted
sent-Settles limit o now = record {
  same_id = λ x. refl;
  same_key = λ x. refl;
  lighter = λ k. ground arith;
}

failed-Settles :
    (limit : ℕ) (o : PushOutbox) (e : PushError) (now : ℕ) → Settles limit o (mark_failed e now)
unfolding mark_failed counted settle
failed-Settles limit o e now = record {
  same_id = λ x. refl;
  same_key = λ x. refl;
  lighter = λ k. ground arith;
}

retry-Settles :
    (limit : ℕ) (o : PushOutbox) (e : PushError) (now : ℕ)
    → o.attempt_count + 1 < limit
    → Settles limit o (mark_retry e now)
unfolding mark_retry counted
retry-Settles limit o e now h = record {
  same_id = λ x. refl;
  same_key = λ x. refl;
  lighter = λ k. ground arith;
}

update_item-Settles :
    (limit : ℕ) (o : PushOutbox) (f : PushOutbox → PushOutbox)
    → Settles limit o f
    → DoesSettle limit o (update_item o f)
unfolding update_item ◌>>=◌
update_item-Settles limit o f h rows = record {
  at = λ s e. record {
    change = f;
    settles = h;
    outbox = ap (update_where (λ (x : PushOutbox). x.id == o.id) f) e;
  };
}

-- Updates of devices and bindings, and new rows elsewhere, leave the outbox alone.
module _ (P : List PushOutbox → Type 0) where
  update_binding-outbox :
      (id : ℕ) (f : Binding → Binding) → Keeps (λ (s : Database). P s.outbox) (update_binding id f)
  unfolding update_binding
  update_binding-outbox id f = search keeps_rules

  update_device-outbox :
      (id : ℕ) (f : Device → Device) → Keeps (λ (s : Database). P s.outbox) (update_device id f)
  unfolding update_device
  update_device-outbox id f = search keeps_rules

  new_id-outbox : Keeps (λ (s : Database). P s.outbox) new_id
  unfolding new_id
  new_id-outbox = record { at = λ s h. h }

  start_binding-outbox :
      (o : PushOutbox) (now run_id : ℕ)
      → Keeps (λ (s : Database). P s.outbox) (start_binding o now run_id)
  unfolding start_binding
  start_binding-outbox o now run_id = Keeps-bind _ _ new_id-outbox λ id. search keeps_rules

expire-settles : (limit : ℕ) (o : PushOutbox) (now : ℕ) → DoesSettle limit o (expire_item o now)
unfolding expire_item
expire-settles limit o now rows =
    Leads-before _ _
      (update_item-Settles limit o _
        (settle-Settles limit o OutboxStatus.expired payload_expired now refl) rows)
      λ _. search (keeps_rules, update_binding-outbox (Settled limit o rows))

accepted-settles :
    (limit : ℕ) (o : PushOutbox) (now : ℕ) → DoesSettle limit o (after_accepted o now)
unfolding after_accepted
accepted-settles limit o now rows =
    Leads-before _ _ (update_item-Settles limit o _ (sent-Settles limit o now) rows) λ _.
      search
        (
          keeps_rules,
          update_binding-outbox (Settled limit o rows),
          start_binding-outbox (Settled limit o rows),
        )
        depth 8

invalid-settles :
    (limit : ℕ) (o : PushOutbox) (r : ApnsResult) (now : ℕ)
    → DoesSettle limit o (after_invalid_token o r now)
unfolding after_invalid_token
invalid-settles limit o r now rows =
    Leads-before _ _ (update_item-Settles limit o _ (failed-Settles limit o _ now) rows) λ _.
      search (
        keeps_rules,
        update_binding-outbox (Settled limit o rows),
        update_device-outbox (Settled limit o rows),
      )

-- The test for another try, as the order that it decides.
may_retry : (r : ApnsResult) (n limit : ℕ) → (retryable r && ltb n limit) ≡ true → n < limit
may_retry r n limit h = ground arith

refusal-settles :
    (settings : Settings) (o : PushOutbox) (r : ApnsResult) (now : ℕ)
    → DoesSettle settings.outbox_max_attempts o (after_refusal settings o r now)
unfolding after_refusal
refusal-settles settings o r now rows =
    Leads-if (retryable r && ltb (o.attempt_count + 1) settings.outbox_max_attempts)
      (update_item o (mark_retry (error_of r) now)) (update_item o (mark_failed (error_of r) now))
      (λ h. update_item-Settles _ o _ (retry-Settles _ o _ now (may_retry r _ _ h)) rows)
      (λ _. update_item-Settles _ o _ (failed-Settles _ o _ now) rows)

result-settles :
    (settings : Settings) (o : PushOutbox) (r : ApnsResult) (latency now : ℕ)
    → DoesSettle settings.outbox_max_attempts o (record_result settings o r latency now)
unfolding record_result
result-settles settings o r latency now rows = Leads-after _ _ (new_id-outbox (λ x. x ≡ rows)) λ id.
    Leads-after _ _ (search keeps_rules)
      λ _. search (leads_rules, accepted-settles, invalid-settles, refusal-settles)

module _ (settings : Settings) (decrypt : ℕ → Option ℕ) (send : ApnsRequest → ApnsResult × ℕ) where
  deliver-settles :
      (o : PushOutbox) (now encrypted : ℕ)
      → DoesSettle settings.outbox_max_attempts o
          (deliver_item settings decrypt send o now encrypted)
  unfolding deliver_item
  deliver-settles o now encrypted rows =
      Leads-on_option _ _ _ (λ _. Leads-raise _) λ plain _. result-settles settings o _ _ now rows

  try-settles :
      (o : PushOutbox) (now : ℕ) (has_capacity : Bool) (encrypted : Option ℕ)
      → DoesSettle settings.outbox_max_attempts o
          (try_item settings decrypt send o now has_capacity encrypted)
  unfolding try_item
  try-settles o now true encrypted rows =
      Leads-on_option _ _ _ (λ _. update_item-Settles _ o _ (settle-Settles _ o _ _ now refl) rows)
        λ token _. deliver-settles o now token rows
  try-settles o now false encrypted rows =
      update_item-Settles _ o _ (settle-Settles _ o _ _ now refl) rows

  -- Every way through the processing of a row settles that row, and no other.
  pub process_item-settles :
      (o : PushOutbox) (now : ℕ)
      → DoesSettle settings.outbox_max_attempts o (process_item settings decrypt send o now)
  unfolding process_item
  process_item-settles o now rows = Leads-after _ _ (Keeps-gets _) λ has_capacity.
      Leads-after _ _ (Keeps-gets _) λ encrypted.
        Leads-if (is_overdue o now) (expire_item o now)
          (try_item settings decrypt send o now has_capacity encrypted)
          (λ _. expire-settles _ o now rows) (λ _. try-settles o now has_capacity encrypted rows)
