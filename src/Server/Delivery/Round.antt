-- ===== src/Server/Delivery/Round.antt =====
-- One round of the worker: it raises only for a token that the cipher cannot decrypt.
use run_buoy.Prelude.{ℕ, ◌≡◌, refl, ◌⊎◌, inl, inr, Option, none, some, Bool-cases, Option-cases}
use run_buoy.Prelude.Exec.{err, ◌>>=◌, on_option}
use run_buoy.Prelude.Exec.Keeps.{IsOk, Returns, Returns-bind, returns_rules}
use run_buoy.Server.Rows.{Device, Binding, PushOutbox}
use run_buoy.Server.Payload.{ApnsResult}
use run_buoy.Server.Database.{Database, Settings, token_undecryptable, new_id}
use run_buoy.Server.Delivery.{
  update_item, update_binding, update_device, start_binding, after_accepted, after_invalid_token,
  after_refusal, record_result, expire_item, deliver_item, try_item, process_item, is_overdue,
  has_live_activity_capacity, token_for,
}
use run_buoy.Server.Apns.{ApnsRequest, request_with}

new_id-Returns : Returns new_id
unfolding new_id
new_id-Returns = record { at = λ s. tt }

update_item-Returns : (o : PushOutbox) (f : PushOutbox → PushOutbox) → Returns (update_item o f)
unfolding update_item
update_item-Returns o f = search returns_rules

update_binding-Returns : (id : ℕ) (f : Binding → Binding) → Returns (update_binding id f)
unfolding update_binding
update_binding-Returns id f = search returns_rules

update_device-Returns : (id : ℕ) (f : Device → Device) → Returns (update_device id f)
unfolding update_device
update_device-Returns id f = search returns_rules

start_binding-Returns : (o : PushOutbox) (now r : ℕ) → Returns (start_binding o now r)
unfolding start_binding
start_binding-Returns o now r = Returns-bind _ _ new_id-Returns λ id. search returns_rules

ruleset updates_return = (
  returns_rules, update_item-Returns, update_binding-Returns, update_device-Returns,
  start_binding-Returns,
)

expire-Returns : (o : PushOutbox) (now : ℕ) → Returns (expire_item o now)
unfolding expire_item
expire-Returns o now = search updates_return

accepted-Returns : (o : PushOutbox) (now : ℕ) → Returns (after_accepted o now)
unfolding after_accepted
accepted-Returns o now = search updates_return depth 8

invalid-Returns :
    (o : PushOutbox) (r : ApnsResult) (now : ℕ) → Returns (after_invalid_token o r now)
unfolding after_invalid_token
invalid-Returns o r now = search updates_return

refusal-Returns :
    (settings : Settings) (o : PushOutbox) (r : ApnsResult) (now : ℕ)
    → Returns (after_refusal settings o r now)
unfolding after_refusal
refusal-Returns settings o r now = search updates_return

result-Returns :
    (settings : Settings) (o : PushOutbox) (r : ApnsResult) (latency now : ℕ)
    → Returns (record_result settings o r latency now)
unfolding record_result
result-Returns settings o r latency now =
    Returns-bind _ _ new_id-Returns
      λ id. search (updates_return, accepted-Returns, invalid-Returns, refusal-Returns) depth 8

module _ (settings : Settings) (decrypt : ℕ → Option ℕ) (send : ApnsRequest → ApnsResult × ℕ) where
  -- The token that the row goes to is stored but cannot be decrypted.
  pub record IsBlocked (s : Database) (o : PushOutbox) : Type 0 where
    pub encrypted : ℕ
    pub stored : token_for s o ≡ some encrypted
    pub broken : decrypt encrypted ≡ none

  -- The processing of a row returns, or its token cannot be decrypted and it raises.
  pub process_item-outcome :
      (o : PushOutbox) (now : ℕ) (s : Database)
      → IsOk (process_item settings decrypt send o now s)
        ⊎ (IsBlocked s o × (process_item settings decrypt send o now s ≡ err token_undecryptable))
  unfolding process_item try_item deliver_item ◌>>=◌ on_option
  process_item-outcome o now s = elim (Bool-cases (is_overdue o now)) [
    | inl over ↦ inl (rw over ((expire-Returns o now).at s))
    | inr timely ↦ elim (Bool-cases (has_live_activity_capacity settings s o)) [
      | inr full ↦ inl (rw (timely, full) ((update_item-Returns o _).at s))
      | inl room ↦ elim (Option-cases (token_for s o)) [
        | inl lost ↦ inl (rw (timely, room, lost) ((update_item-Returns o _).at s))
        | inr (e, stored) ↦ elim (Option-cases (decrypt e)) [
          | inl broken ↦ inr (
            record { encrypted = e; stored = stored; broken = broken },
            rw (timely, room, stored, broken) refl,
          )
          | inr (token, fine) ↦ inl (
              rw (timely, room, stored, fine)
                ((result-Returns settings o (send (request_with o now token)).0
                    (send (request_with o now token)).1 now).at
                  s))
        ]
      ]
    ]
  ]
