-- ===== src/Server/Delivery/Liveness.antt =====
-- A drain whose stored tokens can all be decrypted returns, and empties the queue of what is due.
use run_buoy.Prelude.{
  ℕ, suc, zero, ◌+◌, ◌<◌, ◌≡◌, ◌≢◌, refl, subst, All-append, Bool, Option, none, some, arith, All,
  List, [], ◌∷◌, is_some, ◌==◌, if◌then◌else◌, inl, inr, Option-cases, Bool-cases,
}
use run_buoy.Prelude.Table.{find_where}
use run_buoy.Prelude.Where.{All-update_where}
use run_buoy.Prelude.Exec.{ok, pure, ◌>>=◌, attempt}
use run_buoy.Prelude.Exec.Keeps.{
  Keeps, Keeps-modify, Keeps-bind, Keeps-on_option, Keeps-raise, keeps_rules, at_ok,
}
use run_buoy.Server.Rows.{Device, Binding, PushOutbox}
use run_buoy.Server.Enums.{is_device, is_live_start, BindingState}
use run_buoy.Server.Payload.{ApnsResult}
use run_buoy.Server.Database.{Database, Settings, new_id}
use run_buoy.Server.Outcome.{clear_token, end_binding, invalidate_binding, started_binding}
use run_buoy.Server.Delivery.{
  find_device, find_binding, token_for, update_item, update_binding, update_device, start_binding,
  after_accepted, after_invalid_token, after_refusal, record_result, expire_item, deliver_item,
  try_item, process_item, process_one, drained, drain,
}
use run_buoy.Server.Apns.{ApnsRequest}
use run_buoy.Server.Delivery.Choice.{NoneDue}
use run_buoy.Server.Delivery.Drain.{work, IsSound, Drained, drain-Drained, process_one_progress}

All-found_row :
    {A : Type 0} (P : A → Type 0) (p : A → Bool) (rows : List A) (r : A)
    → All P rows
    → find_where p rows ≡ some r
    → P r
All-found_row P p [] r h e = cc
All-found_row P p (x ∷ xs) r h e = elim (Bool-cases (p x)) [
  | inl k ↦ let same : x ≡ r = ground (arith, e, k) in subst P same h.0
  | inr k ↦ All-found_row P p xs r h.1 (ground (arith, e, k))
]

module _ (decrypt : ℕ → Option ℕ) where
  -- A stored token, if there is one, can be decrypted.
  abbrev pub Reads : Option ℕ → Type 0
  Reads none = Unit
  Reads (some e) = decrypt e ≢ none

  -- Every token that is stored can be decrypted.
  abbrev pub IsReadable : Database → Type 0
  IsReadable s =
      All
        (λ (d : Device).
          Reads d.notification_token_encrypted × Reads d.push_to_start_token_encrypted)
        s.devices
      × All (λ (b : Binding). Reads b.update_push_token_encrypted) s.bindings

  update_item-IsReadable :
      (o : PushOutbox) (f : PushOutbox → PushOutbox) → Keeps IsReadable (update_item o f)
  unfolding update_item
  update_item-IsReadable o f = Keeps-modify _ λ s h. h

  clear_token-IsReadable :
      (id : ℕ) (o : PushOutbox) → Keeps IsReadable (update_device id (clear_token o))
  unfolding update_device clear_token
  clear_token-IsReadable id o = Keeps-modify _ λ s h. (
    All-update_where _ (λ d. d.id == id) (clear_token o) s.devices
        (λ d e k. elim (Bool-cases (is_live_start o.kind)) [
          | inl start ↦ rw start (k.0, tt)
          | inr other ↦ rw other (tt, k.1)
        ])
        h.0,
    h.1,
  )

  update_binding-IsReadable :
      (id : ℕ) (f : Binding → Binding)
      → ((b : Binding)
          → Reads b.update_push_token_encrypted
          → Reads (f b).update_push_token_encrypted)
      → Keeps IsReadable (update_binding id f)
  unfolding update_binding
  update_binding-IsReadable id f k =
      Keeps-modify _
        λ s h. (h.0, All-update_where _ (λ b. b.id == id) f s.bindings (λ b e r. k b r) h.1)

  new_id-IsReadable : Keeps IsReadable new_id
  unfolding new_id
  new_id-IsReadable = record { at = λ s h. h }

  start_binding-IsReadable :
      (o : PushOutbox) (now run_id : ℕ) → Keeps IsReadable (start_binding o now run_id)
  unfolding start_binding started_binding
  start_binding-IsReadable o now run_id =
      Keeps-bind _ _ new_id-IsReadable
        λ id. Keeps-modify _ λ s h. (h.0, All-append _ s.bindings _ h.1 (tt, tt))

  end_binding-IsReadable :
      (id : ℕ) (ending : BindingState) (now : ℕ)
      → Keeps IsReadable (update_binding id (end_binding ending now))
  unfolding end_binding
  end_binding-IsReadable id ending now = update_binding-IsReadable id _ λ b r. r

  invalidate_binding-IsReadable :
      (id now : ℕ) → Keeps IsReadable (update_binding id (invalidate_binding now))
  unfolding invalidate_binding
  invalidate_binding-IsReadable id now = update_binding-IsReadable id _ λ b r. tt

  expire-IsReadable : (o : PushOutbox) (now : ℕ) → Keeps IsReadable (expire_item o now)
  unfolding expire_item
  expire-IsReadable o now =
      search (keeps_rules, update_item-IsReadable, end_binding-IsReadable) depth 8

  accepted-IsReadable : (o : PushOutbox) (now : ℕ) → Keeps IsReadable (after_accepted o now)
  unfolding after_accepted
  accepted-IsReadable o now =
      search (keeps_rules, update_item-IsReadable, start_binding-IsReadable, end_binding-IsReadable)
        depth 8

  invalid-IsReadable :
      (o : PushOutbox) (r : ApnsResult) (now : ℕ) → Keeps IsReadable (after_invalid_token o r now)
  unfolding after_invalid_token
  invalid-IsReadable o r now =
      search
        (keeps_rules, update_item-IsReadable, clear_token-IsReadable, invalidate_binding-IsReadable)
        depth 8

  module _ (settings : Settings) where
    refusal-IsReadable :
        (o : PushOutbox) (r : ApnsResult) (now : ℕ)
        → Keeps IsReadable (after_refusal settings o r now)
    unfolding after_refusal
    refusal-IsReadable o r now = search (keeps_rules, update_item-IsReadable)

    result-IsReadable :
        (o : PushOutbox) (r : ApnsResult) (latency now : ℕ)
        → Keeps IsReadable (record_result settings o r latency now)
    unfolding record_result
    result-IsReadable o r latency now = Keeps-bind _ _ new_id-IsReadable λ id.
        Keeps-bind _ _ (Keeps-modify _ (λ s h. h))
          λ _. search (keeps_rules, accepted-IsReadable, invalid-IsReadable, refusal-IsReadable)

    deliver-IsReadable :
        (send : ApnsRequest → ApnsResult × ℕ) (o : PushOutbox) (now e : ℕ)
        → Keeps IsReadable (deliver_item settings decrypt send o now e)
    unfolding deliver_item
    deliver-IsReadable send o now e =
        Keeps-on_option _ _ _ (λ _. Keeps-raise _) λ token _. result-IsReadable o _ _ now

    process_item-IsReadable :
        (send : ApnsRequest → ApnsResult × ℕ) (o : PushOutbox) (now : ℕ)
        → Keeps IsReadable (process_item settings decrypt send o now)
    unfolding process_item try_item
    process_item-IsReadable send o now =
        search (keeps_rules, expire-IsReadable, update_item-IsReadable, deliver-IsReadable) depth 10

    process_one-IsReadable :
        (send : ApnsRequest → ApnsResult × ℕ) (now : ℕ)
        → Keeps IsReadable (process_one settings decrypt send now)
    unfolding process_one
    process_one-IsReadable send now = search (keeps_rules, process_item-IsReadable) depth 8

    -- The token of a row is one that is stored.
    device-Reads :
        (o : PushOutbox) (d : Device) (e : ℕ)
        → Reads d.notification_token_encrypted × Reads d.push_to_start_token_encrypted
        → (if is_some d.revoked_at
            then none
            else if is_live_start o.kind
            then d.push_to_start_token_encrypted
            else d.notification_token_encrypted)
          ≡ some e
        → decrypt e ≢ none
    device-Reads o d e h k = elim (Bool-cases (is_some d.revoked_at)) [
      | inl gone ↦ let k' = rw gone at k in cc
      | inr there ↦ elim (Bool-cases (is_live_start o.kind)) [
        | inl start ↦ let k' = rw (there, start) at k in subst Reads k' h.1
        | inr other ↦ let k' = rw (there, other) at k in subst Reads k' h.0
      ]
    ]

    binding-Reads :
        (b : Binding) (e : ℕ)
        → Reads b.update_push_token_encrypted
        → (if is_some b.invalidated_at then none else b.update_push_token_encrypted) ≡ some e
        → decrypt e ≢ none
    binding-Reads b e h k = elim (Bool-cases (is_some b.invalidated_at)) [
      | inl gone ↦ let k' = rw gone at k in cc
      | inr there ↦ let k' = rw there at k in subst Reads k' h
    ]

    token_for-Reads :
        (s : Database) (o : PushOutbox) (e : ℕ)
        → IsReadable s
        → token_for s o ≡ some e
        → decrypt e ≢ none
    unfolding token_for
    token_for-Reads s o e h k = elim (Bool-cases (is_device o.target_type)) [
      | inl device ↦ elim (Option-cases (find_device s o.target_id)) [
        | inl lost ↦ let k' = rw (device, lost) at k in cc
        | inr (d, found) ↦
            device-Reads o d e (All-found_row _ (λ x. x.id == o.target_id) s.devices d h.0 found)
              (rw (device, found) at k)
      ]
      | inr activity ↦ elim (Option-cases (find_binding s o.target_id)) [
        | inl lost ↦ let k' = rw (activity, lost) at k in cc
        | inr (b, found) ↦
            binding-Reads b e (All-found_row _ (λ x. x.id == o.target_id) s.bindings b h.1 found)
              (rw (activity, found) at k)
      ]
    ]

    drain_returns :
        (send : ℕ → ApnsRequest → ApnsResult × ℕ) (now : ℕ → ℕ) (limit n : ℕ) (s : Database)
        → IsReadable s
        → IsSound s.outbox
        → (m : ℕ) × (t : Database) × (drain settings decrypt send now limit n s ≡ ok (drained m, t))
    unfolding drain ◌>>=◌ attempt pure
    drain_returns send now zero n s h sound = (n, s, refl)
    drain_returns send now (suc limit) n s h sound =
        elim (process_one_progress settings decrypt (send n) (now n) s sound) [
          | inl (e, idle) ↦ (n, s, rw e refl)
          | inr (o, first, inl (t, e, kept, less)) ↦
              let (m, u, rest) =
                drain_returns send now limit (n + 1) t
                  (at_ok _ (process_one-IsReadable (send n) (now n)) s h e) kept in
              (m, u, rw e rest)
          | inr (o, first, inr (e, blocked)) ↦
              absurd (token_for-Reads s o blocked.encrypted h blocked.stored blocked.broken)
        ]

    -- If the outbox is sound, every token that is stored can be decrypted and the limit exceeds the
    -- tries that the outbox may still take, a drain ends without an exception, whatever the provider
    -- answers and however the clock moves; it has processed fewer rows than the limit, at its last
    -- reading of the clock no row is pending and due, and the outbox is sound again.
    pub drain_empties :
        (send : ℕ → ApnsRequest → ApnsResult × ℕ) (now : ℕ → ℕ) (limit : ℕ) (s : Database)
        → IsReadable s
        → IsSound s.outbox
        → work settings.outbox_max_attempts s.outbox < limit
        → (m : ℕ) × (t : Database) × (drain settings decrypt send now limit 0 s ≡ ok (drained m, t))
          × (m < limit)
          × NoneDue (now m) t.outbox
          × IsSound t.outbox
    drain_empties send now limit s readable sound enough =
        let (m, t, e) = drain_returns send now limit 0 s readable sound in
        let d : Drained settings decrypt now limit 0 s m t =
          drain-Drained settings decrypt send now limit 0 s {m = m} {t = t} sound e in
        (m, t, e, omega (arith, d.paid), d.finished (omega (arith, d.paid)), d.sound)
