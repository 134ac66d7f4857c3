-- ===== src/Server/Ingest/Pushes.antt =====
-- Ingestion keeps one pending push for each coalesce key.
use run_buoy.Prelude.{ℕ, ◌≡◌, refl, sym, ◌∙◌, true, String, List, [], ◌∷◌, arith}
use run_buoy.Prelude.Exec.{ok, ◌>>=◌}
use run_buoy.Prelude.Exec.Keeps.{Keeps, Keeps-bind, Keeps-pure, keeps_rules, at_ok}
use run_buoy.Server.Rows.{Subject, Run, CoalesceKey, PushOutbox}
use run_buoy.Server.Quota.{increment_bucket}
use run_buoy.Server.Outbox.{is_pending_for}
use run_buoy.Server.Outbox.Pending.{OnePending, OnePending-update, coalesce_outbox-OnePending}
use run_buoy.Server.Notify.{bump_workspace_revision, add_notification}
use run_buoy.Server.Schedule.{
  refresh_start, cancel_start, refresh_starts, cancel_starts, is_pending_start,
}
use run_buoy.Server.Schedule.Stable.{IsStable, schedule_run_pushes-Stable}
use run_buoy.Server.Ingest.{
  EventInput, Progressed, save_run, accept_event, ingest_event, ingest_loop, ingest_events,
  sort_by_seq,
}
use run_buoy.Server.Database.{Database, Settings, new_id}

abbrev pub HasOnePending : Database → Type 0
HasOnePending db = OnePending db.outbox

new_id-HasOnePending : Keeps HasOnePending new_id
unfolding new_id
new_id-HasOnePending = record { at = λ s h. h }

bucket-HasOnePending :
    (name : String) (subject : Subject) (start expires now : ℕ)
    → Keeps HasOnePending (increment_bucket name subject start expires now)
unfolding increment_bucket
bucket-HasOnePending name subject start expires now = search keeps_rules

bump-HasOnePending : (w : ℕ) → Keeps HasOnePending (bump_workspace_revision w)
unfolding bump_workspace_revision
bump-HasOnePending w = search keeps_rules

refresh-pending :
    (run : Run) (now : ℕ) (name : String) (key : CoalesceKey) (o : PushOutbox)
    → is_pending_for key (refresh_start run now name o) ≡ is_pending_for key o
unfolding refresh_start
refresh-pending run now name key o = refl

cancel-pending :
    (now : ℕ) (key : CoalesceKey) (o : PushOutbox)
    → is_pending_for key (cancel_start now o) ≡ true
    → is_pending_for key o ≡ true
unfolding cancel_start
cancel-pending now key o h = ground arith

HasOnePending-Stable : IsStable HasOnePending
unfolding add_notification refresh_starts cancel_starts ◌>>=◌
HasOnePending-Stable = record {
  at_new_id = new_id-HasOnePending;
  at_bucket = bucket-HasOnePending;
  at_bump = bump-HasOnePending;
  at_notification = λ n. record { at = λ s h. h };
  at_coalesce = coalesce_outbox-OnePending;
  at_refresh = λ run now name. record {
    at = λ s h.
        OnePending-update (is_pending_start run) (refresh_start run now name) s.outbox
          (λ key o _ k. sym (refresh-pending run now name key o) ∙ k) h;
  };
  at_cancel = λ run now. record {
    at = λ s h.
        OnePending-update (is_pending_start run) (cancel_start now) s.outbox
          (λ key o _ k. cancel-pending now key o k) h;
  };
}

save-HasOnePending : (run : Run) → Keeps HasOnePending (save_run run)
unfolding save_run
save-HasOnePending run = search keeps_rules

module _ (settings : Settings) (id_text : ℕ → String) (now : ℕ) where
  accept-HasOnePending :
      (run : Run) (e : EventInput) → Keeps HasOnePending (accept_event settings id_text now run e)
  unfolding accept_event
  accept-HasOnePending run e = Keeps-bind _ _ new_id-HasOnePending λ id.
      Keeps-bind _ _ (search keeps_rules) λ _. Keeps-bind _ _ (save-HasOnePending _) λ _.
        Keeps-bind _ _ (schedule_run_pushes-Stable HasOnePending-Stable settings id_text _ _ _ now)
          λ _. Keeps-pure _

  event-HasOnePending :
      (p : Progressed) (e : EventInput)
      → Keeps HasOnePending (ingest_event settings id_text now p e)
  unfolding ingest_event
  event-HasOnePending p e = search (keeps_rules, accept-HasOnePending) depth 8

  loop-HasOnePending :
      (es : List EventInput) (p : Progressed)
      → Keeps HasOnePending (ingest_loop settings id_text now p es)
  unfolding ingest_loop
  loop-HasOnePending [] p = Keeps-pure p
  loop-HasOnePending (e ∷ es) p =
      Keeps-bind _ _ (event-HasOnePending p e) λ q. loop-HasOnePending es q

  -- Whatever pushes an accepted batch schedules, refreshes, merges or cancels, no coalesce key has two
  -- pending rows afterwards if none had before.
  pub ingest_events-OnePending :
      (run : Run) (es : List EventInput) (s : Database) {q : Progressed} {t : Database}
      → OnePending s.outbox
      → ingest_events settings id_text now run es s ≡ ok (q, t)
      → OnePending t.outbox
  unfolding ingest_events
  ingest_events-OnePending run es s {q} {t} h k =
      at_ok _
        (loop-HasOnePending (sort_by_seq es) (record { run = run; inserted = []; duplicates = [] }))
        s {a = q} {t = t} h k
