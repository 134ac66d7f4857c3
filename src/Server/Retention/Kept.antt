-- ===== src/Server/Retention/Kept.antt =====
-- What a cleanup never deletes: active runs with their events and pending pushes.
use run_buoy.Server.Accounts.{PairingSession, AuditLog}
use run_buoy.Server.Rows.{Notification, PushAttempt, DeletionChallenge}
use run_buoy.Prelude.{
  ℕ, ◌≡◌, refl, ap, ◌∙◌, arith, Bool, true, false, ◌&&◌, Option, none, some, List, [], ◌∷◌, map,
  ◌==◌, All, All-map_imp, Bool-cases, inl, inr, opt_eq, eq_of_==,
}
use run_buoy.Prelude.Table.{select_where, update_where, delete_where, is_one_of}
use run_buoy.Prelude.Sort.{select_page}
use run_buoy.Prelude.Where.{
  none_exists, All-of_each, exists_none_All, exists-update, All-zip, select-delete,
}
use run_buoy.Prelude.Keys.{
  is_one_of-page, IsDistinct, not_in_page_All, not_selected_All, ids-update, IsDistinct-delete,
}
use run_buoy.Prelude.Exec.{ok}
use run_buoy.Server.Enums.{is_terminal, is_pending}
use run_buoy.Server.Rows.{Run, RunEvent, Binding, PushOutbox}
use run_buoy.Server.Database.{Database, Settings}
use run_buoy.Server.Retention.{
  is_terminal_run, is_old_run, is_old_event, is_old_outbox, clear_tail, limited_ids, old_events,
  old_tails,
}
use run_buoy.Server.Retention.Batch.{
  old_runs, old_outbox, is_of_runs, delete_outbox, delete_old_runs, Cleanup, cleanup_retention,
}
use run_buoy.Server.Retention.Swept.{
  without_notifications, without_events, without_tails, without_attempts, without_pending_bindings,
  swept_rows, swept, sweep_counts,
}
use run_buoy.Server.Retention.References.{HasReferences, cleanup_retention-ok}

-- The primary keys of the tables.
pub record HasKeys (db : Database) : Type 0 where
  pub notifications : IsDistinct (map (λ (n : Notification). n.id) db.notifications)
  pub runs : IsDistinct (map (λ (r : Run). r.id) db.runs)
  pub events : IsDistinct (map (λ (e : RunEvent). e.id) db.events)
  pub bindings : IsDistinct (map (λ (b : Binding). b.id) db.bindings)
  pub outbox : IsDistinct (map (λ (o : PushOutbox). o.id) db.outbox)
  pub attempts : IsDistinct (map (λ (a : PushAttempt). a.id) db.attempts)
  pub pairings : IsDistinct (map (λ (p : PairingSession). p.id) db.pairings)
  pub audit_logs : IsDistinct (map (λ (a : AuditLog). a.id) db.audit_logs)
  pub challenges : IsDistinct (map (λ (c : DeletionChallenge). c.id) db.challenges)

-- The rows of a run but for its log tail.
abbrev pub run_rows : ℕ → Database → List Run
run_rows id db = map clear_tail (select_where (λ r. r.id == id) db.runs)

abbrev pub event_rows : ℕ → Database → List RunEvent
event_rows id db = select_where (λ e. e.run_id == id) db.events

abbrev is_push_of : ℕ → PushOutbox → Bool
is_push_of id o = opt_eq o.run_id (some id) && is_pending o.status

abbrev pub pending_pushes : ℕ → Database → List PushOutbox
pending_pushes id db = select_where (is_push_of id) db.outbox

-- clearing tails does not change the rest of the rows
cleared_rows :
    (p q : Run → Bool) (runs : List Run)
    → ((r : Run) → p (clear_tail r) ≡ p r)
    → map clear_tail (select_where p (update_where q clear_tail runs))
      ≡ map clear_tail (select_where p runs)
unfolding clear_tail
cleared_rows p q [] h = refl
cleared_rows p q (r ∷ rs) h = elim (Bool-cases (q r)) [
  | inl e ↦
      rw (e, h r)
        (elim (Bool-cases (p r)) [
          | inl e' ↦ rw e' (ap (λ xs. clear_tail r ∷ xs) (cleared_rows p q rs h))
          | inr e' ↦ rw e' (cleared_rows p q rs h)
        ])
  | inr e ↦ rw e (elim (Bool-cases (p r)) [
    | inl e' ↦ rw e' (ap (λ xs. clear_tail r ∷ xs) (cleared_rows p q rs h))
    | inr e' ↦ rw e' (cleared_rows p q rs h)
  ])
]

not_of_runs :
    (ids : List ℕ) (run_id : Option ℕ) (id : ℕ)
    → opt_eq run_id (some id) ≡ true
    → is_one_of ids id ≡ false
    → is_of_runs ids run_id ≡ false
unfolding is_of_runs
not_of_runs ids none id e h = refl
not_of_runs ids (some r) id e h = rw (eq_of_== r id e) h

-- Rows that are not due stay, whatever the page.
select-delete_page :
    {A : Type 0} (id : A → ℕ) (p due : A → Bool) (before : A → A → Bool) (limit : ℕ) (rows : List A)
    → IsDistinct (map id rows)
    → All (λ r. p r ≡ true → due r ≡ false) rows
    → select_where p
        (delete_where (λ r. is_one_of (map id (select_page due before limit rows)) (id r)) rows)
      ≡ select_where p rows
select-delete_page id p due before limit rows keys h =
    let page = map id (select_page due before limit rows) in
    select-delete p (λ r. is_one_of page (id r)) rows
      (All-map_imp
        (λ r. (p r ≡ true → due r ≡ false) × (due r ≡ false → is_one_of page (id r) ≡ false))
        (λ r. p r ≡ true → is_one_of page (id r) ≡ false) (λ r k e. k.1 (k.0 e)) rows
        (All-zip (λ r. p r ≡ true → due r ≡ false)
          (λ r. due r ≡ false → is_one_of page (id r) ≡ false) rows h
          (not_in_page_All id due before limit rows keys)))

module _ (settings : Settings) (now : ℕ) (db : Database) (keys : HasKeys db) (id : ℕ) where
  -- A run that is not due stays.
  pub run-Kept :
      All
        (λ r. r.id == id ≡ true → is_old_run settings now (swept_rows settings now db) r ≡ false)
        (swept_rows settings now db).runs
      → run_rows id (swept settings now db) ≡ run_rows id db
  unfolding delete_outbox delete_old_runs old_runs limited_ids clear_tail
  run-Kept h =
      let tails =
        old_tails settings now
          (without_events settings now (without_notifications settings now db)) in
      ap (map clear_tail) (
        select-delete_page (λ r. r.id) (λ r. r.id == id)
          (is_old_run settings now (swept_rows settings now db)) _ _
          (swept_rows settings now db).runs
          (rw
            (ids-update (λ (r : Run). r.id) (λ r. is_one_of tails r.id) clear_tail db.runs
              (λ r. refl))
            keys.runs)
          h)
      ∙ cleared_rows (λ r. r.id == id) (λ r. is_one_of tails r.id) db.runs (λ r. refl)

  module _ (active : is_terminal_run db id ≡ false) where
    not_due :
        All
          (λ r. r.id == id ≡ true → is_old_run settings now (swept_rows settings now db) r ≡ false)
          (swept_rows settings now db).runs
    unfolding delete_outbox is_terminal_run is_old_run clear_tail
    not_due =
        let tails =
          old_tails settings now
            (without_events settings now (without_notifications settings now db)) in
        let ended = λ (r : Run). r.id == id && is_terminal r.execution_status in
        All-map_imp (λ r. ended r ≡ false)
          (λ r. r.id == id ≡ true → is_old_run settings now (swept_rows settings now db) r ≡ false)
          (λ r k e. ground arith) (swept_rows settings now db).runs
          (exists_none_All ended (swept_rows settings now db).runs (
            exists-update ended (λ r. is_one_of tails r.id) clear_tail db.runs (λ r. refl)
            ∙ active))

    not_deleted : is_one_of (old_runs settings now (swept_rows settings now db)) id ≡ false
    unfolding old_runs limited_ids
    not_deleted =
        let rows = swept_rows settings now db in
        elim (Bool-cases (is_one_of (old_runs settings now rows) id)) [
          | inr e ↦ e
          | inl e ↦ ground (
            arith,
            is_one_of-page (λ (r : Run). r.id) (is_old_run settings now rows) _ _ rows.runs id e,
            none_exists (λ r. is_old_run settings now rows r && r.id == id) rows.runs
                (All-map_imp (λ r. r.id == id ≡ true → is_old_run settings now rows r ≡ false)
                  (λ r. (is_old_run settings now rows r && r.id == id) ≡ false)
                  (λ r k. ground (arith, k)) rows.runs not_due),
          )
        ]

    event-Kept : event_rows id (swept settings now db) ≡ event_rows id db
    unfolding delete_outbox delete_old_runs old_events limited_ids is_old_event is_terminal_run
    event-Kept =
        let db' = without_notifications settings now db in
        let rows = (without_events settings now db').events in
        select-delete (λ (e : RunEvent). e.run_id == id)
          (λ e. is_one_of (old_runs settings now (swept_rows settings now db)) e.run_id) rows
          (All-of_each
            (λ e.
              e.run_id == id ≡ true
              → is_one_of (old_runs settings now (swept_rows settings now db)) e.run_id ≡ false)
            rows (λ e k. rw (eq_of_== e.run_id id k) not_deleted))
        ∙ select-delete_page (λ e. e.id) (λ e. e.run_id == id) (is_old_event settings now db') _ _
            db.events keys.events
            (All-of_each (λ e. e.run_id == id ≡ true → is_old_event settings now db' e ≡ false)
              db.events (λ e k. rw (eq_of_== e.run_id id k, active) refl))

    push-Kept : pending_pushes id (swept settings now db) ≡ pending_pushes id db
    unfolding delete_outbox delete_old_runs old_outbox limited_ids is_old_outbox is_of_runs
    push-Kept =
        let db' = without_attempts settings now (
          without_pending_bindings settings now (
            without_tails settings now
              (without_events settings now (without_notifications settings now db)))) in
        let ids = old_runs settings now (swept_rows settings now db) in
        let rows = (swept_rows settings now db).outbox in
        let of_runs = λ (o : PushOutbox). is_of_runs ids o.run_id in
        let outbox_ids = map (λ (o : PushOutbox). o.id) (select_where of_runs rows) in
        select-delete (is_push_of id) (λ o. is_one_of outbox_ids o.id) rows
          (All-map_imp (λ (o : PushOutbox). of_runs o ≡ false → is_one_of outbox_ids o.id ≡ false)
            (λ o. is_push_of id o ≡ true → is_one_of outbox_ids o.id ≡ false)
            (λ o k e. k (not_of_runs ids o.run_id id (ground arith) not_deleted)) rows
            (not_selected_All (λ o. o.id) of_runs rows
              (IsDistinct-delete (λ o. o.id) (λ o. is_one_of (old_outbox settings now db') o.id)
                db.outbox keys.outbox)))
        ∙ select-delete_page (λ o. o.id) (is_push_of id) (is_old_outbox settings now) _ _ db.outbox
            keys.outbox
            (All-of_each (λ o. is_push_of id o ≡ true → is_old_outbox settings now o ≡ false)
              db.outbox (λ o k. ground arith))

-- A cleanup keeps an active run but for its log tail, its events and its pending pushes.
pub cleanup_retention-keeps_active :
    (settings : Settings) (now : ℕ) (db : Database) (id : ℕ)
    → HasReferences db
    → HasKeys db
    → is_terminal_run db id ≡ false
    → (c : Cleanup) × (db' : Database) × (cleanup_retention settings now db ≡ ok (c, db'))
      × (run_rows id db' ≡ run_rows id db)
      × (event_rows id db' ≡ event_rows id db)
      × (pending_pushes id db' ≡ pending_pushes id db)
cleanup_retention-keeps_active settings now db id references keys active =
    let done = cleanup_retention-ok settings now db references in
    (
      sweep_counts settings now db,
      done.0,
      done.1,
      ap (run_rows id) done.2
          ∙ run-Kept settings now db keys id (not_due settings now db keys id active),
      ap (event_rows id) done.2 ∙ event-Kept settings now db keys id active,
      ap (pending_pushes id) done.2 ∙ push-Kept settings now db keys id active,
    )
