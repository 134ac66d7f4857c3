-- ===== src/Server/Retention/References.antt =====
-- The foreign keys of the tables that `cleanup_retention` deletes from.
use run_buoy.Prelude.{
  arith, All-append, ℕ, ◌≡◌, refl, sym, subst, ◌∙◌, Bool, true, false, Option, none, some, List, [],
  ◌∷◌, map, ◌==◌, All, All-map_imp, Bool-cases, leb, inl, inr,
}
use run_buoy.Prelude.Table.{select_where, exists_where, update_where, delete_where, is_one_of}
use run_buoy.Prelude.Sort.{sort_by, sort_by-All}
use run_buoy.Prelude.Where.{
  All-update_split, All-delete_where, All-delete_left, All-select_where, All-update_where, All-zip,
}
use run_buoy.Prelude.Keys.{is_one_of-delete, is_one_of-select_All, is_one_of-map, ids-update}
use run_buoy.Prelude.Exec.{ok, ◌>>=◌}
use run_buoy.Server.Accounts.{PairingSession, QuotaLock, AuditLog}
use run_buoy.Server.Rows.{
  Bucket, DeletionChallenge, Workspace, Run, RunEvent, Notification, Binding, PushOutbox,
  PushAttempt,
}
use run_buoy.Server.Database.{Database, Settings}
use run_buoy.Server.Retention.{
  old_notifications, old_events, old_tails, clear_tail, owns_event, expire_binding,
  old_pending_bindings,
}
use run_buoy.Server.Retention.Batch.{
  old_runs, is_of_runs, delete_outbox, delete_old_runs, distinct, Cleanup, cleanup_retention,
}
use run_buoy.Server.Retention.Swept.{
  without_notifications, without_events, without_tails, swept_rows, swept, changed_workspaces,
  sweep_counts, cleanup_retention-swept, bump_each-ok, without_runs, without_pending_bindings,
  without_outbox, without_attempts,
}

-- Every key of the rows is among the identifiers.
abbrev pub Refers : {A : Type 0} → (A → ℕ) → List ℕ → List A → Type 0
Refers key ids rows = All (λ r. is_one_of ids (key r) ≡ true) rows

abbrev pub is_null_or_of : List ℕ → Option ℕ → Bool
is_null_or_of ids none = true
is_null_or_of ids (some i) = is_one_of ids i

-- A key that may be NULL.
abbrev pub MayRefer : {A : Type 0} → (A → Option ℕ) → List ℕ → List A → Type 0
MayRefer key ids rows = All (λ r. is_null_or_of ids (key r) ≡ true) rows

abbrev run_ids : Database → List ℕ
run_ids db = map (λ (r : Run). r.id) db.runs

abbrev workspace_ids : Database → List ℕ
workspace_ids db = map (λ (w : Workspace). w.id) db.workspaces

-- The foreign keys between workspaces, runs and the rows of runs.
pub record HasReferences (db : Database) : Type 0 where
  pub runs_workspace : Refers (λ (r : Run). r.workspace_id) (workspace_ids db) db.runs
  pub notifications_workspace :
      Refers (λ (n : Notification). n.workspace_id) (workspace_ids db) db.notifications
  pub events_run : Refers (λ (e : RunEvent). e.run_id) (run_ids db) db.events
  pub bindings_run : Refers (λ (b : Binding). b.run_id) (run_ids db) db.bindings
  pub outbox_run : MayRefer (λ (o : PushOutbox). o.run_id) (run_ids db) db.outbox
  pub notifications_run : MayRefer (λ (n : Notification). n.run_id) (run_ids db) db.notifications
  pub attempts_outbox :
      Refers
        (λ (a : PushAttempt). a.outbox_id)
        (map (λ (o : PushOutbox). o.id) db.outbox)
        db.attempts

module _ {A B : Type 0} (id : A → ℕ) (ids : List ℕ) where
  -- Rows that go with what they refer to leave rows that refer to what is left.
  Refers-delete_both :
      (key : B → ℕ) (targets : List A) (rows : List B)
      → Refers key (map id targets) rows
      → Refers key
          (map id (delete_where (λ t. is_one_of ids (id t)) targets))
          (delete_where (λ r. is_one_of ids (key r)) rows)
  Refers-delete_both key targets rows h =
      All-delete_left
        (λ r. is_one_of (map id (delete_where (λ t. is_one_of ids (id t)) targets)) (key r) ≡ true)
        (λ r. is_one_of ids (key r)) rows
        (All-map_imp (λ r. is_one_of (map id targets) (key r) ≡ true)
          (λ r.
            is_one_of ids (key r) ≡ false
            → is_one_of (map id (delete_where (λ t. is_one_of ids (id t)) targets)) (key r) ≡ true)
          (λ r k e. is_one_of-delete id ids targets (key r) e k) rows h)

module _ {A : Type 0} (id : A → ℕ) (ids : List ℕ) where
  MayRefer-delete :
      (o : Option ℕ) (targets : List A)
      → is_of_runs ids o ≡ false
      → is_null_or_of (map id targets) o ≡ true
      → is_null_or_of (map id (delete_where (λ t. is_one_of ids (id t)) targets)) o ≡ true
  unfolding is_of_runs
  MayRefer-delete none targets e h = refl
  MayRefer-delete (some i) targets e h = is_one_of-delete id ids targets i e h

-- Deleting runs deletes all that refers to them.
delete_old_runs-HasReferences :
    (ids : List ℕ) (db : Database) → HasReferences db → HasReferences (delete_old_runs ids db)
unfolding delete_old_runs delete_outbox is_of_runs
delete_old_runs-HasReferences ids db h =
    let outbox_ids =
      map (λ (o : PushOutbox). o.id) (select_where (λ o. is_of_runs ids o.run_id) db.outbox) in
    record {
      runs_workspace =
          All-delete_where (λ r. is_one_of (workspace_ids db) r.workspace_id ≡ true)
            (λ r. is_one_of ids r.id) db.runs h.runs_workspace;
      notifications_workspace =
          All-update_where (λ n. is_one_of (workspace_ids db) n.workspace_id ≡ true)
            (λ n. is_of_runs ids n.run_id) (λ n. record n { run_id = none }) db.notifications
            (λ n e k. k) h.notifications_workspace;
      events_run =
          Refers-delete_both (λ r. r.id) ids (λ e. e.run_id) db.runs db.events h.events_run;
      bindings_run =
          Refers-delete_both (λ r. r.id) ids (λ b. b.run_id) db.runs db.bindings h.bindings_run;
      outbox_run =
          All-delete_left (λ o. is_null_or_of (run_ids (delete_old_runs ids db)) o.run_id ≡ true)
            (λ o. is_one_of outbox_ids o.id) db.outbox
            (All-map_imp
              (λ (o : PushOutbox).
                (is_of_runs ids o.run_id ≡ true → is_one_of outbox_ids o.id ≡ true)
                × (is_null_or_of (run_ids db) o.run_id ≡ true))
              (λ o.
                is_one_of outbox_ids o.id ≡ false
                → is_null_or_of (run_ids (delete_old_runs ids db)) o.run_id ≡ true)
              (λ o k e.
                MayRefer-delete (λ (r : Run). r.id) ids o.run_id db.runs (ground (arith, k.0)) k.1)
              db.outbox
              (All-zip (λ o. is_of_runs ids o.run_id ≡ true → is_one_of outbox_ids o.id ≡ true)
                (λ o. is_null_or_of (run_ids db) o.run_id ≡ true) db.outbox
                (is_one_of-select_All (λ o. o.id) (λ o. is_of_runs ids o.run_id) db.outbox)
                h.outbox_run));
      notifications_run =
          All-update_split (λ n. is_null_or_of (run_ids (delete_old_runs ids db)) n.run_id ≡ true)
            (λ n. is_of_runs ids n.run_id) (λ n. record n { run_id = none }) db.notifications
            (All-map_imp (λ (n : Notification). is_null_or_of (run_ids db) n.run_id ≡ true)
              (λ n.
                (is_of_runs ids n.run_id ≡ true → true ≡ true)
                × (is_of_runs ids n.run_id ≡ false
                    → is_null_or_of (run_ids (delete_old_runs ids db)) n.run_id ≡ true))
              (λ n k.
                (λ e. refl, λ e. MayRefer-delete (λ (r : Run). r.id) ids n.run_id db.runs e k))
              db.notifications h.notifications_run);
      attempts_outbox =
          Refers-delete_both (λ o. o.id) outbox_ids (λ a. a.outbox_id) db.outbox db.attempts
            h.attempts_outbox;
    }

delete_outbox-HasReferences :
    (ids : List ℕ) (db : Database) → HasReferences db → HasReferences (delete_outbox ids db)
unfolding delete_outbox
delete_outbox-HasReferences ids db h = record {
  runs_workspace = h.runs_workspace;
  notifications_workspace = h.notifications_workspace;
  events_run = h.events_run;
  bindings_run = h.bindings_run;
  notifications_run = h.notifications_run;
  outbox_run =
      All-delete_where (λ o. is_null_or_of (run_ids db) o.run_id ≡ true) (λ o. is_one_of ids o.id)
        db.outbox h.outbox_run;
  attempts_outbox =
      Refers-delete_both (λ o. o.id) ids (λ a. a.outbox_id) db.outbox db.attempts h.attempts_outbox;
}

-- Deleting notifications, events and attempts, clearing tails and expiring placeholders.
delete_rows-HasReferences :
    (notification_ids event_ids : List ℕ) (db : Database)
    → HasReferences db
    → HasReferences (record db {
      notifications = delete_where (λ n. is_one_of notification_ids n.id) db.notifications;
      events = delete_where (λ e. is_one_of event_ids e.id) db.events;
    })
delete_rows-HasReferences notification_ids event_ids db h = record {
  runs_workspace = h.runs_workspace;
  notifications_workspace =
      All-delete_where (λ n. is_one_of (workspace_ids db) n.workspace_id ≡ true)
        (λ n. is_one_of notification_ids n.id) db.notifications h.notifications_workspace;
  events_run =
      All-delete_where (λ e. is_one_of (run_ids db) e.run_id ≡ true) (λ e. is_one_of event_ids e.id)
        db.events h.events_run;
  bindings_run = h.bindings_run;
  notifications_run =
      All-delete_where (λ n. is_null_or_of (run_ids db) n.run_id ≡ true)
        (λ n. is_one_of notification_ids n.id) db.notifications h.notifications_run;
  outbox_run = h.outbox_run;
  attempts_outbox = h.attempts_outbox;
}

delete_attempts-HasReferences :
    (attempt_ids : List ℕ) (db : Database)
    → HasReferences db
    → HasReferences
        (record db { attempts = delete_where (λ a. is_one_of attempt_ids a.id) db.attempts })
delete_attempts-HasReferences attempt_ids db h = record {
  runs_workspace = h.runs_workspace;
  notifications_workspace = h.notifications_workspace;
  events_run = h.events_run;
  bindings_run = h.bindings_run;
  notifications_run = h.notifications_run;
  outbox_run = h.outbox_run;
  attempts_outbox =
      All-delete_where
        (λ a. is_one_of (map (λ (o : PushOutbox). o.id) db.outbox) a.outbox_id ≡ true)
        (λ a. is_one_of attempt_ids a.id) db.attempts h.attempts_outbox;
}

-- The tables that no key of these refers to, and workspaces with other revisions.
pub other_rows-HasReferences :
    (db : Database) (pairings : List PairingSession) (audit_logs : List AuditLog)
    (challenges : List DeletionChallenge) (buckets : List Bucket) (quota_locks : List QuotaLock)
    (workspaces : List Workspace)
    → map (λ (w : Workspace). w.id) workspaces ≡ workspace_ids db
    → HasReferences db
    → HasReferences (record db {
      pairings = pairings;
      audit_logs = audit_logs;
      challenges = challenges;
      buckets = buckets;
      quota_locks = quota_locks;
      workspaces = workspaces;
    })
other_rows-HasReferences db pairings audit_logs challenges buckets quota_locks workspaces same h =
    record {
      runs_workspace = rw same h.runs_workspace;
      notifications_workspace = rw same h.notifications_workspace;
      events_run = h.events_run;
      bindings_run = h.bindings_run;
      notifications_run = h.notifications_run;
      outbox_run = h.outbox_run;
      attempts_outbox = h.attempts_outbox;
    }

update_rows-HasReferences :
    (tail_ids binding_ids : List ℕ) (now : ℕ) (db : Database)
    → HasReferences db
    → HasReferences (record db {
      runs = update_where (λ r. is_one_of tail_ids r.id) clear_tail db.runs;
      bindings = update_where (λ b. is_one_of binding_ids b.id) (expire_binding now) db.bindings;
    })
unfolding clear_tail expire_binding
update_rows-HasReferences tail_ids binding_ids now db h =
    let same : map (λ (r : Run). r.id)
          (update_where (λ r. is_one_of tail_ids r.id) clear_tail db.runs)
        ≡ run_ids db =
      ids-update (λ r. r.id) (λ r. is_one_of tail_ids r.id) clear_tail db.runs (λ r. refl) in
    record {
      runs_workspace =
          All-update_where (λ r. is_one_of (workspace_ids db) r.workspace_id ≡ true)
            (λ r. is_one_of tail_ids r.id) clear_tail db.runs (λ r e k. k) h.runs_workspace;
      notifications_workspace = h.notifications_workspace;
      events_run = rw same h.events_run;
      bindings_run = rw same (
          All-update_where (λ b. is_one_of (run_ids db) b.run_id ≡ true)
            (λ b. is_one_of binding_ids b.id) (expire_binding now) db.bindings (λ b e k. k)
            h.bindings_run);
      notifications_run = rw same h.notifications_run;
      outbox_run = rw same h.outbox_run;
      attempts_outbox = h.attempts_outbox;
    }

distinct-All : (P : ℕ → Type 0) (is : List ℕ) → All P is → All P (distinct is)
distinct-All P [] h = tt
distinct-All P (i ∷ is) h = elim (Bool-cases (is_one_of is i)) [
  | inl e ↦ rw e (distinct-All P is h.1)
  | inr e ↦ rw e (h.0, distinct-All P is h.1)
]

All-map :
    {A : Type 0} (P : ℕ → Type 0) (f : A → ℕ) (xs : List A)
    → All (λ x. P (f x)) xs
    → All P (map f xs)
All-map P f [] h = tt
All-map P f (x ∷ xs) h = (h.0, All-map P f xs h.1)

-- The workspaces of selected rows exist.
selected-All :
    {A : Type 0} (key : A → ℕ) (q : A → Bool) (db : Database) (rows : List A)
    → Refers key (workspace_ids db) rows
    → All
        (λ i. exists_where (λ (w : Workspace). w.id == i) db.workspaces ≡ true)
        (map key (select_where q rows))
selected-All key q db rows h =
    All-map (λ i. exists_where (λ (w : Workspace). w.id == i) db.workspaces ≡ true) key
      (select_where q rows)
      (All-select_where (λ r. exists_where (λ (w : Workspace). w.id == key r) db.workspaces ≡ true)
        q rows
        (All-map_imp (λ r. is_one_of (workspace_ids db) (key r) ≡ true)
          (λ r. exists_where (λ (w : Workspace). w.id == key r) db.workspaces ≡ true)
          (λ r k. sym (is_one_of-map (λ (w : Workspace). w.id) db.workspaces (key r)) ∙ k) rows h))

module _ (settings : Settings) (now : ℕ) where
  cleared-HasReferences :
      (db : Database)
      → HasReferences db
      → HasReferences (
          without_pending_bindings settings now (
            without_tails settings now
              (without_events settings now (without_notifications settings now db))))
  cleared-HasReferences db h =
      let db' = without_notifications settings now db in
      let db'' = without_events settings now db' in
      update_rows-HasReferences (old_tails settings now db'')
        (old_pending_bindings settings now (without_tails settings now db'')) now db''
        (delete_rows-HasReferences (old_notifications settings now db) (old_events settings now db')
          db h)

  swept_rows-HasReferences :
      (db : Database) → HasReferences db → HasReferences (swept_rows settings now db)
  swept_rows-HasReferences db h =
      let db' = without_pending_bindings settings now (
        without_tails settings now
          (without_events settings now (without_notifications settings now db))) in
      let db'' = without_outbox settings now (without_attempts settings now db') in
      other_rows-HasReferences db'' _ _ _ _ _ _ refl (
        delete_outbox-HasReferences _ _
          (delete_attempts-HasReferences _ db' (cleared-HasReferences db h)))

  swept-HasReferences : (db : Database) → HasReferences db → HasReferences (swept settings now db)
  unfolding delete_old_runs
  swept-HasReferences db h =
      other_rows-HasReferences (without_runs settings now (swept_rows settings now db)) _ _ _ _ _ _
        refl
        (delete_old_runs-HasReferences (old_runs settings now (swept_rows settings now db))
          (swept_rows settings now db) (swept_rows-HasReferences db h))

  changed_workspaces-All :
      (db : Database)
      → HasReferences db
      → All
          (λ i. exists_where (λ (w : Workspace). w.id == i) db.workspaces ≡ true)
          (changed_workspaces settings now db)
  unfolding delete_outbox
  changed_workspaces-All db h =
      let db' = without_notifications settings now db in
      let db'' = without_events settings now db' in
      let exists = λ (i : ℕ). exists_where (λ (w : Workspace). w.id == i) db.workspaces ≡ true in
      let of_notifications =
        selected-All (λ (n : Notification). n.workspace_id)
          (λ n. is_one_of (old_notifications settings now db) n.id) db db.notifications
          h.notifications_workspace in
      let of_runs = λ (q : Run → Bool).
        selected-All (λ (r : Run). r.workspace_id) q db db.runs h.runs_workspace in
      let rows = swept_rows settings now db in
      All-append exists _ _
        (All-append exists _ _
          (All-append exists _ _ of_notifications
            (of_runs (owns_event (old_events settings now db') db')))
          (of_runs (λ r. is_one_of (old_tails settings now db'') r.id)))
        (selected-All (λ (r : Run). r.workspace_id)
          (λ r. is_one_of (old_runs settings now rows) r.id) rows rows.runs
          (swept_rows-HasReferences db h).runs_workspace)

  -- The cleanup returns the swept database with raised revisions.
  pub cleanup_retention-ok :
      (db : Database)
      → HasReferences db
      → (db' : Database) × (cleanup_retention settings now db
          ≡ ok (sweep_counts settings now db, db'))
        × (db' ≡ record (swept settings now db) { workspaces = db'.workspaces })
        × (map (λ (w : Workspace). w.id) db'.workspaces ≡ workspace_ids db)
  unfolding delete_outbox delete_old_runs ◌>>=◌
  cleanup_retention-ok db h =
      let exists = λ (i : ℕ). exists_where (λ (w : Workspace). w.id == i) db.workspaces ≡ true in
      let changed = changed_workspaces settings now db in
      let bumped = bump_each-ok (sort_by leb (distinct changed)) (swept settings now db) (
        sort_by-All leb exists (distinct changed)
          (distinct-All exists changed (changed_workspaces-All db h))) in
      (bumped.0, cleanup_retention-swept settings now db ∙ (rw bumped.1 refl), bumped.2, bumped.3)

  -- A cleanup of a database whose foreign keys are right returns, and leaves them right.
  pub cleanup_retention-HasReferences :
      (db : Database)
      → HasReferences db
      → (c : Cleanup) × (db' : Database) × (cleanup_retention settings now db ≡ ok (c, db'))
        × HasReferences db'
  unfolding delete_outbox delete_old_runs
  cleanup_retention-HasReferences db h =
      let done = cleanup_retention-ok db h in
      (
        sweep_counts settings now db,
        done.0,
        done.1,
        subst HasReferences (sym done.2) (
            other_rows-HasReferences (swept settings now db) _ _ _ _ _ done.0.workspaces done.3
              (swept-HasReferences db h)),
      )
