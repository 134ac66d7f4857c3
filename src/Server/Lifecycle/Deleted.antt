-- ===== src/Server/Lifecycle/Deleted.antt =====
-- What the deletion of a workspace takes and what it leaves.
use run_buoy.Prelude.{
  ℕ, ◌≡◌, refl, sym, ◌∙◌, ◌||◌, arith, Bool, true, false, not, some, List, [], ◌∷◌, map, ◌==◌, leb,
  All-map_imp,
}
use run_buoy.Prelude.Table.{
  find_where, select_where, exists_where, update_where, delete_where, is_one_of,
}
use run_buoy.Prelude.Where.{
  find_of_exists, none_exists, All-delete_left, select-delete, select-update, All-of_each,
}
use run_buoy.Prelude.Keys.{is_one_of-select_All, IsDistinct, not_selected_All, found_only}
use run_buoy.Server.Lifecycle.Ownership.{
  has_device, has_machine, has_run, has_push, is_push_of, selects_push, device_ids-has_device,
  machine_ids-has_machine, run_ids-has_run, outbox_ids-has_push, selects_push-is_push_of,
}
use run_buoy.Prelude.Exec.{ok, ◌>>=◌, on_option}
use run_buoy.Server.Rows.{Workspace, DeletionChallenge, Run, PushOutbox}
use run_buoy.Server.Auth.{Principal, is_device_principal, require_device}
use run_buoy.Server.Lifecycle.{is_id_among}
use run_buoy.Prelude.Absent.{none-delete}
use run_buoy.Server.Lifecycle.Deletion.{
  owned_rows, delete_workspace_rows, deleted, is_open_challenge, delete_workspace,
}
use run_buoy.Server.Database.{Database}

-- No row of a workspace, and none of its runs, devices, machines and pushes in the tables that refer to
-- them.
pub record IsErased (w : ℕ) (db db' : Database) : Type 0 where
  pub workspaces : exists_where (λ v. v.id == w) db'.workspaces ≡ false
  pub devices : exists_where (λ d. d.workspace_id == w) db'.devices ≡ false
  pub machines : exists_where (λ m. m.workspace_id == w) db'.machines ≡ false
  pub runs : exists_where (λ r. r.workspace_id == w) db'.runs ≡ false
  pub notifications : exists_where (λ n. n.workspace_id == w) db'.notifications ≡ false
  pub webhooks : exists_where (λ h. h.workspace_id == w) db'.webhooks ≡ false
  pub pairings : exists_where (λ p. is_id_among (w ∷ []) p.workspace_id) db'.pairings ≡ false
  pub challenges : exists_where (λ c. c.workspace_id == w) db'.challenges ≡ false
  pub audit_logs : exists_where (λ a. is_id_among (w ∷ []) a.workspace_id) db'.audit_logs ≡ false
  pub device_credentials :
      exists_where (λ c. has_device w db c.subject_id) db'.device_credentials ≡ false
  pub machine_credentials :
      exists_where (λ c. has_machine w db c.subject_id) db'.machine_credentials ≡ false
  pub subscriptions :
      exists_where
        (λ s. has_machine w db s.machine_id || has_device w db s.device_id)
        db'.subscriptions
      ≡ false
  pub events : exists_where (λ e. has_run w db e.run_id) db'.events ≡ false
  pub bindings : exists_where (λ b. has_run w db b.run_id) db'.bindings ≡ false
  pub outbox : exists_where (is_push_of w db) db'.outbox ≡ false
  pub attempts : exists_where (λ a. has_push w db a.outbox_id) db'.attempts ≡ false

-- The rows of another workspace, and in the tables that refer to devices, machines, runs and pushes
-- those that refer to none of the erased one, are as before, in their order.
pub record IsSpared (w v : ℕ) (db db' : Database) : Type 0 where
  pub workspaces :
      select_where (λ x. x.id == v) db'.workspaces ≡ select_where (λ x. x.id == v) db.workspaces
  pub devices :
      select_where (λ d. d.workspace_id == v) db'.devices
      ≡ select_where (λ d. d.workspace_id == v) db.devices
  pub machines :
      select_where (λ m. m.workspace_id == v) db'.machines
      ≡ select_where (λ m. m.workspace_id == v) db.machines
  pub runs :
      select_where (λ r. r.workspace_id == v) db'.runs
      ≡ select_where (λ r. r.workspace_id == v) db.runs
  pub notifications :
      select_where (λ n. n.workspace_id == v) db'.notifications
      ≡ select_where (λ n. n.workspace_id == v) db.notifications
  pub webhooks :
      select_where (λ h. h.workspace_id == v) db'.webhooks
      ≡ select_where (λ h. h.workspace_id == v) db.webhooks
  pub pairings :
      select_where (λ p. not (is_id_among (w ∷ []) p.workspace_id)) db'.pairings
      ≡ select_where (λ p. not (is_id_among (w ∷ []) p.workspace_id)) db.pairings
  pub challenges :
      select_where (λ c. c.workspace_id == v) db'.challenges
      ≡ select_where (λ c. c.workspace_id == v) db.challenges
  pub audit_logs :
      select_where (λ a. not (is_id_among (w ∷ []) a.workspace_id)) db'.audit_logs
      ≡ select_where (λ a. not (is_id_among (w ∷ []) a.workspace_id)) db.audit_logs
  pub device_credentials :
      select_where (λ c. not (has_device w db c.subject_id)) db'.device_credentials
      ≡ select_where (λ c. not (has_device w db c.subject_id)) db.device_credentials
  pub machine_credentials :
      select_where (λ c. not (has_machine w db c.subject_id)) db'.machine_credentials
      ≡ select_where (λ c. not (has_machine w db c.subject_id)) db.machine_credentials
  pub subscriptions :
      select_where
        (λ s. not (has_machine w db s.machine_id || has_device w db s.device_id))
        db'.subscriptions
      ≡ select_where
          (λ s. not (has_machine w db s.machine_id || has_device w db s.device_id))
          db.subscriptions
  pub events :
      select_where (λ e. not (has_run w db e.run_id)) db'.events
      ≡ select_where (λ e. not (has_run w db e.run_id)) db.events
  pub bindings :
      select_where (λ b. not (has_run w db b.run_id)) db'.bindings
      ≡ select_where (λ b. not (has_run w db b.run_id)) db.bindings
  pub outbox :
      select_where (λ o. not (is_push_of w db o)) db'.outbox
      ≡ select_where (λ o. not (is_push_of w db o)) db.outbox
  pub attempts :
      select_where (λ a. not (has_push w db a.outbox_id)) db'.attempts
      ≡ select_where (λ a. not (has_push w db a.outbox_id)) db.attempts

-- A deletion by a condition that has another form.
none-delete_as :
    {A : Type 0} (p q : A → Bool) (rows : List A)
    → ((a : A) → q a ≡ p a)
    → exists_where p (delete_where q rows) ≡ false
none-delete_as p q rows h = none-delete p q rows (λ a e. sym (h a) ∙ e)

select-delete_as :
    {A : Type 0} (p q : A → Bool) (rows : List A)
    → ((a : A) → q a ≡ p a)
    → select_where (λ r. not (p r)) (delete_where q rows) ≡ select_where (λ r. not (p r)) rows
select-delete_as p q rows h =
    select-delete (λ r. not (p r)) q rows
      (All-of_each (λ r. not (p r) ≡ true → q r ≡ false) rows (λ r e. h r ∙ ground (arith, e)))

select-delete_key :
    {A : Type 0} (key : A → ℕ) (w v : ℕ) (rows : List A)
    → (w == v) ≡ false
    → select_where (λ r. key r == v) (delete_where (λ r. key r == w) rows)
      ≡ select_where (λ r. key r == v) rows
select-delete_key key w v rows h =
    select-delete (λ r. key r == v) (λ r. key r == w) rows
      (All-of_each (λ r. (key r == v) ≡ true → (key r == w) ≡ false) rows (λ r e. ground arith))

-- Deleting the rows that a query gives leaves none that it would give.
none-delete_selected :
    {A : Type 0} (id : A → ℕ) (p q : A → Bool) (rows : List A)
    → ((a : A) → p a ≡ true → q a ≡ true)
    → exists_where p (delete_where (λ r. is_one_of (map id (select_where q rows)) (id r)) rows)
      ≡ false
none-delete_selected id p q rows h =
    let ids = map id (select_where q rows) in
    none_exists p (delete_where (λ r. is_one_of ids (id r)) rows) (
      All-delete_left (λ r. p r ≡ false) (λ r. is_one_of ids (id r)) rows
        (All-map_imp (λ r. q r ≡ true → is_one_of ids (id r) ≡ true)
          (λ r. is_one_of ids (id r) ≡ false → p r ≡ false) (λ r k e. ground (arith, k, h r)) rows
          (is_one_of-select_All id q rows)))

pub delete_workspace_rows-IsErased :
    (w : ℕ) (db : Database) (challenges : List DeletionChallenge)
    → IsErased w db (delete_workspace_rows w (record db { challenges = challenges }))
unfolding delete_workspace_rows owned_rows
delete_workspace_rows-IsErased w db challenges = record {
  workspaces = none-delete (λ v. v.id == w) (λ v. v.id == w) db.workspaces (λ v e. e);
  devices = none-delete (λ d. d.workspace_id == w) (λ d. d.workspace_id == w) db.devices (λ d e. e);
  machines =
      none-delete (λ m. m.workspace_id == w) (λ m. m.workspace_id == w) db.machines (λ m e. e);
  runs =
      none-delete_selected (λ r. r.id) (λ r. r.workspace_id == w) (λ r. r.workspace_id == w) db.runs
        (λ r e. e);
  notifications =
      none-delete (λ n. n.workspace_id == w) (λ n. n.workspace_id == w) db.notifications (λ n e. e);
  webhooks =
      none-delete (λ h. h.workspace_id == w) (λ h. h.workspace_id == w) db.webhooks (λ h e. e);
  pairings =
      none-delete (λ p. is_id_among (w ∷ []) p.workspace_id)
        (λ p. is_id_among (w ∷ []) p.workspace_id) db.pairings (λ p e. e);
  challenges =
      none-delete (λ c. c.workspace_id == w) (λ c. c.workspace_id == w) challenges (λ c e. e);
  audit_logs =
      none-delete (λ a. is_id_among (w ∷ []) a.workspace_id)
        (λ a. is_id_among (w ∷ []) a.workspace_id) db.audit_logs (λ a e. e);
  device_credentials =
      none-delete_as (λ c. has_device w db c.subject_id) _ db.device_credentials
        (λ c. device_ids-has_device w db c.subject_id);
  machine_credentials =
      none-delete_as (λ c. has_machine w db c.subject_id) _ db.machine_credentials
        (λ c. machine_ids-has_machine w db c.subject_id);
  subscriptions =
      none-delete_as (λ s. has_machine w db s.machine_id || has_device w db s.device_id) _
        db.subscriptions
        (λ s.
          rw (machine_ids-has_machine w db s.machine_id, device_ids-has_device w db s.device_id)
            refl);
  events =
      none-delete_as (λ e. has_run w db e.run_id) _ db.events (λ e. run_ids-has_run w db e.run_id);
  bindings =
      none-delete_as (λ b. has_run w db b.run_id) _ db.bindings
        (λ b. run_ids-has_run w db b.run_id);
  outbox =
      none-delete_selected (λ o. o.id) (is_push_of w db) (selects_push w db) db.outbox
        (λ o e. selects_push-is_push_of w db o ∙ e);
  attempts =
      none-delete_as (λ a. has_push w db a.outbox_id) _ db.attempts
        (λ a. outbox_ids-has_push w db a.outbox_id);
}

delete_workspace_rows-IsSpared :
    (w v : ℕ) (db : Database) (challenges : List DeletionChallenge)
    → (w == v) ≡ false
    → IsDistinct (map (λ (r : Run). r.id) db.runs)
    → IsDistinct (map (λ (o : PushOutbox). o.id) db.outbox)
    → select_where (λ (c : DeletionChallenge). c.workspace_id == v) challenges
      ≡ select_where (λ c. c.workspace_id == v) db.challenges
    → IsSpared w v db (delete_workspace_rows w (record db { challenges = challenges }))
unfolding delete_workspace_rows owned_rows
delete_workspace_rows-IsSpared w v db challenges other keys push_keys same = record {
  workspaces = select-delete_key (λ x. x.id) w v db.workspaces other;
  devices = select-delete_key (λ d. d.workspace_id) w v db.devices other;
  machines = select-delete_key (λ m. m.workspace_id) w v db.machines other;
  runs =
      select-delete (λ r. r.workspace_id == v) (λ r. is_one_of (owned_rows w db).run_ids r.id)
        db.runs
        (All-map_imp
          (λ (r : Run).
            (r.workspace_id == w) ≡ false → is_one_of (owned_rows w db).run_ids r.id ≡ false)
          (λ r. (r.workspace_id == v) ≡ true → is_one_of (owned_rows w db).run_ids r.id ≡ false)
          (λ r k e. k (ground arith)) db.runs
          (not_selected_All (λ r. r.id) (λ r. r.workspace_id == w) db.runs keys));
  notifications = select-delete_key (λ n. n.workspace_id) w v db.notifications other;
  webhooks = select-delete_key (λ h. h.workspace_id) w v db.webhooks other;
  pairings = select-delete_as (λ p. is_id_among (w ∷ []) p.workspace_id) _ db.pairings (λ p. refl);
  challenges = select-delete_key (λ c. c.workspace_id) w v challenges other ∙ same;
  audit_logs =
      select-delete_as (λ a. is_id_among (w ∷ []) a.workspace_id) _ db.audit_logs (λ a. refl);
  device_credentials =
      select-delete_as (λ c. has_device w db c.subject_id) _ db.device_credentials
        (λ c. device_ids-has_device w db c.subject_id);
  machine_credentials =
      select-delete_as (λ c. has_machine w db c.subject_id) _ db.machine_credentials
        (λ c. machine_ids-has_machine w db c.subject_id);
  subscriptions =
      select-delete_as (λ s. has_machine w db s.machine_id || has_device w db s.device_id) _
        db.subscriptions
        (λ s.
          rw (machine_ids-has_machine w db s.machine_id, device_ids-has_device w db s.device_id)
            refl);
  events =
      select-delete_as (λ e. has_run w db e.run_id) _ db.events
        (λ e. run_ids-has_run w db e.run_id);
  bindings =
      select-delete_as (λ b. has_run w db b.run_id) _ db.bindings
        (λ b. run_ids-has_run w db b.run_id);
  outbox =
      select-delete (λ o. not (is_push_of w db o))
        (λ o.
          is_one_of (map (λ (x : PushOutbox). x.id) (select_where (selects_push w db) db.outbox))
            o.id)
        db.outbox
        (All-map_imp
          (λ (o : PushOutbox).
            selects_push w db o ≡ false
            → is_one_of
                (map (λ (x : PushOutbox). x.id) (select_where (selects_push w db) db.outbox)) o.id
              ≡ false)
          (λ o.
            not (is_push_of w db o) ≡ true
            → is_one_of
                (map (λ (x : PushOutbox). x.id) (select_where (selects_push w db) db.outbox)) o.id
              ≡ false)
          (λ o k e. k (selects_push-is_push_of w db o ∙ ground (arith, e))) db.outbox
          (not_selected_All (λ o. o.id) (selects_push w db) db.outbox push_keys));
  attempts =
      select-delete_as (λ a. has_push w db a.outbox_id) _ db.attempts
        (λ a. outbox_ids-has_push w db a.outbox_id);
}

pub delete_workspace-ok :
    (principal : Principal) (w digest now : ℕ) (db : Database) (c : DeletionChallenge)
    → is_device_principal principal.kind ≡ true
    → (w == principal.workspace_id) ≡ true
    → exists_where (λ (v : Workspace). v.id == w) db.workspaces ≡ true
    → find_where (is_open_challenge w principal.subject_id) db.challenges ≡ some c
    → (c.token_hash == digest) ≡ true
    → leb c.expires_at now ≡ false
    → (challenges : List DeletionChallenge) × (delete_workspace principal w digest now db
        ≡ ok (deleted, delete_workspace_rows w (record db { challenges = challenges })))
      × (challenges
          ≡ update_where
              (λ (d : DeletionChallenge). d.id == c.id)
              (λ d. record d { consumed_at = some now })
              db.challenges)
unfolding delete_workspace require_device ◌>>=◌ on_option
delete_workspace-ok principal w digest now db c is_device same exists found hash timely = (
  update_where (λ (d : DeletionChallenge). d.id == c.id) (λ d. record d { consumed_at = some now })
      db.challenges,
  rw is_device (
      rw same (
        rw found (
          rw hash (
            rw timely
              (rw (find_of_exists (λ (v : Workspace). v.id == w) db.workspaces exists).1 refl))))),
  refl,
)

-- A challenge that is consumed is none of another workspace.
consumed-spared :
    (w v device now : ℕ) (rows : List DeletionChallenge) (c : DeletionChallenge)
    → IsDistinct (map (λ (d : DeletionChallenge). d.id) rows)
    → find_where (is_open_challenge w device) rows ≡ some c
    → (w == v) ≡ false
    → select_where
        (λ d. d.workspace_id == v)
        (update_where (λ d. d.id == c.id) (λ d. record d { consumed_at = some now }) rows)
      ≡ select_where (λ d. d.workspace_id == v) rows
unfolding is_open_challenge
consumed-spared w v device now rows c keys found other =
    select-update (λ d. d.workspace_id == v) (λ d. d.id == c.id)
      (λ d. record d { consumed_at = some now }) rows
      (All-map_imp (λ d. (d.id == c.id) ≡ true → is_open_challenge w device d ≡ true)
        (λ d.
          (d.id == c.id) ≡ true → ((d.workspace_id == v) ≡ false) × ((d.workspace_id == v) ≡ false))
        (λ d k e. (ground (arith, k e, other), ground (arith, k e, other))) rows
        (found_only (λ d. d.id) (is_open_challenge w device) rows c keys found))

-- If the identifiers of runs, of pushes and of challenges differ, a device that sends the open
-- challenge of its workspace before its end deletes the workspace: in each table but those of request
-- counters and of quota locks, no row of it is left, nor one of its runs, devices, machines and pushes;
-- and the rows of any other workspace, and those that refer to no run, device, machine or push of the
-- deleted one, are as before.
pub delete_workspace-IsErased :
    (principal : Principal) (w v digest now : ℕ) (db : Database) (c : DeletionChallenge)
    → is_device_principal principal.kind ≡ true
    → (w == principal.workspace_id) ≡ true
    → exists_where (λ (x : Workspace). x.id == w) db.workspaces ≡ true
    → IsDistinct (map (λ (r : Run). r.id) db.runs)
    → IsDistinct (map (λ (o : PushOutbox). o.id) db.outbox)
    → IsDistinct (map (λ (d : DeletionChallenge). d.id) db.challenges)
    → find_where (is_open_challenge w principal.subject_id) db.challenges ≡ some c
    → (c.token_hash == digest) ≡ true
    → leb c.expires_at now ≡ false
    → (w == v) ≡ false
    → (db' : Database) × (delete_workspace principal w digest now db ≡ ok (deleted, db'))
      × IsErased w db db'
      × IsSpared w v db db'
delete_workspace-IsErased principal w v digest now db c is_device same exists keys push_keys
      challenge_keys found hash timely other =
    let gone =
      delete_workspace-ok principal w digest now db c is_device same exists found hash timely in
    (
      delete_workspace_rows w (record db { challenges = gone.0 }),
      gone.1,
      delete_workspace_rows-IsErased w db gone.0,
      delete_workspace_rows-IsSpared w v db gone.0 other keys push_keys (
          rw gone.2 (
            consumed-spared w v principal.subject_id now db.challenges c challenge_keys found
              other)),
    )
