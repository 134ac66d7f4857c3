-- ===== src/Server/Lifecycle/Revoked.antt =====
-- What a revocation leaves: nothing of the machine works, and nothing of it is delivered.
use run_buoy.Prelude.{
  ℕ, ◌+◌, ◌≡◌, refl, sym, ap, ◌∙◌, subst, arith, Bool, true, false, ◌&&◌, Option, none, some, List,
  [], ◌∷◌, ◌++◌, ◌==◌, ==-refl, eq_of_==, if◌then◌else◌, Option-cases, is_none, inl, inr,
}
use run_buoy.Prelude.Table.{
  find_where, exists_where, count_where, update_where, insert, is_one_of, holds_of_find,
  find-update_some,
}
use run_buoy.Prelude.Where.{find_of_exists}
use run_buoy.Prelude.Absent.{none-update, none-delete, none_of_find, ids-select-update}
use run_buoy.Prelude.Exec.{ok, ◌>>=◌, on_option}
use run_buoy.Server.Enums.{machine_principal}
use run_buoy.Server.Rows.{Workspace, Machine, Credential, Binding, machine_revoked}
use run_buoy.Server.Accounts.{AuditAction}
use run_buoy.Server.Notify.{bump_workspace_revision}
use run_buoy.Server.Auth.{
  Principal, is_device_principal, require_device, audit, is_live_credential, machine_of,
}
use run_buoy.Server.Database.{Database, new_id}
use run_buoy.Server.Lifecycle.{
  machine_run_ids, device_binding_ids, binding_ids_of_each, machine_notification_keys, is_push_to,
  cancel_push, cancel_pending_pushes, subscriber_ids, is_credential_of, close_machine,
  close_binding, revoke_credential, revoke_hook, revoke_found_machine, revoke_owned_machine,
  revoke_machine,
}

-- The state of a machine that was revoked: no credential, hook, subscription or binding of it is
-- live, no push of it waits for the devices, and it cannot authenticate.
pub record IsCutOff (machine_id : ℕ) (device_ids : List ℕ) (db : Database) : Type 0 where
  pub machines : exists_where (λ m. m.id == machine_id && is_none m.revoked_at) db.machines ≡ false
  pub credentials : exists_where (is_credential_of machine_id) db.machine_credentials ≡ false
  pub webhooks :
      exists_where (λ w. w.machine_id == machine_id && is_none w.revoked_at) db.webhooks ≡ false
  pub subscriptions : exists_where (λ s. s.machine_id == machine_id) db.subscriptions ≡ false
  pub bindings :
      exists_where
        (λ b. is_one_of (machine_run_ids machine_id db) b.run_id && is_none b.invalidated_at)
        db.bindings
      ≡ false
  pub pushes : exists_where (is_push_to machine_id device_ids db) db.outbox ≡ false

-- bump_workspace_revision of a workspace that is there
pub bump_workspace_revision-ok :
    (w : ℕ) (db : Database)
    → exists_where (λ (v : Workspace). v.id == w) db.workspaces ≡ true
    → (n : ℕ) × (bump_workspace_revision w db
        ≡ ok (
          n,
          record db {
            workspaces =
                update_where
                  (λ v. v.id == w)
                  (λ v. record v { revision = v.revision + 1 })
                  db.workspaces;
          },
        ))
unfolding bump_workspace_revision ◌>>=◌ on_option
bump_workspace_revision-ok w db h =
    let found = find_of_exists (λ (v : Workspace). v.id == w) db.workspaces h in
    (found.0.revision + 1, rw found.1 refl)

-- Closing bindings does not change whose they are.
closed_binding_ids :
    (q : Binding → Bool) (now : ℕ) (run_ids device_ids : List ℕ) (bindings : List Binding)
    → binding_ids_of_each device_ids run_ids (update_where q (close_binding now) bindings)
      ≡ binding_ids_of_each device_ids run_ids bindings
unfolding device_binding_ids close_binding
closed_binding_ids q now run_ids [] bindings = refl
closed_binding_ids q now run_ids (d ∷ ds) bindings =
    rw
      (ids-select-update (λ b. b.id) (λ b. b.device_id == d && is_one_of run_ids b.run_id) q
        (close_binding now) bindings (λ b. refl) (λ b. refl))
      (ap (λ is. device_binding_ids d run_ids bindings ++ is)
        (closed_binding_ids q now run_ids ds bindings))

module _ (principal : Principal) (machine : Machine) (now : ℕ) (db : Database) where
  abbrev without_pushes : Database
  without_pushes = record db {
    outbox =
        update_where (is_push_to machine.id (subscriber_ids machine.id db) db)
          (cancel_push machine_revoked now) db.outbox;
  }

  -- The state before the revision is raised, but for the log.
  abbrev closed : Database
  closed = close_machine machine.id now without_pushes

  closed-IsCutOff :
      (db' : Database)
      → (db' ≡ record closed {
        workspaces = db'.workspaces;
        audit_logs = db'.audit_logs;
        next_id = db'.next_id;
      })
      → IsCutOff machine.id (subscriber_ids machine.id db) db'
  unfolding close_machine machine_run_ids is_push_to cancel_push close_binding revoke_credential
      revoke_hook machine_notification_keys
  closed-IsCutOff db' same =
      let ds = subscriber_ids machine.id db in
      let run_ids = machine_run_ids machine.id db in
      subst (IsCutOff machine.id ds) (sym same) (record {
        machines =
            none-update (λ m. m.id == machine.id && is_none m.revoked_at) (λ m. m.id == machine.id)
              (λ m. record m { revoked_at = some now }) db.machines (λ m e. ground arith)
              (λ m e. ground arith);
        credentials =
            none-update (is_credential_of machine.id) (is_credential_of machine.id)
              (revoke_credential now) db.machine_credentials (λ c e. ground arith) (λ c e. e);
        webhooks =
            none-update (λ w. w.machine_id == machine.id && is_none w.revoked_at)
              (λ w. w.machine_id == machine.id && is_none w.revoked_at) (revoke_hook now)
              db.webhooks (λ w e. ground arith) (λ w e. e);
        subscriptions =
            none-delete (λ s. s.machine_id == machine.id) (λ s. s.machine_id == machine.id)
              db.subscriptions (λ s e. e);
        bindings =
            none-update (λ b. is_one_of run_ids b.run_id && is_none b.invalidated_at)
              (λ b. is_one_of run_ids b.run_id && is_none b.invalidated_at) (close_binding now)
              db.bindings (λ b e. ground arith) (λ b e. e);
        pushes =
            rw
              (
                closed_binding_ids (λ b. is_one_of run_ids b.run_id && is_none b.invalidated_at) now
                    run_ids ds db.bindings,
                is_push_to,
              )
              (none-update (is_push_to machine.id ds db) (is_push_to machine.id ds db)
                (cancel_push machine_revoked now) db.outbox (λ o e. refl) (λ o e. e));
      })

  revoke_found_machine-ok :
      exists_where (λ (v : Workspace). v.id == machine.workspace_id) db.workspaces ≡ true
      → (db' : Database) × (revoke_found_machine principal machine now db ≡ ok (tt, db'))
        × (db' ≡ record closed {
          workspaces = db'.workspaces;
          audit_logs = db'.audit_logs;
          next_id = db'.next_id;
        })
  unfolding revoke_found_machine cancel_pending_pushes close_machine audit new_id ◌>>=◌
  revoke_found_machine-ok h =
      let action =
        AuditAction.machine_revoke machine.id
          (count_where (is_credential_of machine.id) db.machine_credentials)
          (count_where (is_push_to machine.id (subscriber_ids machine.id db) db) db.outbox) in
      let logged : Database = record closed {
        audit_logs =
            insert
              (record {
                id = db.next_id;
                workspace_id = some principal.workspace_id;
                actor_type = principal.kind;
                actor_id = principal.subject_id;
                action = action;
                created_at = now;
              })
              db.audit_logs;
        next_id = db.next_id + 1;
      } in
      let bumped = bump_workspace_revision-ok machine.workspace_id logged h in
      (
        record logged {
          workspaces =
              update_where (λ v. v.id == machine.workspace_id)
                (λ v. record v { revision = v.revision + 1 }) db.workspaces;
        },
        rw bumped.1 refl,
        refl,
      )

-- What authenticates as a machine has a live credential.
machine_of-credential :
    (db : Database) (digest : ℕ) (p : Principal)
    → machine_of db digest ≡ some p
    → (c : Credential) × (find_where (is_live_credential digest) db.machine_credentials ≡ some c)
      × (p.subject_id ≡ c.subject_id)
unfolding machine_of
machine_of-credential db digest p e =
    elim (Option-cases (find_where (is_live_credential digest) db.machine_credentials)) [
      | inl n ↦ (let k = rw (n, machine_of) at e in cc)
      | inr found ↦ (
        found.0,
        found.1,
        subject found.0 (find_where (λ (m : Machine). m.id == found.0.subject_id) db.machines)
            (rw (found.1, machine_of) at e),
      )
    ]
  where
    subject :
        (c : Credential) (o : Option Machine)
        → elim o [
          | none ↦ none
          | some m ↦
              if is_none m.revoked_at
              then some (record {
                kind = machine_principal;
                subject_id = c.subject_id;
                workspace_id = m.workspace_id;
                scopes = c.scopes;
              })
              else none
        ]
          ≡ some p
        → p.subject_id ≡ c.subject_id
    subject c none e = cc
    subject c (some m) e = ground arith

abbrev pub is_subject : ℕ → Option Principal → Bool
is_subject id none = false
is_subject id (some p) = p.subject_id == id

-- A machine without a live credential does not authenticate.
cut_off_machine_of :
    (machine_id : ℕ) (device_ids : List ℕ) (db : Database) (digest : ℕ)
    → IsCutOff machine_id device_ids db
    → is_subject machine_id (machine_of db digest) ≡ false
unfolding is_live_credential
cut_off_machine_of machine_id device_ids db digest h = elim (Option-cases (machine_of db digest)) [
  | inl n ↦ ap (is_subject machine_id) n
  | inr found ↦
      ap (is_subject machine_id) found.1
      ∙ (let c = machine_of-credential db digest found.0 found.1 in
          ground (
            arith,
            c.2,
            none_of_find (is_live_credential digest) (is_credential_of machine_id)
                db.machine_credentials c.0 c.1 h.credentials,
            holds_of_find (is_live_credential digest) db.machine_credentials c.0 c.1,
          ))
]

-- A second revocation changes nothing.
revoke_machine-again :
    (principal : Principal) (machine_id now : ℕ) (db : Database) (m : Machine) (t : ℕ)
    → is_device_principal principal.kind ≡ true
    → find_where (λ (x : Machine). x.id == machine_id) db.machines ≡ some m
    → (m.workspace_id == principal.workspace_id) ≡ true
    → m.revoked_at ≡ some t
    → revoke_machine principal machine_id now db ≡ ok (tt, db)
unfolding revoke_machine revoke_owned_machine require_device ◌>>=◌ on_option
revoke_machine-again principal machine_id now db m t is_device found same revoked =
    rw is_device (rw found (rw same (rw revoked refl)))

-- A device that revokes a machine of its workspace cuts it off: the endpoint succeeds, no credential
-- authenticates as the machine, and a second call changes nothing.
pub revoke_machine-IsCutOff :
    (principal : Principal) (machine_id now : ℕ) (db : Database) (m : Machine)
    → is_device_principal principal.kind ≡ true
    → find_where (λ (x : Machine). x.id == machine_id) db.machines ≡ some m
    → (m.workspace_id == principal.workspace_id) ≡ true
    → is_none m.revoked_at ≡ true
    → exists_where (λ (v : Workspace). v.id == m.workspace_id) db.workspaces ≡ true
    → (db' : Database) × (revoke_machine principal machine_id now db ≡ ok (tt, db'))
      × IsCutOff machine_id (subscriber_ids machine_id db) db'
      × ((digest : ℕ) → is_subject machine_id (machine_of db' digest) ≡ false)
      × ((later : ℕ) → revoke_machine principal machine_id later db' ≡ ok (tt, db'))
unfolding revoke_machine revoke_owned_machine require_device close_machine ◌>>=◌ on_option
revoke_machine-IsCutOff principal machine_id now db m is_device found same live workspace =
    let here : m.id ≡ machine_id =
      eq_of_== m.id machine_id (holds_of_find (λ x. x.id == machine_id) db.machines m found) in
    let done = revoke_found_machine-ok principal m now db workspace in
    let cut : IsCutOff machine_id (subscriber_ids machine_id db) done.0 =
      subst (λ i. IsCutOff i (subscriber_ids i db) done.0) here
        (closed-IsCutOff principal m now db done.0 done.2) in
    (
      done.0,
      rw is_device (rw found (rw same (rw live (rw done.1 refl)))),
      cut,
      λ digest. cut_off_machine_of machine_id (subscriber_ids machine_id db) done.0 digest cut,
      λ later.
          revoke_machine-again principal machine_id later done.0
            (record m { revoked_at = some now }) now is_device
            (ap (λ (s : Database). find_where (λ (x : Machine). x.id == machine_id) s.machines)
                done.2
              ∙ find-update_some (λ x. x.id == machine_id) (λ x. x.id == m.id)
                  (λ x. record x { revoked_at = some now }) db.machines m (λ x e. refl) found
              ∙ ap (λ b. some (if b then record m { revoked_at = some now } else m)) (==-refl m.id))
            same refl,
    )
