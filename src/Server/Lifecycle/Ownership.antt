-- ===== src/Server/Lifecycle/Ownership.antt =====
-- Which rows belong to a workspace through others, said row by row.
use run_buoy.Prelude.{
  ℕ, ◌≡◌, refl, ◌∙◌, Bool, false, not, ◌&&◌, ◌||◌, Option, none, some, List, [], ◌∷◌, ◌==◌,
}
use run_buoy.Prelude.Table.{exists_where, is_one_of}
use run_buoy.Prelude.Keys.{is_one_of-select_where}
use run_buoy.Server.Enums.{is_device}
use run_buoy.Server.Rows.{Device, Machine, Run, Binding, PushOutbox}
use run_buoy.Server.Lifecycle.{is_id_among}
use run_buoy.Server.Lifecycle.Deletion.{owned_rows}
use run_buoy.Server.Database.{Database}

module _ (w : ℕ) (db : Database) where
  -- The identifier is that of a device, a machine or a run of the workspace.
  abbrev pub has_device : ℕ → Bool
  has_device i = exists_where (λ (d : Device). d.workspace_id == w && d.id == i) db.devices

  abbrev pub has_machine : ℕ → Bool
  has_machine i = exists_where (λ (m : Machine). m.workspace_id == w && m.id == i) db.machines

  abbrev pub has_run : ℕ → Bool
  has_run i = exists_where (λ (r : Run). r.workspace_id == w && r.id == i) db.runs

  -- It is that of a binding of one of its devices or runs.
  abbrev pub has_binding : ℕ → Bool
  has_binding i =
      exists_where (λ (b : Binding). (has_device b.device_id || has_run b.run_id) && b.id == i)
        db.bindings

  abbrev pub is_of_run : Option ℕ → Bool
  is_of_run none = false
  is_of_run (some r) = has_run r

  -- The push belongs to one of its runs, or goes to one of its devices or bindings.
  abbrev pub is_push_of : PushOutbox → Bool
  is_push_of o =
      is_of_run o.run_id
      || is_device o.target_type && has_device o.target_id
      || not (is_device o.target_type) && has_binding o.target_id

  abbrev pub has_push : ℕ → Bool
  has_push i = exists_where (λ (o : PushOutbox). is_push_of o && o.id == i) db.outbox

  exists_same :
      {A : Type 0} (p q : A → Bool) (rows : List A)
      → ((a : A) → p a ≡ q a)
      → exists_where p rows ≡ exists_where q rows
  exists_same p q [] h = refl
  exists_same p q (x ∷ xs) h = rw (h x, exists_same p q xs h) refl

  pub device_ids-has_device : (i : ℕ) → is_one_of (owned_rows w db).device_ids i ≡ has_device i
  unfolding owned_rows
  device_ids-has_device i =
      is_one_of-select_where (λ (d : Device). d.id) (λ d. d.workspace_id == w) db.devices i

  pub machine_ids-has_machine : (i : ℕ) → is_one_of (owned_rows w db).machine_ids i ≡ has_machine i
  unfolding owned_rows
  machine_ids-has_machine i =
      is_one_of-select_where (λ (m : Machine). m.id) (λ m. m.workspace_id == w) db.machines i

  pub run_ids-has_run : (i : ℕ) → is_one_of (owned_rows w db).run_ids i ≡ has_run i
  unfolding owned_rows
  run_ids-has_run i =
      is_one_of-select_where (λ (r : Run). r.id) (λ r. r.workspace_id == w) db.runs i

  pub binding_ids-has_binding : (i : ℕ) → is_one_of (owned_rows w db).binding_ids i ≡ has_binding i
  unfolding owned_rows
  binding_ids-has_binding i =
      is_one_of-select_where (λ (b : Binding). b.id)
        (λ b.
          is_one_of (owned_rows w db).device_ids b.device_id
          || is_one_of (owned_rows w db).run_ids b.run_id)
        db.bindings i
      ∙ exists_same _ _ db.bindings
          (λ b. rw (device_ids-has_device b.device_id, run_ids-has_run b.run_id) refl)

  -- The condition on the pushes in `owned_rows`.
  abbrev pub selects_push : PushOutbox → Bool
  selects_push o =
      is_id_among (owned_rows w db).run_ids o.run_id
      || is_device o.target_type && is_one_of (owned_rows w db).device_ids o.target_id
      || not (is_device o.target_type) && is_one_of (owned_rows w db).binding_ids o.target_id

  run_among : (o : Option ℕ) → is_id_among (owned_rows w db).run_ids o ≡ is_of_run o
  run_among none = refl
  run_among (some r) = run_ids-has_run r

  pub selects_push-is_push_of : (o : PushOutbox) → selects_push o ≡ is_push_of o
  selects_push-is_push_of o =
      rw
        (run_among o.run_id, device_ids-has_device o.target_id, binding_ids-has_binding o.target_id)
        refl

  pub outbox_ids-has_push : (i : ℕ) → is_one_of (owned_rows w db).outbox_ids i ≡ has_push i
  unfolding owned_rows
  outbox_ids-has_push i =
      is_one_of-select_where (λ (o : PushOutbox). o.id) selects_push db.outbox i
      ∙ exists_same _ _ db.outbox (λ o. rw (selects_push-is_push_of o) refl)
