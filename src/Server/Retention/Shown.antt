-- ===== src/Server/Retention/Shown.antt =====
-- What a cleanup never deletes: runs that a device still shows.
use run_buoy.Prelude.{
  ℕ, ◌≡◌, ap, ◌∙◌, arith, Bool, true, false, not, ◌&&◌, ◌==◌, All-map_imp, is_none, eq_of_==,
}
use run_buoy.Prelude.Table.{exists_where, is_one_of}
use run_buoy.Prelude.Where.{exists-update_kept, All-of_each}
use run_buoy.Prelude.Keys.{not_in_page_All}
use run_buoy.Prelude.Exec.{ok}
use run_buoy.Server.Enums.{is_deliverable}
use run_buoy.Server.Rows.{Binding}
use run_buoy.Server.Database.{Database, Settings}
use run_buoy.Server.Retention.{
  is_old_run, is_old_pending_binding, limited_ids, has_active_binding, expire_binding,
  old_pending_bindings,
}
use run_buoy.Server.Retention.Batch.{delete_outbox, Cleanup, cleanup_retention}
use run_buoy.Server.Retention.Swept.{
  without_notifications, without_events, without_tails, swept_rows, sweep_counts,
}
use run_buoy.Server.Retention.References.{HasReferences, cleanup_retention-ok}
use run_buoy.Server.Retention.Kept.{HasKeys, run_rows, run-Kept}

-- A binding that its device still shows, and that no cleanup at this time expires.
unfoldable pub is_lasting : Settings → ℕ → ℕ → Binding → Bool
is_lasting settings now id b =
    b.run_id == id
    && is_deliverable b.state
    && is_none b.invalidated_at
    && not (is_old_pending_binding settings now b)

module _ (settings : Settings) (now : ℕ) (db : Database) (keys : HasKeys db) (id : ℕ) where
  shown :
      exists_where (is_lasting settings now id) db.bindings ≡ true
      → has_active_binding (swept_rows settings now db) id ≡ true
  unfolding delete_outbox has_active_binding is_lasting old_pending_bindings limited_ids
  shown h =
      let db' =
        without_tails settings now
          (without_events settings now (without_notifications settings now db)) in
      let ids = old_pending_bindings settings now db' in
      exists-update_kept (is_lasting settings now id)
        (λ b. b.run_id == id && is_deliverable b.state && is_none b.invalidated_at)
        (λ b. is_one_of ids b.id) (expire_binding now) db.bindings
        (All-map_imp
          (λ b. is_old_pending_binding settings now b ≡ false → is_one_of ids b.id ≡ false)
          (λ b.
            is_lasting settings now id b ≡ true
            → (is_one_of ids b.id ≡ false)
              × ((b.run_id == id && is_deliverable b.state && is_none b.invalidated_at) ≡ true))
          (λ b k e. (k (ground arith), ground arith)) db.bindings
          (not_in_page_All (λ b. b.id) (is_old_pending_binding settings now) _ _ db.bindings
            keys.bindings))
        h

-- A cleanup keeps a run, terminal or not, that a device still shows.
pub cleanup_retention-keeps_shown :
    (settings : Settings) (now : ℕ) (db : Database) (id : ℕ)
    → HasReferences db
    → HasKeys db
    → exists_where (is_lasting settings now id) db.bindings ≡ true
    → (c : Cleanup) × (db' : Database) × (cleanup_retention settings now db ≡ ok (c, db'))
      × (run_rows id db' ≡ run_rows id db)
unfolding is_old_run
cleanup_retention-keeps_shown settings now db id references keys h =
    let done = cleanup_retention-ok settings now db references in
    (
      sweep_counts settings now db,
      done.0,
      done.1,
      ap (run_rows id) done.2
          ∙ run-Kept settings now db keys id (
              All-of_each
                (λ r.
                  r.id == id ≡ true
                  → is_old_run settings now (swept_rows settings now db) r ≡ false)
                (swept_rows settings now db).runs
                (λ r e. ground (
                  arith,
                  ap (has_active_binding (swept_rows settings now db)) (eq_of_== r.id id e)
                      ∙ shown settings now db keys id h,
                ))),
    )
