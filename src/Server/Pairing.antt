-- ===== src/Server/Pairing.antt =====
-- The pairing of a machine with the workspace of a phone, in server/app/api.py. The rate limits of its
-- endpoints are those of `Server.RateLimit`.
pub mod Once
pub mod Exchange
use run_buoy.Prelude.{
  ℕ, ◌+◌, Bool, true, false, not, ◌&&◌, ◌||◌, Option, none, some, List, [], ◌∷◌, ◌==◌, ltb, leb,
  if◌then◌else◌, is_none, is_some, or_else,
}
use run_buoy.Prelude.Table.{find_where, exists_where, count_where, update_where, insert}
use run_buoy.Prelude.Exec.{pure, raise, gets, modify, ◌>>=◌, ◌>>◌, on_option}
use run_buoy.Server.Enums.{
  Scope, runs_create, runs_update, events_write, notifications_send, hooks_manage, machines_update,
  pairing_poll,
}
use run_buoy.Server.Rows.{seconds, Subject, subject_eq, Machine, Subscription, Credential}
use run_buoy.Server.Accounts.{
  MachineMetadata, PairingSession, workspace_machines_lock, pending_pairings_lock,
}
use run_buoy.Server.Auth.{Principal}
use run_buoy.Server.Quota.{acquire_quota_lock}
use run_buoy.Server.Notify.{bump_workspace_revision}
use run_buoy.Server.Database.{
  Database, Settings, resource_quota_exceeded, pairing_not_found, pairing_expired,
  pairing_already_claimed, pairing_challenge_mismatch, machine_already_paired,
  invalid_pairing_secret, pairing_not_claimed, pairing_already_exchanged, Handler, new_id,
}

-- MACHINE_SCOPES
abbrev pub machine_scopes : List Scope
machine_scopes =
    runs_create ∷ runs_update ∷ events_write ∷ notifications_send ∷ hooks_manage ∷ machines_update
    ∷ pairing_poll ∷ []

abbrev pub is_session : ℕ → PairingSession → Bool
is_session id p = p.id == id

unfoldable pub is_pending_pairing : Subject → ℕ → PairingSession → Bool
is_pending_pairing creator now p =
    elim p.creator_key [ none ↦ false | some k ↦ subject_eq k creator ]
    && is_none p.claimed_at
    && ltb now p.expires_at

-- `token_hash` is the keyed digest of a token; the secret, the challenge and the short code are new
-- random values.
module _ (token_hash : ℕ → ℕ) where
  unfoldable pub new_pairing :
      Settings → Subject → MachineMetadata → ℕ → ℕ → ℕ → ℕ → ℕ → PairingSession
  new_pairing settings creator body raw_secret challenge short_code now id = record {
    id = id;
    challenge = challenge;
    short_code = short_code;
    exchange_secret_hash = token_hash raw_secret;
    requested_machine_metadata = body;
    expires_at = now + seconds settings.pairing_ttl_seconds;
    claimed_at = none;
    exchanged_at = none;
    workspace_id = none;
    machine_id = none;
    creator_key = some creator;
  }

  -- create_pairing_session after its rate limit
  unfoldable pub create_pairing_session :
      Settings → Subject → MachineMetadata → ℕ → ℕ → ℕ → ℕ → Handler PairingSession
  create_pairing_session settings creator body raw_secret challenge short_code now = do
    acquire_quota_lock (pending_pairings_lock creator) now
    pending ← gets (λ db. count_where (is_pending_pairing creator now) db.pairings)
    if leb settings.max_pending_pairings_per_ip pending
        then raise (
            resource_quota_exceeded "pending_pairing_sessions" settings.max_pending_pairings_per_ip)
        else do
          id ← new_id
          modify (λ db. record db {
            pairings =
                insert (new_pairing settings creator body raw_secret challenge short_code now id)
                  db.pairings;
          })
          pure (new_pairing settings creator body raw_secret challenge short_code now id)

-- The status that a poll reports.
pub data PairingStatus : Type 0 where
  pairing_pending pairing_claimed pairing_exchanged : PairingStatus

unfoldable pub pairing_status : PairingSession → PairingStatus
pairing_status p =
    if is_some p.exchanged_at
    then pairing_exchanged
    else if is_some p.claimed_at
    then pairing_claimed
    else pairing_pending

-- get_pairing_session after its rate limit, with the digest of the secret
unfoldable pub get_pairing_session : ℕ → ℕ → ℕ → Handler (PairingStatus × Option ℕ × ℕ)
get_pairing_session session_id digest now = do
  found ← gets (λ db. find_where (is_session session_id) db.pairings)
  on_option found (raise invalid_pairing_secret) (λ p.
      if not (p.exchange_secret_hash == digest)
      then raise invalid_pairing_secret
      else if leb p.expires_at now
      then raise pairing_expired
      else pure (pairing_status p, p.machine_id, p.expires_at))

unfoldable pub new_machine : MachineMetadata → ℕ → ℕ → ℕ → Machine
new_machine body workspace_id now id = record {
  id = id;
  workspace_id = workspace_id;
  display_name = body.display_name;
  hostname = body.hostname;
  platform = body.platform;
  architecture = body.architecture;
  cli_version = body.cli_version;
  last_seen_at = now;
  paired_at = now;
  revoked_at = none;
}

unfoldable pub repair_machine : MachineMetadata → ℕ → Machine → Machine
repair_machine body now m = record m {
  display_name = body.display_name;
  hostname = body.hostname;
  platform = body.platform;
  architecture = body.architecture;
  cli_version = body.cli_version;
  revoked_at = none;
  paired_at = now;
  last_seen_at = now;
}

-- A new machine, or a revoked one of the same workspace.
unfoldable pub attach_machine : Principal → MachineMetadata → ℕ → ℕ → Handler Unit
attach_machine principal body machine_id now = do
  found ← gets (λ db. find_where (λ (m : Machine). m.id == machine_id) db.machines)
  on_option found
      (modify (λ db. record db {
        machines = insert (new_machine body principal.workspace_id now machine_id) db.machines;
      }))
      (λ m.
        if is_none m.revoked_at || not (m.workspace_id == principal.workspace_id)
        then raise machine_already_paired
        else modify (λ db. record db {
          machines = update_where (λ n. n.id == machine_id) (repair_machine body now) db.machines;
        }))

unfoldable pub subscribe : ℕ → ℕ → ℕ → Handler Unit
subscribe machine_id device_id now = do
  exists ← gets (λ db.
      exists_where (λ (s : Subscription). s.machine_id == machine_id && s.device_id == device_id)
        db.subscriptions)
  if exists then pure tt else do
    id ← new_id
    modify (λ db. record db {
      subscriptions =
          insert
            (record { id = id; machine_id = machine_id; device_id = device_id; created_at = now })
            db.subscriptions;
    })

unfoldable pub mark_claimed : Principal → ℕ → ℕ → PairingSession → PairingSession
mark_claimed principal machine_id now p = record p {
  claimed_at = some now;
  workspace_id = some principal.workspace_id;
  machine_id = some machine_id;
}

-- The writes of a claim: the machine, the subscription and the session.
unfoldable pub claim_session : Principal → ℕ → MachineMetadata → ℕ → ℕ → Handler ℕ
claim_session principal session_id body machine_id now = do
  attach_machine principal body machine_id now
  subscribe machine_id principal.subject_id now
  modify (λ db. record db {
    pairings =
        update_where (is_session session_id) (mark_claimed principal machine_id now) db.pairings;
  })
  bump_workspace_revision principal.workspace_id
  pure machine_id

unfoldable pub machine_id_for : PairingSession → Handler ℕ
machine_id_for p = on_option p.requested_machine_metadata.machine_id new_id pure

-- claim_pairing_session
unfoldable pub claim_pairing_session : Settings → Principal → ℕ → ℕ → ℕ → Handler ℕ
claim_pairing_session settings principal session_id challenge now = do
  found ← gets (λ db. find_where (is_session session_id) db.pairings)
  on_option found (raise pairing_not_found) (λ p.
      if leb p.expires_at now
      then raise pairing_expired
      else if is_some p.claimed_at
      then raise pairing_already_claimed
      else if not (p.challenge == challenge)
      then raise pairing_challenge_mismatch
      else do
        acquire_quota_lock (workspace_machines_lock principal.workspace_id) now
        machines ← gets (λ db.
            count_where
              (λ (m : Machine). m.workspace_id == principal.workspace_id && is_none m.revoked_at)
              db.machines)
        if leb settings.max_machines_per_workspace machines
            then raise (resource_quota_exceeded "machines" settings.max_machines_per_workspace)
            else do
              machine_id ← machine_id_for p
              claim_session principal session_id p.requested_machine_metadata machine_id now)

-- exchange_pairing_session, with the digest of the secret; the new token's digest is `token_digest`.
unfoldable pub exchange_pairing_session : ℕ → ℕ → ℕ → ℕ → Handler (ℕ × Option ℕ)
exchange_pairing_session session_id digest token_digest now = do
  found ← gets (λ db. find_where (is_session session_id) db.pairings)
  on_option found (raise invalid_pairing_secret) (λ p.
      if not (p.exchange_secret_hash == digest)
      then raise invalid_pairing_secret
      else if leb p.expires_at now
      then raise pairing_expired
      else if is_none p.claimed_at
      then raise pairing_not_claimed
      else on_option p.machine_id (raise pairing_not_claimed) (λ machine_id.
        if is_some p.exchanged_at then raise pairing_already_exchanged else do
          id ← new_id
          modify (λ db. record db {
            machine_credentials =
                insert
                  (record {
                    id = id;
                    subject_id = machine_id;
                    token_hash = token_digest;
                    scopes = machine_scopes;
                    created_at = now;
                    revoked_at = none;
                  })
                  db.machine_credentials;
            pairings =
                update_where (is_session session_id) (λ q. record q { exchanged_at = some now })
                  db.pairings;
          })
          pure (machine_id, p.workspace_id)))
