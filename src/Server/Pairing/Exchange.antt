-- ===== src/Server/Pairing/Exchange.antt =====
-- What the machine gets for its secret.
use run_buoy.Prelude.{
  ℕ, ◌+◌, ◌≡◌, refl, ap, ◌∙◌, arith, true, false, none, some, List, [], ◌∷◌, ◌==◌, leb,
  if◌then◌else◌, is_none, is_some, ==-refl, Bool-cases, inl, inr,
}
use run_buoy.Prelude.Table.{
  find_where, exists_where, update_where, insert, find-insert-none, holds_of_find, find-update_some,
}
use run_buoy.Prelude.Absent.{find_none_of}
use run_buoy.Prelude.Exec.{ok, err, ◌>>=◌, on_option}
use run_buoy.Server.Enums.{machine_principal}
use run_buoy.Server.Rows.{Machine, Credential}
use run_buoy.Server.Accounts.{PairingSession}
use run_buoy.Server.Auth.{Principal, is_live_credential, device_of, machine_of, authenticate}
use run_buoy.Server.Pairing.{is_session, machine_scopes, exchange_pairing_session}
use run_buoy.Server.Database.{Database, pairing_already_exchanged, pairing_expired, new_id}

pub no_live_credential :
    (digest : ℕ) (rows : List Credential)
    → exists_where (λ c. c.token_hash == digest) rows ≡ false
    → exists_where (is_live_credential digest) rows ≡ false
unfolding is_live_credential
no_live_credential digest [] h = refl
no_live_credential digest (c ∷ cs) h = ground (arith, no_live_credential digest cs)

device_of-none :
    (db : Database) (digest : ℕ)
    → find_where (is_live_credential digest) db.device_credentials ≡ none
    → device_of db digest ≡ none
unfolding device_of
device_of-none db digest h = rw (h, device_of) refl

machine_of-some :
    (db : Database) (digest : ℕ) (c : Credential) (m : Machine)
    → find_where (is_live_credential digest) db.machine_credentials ≡ some c
    → find_where (λ (x : Machine). x.id == c.subject_id) db.machines ≡ some m
    → is_none m.revoked_at ≡ true
    → machine_of db digest
      ≡ some (record {
        kind = machine_principal;
        subject_id = c.subject_id;
        workspace_id = m.workspace_id;
        scopes = c.scopes;
      })
unfolding machine_of
machine_of-some db digest c m found machine live = rw (found, machine, live, machine_of) refl

authenticate_machine :
    (db : Database) (digest : ℕ) (p : Principal)
    → device_of db digest ≡ none
    → machine_of db digest ≡ some p
    → authenticate (some digest) db ≡ ok (p, db)
unfolding authenticate ◌>>=◌ on_option
authenticate_machine db digest p no_device machine = rw no_device (rw machine refl)

-- If the machine of a claimed session is there and not revoked, and it sends the secret before the
-- session's end and the first time, it gets a credential; the new token, if no credential has its
-- digest yet, authenticates as this machine in its workspace with the scopes of machines; and the
-- secret is refused at any later time, first as exchanged already and after the end as expired.
pub exchange_pairing_session-authenticate :
    (id digest token_digest now later machine_id : ℕ) (db : Database) (p : PairingSession)
    (m : Machine)
    → find_where (is_session id) db.pairings ≡ some p
    → (p.exchange_secret_hash == digest) ≡ true
    → leb p.expires_at now ≡ false
    → is_none p.claimed_at ≡ false
    → p.machine_id ≡ some machine_id
    → is_some p.exchanged_at ≡ false
    → find_where (λ (x : Machine). x.id == machine_id) db.machines ≡ some m
    → is_none m.revoked_at ≡ true
    → exists_where (λ c. c.token_hash == token_digest) db.device_credentials ≡ false
    → exists_where (λ c. c.token_hash == token_digest) db.machine_credentials ≡ false
    → (db' : Database) × (exchange_pairing_session id digest token_digest now db
        ≡ ok ((machine_id, p.workspace_id), db'))
      × (authenticate (some token_digest) db'
          ≡ ok (
            record {
              kind = machine_principal;
              subject_id = machine_id;
              workspace_id = m.workspace_id;
              scopes = machine_scopes;
            },
            db',
          ))
      × (exchange_pairing_session id digest token_digest later db'
          ≡ err (if leb p.expires_at later then pairing_expired else pairing_already_exchanged))
unfolding exchange_pairing_session is_live_credential new_id ◌>>=◌ on_option
exchange_pairing_session-authenticate id digest token_digest now later machine_id db p m found
      secret timely claimed attached fresh machine live no_device no_machine =
    let credential : Credential = record {
      id = db.next_id;
      subject_id = machine_id;
      token_hash = token_digest;
      scopes = machine_scopes;
      created_at = now;
      revoked_at = none;
    } in
    let exchanged : PairingSession → PairingSession = λ q. record q { exchanged_at = some now } in
    let db' : Database = record db {
      machine_credentials = insert credential db.machine_credentials;
      pairings = update_where (is_session id) exchanged db.pairings;
      next_id = db.next_id + 1;
    } in
    let new_found : find_where (is_live_credential token_digest) db'.machine_credentials
        ≡ some credential =
      find-insert-none (is_live_credential token_digest) db.machine_credentials credential
        (find_none_of (is_live_credential token_digest) db.machine_credentials
          (no_live_credential token_digest db.machine_credentials no_machine))
        (ground (arith, ==-refl token_digest)) in
    let no_device_found : find_where (is_live_credential token_digest) db.device_credentials
        ≡ none =
      find_none_of (is_live_credential token_digest) db.device_credentials
        (no_live_credential token_digest db.device_credentials no_device) in
    let again : find_where (is_session id) db'.pairings ≡ some (exchanged p) =
      find-update_some (is_session id) (is_session id) exchanged db.pairings p (λ q e. refl) found
      ∙ ap (λ b. some (if b then exchanged p else p))
          (holds_of_find (is_session id) db.pairings p found) in
    (
      db',
      rw found (rw secret (rw timely (rw claimed (rw attached (rw fresh refl))))),
      authenticate_machine db' token_digest _ (device_of-none db' token_digest no_device_found)
          (machine_of-some db' token_digest credential m new_found machine live),
      elim (Bool-cases (leb p.expires_at later)) [
        | inl over ↦ rw again (rw secret (rw over refl))
        | inr still ↦ rw again (rw secret (rw still (rw claimed (rw attached refl))))
      ],
    )
