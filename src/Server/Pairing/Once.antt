-- ===== src/Server/Pairing/Once.antt =====
-- A pairing session is a handoff that is used once.
use run_buoy.Prelude.{
  ℕ, ◌≡◌, refl, subst, arith, true, false, not, ◌&&◌, ◌==◌, leb, is_none, is_some, Bool-cases,
  Option-cases, inl, inr,
}
use run_buoy.Prelude.Table.{find_where, exists_where, holds_of_find}
use run_buoy.Prelude.Absent.{none-update, none_of_find}
use run_buoy.Prelude.Exec.{ok, err, Result, modify, ◌>>=◌, on_option}
use run_buoy.Prelude.Exec.Keeps.{
  Keeps, Leads, Leaves, Keeps-gets, Keeps-on_option, Keeps-raise, Keeps-modify, Keeps-pure,
  Keeps-bind, Leads-before, Leads-after, Leads-if, Leads-on_option, Leads-raise,
}
use run_buoy.Server.Accounts.{MachineMetadata}
use run_buoy.Server.Auth.{Principal}
use run_buoy.Server.Notify.{bump_workspace_revision}
use run_buoy.Server.Pairing.{is_session, mark_claimed, claim_session, claim_pairing_session}
use run_buoy.Server.Database.{
  pairing_not_found, pairing_expired, pairing_already_claimed, Database, Settings, Error, Handler,
}

abbrev pub Any : Database → Type 0
Any db = Unit

-- No open session has the identifier.
abbrev pub IsClaimed : ℕ → Database → Type 0
IsClaimed id db = exists_where (λ p. is_session id p && is_none p.claimed_at) db.pairings ≡ false

modify-Leads :
    {Q : Database → Type 0} (f : Database → Database)
    → ((db : Database) → Q (f db))
    → Leads {E = Error} Any (modify f) Q
unfolding ◌>>=◌
modify-Leads f h = record { at = λ db k. h db }

Keeps-Any : {A : Type 0} (m : Handler A) → Keeps Any m
Keeps-Any m = record { at = λ db k. split (m db) }
  where
    split : {A : Type 0} (r : Result Error (A × Database)) → Leaves Any r
    split (ok a) = tt
    split (err e) = tt

bump-Keeps : (id w : ℕ) → Keeps (IsClaimed id) (bump_workspace_revision w)
unfolding bump_workspace_revision
bump-Keeps id w = Keeps-bind _ _ (Keeps-gets _) λ row.
    Keeps-on_option row _ _ (λ _. Keeps-raise _)
      λ v _. Keeps-bind _ _ (Keeps-modify _ (λ s h. h)) λ _. Keeps-pure _

session-IsClaimed :
    (principal : Principal) (id : ℕ) (body : MachineMetadata) (machine_id now : ℕ)
    → Leads Any (claim_session principal id body machine_id now) (IsClaimed id)
unfolding claim_session mark_claimed
session-IsClaimed principal id body machine_id now = Leads-after _ _ (Keeps-Any _) λ _.
    Leads-after _ _ (Keeps-Any _) λ _.
      Leads-before _ _
        (modify-Leads _ (λ db.
          none-update (λ p. is_session id p && is_none p.claimed_at) (is_session id)
            (mark_claimed principal machine_id now) db.pairings (λ p e. ground arith)
            (λ p e. ground arith)))
        λ _. Keeps-bind _ _ (bump-Keeps id _) λ _. Keeps-pure _

claim-IsClaimed :
    (settings : Settings) (principal : Principal) (id challenge now : ℕ)
    → Leads Any (claim_pairing_session settings principal id challenge now) (IsClaimed id)
unfolding claim_pairing_session
claim-IsClaimed settings principal id challenge now = Leads-after _ _ (Keeps-Any _) λ found.
    Leads-on_option found _ _ (λ _. Leads-raise _)
      λ p _.
        Leads-if (leb p.expires_at now) _ _ (λ _. Leads-raise _)
          λ _.
            Leads-if (is_some p.claimed_at) _ _ (λ _. Leads-raise _)
              λ _.
                Leads-if (not (p.challenge == challenge)) _ _ (λ _. Leads-raise _)
                  λ _. Leads-after _ _ (Keeps-Any _) λ _. Leads-after _ _ (Keeps-Any _) λ machines.
                    Leads-if (leb settings.max_machines_per_workspace machines) _ _
                      (λ _. Leads-raise _)
                      λ _.
                        Leads-after _ _ (Keeps-Any _)
                          λ machine_id. session-IsClaimed principal id _ machine_id now

claimed_refuses :
    (settings : Settings) (principal : Principal) (id challenge now : ℕ) (db : Database)
    → IsClaimed id db
    → (e : Error) × (claim_pairing_session settings principal id challenge now db ≡ err e)
unfolding claim_pairing_session ◌>>=◌ on_option
claimed_refuses settings principal id challenge now db h =
    elim (Option-cases (find_where (is_session id) db.pairings)) [
      | inl lost ↦ (pairing_not_found, rw lost refl)
      | inr found ↦ elim (Bool-cases (leb found.0.expires_at now)) [
        | inl late ↦ (pairing_expired, rw found.1 (rw late refl))
        | inr timely ↦
            let claimed : is_some found.0.claimed_at ≡ true = ground (
              arith,
              none_of_find (is_session id) (λ p. is_session id p && is_none p.claimed_at)
                  db.pairings found.0 found.1 h,
              holds_of_find (is_session id) db.pairings found.0 found.1,
            ) in
            (pairing_already_claimed, rw found.1 (rw timely (rw claimed refl)))
      ]
    ]

-- After a claim of a session, every claim of it is refused, whoever sends it and when.
pub claim_pairing_session-once :
    (settings settings' : Settings) (principal principal' : Principal) (id challenge challenge' : ℕ)
    (now now' : ℕ) (db db' : Database) (machine_id : ℕ)
    → claim_pairing_session settings principal id challenge now db ≡ ok (machine_id, db')
    → (e : Error) × (claim_pairing_session settings' principal' id challenge' now' db' ≡ err e)
claim_pairing_session-once settings settings' principal principal' id challenge challenge' now now'
      db db' machine_id h =
    claimed_refuses settings' principal' id challenge' now' db' (
      subst (Leaves (IsClaimed id)) h
        ((claim-IsClaimed settings principal id challenge now).at db tt))
