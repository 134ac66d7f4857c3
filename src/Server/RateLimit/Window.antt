-- ===== src/Server/RateLimit/Window.antt =====
-- How many requests of one subject pass within a window.
use text.Mathlib.TextPositions.{eq_refl}
use run_buoy.Prelude.{
  ℕ, ◌+◌, ◌-◌, min, ◌≡◌, refl, ◌∙◌, ap, Bool, true, false, inl, inr, Option, none, some, String,
  List, [], ◌∷◌, ltb, if◌then◌else◌, length, All, arith, Bool-cases, Option-cases, subst, ==-refl,
}
use run_buoy.Prelude.Table.{
  find_where, update_where, insert, find-insert-none, find-update_some, holds_of_find,
}
use run_buoy.Prelude.Exec.{ok, pure, ◌>>=◌, on_option}
use run_buoy.Server.Rows.{seconds, Bucket, Subject, subject_eq, subject_eq_refl}
use run_buoy.Server.Payload.{timestamp}
use run_buoy.Server.Database.{Database, Settings, Handler}
use run_buoy.Server.Quota.{is_bucket, new_bucket, count_request, increment_bucket, window_start}
use run_buoy.Server.RateLimit.{
  RateDecision, allowed, fail_open, rate_limit_exceeded, rate_limiter_unavailable, decide,
  enforce_rate_limit,
}

abbrev count_in : Option Bucket → ℕ
count_in none = 0
count_in (some b) = b.request_count

-- The requests that are counted for a subject in a window.
abbrev pub counted_requests : String → Subject → ℕ → Database → ℕ
counted_requests name subject start db =
    count_in (find_where (is_bucket name subject start) db.buckets)

abbrev passes : RateDecision → ℕ
passes (allowed _) = 1
passes fail_open = 1
passes (rate_limit_exceeded _) = 0
passes rate_limiter_unavailable = 0

is_bucket-new_bucket :
    (name : String) (subject : Subject) (start expires_at now : ℕ)
    → is_bucket name subject start (new_bucket name subject start expires_at now) ≡ true
unfolding new_bucket
is_bucket-new_bucket name subject start expires_at now =
    rw (eq_refl name, subject_eq_refl subject, ==-refl start) refl

-- The requests of every other subject are counted as before, in each window.
abbrev pub Spares : String → Subject → Database → Database → Type 0
Spares name subject s t =
    (other : Subject) (start : ℕ)
    → subject_eq subject other ≡ false
    → counted_requests name other start t ≡ counted_requests name other start s

find-insert-other :
    (p : Bucket → Bool) (rows : List Bucket) (b : Bucket)
    → p b ≡ false
    → find_where p (insert b rows) ≡ find_where p rows
find-insert-other p [] b h = rw h refl
find-insert-other p (x ∷ xs) b h = elim (Bool-cases (p x)) [
  | inl e ↦ rw e refl
  | inr e ↦ rw e (find-insert-other p xs b h)
]

count_in-update :
    (p q : Bucket → Bool) (f : Bucket → Bucket) (rows : List Bucket)
    → ((b : Bucket) → q b ≡ true → (p b ≡ false) × (p (f b) ≡ false))
    → count_in (find_where p (update_where q f rows)) ≡ count_in (find_where p rows)
count_in-update p q f [] h = refl
count_in-update p q f (x ∷ xs) h = elim (Bool-cases (q x)) [
  | inl e ↦ rw (e, (h x e).0, (h x e).1) (count_in-update p q f xs h)
  | inr e ↦ elim (Bool-cases (p x)) [
    | inl k ↦ rw (e, k) refl
    | inr k ↦ rw (e, k) (count_in-update p q f xs h)
  ]
]

subject_eq_sound : (a b : Subject) → subject_eq a b ≡ true → a ≡ b
subject_eq_sound a b h = ground arith

-- No bucket is that of two subjects.
is_bucket-other :
    (name : String) (subject other : Subject) (start start' : ℕ) (b : Bucket)
    → subject_eq subject other ≡ false
    → is_bucket name subject start b ≡ true
    → is_bucket name other start' b ≡ false
is_bucket-other name subject other start start' b h k =
    let own : b.subject_key ≡ subject = subject_eq_sound b.subject_key subject (ground arith) in
    let not_other : subject_eq b.subject_key other ≡ false = ap (λ x. subject_eq x other) own ∙ h in
    ground arith

increments :
    (name : String) (subject : Subject) (start expires_at now : ℕ) (s : Database)
    → (t : Database) × (increment_bucket name subject start expires_at now s
        ≡ ok (counted_requests name subject start s + 1, t))
      × (counted_requests name subject start t ≡ counted_requests name subject start s + 1)
      × Spares name subject s t
unfolding increment_bucket ◌>>=◌ on_option count_request new_bucket
increments name subject start expires_at now s =
    elim (Option-cases (find_where (is_bucket name subject start) s.buckets)) [
      | inl absent ↦ (
        record s { buckets = insert (new_bucket name subject start expires_at now) s.buckets },
        rw absent refl,
        rw
            (
              find-insert-none (is_bucket name subject start) s.buckets
                  (new_bucket name subject start expires_at now) absent
                  (is_bucket-new_bucket name subject start expires_at now),
              absent,
            )
            refl,
        λ other start' h. ap count_in (
            find-insert-other (is_bucket name other start') s.buckets
              (new_bucket name subject start expires_at now)
              (is_bucket-other name subject other start start'
                (new_bucket name subject start expires_at now) h
                (is_bucket-new_bucket name subject start expires_at now))),
      )
      | inr (b, found) ↦ (
        record s {
          buckets =
              update_where (is_bucket name subject start) (count_request expires_at now) s.buckets;
        },
        rw found refl,
        rw
            (
              find-update_some (is_bucket name subject start) (is_bucket name subject start)
                  (count_request expires_at now) s.buckets b (λ _ _. refl) found,
              found,
              holds_of_find (is_bucket name subject start) s.buckets b found,
            )
            refl,
        λ other start' h.
            count_in-update (is_bucket name other start') (is_bucket name subject start)
              (count_request expires_at now) s.buckets
              (λ c k. (
                is_bucket-other name subject other start start' c h k,
                is_bucket-other name subject other start start' c h k,
              )),
      )
    ]

module _ (settings : Settings) (name : String) (subject : Subject) (limit window_seconds : ℕ) where
  -- The requests of a subject at the given times: how many go on to their handlers.
  abbrev pub passing : List ℕ → Handler ℕ
  passing [] = pure 0
  passing (now ∷ nows) = do
    decision ← enforce_rate_limit settings true name subject limit window_seconds now
    n ← passing nows
    pure (passes decision + n)

  decide-passes :
      (reset_epoch epoch count : ℕ)
      → passes (decide name limit reset_epoch epoch count) ≡ (if ltb limit count then 0 else 1)
  unfolding decide
  decide-passes reset_epoch epoch count = elim (Bool-cases (ltb limit count)) [
    | inl over ↦ rw over refl
    | inr under ↦ rw under refl
  ]

  abbrev Enforced : ℕ → ℕ → Database → Type 0
  Enforced start now s =
      (d : RateDecision) × (t : Database) × (enforce_rate_limit settings true name subject limit
          window_seconds now s
        ≡ ok (d, t))
      × (passes d ≡ (if ltb limit (counted_requests name subject start s + 1) then 0 else 1))
      × (counted_requests name subject start t ≡ counted_requests name subject start s + 1)
      × Spares name subject s t

  Enforced-now :
      (now : ℕ) (s : Database) → Enforced (window_start (timestamp now) window_seconds) now s
  unfolding enforce_rate_limit ◌>>=◌
  Enforced-now now s =
      let start = window_start (timestamp now) window_seconds in
      let (t, e, c, spared) =
        increments name subject start
          (seconds (start + window_seconds + settings.rate_limit_bucket_retention_seconds)) now s in
      (
        decide name limit (start + window_seconds) (timestamp now)
            (counted_requests name subject start s + 1),
        t,
        rw e refl,
        decide-passes _ _ _,
        c,
        spared,
      )

  enforced :
      (start now : ℕ) (s : Database)
      → window_start (timestamp now) window_seconds ≡ start
      → Enforced start now s
  enforced start now s same = subst (λ n. Enforced n now s) same (Enforced-now now s)

  -- While the database answers, of the requests of one subject in one window exactly as many pass as
  -- the limit leaves after those that were counted for it before, and the requests of every other
  -- subject stay counted as they were, in each window.
  pub enforce_rate_limit_lem :
      (start : ℕ) (nows : List ℕ) (s : Database)
      → All (λ now. window_start (timestamp now) window_seconds ≡ start) nows
      → (n : ℕ) × (t : Database) × (passing nows s ≡ ok (n, t))
        × (n ≡ min (limit - counted_requests name subject start s) (length nows))
        × Spares name subject s t
  unfolding ◌>>=◌
  enforce_rate_limit_lem start [] s h = (0, s, refl, omega arith, λ other at h. refl)
  enforce_rate_limit_lem start (now ∷ nows) s h =
      let (d, t, e, p, c, spared) = enforced start now s h.0 in
      let (n, u, f, q, spared') = enforce_rate_limit_lem start nows t h.1 in
      (
        passes d + n,
        u,
        rw (e, f) refl,
        ground (arith, p, c, q),
        λ other at h. spared' other at h ∙ spared other at h,
      )
