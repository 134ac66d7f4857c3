-- ===== src/Cli/Redaction.antt =====
-- The check of cli/src/runbuoy/security/redaction.py on what is sent: no key of the payload, at any
-- depth, may name private data.
use Prim.Native.Char.{code}
use run_buoy.Prelude.{
  ℕ, ◌+◌, ◌≡◌, refl, ◌⊎◌, inl, inr, Bool, true, false, ◌&&◌, ◌||◌, Option, none, some, String, List,
  [], ◌∷◌, ◌++◌, ◌==◌, leb, if◌then◌else◌, Option-cases, subst,
}
use run_buoy.Prelude.Table.{exists_where}
use run_buoy.Server.Rows.{ℤ}

-- A value that JSON can hold.
mutual
  pub data Json : Type 0 where
    null : Json
    boolean : Bool → Json
    number : ℤ → Json
    string : String → Json
    array : Items → Json
    object : Fields → Json

  pub data Items : Type 0 where
    nil : Items
    item : Json → Items → Items

  pub data Fields : Type 0 where
    done : Fields
    field : String → Json → Fields → Fields

-- str.lower, as far as the letters it yields are ASCII: the capitals, the Kelvin sign and the dotted
-- capital I. No other character turns into one of the letters that the check looks for.
unfoldable pub lower_code : ℕ → List ℕ
lower_code n =
    if leb 65 n && leb n 90
    then (n + 32) ∷ []
    else if n == 8490
    then 107 ∷ []
    else if n == 304
    then 105 ∷ 775 ∷ []
    else n ∷ []

unfoldable pub lower : String → List ℕ
unfolding lower_code
lower String.[] = []
lower (String.◌∷◌ c s) = lower_code (code c) ++ lower s

abbrev pub codes_eq : List ℕ → List ℕ → Bool
codes_eq [] [] = true
codes_eq (m ∷ ms) (n ∷ ns) = m == n && codes_eq ms ns
codes_eq _ _ = false

-- str.endswith
abbrev pub ends_with : List ℕ → List ℕ → Bool
ends_with [] suffix = codes_eq [] suffix
ends_with (c ∷ cs) suffix = codes_eq (c ∷ cs) suffix || ends_with cs suffix

abbrev pub forbidden_remote_keys : List String
forbidden_remote_keys =
    "argv" ∷ "command" ∷ "cwd" ∷ "env" ∷ "environment" ∷ "stdout" ∷ "stderr" ∷ "terminal" ∷ "screen"
    ∷ "stdin" ∷ "socket_token" ∷ "exchange_secret" ∷ "credential" ∷ "api_key" ∷ []

unfoldable pub is_forbidden : String → Bool
unfolding lower
is_forbidden key =
    let normalized = lower key in
    exists_where (λ k. codes_eq (lower k) normalized) forbidden_remote_keys
    || ends_with normalized (lower "_token")

-- The first exception that is raised, if any.
unfoldable pub first_some : Option String → Option String → Option String
first_some none next = next
first_some (some key) next = some key

abbrev pub refused : String → Option String
refused key = if is_forbidden key then some key else none

-- assert_safe_remote_payload: `none` where it returns, else the forbidden key. The path that the
-- message names is not kept.
unfoldable mutual
  pub unsafe_key : Json → Option String
  unsafe_key (array xs) = unsafe_item xs
  unsafe_key (object fs) = unsafe_field fs
  unsafe_key _ = none

  pub unsafe_item : Items → Option String
  unsafe_item nil = none
  unsafe_item (item x xs) = first_some (unsafe_key x) (unsafe_item xs)

  pub unsafe_field : Fields → Option String
  unsafe_field done = none
  unsafe_field (field key x fs) =
      first_some (refused key) (first_some (unsafe_key x) (unsafe_field fs))

-- `key` is a key of an object somewhere in the value.
mutual
  pub data Occurs (key : String) : Json → Type 0 where
    in_array : (xs : Items) → OccursItem key xs → Occurs key (array xs)
    in_object : (fs : Fields) → OccursField key fs → Occurs key (object fs)

  pub data OccursItem (key : String) : Items → Type 0 where
    first : (x : Json) (xs : Items) → Occurs key x → OccursItem key (item x xs)
    later : (x : Json) (xs : Items) → OccursItem key xs → OccursItem key (item x xs)

  pub data OccursField (key : String) : Fields → Type 0 where
    here : (x : Json) (fs : Fields) → OccursField key (field key x fs)
    inside : (k : String) (x : Json) (fs : Fields) → Occurs key x → OccursField key (field k x fs)
    after :
        (k : String) (x : Json) (fs : Fields) → OccursField key fs → OccursField key (field k x fs)

first_some-none : (a b : Option String) → first_some a b ≡ none → (a ≡ none) × (b ≡ none)
unfolding first_some
first_some-none none b h = (refl, h)
first_some-none (some a) b h = cc

first_some-some :
    (a b : Option String) (key : String)
    → first_some a b ≡ some key
    → (a ≡ some key) ⊎ (b ≡ some key)
unfolding first_some
first_some-some none b key h = inr h
first_some-some (some a) b key h = inl h

refused-none : (key : String) → refused key ≡ none → is_forbidden key ≡ false
refused-none key h = none_of (is_forbidden key) h
  where
    none_of : (b : Bool) → (if b then some key else none) ≡ none → b ≡ false
    none_of true k = cc
    none_of false k = refl

refused-some : (k key : String) → refused k ≡ some key → (k ≡ key) × (is_forbidden k ≡ true)
refused-some k key h = some_of (is_forbidden k) h
  where
    some_of : (b : Bool) → (if b then some k else none) ≡ some key → (k ≡ key) × (b ≡ true)
    some_of true e = (cc, refl)
    some_of false e = cc

-- What `unsafe_key` says of the keys that occur.
mutual
  unfolding unsafe_key

  safe_of_none :
      (x : Json) → unsafe_key x ≡ none → (key : String) → Occurs key x → is_forbidden key ≡ false
  safe_of_none (array xs) h key (in_array _ o) = safe_of_none_item xs h key o
  safe_of_none (object fs) h key (in_object _ o) = safe_of_none_field fs h key o
  safe_of_none null h key o = elim o [ ]
  safe_of_none (boolean _) h key o = elim o [ ]
  safe_of_none (number _) h key o = elim o [ ]
  safe_of_none (string _) h key o = elim o [ ]

  safe_of_none_item :
      (xs : Items)
      → unsafe_item xs ≡ none
      → (key : String) → OccursItem key xs
      → is_forbidden key ≡ false
  safe_of_none_item nil h key o = elim o [ ]
  safe_of_none_item (item x xs) h key (first _ _ o) =
      safe_of_none x (first_some-none (unsafe_key x) (unsafe_item xs) h).0 key o
  safe_of_none_item (item x xs) h key (later _ _ o) =
      safe_of_none_item xs (first_some-none (unsafe_key x) (unsafe_item xs) h).1 key o

  safe_of_none_field :
      (fs : Fields)
      → unsafe_field fs ≡ none
      → (key : String) → OccursField key fs
      → is_forbidden key ≡ false
  safe_of_none_field done h key o = elim o [ ]
  safe_of_none_field (field k x fs) h key (here _ _) =
      refused-none k (first_some-none (refused k) (first_some (unsafe_key x) (unsafe_field fs)) h).0
  safe_of_none_field (field k x fs) h key (inside _ _ _ o) =
      let rest = (first_some-none (refused k) (first_some (unsafe_key x) (unsafe_field fs)) h).1 in
      safe_of_none x (first_some-none (unsafe_key x) (unsafe_field fs) rest).0 key o
  safe_of_none_field (field k x fs) h key (after _ _ _ o) =
      let rest = (first_some-none (refused k) (first_some (unsafe_key x) (unsafe_field fs)) h).1 in
      safe_of_none_field fs (first_some-none (unsafe_key x) (unsafe_field fs) rest).1 key o

mutual
  unfolding unsafe_key

  found_of_some :
      (x : Json) (key : String) → unsafe_key x ≡ some key → Occurs key x × (is_forbidden key ≡ true)
  found_of_some (array xs) key h = let (o, f) = found_of_some_item xs key h in (in_array xs o, f)
  found_of_some (object fs) key h = let (o, f) = found_of_some_field fs key h in (in_object fs o, f)
  found_of_some null key h = cc
  found_of_some (boolean b) key h = cc
  found_of_some (number n) key h = cc
  found_of_some (string s) key h = cc

  found_of_some_item :
      (xs : Items) (key : String)
      → unsafe_item xs ≡ some key
      → OccursItem key xs × (is_forbidden key ≡ true)
  found_of_some_item nil key h = cc
  found_of_some_item (item x xs) key h =
      elim (first_some-some (unsafe_key x) (unsafe_item xs) key h) [
        | inl e ↦ let (o, f) = found_of_some x key e in (first x xs o, f)
        | inr e ↦ let (o, f) = found_of_some_item xs key e in (later x xs o, f)
      ]

  found_of_some_field :
      (fs : Fields) (key : String)
      → unsafe_field fs ≡ some key
      → OccursField key fs × (is_forbidden key ≡ true)
  found_of_some_field done key h = cc
  found_of_some_field (field k x fs) key h =
      elim (first_some-some (refused k) (first_some (unsafe_key x) (unsafe_field fs)) key h) [
        | inl e ↦
            let (same, f) = refused-some k key e in
            (
              subst (λ n. OccursField n (field k x fs)) same (here x fs),
              subst (λ n. is_forbidden n ≡ true) same f,
            )
        | inr r ↦ elim (first_some-some (unsafe_key x) (unsafe_field fs) key r) [
          | inl e ↦ let (o, f) = found_of_some x key e in (inside k x fs o, f)
          | inr e ↦ let (o, f) = found_of_some_field fs key e in (after k x fs o, f)
        ]
      ]

-- The check either passes, and then no key that occurs in the value at any depth is forbidden, or it
-- names a forbidden key that occurs there.
pub unsafe_key_lem :
    (x : Json)
    → ((unsafe_key x ≡ none) × ((key : String) → Occurs key x → is_forbidden key ≡ false))
      ⊎ ((key : String) × (unsafe_key x ≡ some key) × Occurs key x × (is_forbidden key ≡ true))
unsafe_key_lem x = elim (Option-cases (unsafe_key x)) [
  | inl e ↦ inl (e, λ key o. safe_of_none x e key o)
  | inr (key, e) ↦ let (o, f) = found_of_some x key e in inr (key, e, o, f)
]
