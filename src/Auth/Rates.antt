-- ===== src/Auth/Rates.antt =====
-- How many requests of a tenant the rate limit lets through in a minute.
use text.Mathlib.TextLemmas.{append_cancel_left}
use inferbolt.Base.{
  ℕ, suc, ◌+◌, ◌≤◌, String, ◌≡◌, refl, Bool, true, false, some, List, [], ◌∷◌, ◌==◌, leb, inl, inr,
  arith, eq_iff, ==_self, ==_ne, ap, sym, ◌&&◌, eqb, ◌/◌, concat, ◌∙◌, Bool-cases, if◌then◌else◌,
}
use inferbolt.Base.Texts.{decimal_text}
use inferbolt.Base.Decimals.{labelled_apart}
use inferbolt.Base.Maps.{get, put, get-put}
use inferbolt.Auth.Middleware.{
  Buckets, bucket_key, count_in, RateAnswer, unlimited, too_many, remaining, rate_limit,
}

-- Requests of tenants, each with the time it comes at.
abbrev pub Requests : Type 0
Requests = List (String × ℕ)

abbrev pub is_through : RateAnswer → Bool
is_through unlimited = true
is_through (too_many reset retry) = false
is_through (remaining left reset) = true

-- How many requests of the bucket come, and how many go on.
abbrev coming : String → Requests → ℕ
coming key [] = 0
coming key ((tenant, at) ∷ rest) = (if bucket_key tenant at == key then 1 else 0) + coming key rest

abbrev going_on : String → Requests → Buckets → ℕ
going_on key [] b = 0
going_on key ((tenant, at) ∷ rest) b =
    (if bucket_key tenant at == key
      then (if is_through (rate_limit at (some tenant) b).0 then 1 else 0)
      else 0)
    + going_on key rest (rate_limit at (some tenant) b).1

count-put :
    (b : Buckets) (k key : String) (n : ℕ)
    → count_in (get (put b k n) key) ≡ (if k == key then n else count_in (get b key))
unfolding count_in
count-put b k key n = elim (Bool-cases (k == key)) [
  | inl e ↦ rw (get-put, e) refl
  | inr e ↦ rw (get-put, e) refl
]

rate_limit_lem :
    (at : ℕ) (tenant key : String) (b : Buckets)
    → (is_through (rate_limit at (some tenant) b).0
        ≡ (if leb 100 (count_in (get b (bucket_key tenant at))) then false else true))
      × (count_in (get (rate_limit at (some tenant) b).1 key) ≡ (
          if bucket_key tenant at == key
          then (if leb 100 (count_in (get b key))
              then count_in (get b key)
              else suc (count_in (get b key)))
          else count_in (get b key)))
unfolding rate_limit
rate_limit_lem at tenant key b =
    elim (Bool-cases (leb 100 (count_in (get b (bucket_key tenant at))))) [
      | inl h ↦ rw h (refl, counted_full h)
      | inr h ↦ rw h (refl, counted_one h)
    ]
  where
    k : String
    k = bucket_key tenant at

    counted_full :
        leb 100 (count_in (get b k)) ≡ true
        → count_in (get (put b k (count_in (get b k))) key) ≡ (
            if k == key
            then (if leb 100 (count_in (get b key))
                then count_in (get b key)
                else suc (count_in (get b key)))
            else count_in (get b key))
    counted_full h = elim (Bool-cases (k == key)) [
      | inl e ↦ rw e (
          rw⁻¹ ((eq_iff k key).0 e)
            (rw h (count-put b k k (count_in (get b k)) ∙ rw (==_self k) refl)))
      | inr e ↦ rw e (count-put b k key (count_in (get b k)) ∙ rw e refl)
    ]

    counted_one :
        leb 100 (count_in (get b k)) ≡ false
        → count_in (get (put b k (suc (count_in (get b k)))) key) ≡ (
            if k == key
            then (if leb 100 (count_in (get b key))
                then count_in (get b key)
                else suc (count_in (get b key)))
            else count_in (get b key))
    counted_one h = elim (Bool-cases (k == key)) [
      | inl e ↦ rw e (
          rw⁻¹ ((eq_iff k key).0 e)
            (rw h (count-put b k k (suc (count_in (get b k))) ∙ rw (==_self k) refl)))
      | inr e ↦ rw e (count-put b k key (suc (count_in (get b k))) ∙ rw e refl)
    ]

going_on_lem :
    (key : String) (rs : Requests) (b : Buckets)
    → count_in (get b key) ≤ 100
    → count_in (get b key) + going_on key rs b ≡ (
        if leb (count_in (get b key) + coming key rs) 100
        then count_in (get b key) + coming key rs
        else 100)
going_on_lem key [] b le = ground arith
going_on_lem key ((tenant, at) ∷ rest) b le =
    let b' : Buckets = (rate_limit at (some tenant) b).1 in
    let step = rate_limit_lem at tenant key b in
    elim (Bool-cases (bucket_key tenant at == key)) [
      | inl e ↦
          let through : is_through (rate_limit at (some tenant) b).0
              ≡ (if leb 100 (count_in (get b key)) then false else true) =
            step.0
            ∙ ap (λ k. if leb 100 (count_in (get b k)) then false else true)
                ((eq_iff (bucket_key tenant at) key).0 e) in
          rw e (ground (arith, e, through, step.1, going_on_lem key rest b'))
      | inr e ↦ rw e (ground (arith, e, step.1, going_on_lem key rest b'))
    ]

-- The requests of a tenant in a minute, and those of them that go on.
abbrev pub is_of : String → ℕ → String → ℕ → Bool
is_of tenant minute t at = (t == tenant) && eqb (at / 60) minute

abbrev pub sent : String → ℕ → Requests → ℕ
sent tenant minute [] = 0
sent tenant minute ((t, at) ∷ rest) =
    (if is_of tenant minute t at then 1 else 0) + sent tenant minute rest

abbrev pub let_through : String → ℕ → Requests → Buckets → ℕ
let_through tenant minute [] b = 0
let_through tenant minute ((t, at) ∷ rest) b =
    (if is_of tenant minute t at
      then (if is_through (rate_limit at (some t) b).0 then 1 else 0)
      else 0)
    + let_through tenant minute rest (rate_limit at (some t) b).1

abbrev bucket_of : String → ℕ → String
bucket_of tenant minute = concat "rl:" (concat tenant (concat ":" (decimal_text minute)))

-- A bucket is one tenant's minute.
bucket_key-is_of :
    (tenant t : String) (minute at : ℕ)
    → (bucket_key t at == bucket_of tenant minute) ≡ is_of tenant minute t at
unfolding bucket_key
bucket_key-is_of tenant t minute at = elim (Bool-cases (is_of tenant minute t at)) [
  | inl h ↦
      let who : t ≡ tenant = ground (arith, h, eq_iff t tenant) in
      let when : at / 60 ≡ minute = ground (arith, h) in
      rw (h, who, when) (==_self (bucket_of tenant minute))
  | inr h ↦ rw h (
      ==_ne (bucket_key t at) (bucket_of tenant minute) (λ e.
        let (who, when) =
          labelled_apart t tenant (at / 60) minute (append_cancel_left "rl:" _ _ e) in
        ground (arith, h, who, when, eq_iff t tenant)))
]

sent-coming :
    (tenant : String) (minute : ℕ) (rs : Requests)
    → coming (bucket_of tenant minute) rs ≡ sent tenant minute rs
sent-coming tenant minute [] = refl
sent-coming tenant minute ((t, at) ∷ rest) =
    rw (bucket_key-is_of tenant t minute at, sent-coming tenant minute rest) refl

let_through-going_on :
    (tenant : String) (minute : ℕ) (rs : Requests) (b : Buckets)
    → going_on (bucket_of tenant minute) rs b ≡ let_through tenant minute rs b
let_through-going_on tenant minute [] b = refl
let_through-going_on tenant minute ((t, at) ∷ rest) b =
    rw (bucket_key-is_of tenant t minute at, let_through-going_on tenant minute rest _) refl

-- Of the requests of one tenant in one minute of the clock, a hundred go on, or all of them if they
-- are fewer, in whatever order the requests of other tenants and other minutes come between and
-- however many these are.
pub rate_limit_exact :
    (tenant : String) (minute : ℕ) (rs : Requests)
    → let_through tenant minute rs []
      ≡ (if leb (sent tenant minute rs) 100 then sent tenant minute rs else 100)
unfolding get count_in
rate_limit_exact tenant minute rs =
    sym (let_through-going_on tenant minute rs [])
    ∙ ground (arith, going_on_lem (bucket_of tenant minute) rs [], sent-coming tenant minute rs)
