-- ===== src/Limit/Window.antt =====
-- The limiter as a counter of a window (apps/api/src/rate-limit/rate-limit.service.ts): calls for one
-- key, at the times at which the server runs them.
use autonomous_csa.Base.{
  suc, ◌-◌, ℕ, ◌+◌, ◌≤◌, ◌<◌, ◌≡◌, refl, sym, ap, ◌∙◌, Bool, false, Bool-cases, inl, inr, List, [],
  ◌∷◌, Option, none, some, Text, count, All, ltb, leb, ◌==◌, if◌then◌else◌, arith,
}
use autonomous_csa.Http.{Response, refuse, reply}
use autonomous_csa.Limit.Defs.{
  RedisCommands, LimitConfig, up, RateLimitResult, rate_limit_script, consume,
}

-- A key of the server, with the instant at which it is gone, if any.
pub record Counter : Type 0 where
  pub hits : ℕ
  pub expires_at : Option ℕ

abbrev pub alive : ℕ → Option Counter → Option Counter
alive now none = none
alive now (some c) = elim c.expires_at [
  | none ↦ some c
  | some e ↦ if ltb now e then some c else none
]

abbrev pub hits_of : Option Counter → ℕ
hits_of none = 0
hits_of (some c) = c.hits

abbrev pub expiry_of : Option Counter → Option ℕ
expiry_of none = none
expiry_of (some c) = c.expires_at

-- The window of a key: the hits after the first, and its end.
pub record OpenWindow : Type 0 where
  pub more : ℕ
  pub ends_at : ℕ

-- Which of the calls a limiter lets through that counts from the first call of a window on.
abbrev pub fixed_window : LimitConfig → Option OpenWindow → List ℕ → List Bool
fixed_window config w [] = []
fixed_window config none (t ∷ ts) =
    leb 1 config.limit
    ∷ fixed_window config (some (record { more = 0; ends_at = t + config.window_ms })) ts
fixed_window config (some w) (t ∷ ts) =
    let same = fixed_window config (some (record { more = suc w.more; ends_at = w.ends_at })) ts in
    let fresh =
      fixed_window config (some (record { more = 0; ends_at = t + config.window_ms })) ts in
    if ltb t w.ends_at
    then leb (suc (suc w.more)) config.limit ∷ same
    else leb 1 config.limit ∷ fresh

abbrev counter_of : Option OpenWindow → Option Counter
counter_of none = none
counter_of (some w) = some (record { hits = suc w.more; expires_at = some w.ends_at })

abbrev is_allowed : Response RateLimitResult → Bool
is_allowed (refuse error) = false
is_allowed (reply result) = result.allowed

-- Times that do not fall, from one on.
abbrev pub Ascends : ℕ → List ℕ → Type 0
Ascends from [] = Unit {0}
Ascends from (t ∷ ts) = (from ≤ t) × Ascends t ts

-- Calls of `consume` for one key that are answered, at these times.
unfoldable pub run_calls :
    {S : Type 0} → RedisCommands S → LimitConfig → Text → List ℕ → S → List Bool
unfolding consume
run_calls redis config key [] s = []
run_calls redis config key (t ∷ ts) s =
    let consumed = consume redis config up key t s in
    is_allowed consumed.1 ∷ run_calls redis config key ts consumed.0

-- The window after a call at a time.
abbrev next_window : LimitConfig → ℕ → Option OpenWindow → OpenWindow
next_window config t none = record { more = 0; ends_at = t + config.window_ms }
next_window config t (some w) =
    if ltb t w.ends_at
    then record { more = suc w.more; ends_at = w.ends_at }
    else record { more = 0; ends_at = t + config.window_ms }

fixed_window_step :
    (config : LimitConfig) (w : Option OpenWindow) (t : ℕ) (ts : List ℕ)
    → fixed_window config w (t ∷ ts)
      ≡ leb (suc ((next_window config t w).more)) config.limit
        ∷ fixed_window config (some (next_window config t w)) ts
fixed_window_step config none t ts = refl
fixed_window_step config (some w) t ts = elim (Bool-cases (ltb t w.ends_at)) [
  | inl e ↦ rw (e) refl
  | inr e ↦ rw (e) refl
]

fixed_window_bound :
    (config : LimitConfig) (w : OpenWindow) (ts : List ℕ)
    → All (λ t. t < w.ends_at) ts
    → count (λ b. b) (fixed_window config (some w) ts) ≤ config.limit - suc w.more
fixed_window_bound config w [] h = omega arith
fixed_window_bound config w (t ∷ ts) h = ground (
  arith,
  h.0,
  fixed_window_bound config (record { more = suc w.more; ends_at = w.ends_at }) ts h.1,
)

plus_one : (n : ℕ) → suc n + 1 ≡ suc (suc n)
plus_one n = omega arith

not_one : (n : ℕ) → (suc (suc n) == 1) ≡ false
not_one n = ground arith

pub alive-alive :
    (now later : ℕ) (o : Option Counter) → now ≤ later → alive later (alive now o) ≡ alive later o
alive-alive now later none h = refl
alive-alive now later (some c) h = ground (arith, h)

alive_next :
    (config : LimitConfig) (t : ℕ) (w : Option OpenWindow)
    → 0 < config.window_ms
    → alive t (counter_of (some (next_window config t w)))
      ≡ counter_of (some (next_window config t w))
alive_next config t none lasts = ground (arith, lasts)
alive_next config t (some w) lasts = elim (Bool-cases (ltb t w.ends_at)) [
  | inl e ↦ rw (e, e) refl
  | inr e ↦ rw (e) (ground (arith, lasts))
]

module _ {S : Type 0} (redis : RedisCommands S) (entry : Text → ℕ → S → Option Counter)
    (entry_later : (key : Text) (now later : ℕ) (s : S)
      → now ≤ later
      → entry key later s ≡ alive later (entry key now s))
    (incr_hits : (key : Text) (now : ℕ) (s : S)
      → (redis.incr key now s).1 ≡ hits_of (entry key now s) + 1)
    (incr_entry : (key : Text) (now : ℕ) (s : S)
      → entry key now (redis.incr key now s).0
        ≡ some (record {
          hits = hits_of (entry key now s) + 1;
          expires_at = expiry_of (entry key now s);
        }))
    (pexpire_entry : (key : Text) (ms now : ℕ) (s : S) (c : Counter)
      → 0 < ms
      → entry key now s ≡ some c
      → entry key now (redis.pexpire key ms now s)
        ≡ some (record { hits = c.hits; expires_at = some (now + ms) }))
    (config : LimitConfig) (key : Text) (lasts : 0 < config.window_ms) where
  script_fresh :
      (t : ℕ) (s : S)
      → entry key t s ≡ none
      → let ran = rate_limit_script redis key config.window_ms t s in
        (ran.1 ≡ 1)
        × (entry key t ran.0 ≡ some (record { hits = 1; expires_at = some (t + config.window_ms) }))
  unfolding rate_limit_script
  script_fresh t s e =
      let one = incr_hits key t s ∙ ap (λ o. hits_of o + 1) e in
      let row =
        incr_entry key t s
        ∙ ap (λ o. some (record { hits = hits_of o + 1; expires_at = expiry_of o })) e in
      rw (one) (
        refl,
        pexpire_entry key config.window_ms t (redis.incr key t s).0
            (record { hits = 1; expires_at = none }) lasts row,
      )

  script_more :
      (t : ℕ) (s : S) (n : ℕ) (end : ℕ)
      → entry key t s ≡ some (record { hits = suc n; expires_at = some end })
      → let ran = rate_limit_script redis key config.window_ms t s in
        (ran.1 ≡ suc (suc n))
        × (entry key t ran.0 ≡ some (record { hits = suc (suc n); expires_at = some end }))
  unfolding rate_limit_script
  script_more t s n end e =
      let count = incr_hits key t s ∙ ap (λ o. hits_of o + 1) e ∙ plus_one n in
      let row =
        incr_entry key t s
        ∙ ap (λ o. some (record { hits = hits_of o + 1; expires_at = expiry_of o })) e
        ∙ ap (λ h. some (record { hits = h; expires_at = some end })) (plus_one n) in
      rw (count, not_one n) (refl, row)

  script_next :
      (t : ℕ) (s : S) (w : Option OpenWindow)
      → entry key t s ≡ alive t (counter_of w)
      → let ran = rate_limit_script redis key config.window_ms t s in
        (ran.1 ≡ suc ((next_window config t w).more))
        × (entry key t ran.0 ≡ counter_of (some (next_window config t w)))
  script_next t s none e = script_fresh t s e
  script_next t s (some w) e = elim (Bool-cases (ltb t w.ends_at)) [
    | inl live ↦ rw (live) (
        script_more t s w.more w.ends_at
          (e ∙ ap (λ b. if b then counter_of (some w) else none) live))
    | inr over ↦
        rw (over) (script_fresh t s (e ∙ ap (λ b. if b then counter_of (some w) else none) over))
  ]

  -- Calls of `consume` for one key, at times that do not fall and all of them answered, are let through
  -- as a fixed window lets them through: from the first call of a window to its end the first `limit`
  -- of them, and the next call opens a window. This is of a server whose `INCR` counts from the live
  -- value of the key and keeps its end, whose `PEXPIRE` sets the end, and that keeps a key until its
  -- end, and of a window of at least a millisecond.
  pub run_calls-fixed_window :
      (from : ℕ) (ts : List ℕ) (s : S) (w : Option OpenWindow)
      → entry key from s ≡ alive from (counter_of w)
      → Ascends from ts
      → run_calls redis config key ts s ≡ fixed_window config w ts
  unfolding run_calls
  run_calls-fixed_window from [] s w e h = refl
  run_calls-fixed_window from (t ∷ ts) s w e h =
      let now =
        entry_later key from t s h.0 ∙ ap (alive t) e ∙ alive-alive from t (counter_of w) h.0 in
      let (hits, after) = script_next t s w now in
      let rest =
        run_calls-fixed_window t ts (rate_limit_script redis key config.window_ms t s).0
          (some (next_window config t w)) (after ∙ sym (alive_next config t w lasts)) h.1 in
      rw (fixed_window_step config w t ts) (ground (arith, hits, rest))

  -- Under the same conditions, of the calls for a key without a live counter at most `limit` are let
  -- through from the first of them to the end of its window.
  pub run_calls_bound :
      (first : ℕ) (ts : List ℕ) (s : S)
      → entry key first s ≡ none
      → Ascends first ts
      → All (λ t. t < first + config.window_ms) ts
      → count (λ b. b) (run_calls redis config key (first ∷ ts) s) ≤ config.limit
  run_calls_bound first ts s e h within =
      let bound =
        fixed_window_bound config (record { more = 0; ends_at = first + config.window_ms }) ts
          within in
      rw (run_calls-fixed_window first (first ∷ ts) s none e (omega arith, h))
        (ground (arith, bound))
