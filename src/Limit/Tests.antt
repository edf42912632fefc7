-- ===== src/Limit/Tests.antt =====
-- A server that keeps its keys in a function, and the theorems of the limiter at it.
use autonomous_csa.Base.{
  ◌-◌, ℕ, ◌+◌, ◌≤◌, ◌<◌, ◌≡◌, refl, true, false, [], ◌∷◌, Option, none, some, Text, codes, text_eq,
  text_eq_refl, ap, sym, count, ℤ, pos, negsuc, if◌then◌else◌, arith,
}
use autonomous_csa.Limit.Defs.{
  RedisCommands, LimitConfig, fail_closed, should_skip_general_limit, to_route_bucket,
}
use autonomous_csa.Limit.Window.{
  Counter, alive, alive-alive, hits_of, expiry_of, run_calls, run_calls-fixed_window,
  run_calls_bound,
}

abbrev Keys : Type 0
Keys = Text → Option Counter

abbrev set_key : Text → Counter → Keys → Keys
set_key key c s k = if text_eq k key then some c else s k

abbrev ttl_of : ℕ → Option Counter → ℤ
ttl_of now none = negsuc 1
ttl_of now (some c) = elim c.expires_at [ none ↦ negsuc 0 | some e ↦ pos (e - now) ]

abbrev keys_server : RedisCommands Keys
keys_server = record {
  incr = λ key now s.
      let c = alive now (s key) in
      (set_key key (record { hits = hits_of c + 1; expires_at = expiry_of c }) s, hits_of c + 1);
  pexpire = λ key ms now s.
      set_key key (record { hits = hits_of (alive now (s key)); expires_at = some (now + ms) }) s;
  pttl = λ key now s. ttl_of now (alive now (s key));
}

abbrev entry_of : Text → ℕ → Keys → Option Counter
entry_of key now s = alive now (s key)

keys_later :
    (key : Text) (now later : ℕ) (s : Keys)
    → now ≤ later
    → entry_of key later s ≡ alive later (entry_of key now s)
keys_later key now later s h = sym (alive-alive now later (s key) h)

keys_incr :
    (o : Option Counter) (now : ℕ)
    → let c = alive now o in
      alive now (some (record { hits = hits_of c + 1; expires_at = expiry_of c }))
      ≡ some (record { hits = hits_of c + 1; expires_at = expiry_of c })
keys_incr none now = refl
keys_incr (some c) now = ground arith

entry_incr :
    (key : Text) (now : ℕ) (s : Keys)
    → let c = entry_of key now s in
      entry_of key now (keys_server.incr key now s).0
      ≡ some (record { hits = hits_of c + 1; expires_at = expiry_of c })
entry_incr key now s = rw (text_eq_refl key) (keys_incr (s key) now)

entry_pexpire :
    (key : Text) (ms now : ℕ) (s : Keys) (c : Counter)
    → 0 < ms
    → entry_of key now s ≡ some c
    → entry_of key now (keys_server.pexpire key ms now s)
      ≡ some (record { hits = c.hits; expires_at = some (now + ms) })
entry_pexpire key ms now s c lasts e = rw (text_eq_refl key) (ground (arith, lasts, ap hits_of e))

abbrev config_0 : LimitConfig
config_0 = record { limit = 2; window_ms = 10; fail_mode = fail_closed }

-- Three calls in a window and one after it.
run_calls-fixed_window_example :
    run_calls keys_server config_0 (codes "k") (1 ∷ 2 ∷ 3 ∷ 11 ∷ []) (λ key. none)
    ≡ true ∷ true ∷ false ∷ true ∷ []
run_calls-fixed_window_example =
    run_calls-fixed_window keys_server entry_of keys_later (λ key now s. refl) entry_incr
      entry_pexpire config_0 (codes "k") (omega arith) 0 (1 ∷ 2 ∷ 3 ∷ 11 ∷ []) (λ key. none) none
      refl (omega arith, (omega arith, (omega arith, (omega arith, tt))))

run_calls_bound_example :
    count (λ b. b) (run_calls keys_server config_0 (codes "k") (1 ∷ 2 ∷ 3 ∷ []) (λ key. none)) ≤ 2
run_calls_bound_example =
    run_calls_bound keys_server entry_of keys_later (λ key now s. refl) entry_incr entry_pexpire
      config_0 (codes "k") (omega arith) 1 (2 ∷ 3 ∷ []) (λ key. none) refl
      (omega arith, (omega arith, tt)) (omega arith, (omega arith, tt))

skipped : should_skip_general_limit (codes "/auth/login") ≡ true
unfolding should_skip_general_limit
skipped = refl

bucket : to_route_bucket (λ s. s) (codes "/tickets/0123abcd/runs") ≡ codes "tickets/:id"
unfolding to_route_bucket
bucket = refl
