-- ===== src/RateLimit/Window.antt =====
-- The fixed window of the rate limit store.
use split_bill_app.Prelude.{
  ℕ, suc, ◌+◌, ◌-◌, ◌<◌, ◌≡◌, inl, inr, List, [], ◌∷◌, ◌++◌, Option, none, some, Bool, false, leb,
  if◌then◌else◌, length, All, arith,
}
use split_bill_app.Effects.{ok}
use split_bill_app.Effects.Inversion.{Write-cases}
use split_bill_app.Metrics.Table.{Text}
use split_bill_app.RateLimit.{RateRedis, IncrementResponse, increment_script, increment}

-- What Redis holds under a key: the count and the time at which it expires, if it does.
pub record Counter : Type 0 where
  pub hits : ℕ
  pub expires : Option ℕ

-- The counter that a command sees at a time: one that has expired is not there.
abbrev pub expired : ℕ → Option ℕ → Bool
expired now none = false
expired now (some at) = leb at now

abbrev pub live : ℕ → Option Counter → Option Counter
live now none = none
live now (some c) = if expired now c.expires then none else some c

abbrev pub one_more : Option Counter → Counter
one_more none = record { hits = 1; expires = none }
one_more (some c) = record { hits = suc c.hits; expires = c.expires }

abbrev pub remaining : ℕ → Option Counter → Option ℕ
remaining now none = none
remaining now (some c) = elim c.expires [ none ↦ none | some at ↦ some (at - now) ]

module _ {S : Type 0} (redis : RateRedis S) (counter_of : Text → S → Option Counter) where
  -- What Redis documents of the commands.
  pub record RateRules : Type 0 where
    pub incremented :
        (key : Text) (now n : ℕ) (s s' : S)
        → redis.incr key now s ≡ (ok n, s')
        → (counter_of key s' ≡ some (one_more (live now (counter_of key s))))
          × (n ≡ (one_more (live now (counter_of key s))).hits)
    pub expiring :
        (key : Text) (ms now : ℕ) (c : Counter) (s s' : S)
        → redis.pexpire key ms now s ≡ (ok tt, s')
        → live now (counter_of key s) ≡ some c
        → counter_of key s' ≡ some (record c { expires = some (now + ms) })
    pub left :
        (key : Text) (now : ℕ) (t : Option ℕ) (s s' : S)
        → redis.pttl key now s ≡ (ok t, s')
        → (t ≡ remaining now (live now (counter_of key s))) × (counter_of key s' ≡ counter_of key s)

  module _ (rules : RateRules) (prefix : Text) (window_ms : ℕ) where
    -- The state after a call and its answer.
    pub record Counted (key : Text) (c : Counter) (r : IncrementResponse) (s' : S) : Type 0 where
      pub stored : counter_of (prefix ++ key) s' ≡ some c
      pub hits : r.total_hits ≡ c.hits
      pub reset : r.reset_time ≡ c.expires

    first_in_window :
        (key : Text) (now : ℕ) (r : IncrementResponse) (s s' : S)
        → 0 < window_ms
        → live now (counter_of (prefix ++ key) s) ≡ none
        → increment redis prefix window_ms now key s ≡ (ok r, s')
        → Counted key (record { hits = 1; expires = some (now + window_ms) }) r s'
    unfolding increment increment_script
    first_in_window key now r s s' positive absent h =
        elim (Write-cases (redis.incr (prefix ++ key) now s)) [
          | inr (x, a, failed) ↦ absurd (ground arith)
          | inl (n, a, counted) ↦
              let (seen, count) = rules.incremented (prefix ++ key) now n s a counted in
              elim (Write-cases (redis.pexpire (prefix ++ key) window_ms now a)) [
                | inr (x, b, failed) ↦ absurd (ground (arith, absent, count))
                | inl (u, b, started) ↦
                    let window =
                      rules.expiring (prefix ++ key) window_ms now
                        (record { hits = 1; expires = none }) a b started
                        (ground (arith, absent, seen)) in
                    elim (Write-cases (redis.pttl (prefix ++ key) now b)) [
                      | inr (x, d, failed) ↦ absurd (ground (arith, absent, count))
                      | inl (t, d, told) ↦
                          let (ttl, kept) = rules.left (prefix ++ key) now t b d told in
                          record {
                            stored = ground (arith, absent, count, window, kept);
                            hits = ground (arith, absent, count);
                            reset = ground (arith, absent, count, window, ttl);
                          }
                    ]
              ]
        ]

    later_in_window :
        (key : Text) (now hits ends : ℕ) (r : IncrementResponse) (s s' : S)
        → 0 < hits
        → now < ends
        → counter_of (prefix ++ key) s ≡ some (record { hits = hits; expires = some ends })
        → increment redis prefix window_ms now key s ≡ (ok r, s')
        → Counted key (record { hits = suc hits; expires = some ends }) r s'
    unfolding increment increment_script
    later_in_window key now hits ends r s s' some_hits early there h =
        elim (Write-cases (redis.incr (prefix ++ key) now s)) [
          | inr (x, a, failed) ↦ absurd (ground arith)
          | inl (n, a, counted) ↦
              let (seen, count) = rules.incremented (prefix ++ key) now n s a counted in
              elim (Write-cases (redis.pttl (prefix ++ key) now a)) [
                | inr (x, d, failed) ↦ absurd (ground (arith, there, count))
                | inl (t, d, told) ↦
                    let (ttl, kept) = rules.left (prefix ++ key) now t a d told in
                    record {
                      stored = ground (arith, there, seen, kept);
                      hits = ground (arith, there, count);
                      reset = ground (arith, there, seen, ttl);
                    }
              ]
        ]

    -- Answered calls of `increment` for one key: the first one at `first`, then others at the times
    -- of the list, whose head is the latest; with the last answer and the last state.
    pub data Calls (key : Text) (first : ℕ) (s : S) : List ℕ → IncrementResponse → S → Type 0 where
      one :
          (r : IncrementResponse) (s' : S)
          → increment redis prefix window_ms first key s ≡ (ok r, s')
          → Calls key first s [] r s'
      more :
          {nows : List ℕ} {r : IncrementResponse} {s' : S} (now : ℕ) (r' : IncrementResponse)
          (s'' : S)
          → Calls key first s nows r s'
          → increment redis prefix window_ms now key s' ≡ (ok r', s'')
          → Calls key first s (now ∷ nows) r' s''

    -- The window is fixed: if the key has no live counter when the first call comes, and the other
    -- calls come before the window of the first one has ended, then the last call is told the number
    -- of all calls, and that the window ends `window_ms` after the first of them. It is assumed that
    -- the window is not empty, that the calls are answered and that Redis counts as documented.
    pub window_counts :
        (key : Text) (first : ℕ) (s : S) {nows : List ℕ} {r : IncrementResponse} {s' : S}
        → 0 < window_ms
        → live first (counter_of (prefix ++ key) s) ≡ none
        → Calls key first s nows r s'
        → All (λ now. now < first + window_ms) nows
        → Counted key (record { hits = suc (length nows); expires = some (first + window_ms) }) r s'
    window_counts key first s positive absent (one r s' h) early =
        first_in_window key first r s s' positive absent h
    window_counts key first s positive absent (more now r' s'' before h) (soon, early) =
        let c = window_counts key first s positive absent before early in
        later_in_window key now _ (first + window_ms) r' _ s'' (omega arith) soon c.stored h
