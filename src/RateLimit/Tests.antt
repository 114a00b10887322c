-- ===== src/RateLimit/Tests.antt =====
-- A Redis of counters, which has the rules that the window is proved from; three calls in a window.
use split_bill_app.Prelude.{ℕ, ◌+◌, refl, [], ◌∷◌, Option, none, some, if◌then◌else◌, arith}
use split_bill_app.Effects.{ok}
use split_bill_app.Metrics.Table.{Text, codes, same_text, same_text_refl}
use split_bill_app.RateLimit.{RateRedis, IncrementResponse, increment, increment_script}
use split_bill_app.RateLimit.Window.{
  Counter, RateRules, Counted, Calls, one, more, live, one_more, remaining, window_counts,
}

abbrev Counters : Type 0
Counters = Text → Option Counter

abbrev store : Text → Option Counter → Counters → Counters
store key c s other = if same_text key other then c else s other

abbrev with_expiry : ℕ → Option Counter → Option Counter
with_expiry at none = none
with_expiry at (some c) = some (record c { expires = some at })

abbrev counters : RateRedis Counters
counters = record {
  incr = λ key now s.
      (ok (one_more (live now (s key))).hits, store key (some (one_more (live now (s key)))) s);
  pexpire = λ key ms now s. (ok tt, store key (with_expiry (now + ms) (live now (s key))) s);
  pttl = λ key now s. (ok (remaining now (live now (s key))), s);
  decr = λ key now s. (ok tt, s);
  del = λ key s. (ok tt, store key none s);
}

abbrev counter_of : Text → Counters → Option Counter
counter_of key s = s key

counters-RateRules : RateRules counters counter_of
counters-RateRules = record {
  incremented = λ key now n s s' h. (ground (arith, same_text_refl key), ground arith);
  expiring = λ key ms now c s s' h there. ground (arith, same_text_refl key, there);
  left = λ key now t s s' h. (ground arith, ground arith);
}

abbrev api : Text
api = codes "rl:api:"

abbrev address : Text
address = codes "127.0.0.1"

abbrev none_yet : Counters
none_yet key = none

abbrev state_after : ℕ → Counters → Counters
state_after now s = (increment counters api 1000 now address s).1

abbrev answer : ℕ → IncrementResponse
answer hits = record { total_hits = hits; reset_time = some 1500 }

abbrev third : Counters
third = state_after 1400 (state_after 700 (state_after 500 none_yet))

three-Calls :
    Calls counters counter_of counters-RateRules api 1000 address 500 none_yet
      (1400 ∷ 700 ∷ [])
      (answer 3)
      third
unfolding increment increment_script
three-Calls =
    more 1400 (answer 3) third
      (more 700 (answer 2) (state_after 700 (state_after 500 none_yet))
        (one (answer 1) (state_after 500 none_yet) refl) refl)
      refl

window_counts_example :
    Counted counters counter_of counters-RateRules api 1000 address
      (record { hits = 3; expires = some 1500 })
      (answer 3)
      third
window_counts_example =
    window_counts counters counter_of counters-RateRules api 1000 address 500 none_yet
      (ground arith) refl three-Calls (ground arith, (ground arith, tt))
