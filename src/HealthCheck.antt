-- ===== src/HealthCheck.antt =====
-- couchbase/healthcheck.go: the check that pings the cluster at every tick, and Start and Stop, which
-- run its goroutine once.
use go_dcp.Prelude.{ℕ, zero, suc, ◌+◌, ◌≡◌, ◌↔◌, Bool, true, false, ltb, arith, if◌then◌else◌}

pub data Health : Type 0 where
  healthy canceled panics : Health

abbrev pub max_retries : ℕ
max_retries = 5

-- `ping` says whether the attempt with that number is answered, and `done_` whether the context is
-- done during the wait after it. The first argument counts the attempts that are left.
unfoldable pub attempts : (ℕ → Bool) → (ℕ → Bool) → ℕ → ℕ → Health
attempts ping done_ zero attempt = healthy
attempts ping done_ (suc left) attempt =
    let again = attempts ping done_ left (attempt + 1) in
    if ping attempt
    then healthy
    else if ltb attempt max_retries
    then if done_ attempt then canceled else again
    else panics

unfoldable pub perform_health_check : (ℕ → Bool) → (ℕ → Bool) → Health
unfolding attempts
perform_health_check ping done_ = attempts ping done_ max_retries 1

-- Whether Start and Stop have been called, and whether the goroutine runs: its context is cancelled
-- by Stop, which waits until it has ended.
pub record HealthCheck : Type 0 where
  pub started : Bool
  pub stopped : Bool
  pub runs : Bool

unfoldable pub new_health_check : HealthCheck
new_health_check = record { started = false; stopped = false; runs = false }

unfoldable pub start : HealthCheck → HealthCheck
start h = if h.started then h else record h { started = true; runs = true }

unfoldable pub stop : HealthCheck → HealthCheck
stop h = if h.stopped then h else record h { stopped = true; runs = false }

-- The check ends the program exactly when five pings in a row fail and the context is not done
-- during one of the four waits between them.
pub perform_health_check-panics :
    (ping done_ : ℕ → Bool)
    → (perform_health_check ping done_ ≡ panics) ↔ (
        ((ping 1 ≡ false)
          × (ping 2 ≡ false)
          × (ping 3 ≡ false)
          × (ping 4 ≡ false)
          × (ping 5 ≡ false))
        × ((done_ 1 ≡ false) × (done_ 2 ≡ false) × (done_ 3 ≡ false) × (done_ 4 ≡ false)))
unfolding perform_health_check
perform_health_check-panics ping done_ = ground arith
