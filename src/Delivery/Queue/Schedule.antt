-- ===== src/Delivery/Queue/Schedule.antt =====
-- scheduleAttempt of internal/delivery/queue.go.
use briefmail.Base.{ℕ, ◌+◌, ◌≤◌, ◌<◌, ◌≡◌, ◌↔◌, Bool, true, arith}
use briefmail.Delivery.Queue.{schedule_attempt}

-- There is another attempt just for the first 29; it is no sooner than in 10 minutes and no later
-- than in an hour.
pub record IsScheduled (now attempt : ℕ) (r : Bool × ℕ) : Type 0 where
  pub tries : (r.0 ≡ true) ↔ (attempt < 30)
  pub soonest : r.0 ≡ true → now + 600 ≤ r.1
  pub latest : r.1 ≤ now + 3600

pub schedule_attempt-IsScheduled :
    (now attempt : ℕ) → IsScheduled now attempt (schedule_attempt now attempt)
unfolding schedule_attempt
schedule_attempt-IsScheduled now attempt = record {
  tries = ground arith;
  soonest = ground arith;
  latest = ground arith;
}

-- The wait before an attempt never gets shorter from one attempt to the next, as long as there is
-- one; the time of an attempt that is still made is in the future; and once an attempt is not made,
-- no later one is.
pub schedule_attempt-backs_off :
    (now n m : ℕ)
    → n ≤ m
    → (schedule_attempt now m).0 ≡ true
    → ((schedule_attempt now n).0 ≡ true)
      × ((schedule_attempt now n).1 ≤ (schedule_attempt now m).1)
      × (now < (schedule_attempt now n).1)
unfolding schedule_attempt
schedule_attempt-backs_off now n m le p = ground arith
