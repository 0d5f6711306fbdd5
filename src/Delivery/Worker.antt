-- ===== src/Delivery/Worker.antt =====
-- The state of a QueueWorker (internal/delivery/queue.go), WakeUp and sleep.
use briefmail.Base.{ℕ, suc, Bool, true, not, Option, none, some, if◌then◌else◌}

pub record Worker : Type 0 where
  -- the duration of the timer that is set
  pub alarm : Option ℕ
  pub busy : Bool
  -- how many times `go q.work()` was run
  pub started : ℕ

-- (*QueueWorker).WakeUp, between Lock and Unlock
unfoldable pub wake_up : Worker → Worker
wake_up w =
    let w' = record w { alarm = none } in
    if not w.busy then record w' { busy = true; started = suc w.started } else w'

-- (*QueueWorker).sleep
unfoldable pub sleep : ℕ → Worker → Worker
sleep d w = record w { alarm = some d }
