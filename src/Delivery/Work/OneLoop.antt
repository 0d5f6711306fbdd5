-- ===== src/Delivery/Work/OneLoop.antt =====
-- How many runs of `work` (internal/delivery/queue.go) there are.
use briefmail.Base.{
  ℕ, ◌≡◌, ◌≢◌, refl, sym, ◌∙◌, inl, inr, Bool, true, false, Option, none, some, List, [], ◌∷◌, ◌++◌,
  ltb, Bool-cases,
}
use briefmail.Outcome.{Result, ok, err}
use briefmail.Delivery.Queue.{QueueConfig, next}
use briefmail.Delivery.Work.{
  Phase, at_lock, delivering, stuck, Office, woken, look, go_on, Step, queues, wakes, rings, looks,
  delivers, elsewhere, Reach, here, further,
}
use briefmail.Delivery.Worker.{Worker, wake_up, sleep}
use briefmail.Storage.Db.{QueueElement}

-- One loop runs while the worker is busy, and none while it is not.
pub data OneLoop (busy : Bool) (loops : List Phase) : Type 0 where
  idle : busy ≡ false → loops ≡ [] → OneLoop busy loops
  running : (p : Phase) → busy ≡ true → loops ≡ p ∷ [] → OneLoop busy loops

-- a loop of a list of one is the only one
pub the_only :
    (p q : Phase) (xs ys : List Phase) → xs ++ (q ∷ ys) ≡ p ∷ [] → (xs ≡ []) × (ys ≡ []) × (q ≡ p)
the_only p q [] ys h = (refl, cc, cc)
the_only p q (x ∷ []) ys h = cc
the_only p q (x ∷ y ∷ xs) ys h = cc

pub not_none : (q : Phase) (xs ys : List Phase) → xs ++ (q ∷ ys) ≢ []
not_none q [] ys h = cc
not_none q (x ∷ xs) ys h = cc

pub woken-OneLoop :
    {W : Type 0} (o : Office W)
    → OneLoop o.worker.busy o.loops
    → OneLoop (woken o).worker.busy (woken o).loops
unfolding woken wake_up
woken-OneLoop o (idle b l) = running at_lock (rw (b, wake_up) refl) (rw (b, woken, l) refl)
woken-OneLoop o (running p b l) = running p (rw (b, wake_up) refl) (rw (b, woken) l)

look-OneLoop :
    (r : Result (Option QueueElement × ℕ)) (w : Worker)
    → w.busy ≡ true
    → OneLoop (look r w).0.busy (go_on (look r w).1 [])
unfolding look sleep
look-OneLoop (err e) w b = running stuck b refl
look-OneLoop (ok (some elem, d)) w b = running (delivering elem) b refl
look-OneLoop (ok (none, d)) w b = elim (Bool-cases (ltb 0 d)) [
  | inl wait ↦ idle (rw (look, wait, sleep) refl) refl
  | inr now ↦ idle (rw (look, now) refl) refl
]

-- a step of a loop, which is the only one
in_loop :
    {busy busy' : Bool} {loops : List Phase} (xs : List Phase) (q : Phase) (ys zs : List Phase)
    → loops ≡ xs ++ (q ∷ ys)
    → OneLoop busy loops
    → (busy ≡ true → ys ≡ [] → OneLoop busy' zs)
    → OneLoop busy' (xs ++ zs)
in_loop xs q ys zs at (idle b l) k = absurd (not_none q xs ys (sym at ∙ l))
in_loop xs q ys zs at (running p b l) k =
    let (before, behind, _) = the_only p q xs ys (sym at ∙ l) in rw before (k b behind)

pub Step-OneLoop :
    {W : Type 0} {cfg : QueueConfig W} {o o' : Office W}
    → Step cfg o o'
    → OneLoop o.worker.busy o.loops
    → OneLoop o'.worker.busy o'.loops
Step-OneLoop (queues id to added) h = h
Step-OneLoop {o = o} (wakes k due free) h = woken-OneLoop o h
Step-OneLoop {o = o} (rings d set free) h = woken-OneLoop o h
Step-OneLoop {cfg = cfg} {o = o} (looks now xs ys at free) h =
    in_loop xs at_lock ys _ at h
      (λ b behind. rw behind (look-OneLoop (next cfg.normalizer now o.store).0 o.worker b))
Step-OneLoop {o = o} (delivers now elem xs ys at) h =
    in_loop xs (delivering elem) ys _ at h (λ b behind. running at_lock b (rw behind refl))
Step-OneLoop (elsewhere store q f) h = h

-- From a worker that is not busy and has no loop, whatever is queued, whoever calls WakeUp, whenever
-- the timer rings and whatever fails: there is one run of `work` while the worker is busy, and none
-- while it is not.
pub Reach-OneLoop :
    {W : Type 0} (cfg : QueueConfig W) (start o : Office W)
    → start.worker.busy ≡ false
    → start.loops ≡ []
    → Reach cfg start o
    → OneLoop o.worker.busy o.loops
Reach-OneLoop cfg start o b l here = idle b l
Reach-OneLoop cfg start o b l (further {o = o'} before step) =
    Step-OneLoop step (Reach-OneLoop cfg start o' b l before)
