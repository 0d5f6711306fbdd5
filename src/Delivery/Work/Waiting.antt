-- ===== src/Delivery/Work/Waiting.antt =====
-- What the worker of internal/delivery/queue.go leaves in the queue when it stops.
use briefmail.Base.{
  ℕ, ◌≡◌, ◌≢◌, refl, ap, ◌∙◌, inl, inr, false, Option, none, some, List, [], ◌++◌, ltb, arith,
  Bool-cases,
}
use briefmail.Outcome.{Result, ok, err}
use briefmail.Delivery.Queue.{QueueConfig, next, deliver_element}
use briefmail.Delivery.Work.{
  Phase, at_lock, Office, woken, look, serve, go_on, Step, queues, wakes, rings, looks, delivers,
  elsewhere, Reach, here, further,
}
use briefmail.Delivery.Work.OneLoop.{OneLoop, woken-OneLoop, Step-OneLoop, idle, running, not_none}
use briefmail.Delivery.Worker.{Worker, sleep}
use briefmail.Delivery.Queue.Database.{deliver_element-works}
use briefmail.Storage.Cleaner.Faultless.{clean-works}
use briefmail.Storage.Db.Transact.{transact-works}
use briefmail.Model.Address.Errors.{IsNormalizer}
use briefmail.Storage.Cleaner.{Store}
use briefmail.Storage.Db.{Db, QueueElement, add_to_queue}
use briefmail.Delivery.Queue.Peek.{peek-Peeked, next-db, next-nothing}

-- Clean follows each attempt
serve-works :
    {W : Type 0} (cfg : QueueConfig W) (now : ℕ) (elem : QueueElement) (s : Store) (net : W)
    → s.db.faults ≡ []
    → (serve cfg now elem s net).0.db.faults ≡ []
unfolding serve
serve-works cfg now elem s net w =
    clean-works (deliver_element cfg now elem s net).0 (deliver_element-works cfg now elem s net w)

-- A worker that has stopped for want of mails has none in its queue.
record Quiescent {W : Type 0} (o : Office W) : Type 0 where
  works : o.store.db.faults ≡ []
  one : OneLoop o.worker.busy o.loops
  rest : o.loops ≡ [] → o.worker.alarm ≡ none → o.owed ≡ 0 → o.store.db.tables.queue ≡ []

woken-loops : {W : Type 0} (o : Office W) → OneLoop o.worker.busy o.loops → (woken o).loops ≢ []
unfolding woken
woken-loops o (idle b l) q = cc (rw (woken, b, l) at q)
woken-loops o (running p b l) q = cc (rw (woken, b, l) at q)

abbrev nothing_for : ℕ → Result (Option QueueElement × ℕ)
nothing_for d = ok (none, d)

-- what a look that ends the loop has found
look-ends :
    (r : Result (Option QueueElement × ℕ)) (w : Worker)
    → (look r w).1 ≡ none
    → (look r w).0.alarm ≡ none
    → r ≡ ok (none, 0)
unfolding look sleep
look-ends (err e) w p q = cc
look-ends (ok (some elem, d)) w p q = cc
look-ends (ok (none, d)) w p q = elim (Bool-cases (ltb 0 d)) [
  | inl wait ↦ cc (rw (look, wait, sleep) at q)
  | inr now ↦ ap nothing_for (ground (arith, now))
]

go_on-none : (p : Option Phase) (xs ys : List Phase) → xs ++ go_on p ys ≡ [] → p ≡ none
go_on-none none xs ys q = refl
go_on-none (some p) xs ys q = absurd (not_none p xs ys q)

Step-Quiescent :
    {W : Type 0} {cfg : QueueConfig W} {o o' : Office W}
    → IsNormalizer cfg.normalizer
    → Step cfg o o'
    → Quiescent o
    → Quiescent o'
unfolding add_to_queue woken
Step-Quiescent {o = o} n (queues id to added) h = record {
  works = transact-works _ o.store.db h.works;
  one = h.one;
  rest = λ l a z. absurd (omega (arith, z));
}
Step-Quiescent {o = o} n (wakes k due' free) h = record {
  works = h.works;
  one = woken-OneLoop o h.one;
  rest = λ l a z. absurd (woken-loops o h.one l);
}
Step-Quiescent {o = o} n (rings d set free) h = record {
  works = h.works;
  one = woken-OneLoop o h.one;
  rest = λ l a z. absurd (woken-loops o h.one l);
}
Step-Quiescent {cfg = cfg} {o = o} n (looks now xs ys at free) h =
    let d = next-db cfg.normalizer now o.store in
    let peeked = peek-Peeked cfg.normalizer o.store.db n h.works in
    record {
      works = ap (λ (x : Db). x.faults) d ∙ peeked.works;
      one = Step-OneLoop {cfg = cfg} {o = o} (looks now xs ys at free) h.one;
      rest = λ l a z.
          ap (λ (x : Db). x.tables.queue) d
          ∙ (peeked.queue
              ∙ next-nothing cfg.normalizer now o.store n h.works (
                  look-ends (next cfg.normalizer now o.store).0 o.worker
                    (go_on-none (look (next cfg.normalizer now o.store).0 o.worker).1 xs ys l) a));
    }
Step-Quiescent {cfg = cfg} {o = o} n (delivers now elem xs ys at) h = record {
  works = serve-works cfg now elem o.store o.net h.works;
  one = Step-OneLoop {cfg = cfg} {o = o} (delivers now elem xs ys at) h.one;
  rest = λ l a z. absurd (not_none at_lock xs ys l);
}
Step-Quiescent n (elsewhere store q f) h = record {
  works = f ∙ h.works;
  one = h.one;
  rest = λ l a z. q ∙ h.rest l a z;
}

Reach-Quiescent :
    {W : Type 0} {cfg : QueueConfig W} {start o : Office W}
    → IsNormalizer cfg.normalizer
    → Reach cfg start o
    → Quiescent start
    → Quiescent o
Reach-Quiescent n here h = h
Reach-Quiescent n (further before step) h = Step-Quiescent n step (Reach-Quiescent n before h)

-- From an empty queue and a worker at rest, with a database that does not fail: when no run of
-- `work` is left, no timer is set and every Deliver that has queued a mail has called WakeUp, the
-- queue is empty. No wake-up is lost, however the steps interleave.
pub Reach-drained :
    {W : Type 0} (cfg : QueueConfig W) (start o : Office W)
    → IsNormalizer cfg.normalizer
    → start.store.db.faults ≡ []
    → start.store.db.tables.queue ≡ []
    → start.worker.busy ≡ false
    → start.loops ≡ []
    → Reach cfg start o
    → o.loops ≡ []
    → o.worker.alarm ≡ none
    → o.owed ≡ 0
    → o.store.db.tables.queue ≡ []
Reach-drained cfg start o n w q b l path =
    (Reach-Quiescent n path (record { works = w; one = idle b l; rest = λ _ _ _. q })).rest
