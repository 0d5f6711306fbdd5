-- ===== src/Start/Orderly.antt =====
-- What holds of all the instances of cmd/briefmail/start.go on the way: an invariant of its steps.
use briefmail.Base.{◌+◌, ◌≡◌, refl, sym, ap, ◌∙◌, subst, true, List, ◌∷◌, ◌++◌, arith, All}
use briefmail.Start.Process.{
  unset, live, timed_out, stopped, forced, attentive, selecting, returned, Instance, Process,
  is_done, Step, notifies, receives, forces, returns, times_out, stops, binds, serves, releases,
  cannot_bind, dies, panics, Reach, here, further,
}
use briefmail.Start.Instances.{
  Allowed-Turn, Fine, Turn-Fine, Fine-context, owes, unreleased, unreleased-middle, All-middle,
  All-mono,
}
use briefmail.Start.Contexts.{
  is_set, cancel-done, cancel-unset, cancel-is_set, set-done, cancel-Fine, stop-Fine,
}

pub record Orderly (p : Process) : Type 0 where
  pub fine : All (Fine p.context) p.instances
  pub group : p.wg ≡ unreleased p.instances
  pub ready : p.main ≡ attentive → p.context ≡ unset
  pub prepared : p.main ≡ selecting → is_set p.context ≡ true
  pub fated : p.main ≡ returned → is_done p.context ≡ true

module _ {p : Process} (k : Orderly p) where
  -- the record of the instance in the middle is replaced
  replace :
      (xs ys : List Instance) (i j : Instance)
      → p.instances ≡ xs ++ (i ∷ ys)
      → (Fine p.context i → Fine p.context j)
      → All (Fine p.context) (xs ++ (j ∷ ys))
  replace xs ys i j at f =
      All-middle (Fine p.context) xs ys i j (subst (All (Fine p.context)) at k.fine) f

  regroup :
      (xs ys : List Instance) (i j : Instance)
      → p.instances ≡ xs ++ (i ∷ ys)
      → unreleased (xs ++ (j ∷ ys)) + owes i.released ≡ p.wg + owes j.released
  regroup xs ys i j at =
      omega (arith, k.group, ap unreleased at, unreleased-middle xs ys i, unreleased-middle xs ys j)

  Step-Orderly : {q : Process} → Step p q → Orderly q
  Step-Orderly (notifies r) = record {
    fine = k.fine;
    group = k.group;
    ready = k.ready;
    prepared = k.prepared;
    fated = k.fated;
  }
  Step-Orderly (receives at _) = record {
    fine =
        All-mono (Fine p.context) (Fine live) p.instances
          (λ i. Fine-context p.context live i (λ _. ap is_done (k.ready at)) (λ e. cc)) k.fine;
    group = k.group;
    ready = λ h. cc;
    prepared = λ _. refl;
    fated = λ h. cc;
  }
  Step-Orderly (forces at _) = record {
    fine = cancel-Fine p.context forced p.instances (λ e. cc) k.fine;
    group = k.group;
    ready = λ h. cc;
    prepared = λ h. cc;
    fated = λ _. set-done forced p.context refl (k.prepared at);
  }
  Step-Orderly (returns at over) = record {
    fine = k.fine;
    group = k.group;
    ready = λ h. cc;
    prepared = λ h. cc;
    fated = λ _. over;
  }
  Step-Orderly (times_out r at) = record {
    fine =
        All-mono (Fine p.context) (Fine timed_out) p.instances
          (λ i. Fine-context p.context timed_out i (λ e. cc) (λ e. cc)) k.fine;
    group = k.group;
    ready = λ h. cc (k.ready h);
    prepared = λ _. refl;
    fated = λ _. refl;
  }
  Step-Orderly (stops r c e) = record {
    fine = stop-Fine p.context p.instances (sym k.group ∙ e) k.fine;
    group = k.group;
    ready = λ h. cancel-unset stopped p.context (k.ready h);
    prepared = λ h. cancel-is_set stopped p.context refl (k.prepared h);
    fated = λ h. cancel-done stopped p.context (k.fated h);
  }
  Step-Orderly (binds xs ys i r at u) = record {
    fine =
        replace xs ys i _ at
          (λ f. record { life = f.life; counted = f.counted; clean = f.clean; final = f.final });
    group = omega (arith, regroup xs ys i (record i { bound = true }) at);
    ready = k.ready;
    prepared = k.prepared;
    fated = k.fated;
  }
  Step-Orderly (serves xs ys i {t} r at step a) = record {
    fine =
        replace xs ys i _ at (λ f. Turn-Fine p.context i t _ f step (Allowed-Turn p i step a) refl);
    group = omega (arith, regroup xs ys i (record i { server = t }) at);
    ready = k.ready;
    prepared = k.prepared;
    fated = k.fated;
  }
  Step-Orderly (releases xs ys i r at over behind u) = record {
    fine =
        replace xs ys i _ at
          (λ f. record { life = f.life; counted = λ _. over; clean = f.clean; final = f.final });
    group = omega (arith, regroup xs ys i (record i { released = true }) at, ap owes u);
    ready = k.ready;
    prepared = k.prepared;
    fated = k.fated;
  }
  Step-Orderly (cannot_bind xs ys i r at u) = record {
    fine = k.fine;
    group = k.group;
    ready = λ h. cc;
    prepared = λ h. cc;
    fated = λ h. cc;
  }
  Step-Orderly (dies xs ys i e r at u) = record {
    fine = k.fine;
    group = k.group;
    ready = λ h. cc;
    prepared = λ h. cc;
    fated = λ h. cc;
  }
  Step-Orderly (panics xs ys i r at s u) = record {
    fine = k.fine;
    group = k.group;
    ready = λ h. cc;
    prepared = λ h. cc;
    fated = λ h. cc;
  }

pub Reach-Orderly : {b p : Process} → Orderly b → Reach b p → Orderly p
Reach-Orderly k here = k
Reach-Orderly k (further path step) = Step-Orderly (Reach-Orderly k path) step
