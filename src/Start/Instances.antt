-- ===== src/Start/Instances.antt =====
-- What holds of every instance that cmd/briefmail/start.go has started, under each context.
use briefmail.Base.{
  ℕ, ◌+◌, ◌≡◌, refl, sym, ap, ◌∙◌, Bool, true, false, List, [], ◌∷◌, ◌++◌, arith, All,
}
use briefmail.TextProto.Server
use briefmail.TextProto.Server.{
  is_over, closes, ShutdownPhase, not_called, signalled, waiting, drained, canceled, failed, Server,
  selects, accepts, fails, spawns, registers, removes, done, signals, shuts, drains, cancels,
  listening,
}
use briefmail.Start.Process.{Context, stopped, Instance, Process, is_done, Allowed}

-- What a step of a server does to its Shutdown, where `over` says that the context is done.
pub data Turn (over : Bool) (x : ShutdownPhase) : ShutdownPhase → Type 0 where
  keeps : Turn over x x
  begins : {y : ShutdownPhase} → is_over x ≡ false → is_over y ≡ false → Turn over x y
  waits : is_over x ≡ false → Turn over x drained
  gives_up : is_over x ≡ false → over ≡ true → Turn over x canceled

pub Allowed-Turn :
    (p : Process) (i : Instance) {t : Server} (step : Server.Step i.server t)
    → Allowed p i step
    → Turn (is_done p.context) i.server.shutdown t.shutdown
Allowed-Turn p i (selects _) a = keeps
Allowed-Turn p i (accepts _ _) a = keeps
Allowed-Turn p i (fails _ _) a = keeps
Allowed-Turn p i (spawns _) a = keeps
Allowed-Turn p i (registers _ _ _) a = keeps
Allowed-Turn p i (removes _ _ _ _ _) a = keeps
Allowed-Turn p i (closes _ _) a = keeps
Allowed-Turn p i (done _ _ _) a = keeps
Allowed-Turn p i (signals at) a = begins (ap is_over at) refl
Allowed-Turn p i (shuts at) a = begins (ap is_over at) refl
Allowed-Turn p i (drains at _) a = waits (ap is_over at)
Allowed-Turn p i (cancels at) a = gives_up (ap is_over at) a

-- What is known of an instance under a context.
pub record Fine (c : Context) (i : Instance) : Type 0 where
  pub life : Server.Reach listening i.server
  pub counted : i.released ≡ true → is_over i.server.shutdown ≡ true
  pub clean : is_done c ≡ false → is_over i.server.shutdown ≡ true → i.server.shutdown ≡ drained
  pub final : c ≡ stopped → i.server.shutdown ≡ drained

pub Turn-Fine :
    (c : Context) (i : Instance) (t : Server) (y : ShutdownPhase)
    → Fine c i
    → Server.Step i.server t
    → Turn (is_done c) i.server.shutdown y
    → t.shutdown ≡ y
    → Fine c (record i { server = t })
Turn-Fine c i t y k step keeps e = record {
  life = Server.further k.life step;
  counted = λ h. ap is_over e ∙ k.counted h;
  clean = λ h g. e ∙ k.clean h (sym (ap is_over e) ∙ g);
  final = λ h. e ∙ k.final h;
}
Turn-Fine c i t y k step (begins u v) e = record {
  life = Server.further k.life step;
  counted = λ h. cc (k.counted h);
  clean = λ h g. cc (ap is_over e);
  final = λ h. cc (ap is_over (k.final h));
}
Turn-Fine c i t y k step (waits u) e = record {
  life = Server.further k.life step;
  counted = λ h. ap is_over e;
  clean = λ h g. e;
  final = λ h. e;
}
Turn-Fine c i t y k step (gives_up u v) e = record {
  life = Server.further k.life step;
  counted = λ h. ap is_over e;
  clean = λ h g. cc;
  final = λ h. cc (ap is_over (k.final h));
}

-- another context, under which a Shutdown that has returned is no worse
pub Fine-context :
    (c d : Context) (i : Instance)
    → (is_done d ≡ false → is_done c ≡ false)
    → (d ≡ stopped → c ≡ stopped)
    → Fine c i
    → Fine d i
Fine-context c d i f g k = record {
  life = k.life;
  counted = k.counted;
  clean = λ h. k.clean (f h);
  final = λ h. k.final (g h);
}

abbrev pub owes : Bool → ℕ
owes true = 0
owes false = 1

unfoldable pub unreleased : List Instance → ℕ
unreleased [] = 0
unreleased (i ∷ is) = owes i.released + unreleased is

pub unreleased-middle :
    (xs ys : List Instance) (i : Instance)
    → unreleased (xs ++ (i ∷ ys)) ≡ owes i.released + (unreleased xs + unreleased ys)
unfolding unreleased
unreleased-middle [] ys i = omega arith
unreleased-middle (x ∷ xs) ys i = omega (arith, unreleased-middle xs ys i)

pub All-middle :
    (P : Instance → Type 0) (xs ys : List Instance) (i j : Instance)
    → All P (xs ++ (i ∷ ys))
    → (P i → P j)
    → All P (xs ++ (j ∷ ys))
All-middle P [] ys i j h f = (f h.0, h.1)
All-middle P (x ∷ xs) ys i j h f = (h.0, All-middle P xs ys i j h.1 f)

pub All-mono :
    (P Q : Instance → Type 0) (xs : List Instance)
    → ((i : Instance) → P i → Q i)
    → All P xs
    → All Q xs
All-mono P Q [] f h = tt
All-mono P Q (x ∷ xs) f h = (f x h.0, All-mono P Q xs f h.1)

-- Every instance is released when none is owed.
pub unreleased-eq-zero :
    (c : Context) (xs : List Instance)
    → All (Fine c) xs
    → unreleased xs ≡ 0
    → All (λ i. is_over i.server.shutdown ≡ true) xs
unfolding unreleased
unreleased-eq-zero c [] h e = tt
unreleased-eq-zero c (x ∷ xs) h e =
    (h.0.counted (is_released x.released (omega arith)), unreleased-eq-zero c xs h.1 (omega arith))
  where
    is_released : (b : Bool) → owes b ≡ 0 → b ≡ true
    is_released true q = refl
    is_released false q = cc
