-- ===== src/Start/Contexts.antt =====
-- What is known of the instances of cmd/briefmail/start.go when the context is canceled.
use briefmail.Base.{◌≡◌, refl, Bool, true, false, List, [], ◌∷◌, All}
use briefmail.TextProto.Server.{is_over}
use briefmail.Start.Process.{
  Context, unset, live, timed_out, stopped, forced, Instance, is_done, cancel,
}
use briefmail.Start.Instances.{Fine, Fine-context, unreleased, All-mono, unreleased-eq-zero}

-- WithTimeout has made the context
abbrev pub is_set : Context → Bool
is_set unset = false
is_set _ = true

pub cancel-done : (why c : Context) → is_done c ≡ true → is_done (cancel why c) ≡ true
cancel-done why unset h = h
cancel-done why live h = cc
cancel-done why timed_out h = h
cancel-done why stopped h = h
cancel-done why forced h = h

pub cancel-unset : (why c : Context) → c ≡ unset → cancel why c ≡ unset
cancel-unset why c e = rw e refl

pub cancel-is_set :
    (why c : Context) → is_set why ≡ true → is_set c ≡ true → is_set (cancel why c) ≡ true
cancel-is_set why unset g h = h
cancel-is_set why live g h = g
cancel-is_set why timed_out g h = h
cancel-is_set why stopped g h = h
cancel-is_set why forced g h = h

-- a context that is made is done once it is canceled
pub set-done :
    (why c : Context) → is_done why ≡ true → is_set c ≡ true → is_done (cancel why c) ≡ true
set-done why unset g h = cc
set-done why live g h = g
set-done why timed_out g h = refl
set-done why stopped g h = refl
set-done why forced g h = refl

-- a context that is canceled for another reason than the end of `shutdown`
pub cancel-Fine :
    (c why : Context) (xs : List Instance)
    → (why ≡ stopped → ⊥)
    → All (Fine c) xs
    → All (Fine (cancel why c)) xs
cancel-Fine unset why xs h k = k
cancel-Fine live why xs h k =
    All-mono (Fine live) (Fine why) xs
      (λ i. Fine-context live why i (λ _. refl) (λ e. absurd (h e))) k
cancel-Fine timed_out why xs h k = k
cancel-Fine stopped why xs h k = k
cancel-Fine forced why xs h k = k

-- the context that `shutdown` cancels when the wait group is at zero
pub stop-Fine :
    (c : Context) (xs : List Instance)
    → unreleased xs ≡ 0
    → All (Fine c) xs
    → All (Fine (cancel stopped c)) xs
stop-Fine unset xs e k = k
stop-Fine live xs e k = drain xs k (unreleased-eq-zero live xs k e)
  where
    drain :
        (xs : List Instance)
        → All (Fine live) xs
        → All (λ i. is_over i.server.shutdown ≡ true) xs
        → All (Fine stopped) xs
    drain [] k r = tt
    drain (x ∷ xs) k r = (
      record {
        life = k.0.life;
        counted = k.0.counted;
        clean = λ h. cc;
        final = λ h. k.0.clean refl r.0;
      },
      drain xs k.1 r.1,
    )
stop-Fine timed_out xs e k = k
stop-Fine stopped xs e k = k
stop-Fine forced xs e k = k
