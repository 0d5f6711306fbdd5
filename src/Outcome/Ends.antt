-- ===== src/Outcome/Ends.antt =====
-- What holds when a run ends without an error.
use briefmail.Base.{◌≡◌, refl, ap, subst}
use briefmail.Outcome.{Result, ok, err, Exec, continue}

-- a run that ends without an error, and what holds then
pub record Ends {S A : Type 0} (Q : A → S → Type 0) (p : Result A × S) : Type 0 where
  pub holds : (a : A) → p.0 ≡ ok a → Q a p.1

pub bind-Ends :
    {S A B : Type 0} (P : A → S → Type 0) (Q : B → S → Type 0) (r : Result A) (f : A → Exec S B)
    (s : S)
    → Ends P (r, s)
    → ((a : A) → P a s → Ends Q (f a s))
    → Ends Q (continue r f s)
bind-Ends P Q (ok a) f s h k = k a (h.holds a refl)
bind-Ends P Q (err e) f s h k = record { holds = λ b p. cc }

-- Less may be said of the end.
pub map-Ends :
    {S A : Type 0} (P Q : A → S → Type 0) (p : Result A × S)
    → ((a : A) → P a p.1 → Q a p.1)
    → Ends P p
    → Ends Q p
map-Ends P Q p f h = record { holds = λ a e. f a (h.holds a e) }

pub ok-inj : {A : Type 0} {a a' : A} → ok a ≡ ok a' → a ≡ a'
ok-inj {a = a} e = ap (λ r. elim r [ ok x ↦ x | err _ ↦ a ]) e

pub ok-Ends : {S A : Type 0} (Q : A → S → Type 0) (a : A) (s : S) → Q a s → Ends Q (ok a, s)
ok-Ends Q a s h = record { holds = λ a' e. subst (λ x. Q x s) (ok-inj e) h }
