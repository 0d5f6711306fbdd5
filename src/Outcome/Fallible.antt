-- ===== src/Outcome/Fallible.antt =====
-- Pure Go functions that return `(T, error)`.
use briefmail.Base.{◌≡◌, refl}
use briefmail.Outcome.{Result, ok, err}

infixl 5 ◌>>=◌
abbrev pub ◌>>=◌ {ℓ κ} : {T : Type ℓ} {V : Type κ} → Result T → (T → Result V) → Result V
err failure >>= next = err failure
ok value >>= next = next value

-- Code that returned a result has passed its first call.
pub bind-eq-ok {ℓ κ} :
    {T : Type ℓ} {V : Type κ} {result : V} (first : Result T) (next : T → Result V)
    → (first >>= next) ≡ ok result
    → (value : T) × (first ≡ ok value) × (next value ≡ ok result)
bind-eq-ok (err failure) next passed = cc
bind-eq-ok (ok value) next passed = (value, refl, passed)
