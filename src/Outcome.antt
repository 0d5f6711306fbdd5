-- ===== src/Outcome.antt =====
-- Go's `error` values, results, and code that changes a state and may return an error.
pub mod Fallible
pub mod Ends
use briefmail.Base.{ℕ, Bool, Option, none, some, List, [], ◌∷◌}

-- The sentinel errors of the packages, which the code compares by identity, and the errors of
-- what it calls.
pub data Error : Type 0 where
  -- io.EOF
  eof : Error
  -- errCloseSession, errBadSequence of smtp and pop3
  close_session bad_sequence : Error
  -- smtp.errCommandSyntax
  command_syntax : Error
  -- pop3.errInvalidSyntax
  invalid_syntax : Error
  -- model.ErrInvalidAddressFormat, model.ErrPathTooLong
  invalid_address_format path_too_long : Error
  -- smtp.errReaderLimitReached
  reader_limit_reached : Error
  -- bufio.ErrTooLong
  token_too_long : Error
  -- textproto.ErrAlreadyTLS
  already_tls : Error
  -- sql.ErrNoRows, and a violated key constraint
  no_rows constraint : Error
  -- afero's error for a missing file
  not_exist : Error
  -- fmt.Errorf("could not deliver to %s")
  could_not_deliver : Error
  -- fmt.Errorf("addressbook: unknown mailbox '%s'")
  unknown_mailbox : Error
  -- delivery.errCouldNotConnect
  could_not_connect : Error
  -- a *net.OpError, with `Timeout()`
  net_error : Bool → Error
  -- any other error of a callee
  other : ℕ → Error
  -- a nil dereference or an index out of range
  panic : Error

pub data Result {ℓ} (A : Type ℓ) : Type ℓ where
  ok : A → Result A
  err : Error → Result A

-- A handler: the state comes back beside the error too.
abbrev pub Exec {ℓ} : Type ℓ → Type ℓ → Type ℓ
Exec S A = S → Result A × S

-- `func(...) error`
abbrev pub Action : Type 0 → Type 0
Action S = Exec S (Unit {0})

module _ {ℓ} {S A : Type ℓ} where
  abbrev pub pure : A → Exec S A
  pure a s = (ok a, s)

  abbrev pub raise : Error → Exec S A
  raise e s = (err e, s)

  abbrev pub lift : Result A → Exec S A
  lift r s = (r, s)

  abbrev pub of_option : Error → Option A → Exec S A
  of_option e none s = (err e, s)
  of_option e (some a) s = (ok a, s)

module _ {ℓ} {S A B : Type ℓ} where
  abbrev pub continue : Result A → (A → Exec S B) → Exec S B
  continue (ok a) f s = f a s
  continue (err e) f s = (err e, s)

  infixl 5 ◌>>=◌ ◌>>◌
  abbrev pub ◌>>=◌ : Exec S A → (A → Exec S B) → Exec S B
  ◌>>=◌ m f s = let r = m s in continue r.0 f r.1

  abbrev pub ◌>>◌ : Exec S A → Exec S B → Exec S B
  m >> k = m >>= λ _. k

-- What the environment does to the calls of a resource, in order: `none` lets a call go through.
-- Behind the end of the list nothing fails.
abbrev pub Faults : Type 0
Faults = List (Option Error)

abbrev pub head_fault : Faults → Option Error
head_fault [] = none
head_fault (f ∷ fs) = f

abbrev pub tail_faults : Faults → Faults
tail_faults [] = []
tail_faults (f ∷ fs) = fs
