-- ===== src/Smtp/Command.antt =====
-- internal/smtp/command.go
use briefmail.Base.{
  ℕ, suc, ◌+◌, Bool, true, false, not, Option, none, some, List, [], ◌∷◌, Bytes, codes, equal, ltb,
  ◌==◌, if◌then◌else◌, length, take, drop,
}
use briefmail.Outcome.{command_syntax, Result, ok, err}
use briefmail.Outcome.Fallible.{◌>>=◌}
use briefmail.Text.{index_byte, has_prefix, to_upper, fields}

pub record Command : Type 0 where
  pub head : Bytes
  pub tail : Bytes

parse_at : Option ℕ → Bytes → Command
parse_at none line = record { head = line; tail = [] }
parse_at (some i) line = record { head = take i line; tail = drop (suc i) line }

-- (*command).parse; a tail that is nil is empty
unfoldable pub parse : Bytes → Command
unfolding parse_at index_byte
parse line = parse_at (index_byte b' ' line) line

-- map[string]string, as its lookup
abbrev pub Params : Type 0
Params = Bytes → Option Bytes

abbrev pub no_params : Params
no_params k = none

abbrev assign : Params → Bytes → Bytes → Params
assign m k v j = if equal k j then some v else m j

abbrev add_param : Option ℕ → Bytes → Params → Params
add_param none param m = assign m (to_upper param) []
add_param (some i) param m = assign m (to_upper (take i param)) (drop (suc i) param)

-- the loop over the fields behind the path
unfoldable pub params_of : List Bytes → Params → Params
unfolding to_upper index_byte
params_of [] m = m
params_of (param ∷ rest) m = params_of rest (add_param (index_byte b'=' param) param m)

abbrev skip_space : Bytes → Bytes
skip_space [] = []
skip_space (c ∷ tail) = if c == b' ' then tail else c ∷ tail

abbrev check : Bool → Result (Unit {0})
check true = ok tt
check false = err command_syntax

or_syntax : Option ℕ → Result ℕ
or_syntax none = err command_syntax
or_syntax (some i) = ok i

-- (*command).args; no caller gives an empty name
unfoldable pub args : Bytes → Command → Result (Bytes × Params)
unfolding has_prefix to_upper index_byte fields params_of or_syntax
args name c = do
  _ ← check (not (ltb (length c.tail) (length name + 3)))
  _ ← check (has_prefix (to_upper (take (length name) c.tail)) (to_upper name))
  _ ← check (has_prefix (drop (length name) c.tail) (codes ":<"))
  end ← or_syntax (index_byte b'>' c.tail)
  ok (
    drop (length name + 2) (take end c.tail),
    params_of (fields (skip_space (drop (suc end) c.tail))) no_params,
  )
