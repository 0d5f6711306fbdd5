-- ===== src/Pop3/Proto/Effects.antt =====
-- The effect of each handler of internal/pop3 on the locks.
use briefmail.Base.{Option, none, some, codes}
use briefmail.Outcome.{bad_sequence, invalid_syntax, Result, ok, err}
use briefmail.Pop3.Handlers.Quiet.{Calm, still, send-Calm}
use briefmail.Pop3.Handlers.Calm.{
  retr-Calm, dele-Calm, noop-Calm, rset-Calm, stls-Calm, capa-Calm, quit-Calm,
}
use briefmail.Pop3.Handlers.Listing.{user-Calm, stat-Calm, list-Calm, uidl-Calm}
use briefmail.Pop3.Handlers.Effect.{Effect, calm, before_quiet, pass-Effect}
use briefmail.Pop3.Proto.{
  Verb, capa_verb, user_verb, pass_verb, stat_verb, list_verb, uidl_verb, retr_verb, dele_verb,
  noop_verb, rset_verb, quit_verb, stls_verb, handler, answer_error, dispatch,
}
use briefmail.Pop3.Session.{Command, negative, Config, Session}

-- Every handler has an effect of one of the three kinds.
pub handler-Effect :
    (cfg : Config) (v : Verb) (c : Command) (s : Session) → Effect s (handler cfg v c s).1
unfolding handler
handler-Effect cfg capa_verb c s = calm (capa-Calm _ c s).quiet
handler-Effect cfg user_verb c s = calm (user-Calm c s).quiet
handler-Effect cfg pass_verb c s = pass-Effect cfg c s
handler-Effect cfg stat_verb c s = calm (stat-Calm c s).quiet
handler-Effect cfg list_verb c s = calm (list-Calm c s).quiet
handler-Effect cfg uidl_verb c s = calm (uidl-Calm cfg c s).quiet
handler-Effect cfg retr_verb c s = calm (retr-Calm c s).quiet
handler-Effect cfg dele_verb c s = calm (dele-Calm c s).quiet
handler-Effect cfg noop_verb c s = calm (noop-Calm c s).quiet
handler-Effect cfg rset_verb c s = calm (rset-Calm c s).quiet
handler-Effect cfg quit_verb c s = calm (quit-Calm c s).quiet
handler-Effect cfg stls_verb c s = calm (stls-Calm cfg c s).quiet

answer_error-Calm : (r : Result (Unit {0})) (s : Session) → Calm s (answer_error r s)
unfolding answer_error
answer_error-Calm (ok x) s = still s _
answer_error-Calm (err bad_sequence) s = send-Calm (negative (codes "bad sequence of commands")) s
answer_error-Calm (err invalid_syntax) s = send-Calm (negative (codes "invalid syntax")) s
answer_error-Calm (err e) s = still s _

pub dispatch-Effect :
    (cfg : Config) (v : Option Verb) (c : Command) (s : Session) → Effect s (dispatch cfg v c s).1
unfolding dispatch
dispatch-Effect cfg none c s = calm (send-Calm (negative (codes "command not implemented")) s).quiet
dispatch-Effect cfg (some v) c s =
    let r = handler cfg v c s in
    before_quiet (handler-Effect cfg v c s) (answer_error-Calm r.0 r.1).quiet
