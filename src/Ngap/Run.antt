-- ===== src/Ngap/Run.antt =====
-- The loop of runNgapEventHandler in internal/ngap/server.go, on the events that come in.
use n3iwf.Prelude.{List, [], ◌∷◌, ◌++◌}
use n3iwf.Prelude.Outcome.{ok, ◌>>=◌, After, bind-After}
use n3iwf.Context.{N3iwf}
use n3iwf.Context.Pools.{IsConsistent}
use n3iwf.Events.{NgapEvt}
use n3iwf.Ngap.Types.{Env, Step}
use n3iwf.Ngap.Keep.{Kept}
use n3iwf.Ngap.Handlers.{handle_event}
use n3iwf.Ngap.Handlers.Keeps.{handle_event-IsConsistent}

module _ {S G : Type 0} (env : Env S G) where
  -- One event after the other, with all that is sent. A panic ends the program.
  pub run : N3iwf S G → List NgapEvt → Step S G
  run w [] = ok (w, [])
  run w (e ∷ es) = do
    first ← handle_event env w e
    rest ← run first.0 es
    ok (rest.0, first.1 ++ rest.1)

  -- After any sequence of events the pool of RAN UEs of a gateway that began in a consistent state is
  -- consistent. A sequence with an event that panics, or runs out of fuel on its EAP-5G data, yields
  -- no state.
  pub run-IsConsistent :
      (w : N3iwf S G) (es : List NgapEvt) → IsConsistent w → After Kept (run w es)
  unfolding run
  run-IsConsistent w [] c = c
  run-IsConsistent w (e ∷ es) c =
      bind-After Kept (handle_event env w e) _ (handle_event-IsConsistent env w c e) (λ first d.
        bind-After Kept (run first.0 es) _ (run-IsConsistent first.0 es d) (λ rest k. k))
