-- ===== src/Server/Lifecycle.antt =====
-- How `Start` ends, once the server listens: the listener runs in a goroutine of its own, and `Start`
-- waits for it or for the end of its context, whichever comes first.
use a2a_registry.Common.{String, List, [], ◌∷◌, Bool, false, Option, none, some}

-- The errors of `ListenAndServe`: `http.ErrServerClosed`, and all others.
pub data ListenError : Type 0 where
  server_closed : ListenError
  other : String → ListenError

pub data Signal : Type 0 where
  listen_and_serve_returned : Option ListenError → Signal
  context_done : Signal

-- The error with which `Start` returns, if it does after these signals. `shutdown` is the error of
-- `Shutdown`, or none.
unfoldable pub wait : Option String → List Signal → Option (Option String)
wait shutdown [] = none
wait shutdown (context_done ∷ signals) = some shutdown
wait shutdown (listen_and_serve_returned none ∷ signals) = wait shutdown signals
wait shutdown (listen_and_serve_returned (some server_closed) ∷ signals) = wait shutdown signals
wait shutdown (listen_and_serve_returned (some (other e)) ∷ signals) = some (some e)

-- The API server runs on every replica, leader or not.
abbrev pub need_leader_election : Bool
need_leader_election = false
