-- ===== src/Server/Rejection.antt =====
-- reject_switch: the precedent, the label and the queued tasks of a rejected proposal.
use mcp_session_router.Base.{String, ◌≡◌, ap}
use mcp_session_router.Base.{Option, none, some, ok}
use mcp_session_router.Store.{TextFormat, Directory}
use mcp_session_router.Decisions.{append_label}
use mcp_session_router.Context.{App, Env, Tool}
use mcp_session_router.Server.{no_current_session, reject_switch, reject_current}
use mcp_session_router.Queue.{QueueDir}

-- Without a current session a rejection changes nothing.
pub reject_switch_without_session :
    (F : TextFormat) (env : Env) (stem stem' target gist : String) (app : App F)
    → app.state.current_session_name ≡ none
    → reject_switch F env stem stem' target gist app ≡ (ok no_current_session, app)
unfolding reject_switch
reject_switch_without_session F env stem stem' target gist app h =
    ap (λ (o : Option String). reject_current F env stem stem' target gist o app) h

module _ (F : TextFormat) (env : Env) where
  abbrev reject_state : String → String → App F → Directory F → QueueDir F → App F
  reject_state name target app dir queue = record app {
    sessions = dir;
    decisions =
        append_label env.writable target "reject" "reject_switch" (some name) env.now app.decisions;
    queue = queue;
  }

  abbrev reject_label : String → String → App F → App F
  reject_label name target app = reject_state name target app app.sessions app.queue

  -- The tool changes nothing but the queue.
  abbrev OnlyQueues : {A : Type 0} → Tool F A → Type 0
  OnlyQueues m = (app : App F) → (q : QueueDir F) × ((m app).1 ≡ record app { queue = q })
