-- ===== src/Context.antt =====
-- src/session_manager/server.py: the context that the tools share, what they send to the wrapper
-- and what they do to a session. A tool is an action on the context: what it wrote before it raised
-- stays written. The debug log is left out.
use mcp_session_router.Base.{String, Bool, true, false, if◌then◌else◌, List, [], ◌∷◌, ◌++◌}
use mcp_session_router.Base.{Option, none, some, Result, ok, err, not_connected}
use mcp_session_router.Base.Exec.{Exec, pure}
use mcp_session_router.Json.{Fields}
use mcp_session_router.Session.{
  SessionMetadata, archived, new_transition, new_precedent, touch, link_conversation,
  drop_precedents_for,
}
use mcp_session_router.Store.{TextFormat, Directory, mutate_session_by_name}
use mcp_session_router.State
use mcp_session_router.State.{ManagerState}
use mcp_session_router.Decisions.{Line}
use mcp_session_router.Queue.{QueueDir, SummaryTask}

-- The handoff block, without its constant instructions.
pub record Handoff : Type 0 where
  pub from_session : Option String
  pub message : String
  pub new_session_title : Option String

pub data Signal : Type 0 where
  current_session : Option String → Signal
  back : Signal
  switch : String → Handoff → String → Signal
  new : Option String → String → Handoff → String → Signal

-- What a call reads of its surroundings: the clock, the newest transcript of the project's
-- directory, and whether the decision log can be written.
pub record Env : Type 0 where
  pub now : String
  pub guess : Option String
  pub writable : Bool

-- `if conv_id is not None: current.link_conversation(conv_id)`
abbrev pub link_known : Option String → SessionMetadata → SessionMetadata
link_known none s = s
link_known (some conv_id) s = link_conversation conv_id s

abbrev pub retitle : Option String → SessionMetadata → SessionMetadata
retitle none s = s
retitle (some title) s = record s { title = title }

abbrev pub renamed : Option String → Option SessionMetadata → Option String
renamed current_name none = none
renamed current_name (some s) = current_name

abbrev pub is_known : Option String → Bool
is_known none = false
is_known (some conv_id) = true

module _ (env : Env) where
  abbrev pub first_known : Option String → Option String
  first_known none = env.guess
  first_known known = known

  -- apply_outgoing of session_switch
  unfoldable pub leave_for :
      String → String → String → Option String → Option String → SessionMetadata → SessionMetadata
  leave_for current_name target summary updated_title conv s =
      let s1 = retitle updated_title (record s { summary = some summary }) in
      let s2 = record s1 {
        transitions = s1.transitions ++ (new_transition (some current_name) target env.now ∷ []);
      } in
      touch env.now (link_known conv (drop_precedents_for target s2))

  abbrev pub outgoing :
      Option String
      → String
      → String
      → Option String
      → Option String
      → SessionMetadata
      → SessionMetadata
  outgoing none target summary updated_title conv s = s
  outgoing (some name) target summary updated_title conv s =
      leave_for name target summary updated_title conv s

  -- apply_end of session_end
  unfoldable pub end_now : String → Option String → SessionMetadata → SessionMetadata
  end_now summary conv s =
      touch env.now (link_known conv (record s { summary = some summary; status = archived }))

  -- apply_outgoing of session_create
  unfoldable pub hand_off : String → Option String → SessionMetadata → SessionMetadata
  hand_off handoff_summary conv s =
      touch env.now (link_known conv (record s { summary = some handoff_summary }))

  -- apply_reject of reject_switch
  unfoldable pub remember_rejection : String → String → String → SessionMetadata → SessionMetadata
  remember_rejection current_name rejected_target prompt_gist s = touch env.now (record s {
    precedents =
        s.precedents ++ (new_precedent prompt_gist current_name rejected_target env.now ∷ []);
  })

  abbrev pub task : String → String → String → Fields → SummaryTask
  task session_name conversation_id kind extra = record {
    session_name = session_name;
    conversation_id = conversation_id;
    kind = kind;
    requested_at = env.now;
    extra = extra;
  }

module _ (F : TextFormat) where
  -- AppContext with the files behind its stores; `signals` is what the wrapper has received.
  pub record App : Type 0 where
    pub state : ManagerState
    pub sessions : Directory F
    pub decisions : List Line
    pub queue : QueueDir F
    pub connected : Bool
    pub signals : List Signal

  abbrev pub Tool : Type 0 → Type 0
  Tool = Exec App

  abbrev pub get_current_session : Tool (Option String)
  get_current_session app = (ok app.state.current_session_name, app)

  unfoldable pub send_signal : Signal → Tool (Unit {0})
  send_signal signal app =
      if app.connected
      then (ok tt, record app { signals = app.signals ++ (signal ∷ []) })
      else (err not_connected, app)

  abbrev pub point_to : Option String → App → App
  point_to name app = record app { state = State.set_current_session name app.state }

  -- A failed notification is only logged.
  unfoldable pub set_current_session : Option String → Tool (Unit {0})
  unfolding send_signal
  set_current_session name app = (ok tt, (send_signal (current_session name) (point_to name app)).1)

  -- app.session_store.mutate_session_by_name
  abbrev pub after_mutation :
      App → Result (Option SessionMetadata × Directory F) → Result (Option SessionMetadata) × App
  after_mutation app (err e) = (err e, app)
  after_mutation app (ok (s, dir)) = (ok s, record app { sessions = dir })

  unfoldable pub mutate_by_name :
      String → (SessionMetadata → SessionMetadata) → Tool (Option SessionMetadata)
  mutate_by_name name mutator app =
      after_mutation app (mutate_session_by_name F name mutator app.sessions)

  -- `if current_name is not None`
  abbrev pub mutate_current :
      Option String → (SessionMetadata → SessionMetadata) → Tool (Option SessionMetadata)
  mutate_current none mutator = pure none
  mutate_current (some name) mutator = mutate_by_name name mutator
