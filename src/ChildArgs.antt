-- ===== src/ChildArgs.antt =====
-- src/session_manager/wrapper/pty_wrapper.py: the command line of a child. `flags` are those of the
-- agent's guide and of the MCP configuration.
pub mod Stripped
use Prim.Native.String.{slice, len}
use mcp_session_router.Base.{
  String, ◌<>◌, Bool, true, false, ◌==◌, ◌||◌, if◌then◌else◌, starts_with, any, List, [], ◌∷◌, ◌++◌,
}
use mcp_session_router.Base.{Option, none, some}
use mcp_session_router.Handoffs.{trigger_prompt}

abbrev pub is_continue : String → Bool
is_continue arg = arg == "--continue" || arg == "-c"

abbrev pub is_resume : String → Bool
is_resume arg = arg == "--resume" || arg == "-r"

abbrev pub is_resume_with_value : String → Bool
is_resume_with_value arg = starts_with arg "--resume=" || starts_with arg "-r="

-- What the loop does with an argument: it goes, it goes with the next one, or it stays.
pub data Treatment : Type 0 where
  dropped with_value kept : Treatment

-- By the tests in their order: --continue, --resume, --resume with a value, --session-id and
-- --session-id with a value.
abbrev pub treat : Bool → Bool → Bool → Bool → Bool → Treatment
treat true _ _ _ _ = dropped
treat false true _ _ _ = with_value
treat false false true _ _ = dropped
treat false false false true _ = with_value
treat false false false false true = dropped
treat false false false false false = kept

unfoldable pub treatment : String → Treatment
treatment arg =
    treat (is_continue arg) (is_resume arg) (is_resume_with_value arg) (arg == "--session-id")
      (starts_with arg "--session-id=")

abbrev pub next_args : Treatment → String → List String → List String → List String
next_args dropped arg rest after_value = rest
next_args with_value arg rest after_value = after_value
next_args kept arg rest after_value = arg ∷ rest

-- The loop, with `skip_value`.
unfoldable pub strip_from : Bool → List String → List String
strip_from skip_value [] = []
strip_from true (arg ∷ args) = strip_from false args
strip_from false (arg ∷ args) =
    next_args (treatment arg) arg (strip_from false args) (strip_from true args)

abbrev pub strip_resume_args : List String → List String
strip_resume_args = strip_from false

abbrev after_equals : String → String
after_equals arg = slice arg (len "--session-id=") (len arg)

-- The value of --session-id; at the end of the arguments the flag has none.
unfoldable pub parse_session_id_arg : List String → Option String
parse_session_id_arg [] = none
parse_session_id_arg (arg ∷ []) =
    if starts_with arg "--session-id=" then some (after_equals arg) else none
parse_session_id_arg (arg ∷ value ∷ args) =
    let rest = parse_session_id_arg (value ∷ args) in
    if arg == "--session-id"
    then some value
    else if starts_with arg "--session-id="
    then some (after_equals arg)
    else rest

abbrev pub resumes : String → Bool
resumes arg = is_continue arg || is_resume arg || is_resume_with_value arg

unfoldable pub has_resume_args : List String → Bool
has_resume_args args = any resumes args

-- The first child: a new id is given unless the user's arguments name a conversation.
abbrev pub first_args :
    List String → String → List String → Option String → List String × Option String
first_args args fresh_conv flags (some conv_id) = (args ++ flags, some conv_id)
first_args args fresh_conv flags none =
    if has_resume_args args
    then (args ++ flags, none)
    else ((args ++ (("--session-id=" <> fresh_conv) ∷ [])) ++ flags, some fresh_conv)

-- A respawned child, with the trigger prompt.
abbrev pub respawn_args :
    List String → String → List String → Option String → List String × Option String
respawn_args args fresh_conv flags (some conv_id) = (
  (strip_resume_args args ++ flags) ++ (("--resume=" <> conv_id) ∷ trigger_prompt ∷ []),
  some conv_id,
)
respawn_args args fresh_conv flags none = (
  (strip_resume_args args ++ flags) ++ (("--session-id=" <> fresh_conv) ∷ trigger_prompt ∷ []),
  some fresh_conv,
)
