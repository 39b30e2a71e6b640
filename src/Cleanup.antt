-- ===== src/Cleanup.antt =====
-- src/session_manager/lifecycle/cleanup.py, with get_conversation_activity of
-- src/session_manager/claude_conversation.py. Times are microseconds from the first day that a
-- datetime can hold; `mtime` is a transcript's modification time, `none` where there is no file.
pub mod Expiry
use mcp_session_router.Base.{
  ℕ, zero, ◌+◌, ◌-◌, ◌*◌, String, Bool, true, false, ◌==◌, if◌then◌else◌, ltb,
}
use mcp_session_router.Base.{
  Option, none, some, List, [], ◌∷◌, Result, ok, err, bad_type, overflow_error, ◌>>=◌,
}
use mcp_session_router.Base.Times.{Time, naive, aware}
use mcp_session_router.Base.Exec.{Exec, raise, continue}
use mcp_session_router.Base.Int.{ℤ, pos, negsuc}
use mcp_session_router.Json.{Json, bool, int, obj, Fields, get_or}
use mcp_session_router.Session.{SessionMetadata}
use mcp_session_router.Store.{TextFormat, Directory, list_sessions, delete_session}

abbrev pub default_cleanup_period_days : ℕ
default_cleanup_period_days = 30

-- A value of the setting: an int of at least 1 (a bool is an int), or else the default.
abbrev pub period_of : Json → ℕ
period_of (bool true) = 1
period_of (int (pos n)) = if ltb n 1 then default_cleanup_period_days else n
period_of v = default_cleanup_period_days

-- What reading ~/.claude/settings.json gives.
pub data Settings : Type 0 where
  unreadable : Settings
  not_json : Settings
  parsed : Json → Settings

-- A top level that is no dict has no `get`, and the AttributeError is not caught.
unfoldable pub get_cleanup_period_days : Settings → Result ℕ
get_cleanup_period_days unreadable = ok default_cleanup_period_days
get_cleanup_period_days not_json = ok default_cleanup_period_days
get_cleanup_period_days (parsed (obj d)) =
    ok (period_of (get_or "cleanupPeriodDays" (int (pos 30)) d))
get_cleanup_period_days (parsed v) = err bad_type

-- `if newest is None or mtime > newest`
abbrev pub newer : Option ℕ → ℕ → Option ℕ
newer none m = some m
newer (some t) m = if ltb t m then some m else some t

abbrev pub newer_if : Option ℕ → Option ℕ → Option ℕ
newer_if newest none = newest
newer_if newest (some m) = newer newest m

module _ (mtime : String → Option ℕ) where
  unfoldable pub newest_activity : Option ℕ → List String → Option ℕ
  newest_activity newest [] = newest
  newest_activity newest (conv_id ∷ conv_ids) =
      newest_activity (if conv_id == "" then newest else newer_if newest (mtime conv_id)) conv_ids

  abbrev pub get_conversation_activity : List String → Option ℕ
  get_conversation_activity = newest_activity none

abbrev pub day : ℕ
day = 86400000000

-- now - timedelta(days=period_days): no datetime lies before the first day.
unfoldable pub cutoff_of : ℕ → ℕ → Result ℕ
cutoff_of now period_days =
    if ltb now (period_days * day) then err overflow_error else ok (now - period_days * day)

-- The time of the last activity, where a transcript is later than the metadata.
abbrev pub last_activity : ℕ → Option ℕ → ℕ
last_activity accessed none = accessed
last_activity accessed (some t) = if ltb accessed t then t else accessed

-- The cutoff and a transcript's time have a time zone, so that a stored time without one raises a
-- TypeError at its first comparison.
abbrev pub is_over : Option Time → Option ℕ → ℕ → Result Bool
is_over none activity cutoff = ok false
is_over (some (naive t)) activity cutoff = err bad_type
is_over (some (aware t)) activity cutoff = ok (ltb (last_activity t activity) cutoff)

module _ (time : String → Option Time) (activity : List String → Option ℕ) where
  -- Whether a session is deleted at a cutoff; one with a malformed time is skipped.
  unfoldable pub expires : ℕ → SessionMetadata → Result Bool
  expires cutoff s = is_over (time s.last_accessed) (activity s.claude_conversation_ids) cutoff

abbrev pub reported : Bool → String → List String → List String
reported gone name deleted = if gone then name ∷ deleted else deleted

module _ (F : TextFormat) (time : String → Option Time) (activity : List String → Option ℕ) where
  -- The loop: the names of the deleted sessions; what was deleted before it raised stays deleted.
  unfoldable pub cleanup_loop : ℕ → List SessionMetadata → Exec (Directory F) (List String)
  cleanup_loop cutoff [] dir = (ok [], dir)
  cleanup_loop cutoff (s ∷ ss) dir =
      continue (expires time activity cutoff s)
        (λ gone dir.
          let (deleted, dir') =
            cleanup_loop cutoff ss (if gone then delete_session F s.session_id dir else dir) in
          continue deleted (λ names dir'. (ok (reported gone s.name names), dir')) dir')
        dir

  abbrev pub cleanup_at : ℕ → Result (List SessionMetadata) → Exec (Directory F) (List String)
  cleanup_at cutoff (err e) = raise e
  cleanup_at cutoff (ok sessions) = cleanup_loop cutoff sessions

  abbrev pub cleanup_with : Result ℕ → Exec (Directory F) (List String)
  cleanup_with (err e) dir = raise e dir
  cleanup_with (ok cutoff) dir = cleanup_at cutoff (list_sessions F dir) dir

  -- `activity` answers none throughout where no project path is given.
  unfoldable pub cleanup_expired_sessions : ℕ → ℕ → Exec (Directory F) (List String)
  cleanup_expired_sessions now period_days = cleanup_with (cutoff_of now period_days)

  abbrev pub cleanup_for : ℕ → Result ℕ → Exec (Directory F) (List String)
  cleanup_for now (err e) = raise e
  cleanup_for now (ok period_days) = cleanup_expired_sessions now period_days

  -- The two calls of a boot and of session_create.
  unfoldable pub cleanup_by_settings : ℕ → Settings → Exec (Directory F) (List String)
  cleanup_by_settings now settings = cleanup_for now (get_cleanup_period_days settings)
