-- ===== src/Queue.antt =====
-- src/session_manager/summarizer.py: the tasks of the background summarizer and their queue, a
-- directory of task files by stem. The processing of the queue, which calls a model, is left out.
pub mod Enqueue
use Prim.Native.Nat.{Ordering}
use Prim.Native.String.{compare}
use mcp_session_router.Base.{String, Bool, true, false, ◌==◌, ◌&&◌, if◌then◌else◌, any, ◌||◌}
use mcp_session_router.Base.{
  Option, none, some, List, [], ◌∷◌, ◌++◌, Result, ok, err, bad_type, ◌>>=◌,
}
use mcp_session_router.Base.Dict.{Dict, insert}
use mcp_session_router.Json.{
  Json, null, bool, str, obj, Fields, end, field, get, get_or, require, as_str, as_object, fields,
  truthy,
}
use mcp_session_router.Store.{TextFormat}

abbrev pub kind_departed : String
kind_departed = "departed"

abbrev pub kind_active : String
kind_active = "active"

abbrev pub kind_rooting_check : String
kind_rooting_check = "rooting_check"

pub record SummaryTask : Type 0 where
  pub session_name : String
  pub conversation_id : String
  pub kind : String
  pub requested_at : String
  pub extra : Fields

unfoldable pub task_to_dict : SummaryTask → Json
task_to_dict t = obj (
    fields (
      ("session_name", str t.session_name)
      ∷ ("conversation_id", str t.conversation_id)
      ∷ ("kind", str t.kind)
      ∷ ("requested_at", str t.requested_at)
      ∷ ("extra", obj t.extra)
      ∷ []))

-- `now` is the default of a missing `requested_at`.
unfoldable pub task_from_dict : String → Fields → Result SummaryTask
task_from_dict now d = do
  session_name ← require "session_name" d >>= as_str
  conversation_id ← require "conversation_id" d >>= as_str
  kind ← require "kind" d >>= as_str
  requested_at ← as_str (get_or "requested_at" (str now) d)
  extra ← as_object (get_or "extra" (obj end) d)
  ok (record {
    session_name = session_name;
    conversation_id = conversation_id;
    kind = kind;
    requested_at = requested_at;
    extra = extra;
  })

abbrev pub same_task : SummaryTask → SummaryTask → Bool
same_task a b =
    a.session_name == b.session_name && a.conversation_id == b.conversation_id && a.kind == b.kind

-- Order of two times as texts, by code points.
abbrev pub text_le : String → String → Bool
text_le a b = elim (compare a b) [ Ordering.gt ↦ false | _ ↦ true ]

-- A stable insertion by `requested_at`.
abbrev pub insert_task :
    String × SummaryTask → List (String × SummaryTask) → List (String × SummaryTask)
insert_task p [] = p ∷ []
insert_task p (q ∷ qs) =
    let rest = insert_task p qs in
    if text_le p.1.requested_at q.1.requested_at then p ∷ q ∷ qs else q ∷ rest

-- pending.sort(key=lambda pair: pair[1].requested_at)
abbrev pub sort_tasks : List (String × SummaryTask) → List (String × SummaryTask)
sort_tasks [] = []
sort_tasks (p ∷ ps) = insert_task p (sort_tasks ps)

module _ (F : TextFormat) where
  abbrev pub QueueDir : Type 0
  QueueDir = Dict F.Text

  -- A file with its task; `none` is skipped, with a corrupt text, a missing key, a value of another
  -- type than the dataclass names, or a failure mark.
  abbrev pub Pending : Type 0
  Pending = Option SummaryTask

  abbrev or_skipped : Result SummaryTask → Pending
  or_skipped (ok t) = some t
  or_skipped (err e) = none

  -- A text that is no dict has no `get`, and the AttributeError is not caught.
  abbrev read_value : String → Option Json → Result Pending
  read_value now none = ok none
  read_value now (some (obj d)) =
      if truthy (get_or "failed_at" null d) then ok none else ok (or_skipped (task_from_dict now d))
  read_value now (some v) = err bad_type

  unfoldable pub read_task : String → F.Text → Result Pending
  read_task now text = read_value now (F.loads text)

  abbrev pub keep_task :
      String → Pending → List (String × SummaryTask) → List (String × SummaryTask)
  keep_task stem none tasks = tasks
  keep_task stem (some t) tasks = (stem, t) ∷ tasks

  -- The loop of load_pending_tasks.
  unfoldable pub read_tasks : String → QueueDir → Result (List (String × SummaryTask))
  read_tasks now [] = ok []
  read_tasks now ((stem, text) ∷ dir) = do
    task ← read_task now text
    rest ← read_tasks now dir
    ok (keep_task stem task rest)

  unfoldable pub load_pending_tasks : String → QueueDir → Result (List (String × SummaryTask))
  load_pending_tasks now dir = do pending ← read_tasks now dir; ok (sort_tasks pending)

  -- Whether a file was written, and the queue; `stem` is the new uuid.
  unfoldable pub enqueue : String → String → SummaryTask → QueueDir → Result (Bool × QueueDir)
  enqueue now stem task dir = do
    pending ← load_pending_tasks now dir
    ok (
        if any (λ p. same_task p.1 task) pending
        then (false, dir)
        else (true, insert stem (F.dumps (task_to_dict task)) dir))
