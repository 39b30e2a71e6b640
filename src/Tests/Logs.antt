-- ===== src/Tests/Logs.antt =====
-- Runs of the decision log and of the queue.
use mcp_session_router.Base.{String, ◌≡◌, refl, true, false}
use mcp_session_router.Base.{none, some, List, [], ◌∷◌, ok}
use mcp_session_router.Base.Int.{pos}
use mcp_session_router.Base.Dict.{lookup, insert}
use mcp_session_router.Json.{end}
use mcp_session_router.Decisions.{
  Line, append_proposal, append_label, load_events, has_conv, push, Replayed,
  expire_ignored_proposals, replay, append, step, event_of,
}
use mcp_session_router.Decisions.Pairing.{
  append_label-append_proposal, expire_ignored_proposals_lem,
}
use mcp_session_router.Queue.{
  SummaryTask, QueueDir, enqueue, load_pending_tasks, read_tasks, kind_active,
}
use mcp_session_router.Queue.Enqueue.{enqueue_lem}
use mcp_session_router.Tests.{json_text}

-- Two proposals for "coding", made in the conversation "c1", and a line that is no JSON.
abbrev two_proposals : List Line
two_proposals =
    append_proposal true "coding" (pos 3, 2) "auto" none (some "c1") "day 2"
      (none ∷ append_proposal true "coding" (pos 1, 1) "auto" none (some "c1") "day 1" [])

-- What the log before the last proposal replays to.
abbrev one_open : Replayed
one_open = record { pairs = []; open_proposals = ("coding", ((pos 1, 1), some "c1") ∷ []) ∷ [] }

append_label-append_proposal_example :
    (r : Replayed) × (replay (
        load_events (
          append_label true "coding" "reject" "reject_switch"
            (some "planning")
            "day 3"
            two_proposals))
      ≡ ok r)
    × (r.pairs ≡ ((pos 3, 2), false) ∷ [])
unfolding replay load_events append_proposal append step event_of push insert lookup
append_label-append_proposal_example =
    let t =
      append_label-append_proposal "coding" refl (pos 3, 2) "auto" none (some "c1") "day 2" "day 3"
        "reject_switch" false (some "planning")
        (none ∷ append_proposal true "coding" (pos 1, 1) "auto" none (some "c1") "day 1" [])
        one_open refl refl refl in
    (t.0, t.1, t.2)

abbrev two_open : Replayed
two_open = record {
  pairs = [];
  open_proposals = ("coding", ((pos 3, 2), some "c1") ∷ ((pos 1, 1), some "c1") ∷ []) ∷ [];
}

expire_ignored_proposals_lem_example :
    (lines : List Line) × (expire_ignored_proposals true "c1" "day 3" two_proposals
      ≡ ok (lines, true))
unfolding replay load_events append_proposal append step event_of push insert has_conv lookup
expire_ignored_proposals_lem_example =
    let t = expire_ignored_proposals_lem "c1" "day 3" two_proposals two_open refl refl in (t.0, t.2)

abbrev refresh : SummaryTask
refresh = record {
  session_name = "planning";
  conversation_id = "c1";
  kind = kind_active;
  requested_at = "day 2";
  extra = end;
}

enqueue_lem_example :
    (dir : QueueDir json_text) × (tasks : List (String × SummaryTask)) × (enqueue json_text "day 2"
        "t1" refresh []
      ≡ ok (true, dir))
    × (load_pending_tasks json_text "day 2" dir ≡ ok tasks)
    × (enqueue json_text "day 2" "t2" refresh dir ≡ ok (false, dir))
unfolding lookup load_pending_tasks read_tasks
enqueue_lem_example =
    let t = enqueue_lem json_text "day 2" "t1" refresh [] [] refl refl in
    (t.0, t.1, t.2, t.3, t.5 "t2")
