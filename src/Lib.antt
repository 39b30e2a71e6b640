-- ===== src/Lib.antt =====
-- A model of mcp-session-router, which lets one Claude Code process work in several named
-- conversation sessions of a project. A terminal wrapper runs the process; an MCP server, one per
-- process, keeps the sessions as JSON files and offers the model tools to switch between them; a
-- hook proposes switches, and a log keeps what was proposed and how the user answered.
--
-- The parts, from below, and the code that each one models (Python files under
-- src/session_manager/):
--   Base         shared names, Python's lists and dicts, results, and actions that may raise
--   Json         the values of the json module, Python's == on them, and dict access
--   Session      models/session.py: SessionMetadata and its operations; Session/Codec is to_dict,
--                from_dict and parse_status
--   Static       models/fields.py: StaticEntry and StaticField (`set` is set_entry, `revert` is
--                swap_entry, `_merge` is merge, `_entry_at` is entry_at); Static/Codec is the codec,
--                the migration of flat files and to_masked_dict
--   Store        storage/file_store.py: SessionStore as a map from file stems to texts
--   State        state.py: SessionManagerState and resolve_from_store
--   Cleanup      lifecycle/cleanup.py, and get_conversation_activity of claude_conversation.py
--   Decisions    routing/decision_log.py: `_replay` is replay with one Event for each line, and
--                `_OpenProposals` is a dict of stacks
--   Queue        summarizer.py: SummaryTask, load_pending_tasks and enqueue
--   Excerpts     transcript_excerpt.py: the dialogue of a transcript, its excerpts and its length
--   Answers      summarizer.py: _parse_summary_response (with strip_fence) and _parse_json_objects
--   Summaries    summarizer.py: _process_task, the claims and process_queue, on the record Disk
--   Sockets      wrapper/socket_server.py: WrapperSocketServer as the record SocketServer
--   Context      server.py: AppContext as the record App, the wrapper's signals, and the
--                mutators that the tools apply (apply_outgoing, apply_end, apply_reject)
--   StaticStore  storage/file_store.py, FieldStore, and server.py's tools on the static field:
--                update_static, delete_static_entry, revert_static_entry and get_static_all
--   Handoffs     handoff_store.py: the pending file and the notice file, of which Handoffs/Spec is
--                the abstract view
--   StateFile    wrapper/wrapper_state.py: state.json
--   ChildArgs    wrapper/pty_wrapper.py: the command line of a child
--   ContextMonitor wrapper/context_monitor.py: the usage of a conversation and its trigger
--   Wrapper      wrapper/pty_wrapper.py: SessionManagerWrapper as the record Wrapper,
--                _execute_transition and what it calls
--   Moves        wrapper/pty_wrapper.py: _spawn_child, /back and the typed session commands
--   Rollovers    wrapper/pty_wrapper.py and rollover.py: the steps of a rollover
--   Turns        rollover.py: check_trigger_turn
--   Control      wrapper/pty_wrapper.py: the ends of turns, _handle_mcp_signal, and the events as one
--                type with `run` over a list of them; Control/Spec is the abstract machine
--   Routing      routing/judge.py: parse_verdict; wrapper/judge_host.py: _serve_request
--   Hooks        hooks/user_prompt_submit.py: run (run_hook) and what it calls
--   Registration hooks/registration.py: the hooks and the status line in settings.json
--   Server       server.py: check_session, session_register, session_switch, session_create,
--                session_back, session_end, reject_switch and the handler of the wrapper's messages
--   Tests        concrete data and runs
-- A component's child modules hold its theorems and are named for what they are about.
--
-- A tool is a function from the context to a result and the context after it, so what was written
-- before a raise stays written. The server's tools change the files through the store, read the
-- pointer of State, append to the log of Decisions and to the queue of Queue, and tell the wrapper
-- by signals; the wrapper is the list of the signals it has received and whether it is connected.
--
-- The wrapper is a second process: it receives the server's signals as the events switch_signal,
-- new_signal, back_signal and so on, starts and ends the children, and hands messages to the hook
-- through the handoff files. An event comes with what its handler reads then (Host, Texts and
-- Readings), so that any order of events is a list.
--
-- Parameters. The text of a JSON file is the parameter TextFormat: the code relies on json.loads
-- giving back what json.dumps wrote. The clock, new uuids, the modification times of transcripts,
-- the newest transcript and the parser of ISO times are arguments. A time is a text where it is
-- stored and a number of microseconds, with a time zone or without one, where it is compared: a
-- comparison of the two kinds raises, as in Python (Base/Times). The names of the handoff documents
-- are texts, which pathlib's glob, an argument, matches against a pattern. A directory whose files each
-- read as a session of the file's own id, once each, is called consistent.
--
-- The lines of the decision log are those that splitlines() gives: an event with a text that holds
-- U+0085, U+2028 or U+2029 is cut and lost, and a confidence beyond the floats makes the replay
-- raise, which the hook answers by saying nothing.
--
-- Numbers are unbounded, as in Python. A recursion on fuel prints an int in decimal, and its
-- fuel is one more than the number, which has no more digits than that. The loops over the lines
-- of a socket's buffer have one round more than the buffer has bytes, and each round takes a
-- byte.
--
-- Not modelled: the debug log, notices to the user and other output that nothing reads back; the
-- lock files and the temporary files of atomic writes, so that a mutation under its lock is one
-- step and another process acts before or after it; values of a JSON type that the dataclasses
-- do not name where Python would carry them along unchecked (reading one is an error of the
-- model); the calls of a model, the files of the socket and what is sent through it, what
-- another worker does to the summarizer's queue during a pass, threads, the terminal and the
-- recognition of what is typed; failures of the wrapper's writes of handoff files and documents;
-- the rounding of an int to a float;
-- caches that only save the wrapper a second read; and the parts that neither the session tools
-- nor the wrapper's handlers reach: the texts of the judge's prompt, the other hooks, the
-- statistics, and the server's boot.
pub mod Base
pub mod Json
pub mod Session
pub mod Static
pub mod Store
pub mod State
pub mod Cleanup
pub mod Decisions
pub mod Queue
pub mod Context
pub mod StaticStore
pub mod Handoffs
pub mod StateFile
pub mod ChildArgs
pub mod ContextMonitor
pub mod Wrapper
pub mod Moves
pub mod Rollovers
pub mod Turns
pub mod Control
pub mod Routing
pub mod Excerpts
pub mod Sockets
pub mod Hooks
pub mod Registration
pub mod Answers
pub mod Summaries
pub mod Server
pub mod Tests
