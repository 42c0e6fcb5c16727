-- ===== src/Lib.antt =====
-- BestTeam: models of the parts of the program that keep state and decide, and their theorems.
--
-- The program runs teams of agents for organisations. A mailbox trigger scans mail into a durable
-- ledger of events, hands pending events to runs, and tells the customer when its health changes;
-- a run's output becomes rows of results, which later retries read and a purge clears; the events
-- of live runs are kept and streamed to subscribers; anonymous visitors talk to a deployed team
-- through a share link under daily quotas; documents are split into chunks for retrieval; logins
-- are throttled and streams open with tickets.
--
-- Files and the code that they model:
-- * Inbox.antt and Inbox/: ui/backend/db/inbox_events.py. `Ledger` is the table `inbox_events` with
--   the next id; each operation of the file is the function of its name (`claim_events`, ...). The
--   rows stand in the order of their ids. Inbox/Steps.antt has the step relation of the callers.
-- * Access/LoginLimiter.antt and below: ui/backend/login_rate_limit.py. `reserve` and
--   `record_success` take the list that `_keys` makes, `keys_of`.
-- * Access/Tickets.antt and below: ui/backend/ws_tickets.py.
-- * Access/ShareQuota.antt and below: ui/backend/db/share_links.py, ui/backend/db/share_sessions.py
--   and, as `send_gate`, the quota checks of `send_share_message` in ui/backend/share_chat.py, from
--   `try_consume_link_turn` to the stored message with the refunds of the error paths.
-- * Knowledge/Chunking.antt and below: the splitter of src/bestteam/core/knowledge_base.py, from
--   `_separators_for_suffix` to `_chunk_text`, and `_validate_chunk_params`.
-- * Email/Fingerprints.antt, Email/Health.antt and below: ui/backend/trigger_health.py.
-- * Email/Drafts.antt and below: `reconcile` of ui/backend/draft_outcomes.py.
-- * Email/MailFilter.antt and below: ui/backend/email_filter.py.
-- * Runs.antt and Runs/: `RunRegistry` of ui/backend/registry.py. `Registry` is its five dictionaries,
--   each method the function of its name; Runs/Slots.antt has the view of one run, Runs/Screens.antt
--   what a client shows that plays its queue, Runs/Steps.antt the step relation of the callers.
-- * Results.antt and Results/: ui/backend/automation_results.py from a run's output to its rows
--   (`normalize_run_result`), the family of retries (Results/Families.antt), the messages that
--   have a draft (Results/Drafted.antt) and `retry_uids` of ui/backend/email_trigger.py.
-- * Results/Retention.antt and below: the purge of ui/backend/retention.py, over the rows of runs,
--   their traces, their results and the registry of Runs.antt.
-- * Trigger.antt and Trigger/: ui/backend/email_trigger.py, one poll cycle. `System` is what a cycle
--   reads and writes, `Cycle` what it is told; `poll_org`, `check_mailbox` and `_release_stale_run`
--   are the functions of these names, and `start_triggered_run` is `_start_triggered_run`, cut at
--   its early returns into `within_budget`, `claim_batch`, `dispatch_batch` and `submit`. They call
--   the operations of Inbox.antt, Email/Health.antt and Runs.antt. Trigger/Stages.antt has the case
--   lemmas of a cycle, Trigger/Outcomes.antt the contract of a dispatch. Trigger/Budget.antt is ui/backend/email_budget.py.
--   Trigger/Retry.antt is `retry_triggered_run`, the manual retry, with its checks before and under
--   the lock; Trigger/Drafted.antt is its scan of the mailbox for drafts.
-- * Agents.antt and Agents/: Agents/Grounding.antt is src/bestteam/core/grounding.py, with
--   `check_grounding` and `grade_claims`; Agents/Turn.antt is `_run_agent` of
--   src/bestteam/adapters/langgraph_adapter.py. `World` is what the model, the tools, the grader and
--   `should_cancel` answer, in the order of the calls; `ask` is `_call` with `_record_usage`,
--   and `first_ask` is `_first_call` with it.
-- * Shared.antt and Shared/: Boolean tests, lists over native numbers, dictionaries, strings as
--   lists of code points.
-- The files Examples.antt run small inputs through each part.
--
-- Conventions. Python's integers that may be negative are `ℤ`; counts, ids and moments are `ℕ`, a
-- moment counting ticks of a clock that does not run backwards. A database table is a list of rows,
-- an UPDATE a map, a SELECT a filter; a transaction is one step, and so is what a lock encloses.
-- Random strings, clock readings and new ids are arguments.
--
-- Bounds and fuel. `slices` has fuel, the length of its text: each slice has at least one
-- character when the size is positive. `str.split` walks the text with a count of characters of a
-- separator that are still to be passed over. The two loops of `retry_family_run_ids` have fuel one
-- more than the number of runs: the way up passes ever earlier runs, and a round down that is not
-- the last takes a run that was not in the family. The tool loop of an
-- agent's turn counts down its ten rounds. All other recursion is on a list or a text.
--
-- Parameters. Amounts of money are an instance of `Money`, and `str.lower` one of `Casing`; what the
-- builder of pipelines, the executor, the mailbox and other sessions answer is in a `Cycle`, whose
-- new run id is an argument. A poll cycle is one step, of which the switch-off of the trigger by
-- another session is a part; the calls of `normalize_run_result` are listed, since the rows that
-- they write are those of Results.antt. The digest of a username (SHA-256) is an argument of `keys_of`. Floats of
-- `evaluate_backlog` are an instance of `Seconds`. Whether a session has a pending turn, and whether
-- its message is stored, are fields of `Visit`, since the table of messages is not modelled. The
-- mailbox of `reconcile` is the interface `MailboxBackend`; Python's `str.lower` and `parseaddr` in
-- the mail filter are the interface `Parsing`.
--
-- What `json.loads` and the types of pydantic's models make of a run's output is the type `Output`,
-- and of the data of a trace event the record `TraceData`.
--
-- Not modelled: HTTP routes, database sessions and migrations, the mailbox connection, the agent
-- framework and vector stores, prompts and model calls, file parsers, the command line and the
-- frontend, which are I/O or third-party code; the loop around the
-- poll cycle, the lists and daily counters of
-- results, the sweep and the export of the retention, retrieval and the construction of pipelines.
pub mod Shared
pub mod Inbox
pub mod Access
pub mod Knowledge
pub mod Email
pub mod Runs
pub mod Trigger
pub mod Agents
pub mod Results
