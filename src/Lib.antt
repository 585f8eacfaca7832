-- ===== src/Lib.antt =====
-- The core of the fraud analyst agent: the agent that investigates a card transaction, the scoring
-- of fraud patterns, the redaction of what the LLM sees, and the worklist of recommendations.
--
-- An investigation is a loop. `planner_node` chooses the next tool, asking an LLM or falling back to
-- a fixed sequence; `executor_node` runs the tool and records the outcome; the graph sends the state
-- around until the planner says COMPLETE or the steps are used up, and `completion_node` ends it.
-- The tools read and write the state: the pattern tool scores the transaction, the reasoning tool
-- asks an LLM and corrects its severity, the recommendation tool says what to do, the rule draft tool
-- drafts a rule. The service keeps one active investigation per transaction, runs the graph under a
-- timeout and stores what comes of it. Analysts page through the recommendations and act on them
-- afterwards, several at a time.
--
-- Which file models which part:
-- - Prelude, Prelude/Tests, Prelude/Text, Prelude/Lists: shared names, tests on numbers, texts, lists.
-- - Value: the values that the dicts of the program hold. Floats: the floating-point operations.
-- - Agent/State: app/agent/state.py (`InvestigationState`), app/agent/registry.py (`ToolRegistry`) and
--   app/tools/base.py (`BaseTool`, whose `execute` returns a state, raises or times out).
-- - Agent/Planner/Rules, Payload, Llm, Node: app/agent/planner.py: the sequencing rules and the rule
--   sequence, the parser of responses, the LLM call with its repair loop, and `planner_node`. The
--   other children prove what these do: Sequencing, Fallback, Circuit, Braces, Reading, Repair,
--   Choosing, Refusals.
-- - Agent/Executor: `executor_node` of app/agent/executor.py; Agent/Executor/Effect: its effect.
-- - Agent/Completion: app/agent/completion.py; its children are its proofs.
-- - Agent/Graph: app/agent/graph.py, with the state, the node to run next and the saved states in
--   `Run`; Invariant, Safety, Termination, Executions and Investigation are about
--   whole runs.
-- - Scoring/Tally, Amount, Time, Windows, CardTesting, Severity: app/tools/_core/pattern_logic.py;
--   Bounds, Levels and Total are the proofs.
-- - Tools/PatternTool: app/tools/pattern_tool.py, with app/tools/evidence.py.
-- - Tools/Reasoning: `_calibrate_llm_severity` of app/tools/reasoning_tool.py: Evidence reads the
--   state, Calibration decides, Settling and Guard prove.
-- - Tools/Candidates, Tools/Recommendation: app/tools/_core/recommendation_logic.py and
--   app/tools/recommendation_tool.py; Tools/Recommendation/Effect is the proof.
-- - Tools/Reasoning/Output, Response, Prompt: the guards around the LLM of
--   app/tools/_core/reasoning_logic.py (`validate_llm_output`, `parse_llm_response`,
--   `validate_prompt_payload`); Tools/Reasoning/Sanitized is a proof.
-- - Tools/Draft, Tools/RuleDraft: app/tools/_core/rule_draft_logic.py and
--   app/tools/rule_draft_tool.py; Validity and Scoreless are the proofs.
-- - Tools/Context: the time windows of app/tools/_core/context_logic.py; Tools/Context/Nested is the
--   proof.
-- - Tools/LinkAnalysis: `run_link_analysis` of app/tools/_core/link_analysis_logic.py; Counts and
--   Bounds are the proofs.
-- - Service/Store: the tables of db/migrations with the statements of
--   app/persistence/investigation_repository.py, state_store.py and audit_repository.py, and a
--   session with its commits and rollbacks. Service/Run, Results:
--   app/services/investigation_service.py. Rows, Counts, Final, Closed, Finished,
--   Hindering, Admission, Exclusive, StaysFailed and Stored are the proofs.
-- - Worklist/Paging: `list_open` of app/persistence/recommendation_repository.py with the cursors of
--   app/persistence/base.py; Worklist/Cuts, Pages and Following are the proofs. How the driver binds
--   the text of a time is a parameter.
-- - Worklist: `acknowledge` of app/services/recommendation_service.py with the guarded update of
--   app/persistence/recommendation_repository.py; Worklist/Race lets several analysts interleave,
--   Types is about the normalisation of types.
-- - Redaction: app/utils/redaction.py, with `redact_pii` a parameter; Redaction/Clean is the proof.
-- - Samples and its children: concrete inputs at which the theorems are applied.
--
-- How the code corresponds. A node or tool is a function from the state to the new state; an
-- exception is a value (`Result`, `ToolOutcome`, `none`). The LLM is a function from the number of the
-- call to a reply, which may be a timeout or an exception. `json.loads`, `datetime.fromisoformat`, the
-- prompts, the clock and the texts of errors are parameters. A float is an element of a type `F` with
-- the operations of `Floats`, whose laws hold of IEEE doubles with NaN: the order need not be total,
-- and those of literals are limited to 10000.00.
-- Texts change case as ASCII does. Transactions are dicts; countries and merchant ids are texts.
--
-- Bounds and fuel. The repair loop has `PLANNER_MAX_DECISION_REPAIRS` + 1 = 3 rounds, as in the code,
-- and does not run out. A run of the graph has a number of supersteps, which is LangGraph's recursion
-- limit; two for each step left and two more are enough to end. All other loops are structural.
--
-- A request to the service interrupts the graph after a number of supersteps, by the timeout or by an
-- exception; the graph's own saves, the states that cannot be stored and the failures of the last
-- update are in the model, every other statement succeeds. Reading pages is on fuel, one more than
-- there are recommendations.
--
-- Not modelled: the summaries that an execution record carries, logs, metrics and spans, the
-- prompts, HTTP clients, the API, authentication, configuration and most of the other SQL, which are
-- glue or texts; the read side of the service; the signals and features of the context; and the logic
-- of the similarity tool, the neighbourhood lookups and the rest of the reasoning tool: a tool in the
-- registry is any function on the state that leaves the control fields alone (`KeepControl`). The
-- impact texts of recommendations are a parameter, as are regular expressions, JSON, base64 and
-- hashes.
pub mod Prelude
pub mod Value
pub mod Floats
pub mod Agent
pub mod Scoring
pub mod Service
pub mod Tools
pub mod Worklist
pub mod Redaction
mod Samples
