-- ===== src/Lib.antt =====
-- Agent-on-demand: a service that runs coding agents in remote sandboxes. This library models the
-- session service of src/agent_on_demand, the part that decides which agent runs, when and with what
-- outcome, and proves what its requests, jobs and streams promise.
--
-- The parts and how they interact. A request (src/agent_on_demand/views/sessions) checks the caller's
-- rows, commits one transaction and queues a job. A worker job (src/agent_on_demand/session_service)
-- provisions the sandbox, runs one turn and writes the outcome. While the turn runs, its output goes
-- through a bounded queue into log rows. A stream request tails those rows and sends them to the client
-- as server-sent events.
--
--   * State, Outcome, Providers: the predicates of src/agent_on_demand/session_state.py, the outcome of
--     session_service/turn/outcome.py, the tables of providers.py. Http: the JSON responses.
--   * Store: the rows of src/agent_on_demand/models as a record of tables, with the queue of jobs; Quota
--     is the count of models/quota.py. A table is an association list by primary key.
--   * Requests: Create is `_create_session` of views/sessions/create.py, Prompt and End are
--     `send_prompt`, `terminate_session` and `delete_session` of views/sessions/lifecycle.py with the
--     signal of signals.py. Each takes the store of its transaction and returns the committed store and
--     the response. What a request checks before its transaction it checks on an earlier store `pre`,
--     since other requests and jobs may commit in between. Cases gathers their branches, Limits is
--     about the quota.
--   * Worker: Provision is `provision_session_task` with `_mark_provision_failed`, Execute is
--     `execute_turn` with `TurnExecutor.run`, both cut into single database operations; a `Point` of
--     Store is where a job's code stands. Advance is one step of any job. What the code outside the
--     database answers (the spec builder, the backend, the command, the clock) is a `Reply`.
--   * World: a `Step` is the transaction of a request or one operation of a job, and `Reach` is any
--     history of them, in any interleaving. Effects is what a step of a job may do,
--     Jobs takes the steps through it; OneTurn, Lifecycle, Numbers and Races are the theorems on histories, Alone and Ends follow one turn that
--     nothing interrupts, Finishes counts the operations of a job.
--   * LogSink: `LogChunkSink` of session_service/log_sink.py. Flush is the retry loop, Drain the
--     consumer, Queue the bounded queue between the command thread and the drain.
--   * Stream: src/agent_on_demand/stream_format.py. Tail is the polling loop of stream.py and Sse the
--     frames of views/sessions/stream.py; Resume has the lemmas and Lossless the theorem.
--   * Client: `stream_resumable` of clients/python/src/aod/resources/sessions.py, the Python client that
--     reconnects; Served is what it receives over the tail, Resumes the reconnecting. Mounts sets the mount path of models.py there
--     beside the server's.
--   * Responses: views/sessions/serializers.py, the JSON of a session and of a turn; Counts is about the
--     number of turns, and about the tokens of the repositories.
--   * Environments: the versioned rows of views/environments.py with versioning.py, as for
--     Requests.
--     Versions has the reads. Documents is what the environments promise, without rows and snapshots:
--     documents with a history of revisions; Cases, Current, Shown, Refined and Listing lead there.
--   * Agents: the versioned agents of views/agents.py with normalize_provider_model of providers.py. Update
--     is the PUT and the archive, Bumps says what an update leaves, Prefixes is about the models.
--   * Validation: environment_validation.py (the env_vars) and github_resource_validation.py of
--     src/agent_on_demand/validation. Keys ties the accepted names to the environment file of Scripts.
--     Skills is skill_validation.py and Servers is mcp_server_validation.py. Networking is
--     `validate_networking`, and Firewall follows it to the rules of the sandbox.
--   * Specs: `build_spec_for_session` of session_service/specs/factory.py on the JSON columns of an
--     agent; Specs.Skills puts it behind the validator of the skills.
--   * Mcp: claude_config.py, gemini_config.py and opencode_config.py of src/agent_on_demand/runtimes with
--     `write_config`. Transport reads an entry as its CLI does, Accepted is about the servers that the
--     validator lets through, Rendered and Raises about the files that come of them.
--   * Trace: the emitter of session_service/runtime_trace.py, with `_claude_adapter` in Claude. Chunks is
--     about its line buffer, Balance and Lifetimes about its spans.
--   * Auth: auth.py with the keys of models/auth.py; Access and Keys say who gets in.
--   * Backends: session_service/backends and client.py, with `resume_session` and `destroy_session` of
--     provisioning/orchestrator.py. The SDK of the sprites service is a record of calls; Destroy says what
--     is left behind a session.
--   * Metadata: the merge of src/agent_on_demand/validation/metadata_merge.py.
--   * Provisioning: the stages of session_service/provisioning/stages.py with the rows of events.py;
--     Session is `provision_session` of orchestrator.py, Cleanup and Rows are about what it leaves. In
--     Worker it is the reply of a job's step.
--   * Shell: `shlex.quote` on lists of code points. Reader is an independent reader of the words and
--     lines of a POSIX shell, RoundTrip its lemmas on quoted words.
--   * Scripts: what session_service/provisioning puts in front of a shell. The environment file of
--     env_file.py, package_commands.py and skills_install.py stand in Scripts, script.py and
--     post_script_dirs.py in Provision; Runs and EnvFile have the theorems, Blocks and Managers the
--     lemmas on blocks of lines.
--   * Runtimes: the commands of src/agent_on_demand/runtimes. Otel is claude_otel.py, Codex is codex.py
--     with codex_config.py, Argv is session_service/turn/argv.py. Shim reads the script of a turn with
--     the shell reader, Attributes reads the telemetry attributes, Keys and Bearer are about Codex.
--   * Tools: two scripts of the folder scripts. Revert is auto_revert.py, Once says what a run opens; Scope is
--     scope_e2e.py, Chosen says what it selects.
--   * Prelude: Boolean tests, lists, tables, results, texts. Json: JSON values. Tests: small runs.
--
-- Loops are structural: the drain and the tail recur on the list of what each of their rounds sees,
-- the retry loop on its delays, so no fuel is needed. The line loop of the trace has the length of its
-- buffer as fuel, and Chunks shows that more changes nothing. A drain whose list has no sentinel is one that
-- still waits (`none`), a tail whose list has run out is one that goes on.
--
-- Not modelled. Ids are numbers that are drawn fresh, as a uuid4 is. Ciphertexts of crypto.py are
-- opened by their key and nothing else. `json.dumps` is left out: an event is its structure. The
-- decoder of bytes is a parameter. The put of a full queue waits up to five seconds; the model sees
-- its last try. A log row for a session that is gone, and a save of a row that is gone, raise and end
-- the job. The checked agent and environment are taken to be there still when the transaction of a
-- creation commits. The deletion of an environment, which clears the column of the agents, is not
-- followed there. JSON numbers are integers. The hash of a key and the SDK of the backend are
-- parameters. Analytics and logging are left out, and so are the user interface and
-- the rest of the client libraries.
pub mod Prelude
pub mod Http
pub mod Environments
pub mod Shell
pub mod Specs
pub mod Mcp
pub mod Trace
pub mod Auth
pub mod Tools
pub mod Backends
pub mod Scripts
pub mod State
pub mod Metadata
pub mod Outcome
pub mod Json
pub mod Providers
pub mod Store
pub mod Requests
pub mod Worker
pub mod World
pub mod LogSink
pub mod Provisioning
pub mod Stream
pub mod Tests
pub mod Runtimes
pub mod Agents
pub mod Client
pub mod Validation
pub mod Responses
