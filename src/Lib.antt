-- ===== src/Lib.antt =====
-- missive: models and proofs for the core of the command-line tool and local control plane for
-- communication between A2A agents.
--
-- A model is a translation of the Rust code into functions. A failing call gives an `err` with the
-- category, the literal text of the message and the exit code; `panic` is a failed `expect`, index
-- or `unreachable!`, and `hang` is a recursion or a loop cut off by its fuel. A function that
-- changes a value behind `&mut` returns the new value. Strings are lists of code points, and the
-- integers of the source are natural numbers, with saturation and bounds written out.
--
-- Common: lists, options, strings, floats by their bits, ordered sets, maps, bits, and lemmas on them.
-- Core: crates/missive-core. Error has error.rs (`MissiveError`, exit codes) and the result type;
--   Routing the policy names of routing.rs; Json the values that metadata holds; Ids the
--   validators of ids.rs; Config that of config.rs. Of its children, Text has the checks of
--   single texts, Sections the sections that stand for themselves, Whole the configuration and the
--   references in it, Loaded the values under the selected profile, Discovery the choice and the
--   loading of a file, Redaction what is shown. The search up the directories has fuel for the
--   length of the path, which is enough when a parent is shorter, and the redaction of a text for
--   the length of the text.
-- Gateway.Input, Gateway.Busy: crates/missive-gateway/src/busy.rs, its types and its functions. An
--   input for a source that has an operation in flight is queued, interrupts it or steers it.
--   `apply_mode` and `apply_steer` call one another; a number bounds the rounds, and two are
--   enough for every policy that passes its validation.
-- Gateway.Jobs: crates/missive-gateway/src/jobs.rs, the scan that claims due jobs, and the end of
--   an attempt at one (success, failure, cancellation, retry after a pause). The job table is
--   Store.Jobs, with the checks of crates/missive-store/src/repository.rs.
-- Gateway.Session: crates/missive-gateway/src/session.rs, the idle and the daily reset of a
--   session. A time counts whole seconds from the midnight `epoch_days` days before the Unix
--   epoch.
-- Gateway.Subscription: crates/missive-gateway/src/subscription.rs, the cleanup of jobs whose task
--   is over, the end of an attempt to follow a task, and the redaction of logged JSON.
-- Gateway.Webhook: crates/missive-gateway/src/webhook.rs. The parent has the check of the auth
--   header and the details of a payload; Receiver the state, the stored events and the handlers of
--   a callback. The store may fail on an event before or after it has added the context.
-- Router: crates/missive-router/src/lib.rs. Types and Labels have the input, its validation and
--   labels; Match the policies that filter by capabilities and tags; Policies the others and
--   `explain_route`, which chooses by the policy. Plans and its children prove what a plan says;
--   Rows and Indices do without the indices of the capability match.
-- Cli.Barrier: crates/missive-cli/src/barrier.rs. The parent has targets, statuses and members;
--   Prepare makes the operation of the arguments; Refresh brings one member up to date from the
--   store or its agent; Polling has the decision, the output, the exit and the loop. What the
--   store and the agents answer is an argument for every round and member, as is the time that has
--   passed. Fuel bounds the rounds, and one more than the number of the round by which the timeout
--   has passed is enough.
-- Cli.Bcast: crates/missive-cli/src/bcast.rs. The parent has the views of members; Runs the
--   sequential and the concurrent run; Output the summary and the exit of the command. What the
--   clock, planning, sending, storing and the event log give for each member is an argument, the
--   same for both runs.
-- Cli.FileNames: the names of exported files, of crates/missive-cli/src/artifact.rs and gather.rs.
--   The loop over suffixes has fuel for one more suffix than there are names in use, which is
--   enough.
-- Cli.Gather: the summary of crates/missive-cli/src/gather.rs.
-- Cli.Reduce: crates/missive-cli/src/reduce.rs. The parent has the inputs and their texts; Vote
--   and Rank the strategies of these names; Reducer the checks, the prompt and the choice of the
--   reducer.
-- A2a: crates/missive-a2a/src/lib.rs. Card has the validation of Agent Cards and the names of
--   bindings, Negotiate the choice of an interface, Sse the reader of event streams with its
--   state. Usable and Chosen prove what a chosen interface is good for.
-- Store: rows of crates/missive-store/src/repository.rs; Paths the directories and the database of
--   a profile, of crates/missive-store/src/paths.rs. Join has `Path::join` on Unix, to run them.
--
-- Parameters stand for code that is not of the repository: `same_weight` for the comparison of two
-- floats within an epsilon, which picks a text only, and `in_range` for the seconds that chrono
-- takes for a time, the URL, socket address and TOML parsers, the paths and the files that
-- configuration discovery asks for (`Parsers`, `Host`), the functions on paths (`PathOps`), those
-- on headers and JSON (`Decoders`), the calls of `read_line`, and `debug` for the `{:?}` of a string.
-- Two parameters stand for functions of the repository that are not modelled: `run_agent_reducer`
-- and `run_command_reducer` of crates/missive-cli/src/reduce.rs, which send the reduction prompt to
-- an agent and to a process. Nothing is assumed of them, and what is proved of a reduction is of
-- runs without them.
--
-- Not modelled: SQL and migrations, HTTP, authentication and the JSON of the A2A protocol,
-- processes, files and locks, webhook callbacks that overlap, adapters, the daemon, tracing, and
-- the commands but for the barrier, the broadcast, the reduction, the summary of a gather and the
-- names of exports; the events and the rendering of these are left out too. Of messages and events
-- only what tells them apart is kept, and the metadata of jobs, which is only passed on, is left
-- out.
pub mod Common
pub mod Core
pub mod Gateway
pub mod Router
pub mod Store
pub mod Cli
pub mod A2a
