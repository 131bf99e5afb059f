-- ===== src/Lib.antt =====
-- Onderzeeer watches directories and runs a pipeline of commands for every file that appears in
-- them. The parts of the program, and how they interact:
--
-- - internal/watcher discovers files and enters them into the durable queue of internal/queue, three
--   tables of a SQLite database: jobs, runs (the attempts of a job) and commands (the steps of a
--   run).
-- - The workers of internal/worker claim jobs, expand the configured steps (internal/config) for the
--   job's file, record each step in the queue, run it (internal/executor), and end the run.
-- - internal/daemon starts the two for a configuration; internal/control manages several daemons and
--   keeps their log lines; internal/cli and internal/webui are its clients.
--
-- What models what:
--
-- - Common: the numbers, lists and options that all share; Common.Bytes and Common.Strings, Go's
--   strings as lists of bytes and what is used of `strings`, `strconv` and `path/filepath` on Unix;
--   Common.Table and Common.Rows, the statements of SQL (count, update, find) on lists of rows;
--   Common.Maps, Go's maps keyed by strings, as lists of entries; Common.Sorting and
--   Common.Selections, what is used of `sort` and `slices`.
-- - Queue.Types is internal/queue/types.go and the schema of internal/queue/store.go; Queue.Tx its
--   transactions; Queue.Jobs, Queue.Commands and Queue.History are jobs.go, commands.go and
--   history.go, one definition per method of `Store` (Enqueue is enqueue, RecoverRunning is
--   recover_running, and so on). Queue.Invariant is what holds of the tables between operations,
--   Queue.System any sequence of operations, Queue.Behaviour what each of them does.
-- - Control.Logs is internal/control/logs.go: newLogStream, Write, Snapshot, Subscribe, Close, Cancel.
-- - Control.Manager is internal/control/manager.go with the states and reports of
--   internal/control/types.go. Types is runtimeInstance and Manager; Names is resolveLocked, the
--   available ids and names, validID and validDisplayName; Causes is cancellationFrom; Preflight,
--   Databases and Start are StartMany with its validations of candidates, their queues and their
--   databases; Lifecycle is run with trimTerminatedLocked; Stopping is Stop, Shutdown, Wait, Get and
--   List; System is any sequence of these. Invariant and the modules below it keep what holds of
--   the maps between operations; Selection, Ending, Releasing, Retention and Shutdown say what
--   operations do, Every and Continuity what they leave of the instances.
-- - Control.Registry is the table of internal/control/registry.go and what
--   internal/control/registered.go does with it: Registered is loadRegistered, registerRuntime,
--   Restore, resumeRegisteredLocked and startRegisteredQueue, Saving is save and the reading of the
--   configurations of startRegistered, and Starting the rest of it. Acknowledged, Reloading,
--   Restoring, Restart and Surviving are the proofs on starts and on a daemon that starts again. System
--   is any sequence of the methods with a registry; Invariant says what holds of the supervisor in
--   between, and Relaunching, Launching, Reading, Naming, Preparing, Opening and Soundness are the
--   proofs that the operations keep it.
-- - Executor.Capture is limitedBuffer of internal/executor/executor.go, Executor.Environment its
--   Environment and mergeEnvironment, Executor.Expander NewExpander and String, Executor.Execute
--   Local.Execute with openOutput and closeOutput.
-- - Config.Csv, Config.Commands and Config.Validation are the steps of internal/config/config.go:
--   formatCSVFields, ExecutionArgs and ValidateExecution with their helpers.
-- - Config.RunOptions and Config.RunOptions.Parsing are internal/config/container_options.go: the two
--   grammars and ParseContainerRunOption.
-- - Worker.Expansion, Worker.Failure and Worker.Process are internal/worker/worker.go:
--   expandConfiguredCommand, withFailureOutput and processJob, and one turn of consume. The interface
--   Store is a record of operations over a state of its own, which Worker.Durable fills with the
--   operations of the queue.
-- - Watcher.Match is internal/watcher/match.go: Match, globMatch and matchSegments, over `path.Match`
--   and the paths of the process as the parameter `Paths`. Watcher.Stable is
--   internal/watcher/stable.go: WaitStable with its helpers, over what the file system, the clock and
--   the context answer, the parameter `World`.
--
-- How the code is read:
--
-- - A time is the number of nanoseconds since the epoch that the database stores, within the range
--   of UnixNano, and so is the time of a retry, which adds a delay; a clock's reading is an argument.
--   A Go `int` that is tested for its sign is a ℤ.
-- - Every statement of an operation may be refused by the database: `Faults` says which. A
--   transaction that fails leaves the tables as they were; StartCommand and CompleteCommand are
--   single statements outside a transaction.
-- - The ids of AUTOINCREMENT go up by one; a gap that SQLite may leave is not modelled. The columns
--   of arguments and variables hold the lists themselves, as JSON decodes what it encoded of valid
--   UTF-8; so do the scans of rows.
-- - A Go map is a list of its entries, in the order in which an iteration happens to visit them. A nil
--   slice or map is an empty one. An error is its text, or a constructor per message.
-- - A log stream is used under its mutex, one operation at a time; a receive that falls between the
--   two sends of one publication is not modelled. Subscriber ids wrap around as a uint64 does, and
--   the size of a subscription's channel as an int does.
-- - The loop of WaitStable has no bound in the source: it is on fuel, and Watcher.Settling shows how
--   much is enough for a file that comes to rest. Its timer shows only in what the clock reads.
-- - Two more loops are on fuel: that of Write over its value has the length of the value, as every pass
--   takes at least one byte; and the digits of a number have the number and one more,
--   which Common.Strings.Decimal shows to be enough.
-- - A child process, the file system and the contexts of an execution are the parameter `Host` of the
--   executor; the executor, the pipelines by name and the texts of the queue's errors are the
--   parameter `Pool` of a worker. Nothing is assumed of them.
-- - The paths, files and loaders that a manager asks (absolute and canonical paths, os.Stat and
--   os.SameFile, lower case, effective fingerprints) are the parameter `Files`, the answers of
--   ctx.Err() at each check the parameter `Context`, the generated ids `Generator`, and the clock is
--   read by the number of the call.
-- - A manager is used under its mutex, one section at a time. The loop in which a start takes a
--   snapshot again when the maps have changed is the pass whose snapshot still equals the maps. The
--   error of an instance's own context is context.Canceled. A name that leads to no instance, which
--   the source would dereference as nil, is the error `nil_pointer`. The search for a free name is
--   on fuel, one more than the instances there are, which Control.Manager.Fresh shows to be enough.
--   The texts of JSON in a registry are what they encode, and `config.Validate` of a snapshot that is
--   loaded is a parameter; how a start waits for its gate is the argument `Gate`.
-- - A rune is counted at its first byte, as in valid UTF-8; `strconv.Quote` keeps what is not ASCII.
--
-- Not modelled: the watcher's event loop, the daemons, the opening of the registry's file, the server
-- and client of the control API, the command line and the web interface; goroutines, whose
-- operations are sequences of steps here; logging; the reading of YAML; and what is only input and
-- output, system calls or tests.
pub mod Common
pub mod Config
pub mod Control
pub mod Executor
pub mod Queue
pub mod Watcher
pub mod Worker
