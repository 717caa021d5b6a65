-- ===== src/Lib.antt =====
-- The data plane of the scheduling study: one worker per node before a language model engine, a
-- harness that replays a trace against a pool of them, and the pipeline that joins the logs of a run
-- to one row per request. The parts meet in records: a worker writes C-4 records and heartbeats, the
-- scheduler (another program) its decisions, the harness the client log and the manifest, and the join
-- reads them all. Above them stands the driver of a campaign, which checks its file, plans its runs,
-- runs each and accounts for it. Paths are below dataplane/src/dataplane, but for those of tools/, which
-- are from the repository's root.
--
--   Base        Python's own: lists, dicts, sets, exceptions as results, floats as a parameter
--   Logs        the scheduler's records, as the Python side reads them
--   Samples     whole numbers in place of floats, by which the examples run
--   Worker      worker/: Adapter (adapter.py), Heartbeat (heartbeat.py), Log (log.py),
--               Llamacpp (llamacpp.py), Service (serve.py)
--   Harness     harness/: Node and Launch (launch.py), Manifest (manifest.py), Clocksync (clocksync.py),
--               Replay (replay.py), Trace (gen_trace.py)
--   Pipeline    pipeline/: Records, Candidates and Join (join.py), Runset (runset.py),
--               Loadband (loadband.py)
--   Calibration calibration/: Ranges and Snapshots (r_range.py),
--               Envelopes (admissible.py)
--   Tools       tools/: PoolLoad (pool_load.py), HwRuns (hw_runs.py), with Checks (check_campaign),
--               Plan (plan), PreRun (pre_run_manifest), Accounts (run_one) and Loop (main)
--
-- A definition has the name of the Python function, method or class that it models, in lower case with
-- underscores, and keeps its order of checks. An exception is the `err` of a result, with what its
-- message names. A missing key of a JSON object is `none` where the code asks for it with a default or
-- tests for it. A dict is a list of pairs in the order of insertion, and a write to a key that is there
-- keeps its place.
--
-- The servicer is a state and a step relation. A coroutine of `serve_one` stands at one of its awaits
-- (`Phase`), and what it does up to the next one is one function on the state, as the event loop runs
-- it. A call over the network either arrives or does not; the engine's answers, the clock's readings
-- and the times at which an exception or a cancellation comes are free in the relation. `drain` is three
-- steps, since other coroutines run while it waits.
--
-- Floats are a parameter, a record of the operations that the code uses, and a theorem that needs a law
-- of them names it as a hypothesis. Counters and nanoseconds are natural numbers, as Python's integers
-- do not wrap around; a difference that the code takes is of the integers, or its operands are in order.
-- The retry count of `on_host` is a bound that the code has too. Fuel stands in two places: `free_name`
-- tries one name more than there are directories, since each directory takes one name at most, and the
-- digits of a number are written with the number plus one as fuel.
--
-- The loop over the runs has the run directories as its state, and what each call of `run_one` leaves
-- there is free. The plan takes the shuffle, the texts of floats and the index of the snapshots from
-- outside. The checks of a campaign are in their order, each with what its message names.
--
-- Not modelled: transport, command lines, subprocesses, and files but for which run directories there
-- are; the rest of calibration/, mostly numpy's fits; figures/; the other scripts of tools/; the Java
-- control plane, which stands outside of the data plane.
pub mod Base
pub mod Logs
pub mod Samples
pub mod Harness
pub mod Worker
pub mod Pipeline
pub mod Calibration
pub mod Tools
