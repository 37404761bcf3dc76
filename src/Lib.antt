-- ===== src/Lib.antt =====
-- nodepilot: a scheduler for the jobs of one host. A queue of jobs is started within budgets of
-- cores and RAM, each job on its own block of CPU cores, and followed until it ends.
--
-- Parts, and how they interact:
-- - Config (nodepilot/config.py): `Job`, `JobStatus` and `Config` are the data that all parts share;
--   `validate_unique_ids` is the check that `load_queue` makes at its end. Config/Document has the
--   values of a YAML or JSON document.
-- - Queue (nodepilot/config.py): `load_queue` makes the tunables and the jobs from a document;
--   Queue/Dict has the dictionaries, `make_job` and `job_to_dict`.
-- - StateFile (nodepilot/state.py): `save_state` and `load_state` on a `Disk` of whole files.
-- - Numa (nodepilot/numa.py): Numa/CpuList reads and prints CPU lists (`parse_cpu_list`,
--   `format_cpu_list`); Numa/Allocate chooses the cores of a job (`allocate`,
--   `largest_contiguous_run`); Numa/Topology reads sysfs (`detect`, `detect_smt_secondary`,
--   `node_memory_gb`, and the probes of nodepilot/config.py). A set of cores (Numa/Cores) is an
--   ascending list.
-- - Cgroups (nodepilot/cgroups.py): `wrap_scope_command`, the readers of the memory slice, the OOM
--   score and the search of the kernel log.
-- - Admission (nodepilot/admission.py): `can_launch` says whether a job may start now.
-- - Runner (nodepilot/runner.py): `build_command`, `start`, `is_alive`, `returncode`, `reap`, `kill`;
--   Runner/Pins: `enforce_pin`. `placement_prefix` of nodepilot/numa.py stands with `build_command`.
-- - Orchestrator (nodepilot/orchestrator.py): `State` is `self.jobs` with the end of the cooldown
--   and the kept process handles. `tick` is `_tick`, composed of `reap_finished`,
--   `mark_dead_dependents` (Orchestrator/Dependents), `enforce_pins` and `launch_pending`
--   (Orchestrator/Loop). Orchestrator/Run has `run`, `reconcile_zombies` and `kill` with the state
--   file, of which the job list that was saved last is modelled; Orchestrator/Startup has `__init__`
--   (`init`), `from_queue` and `reset`, where the state file is one of the disk; Orchestrator/Report
--   has the log lines about the whole queue, which nothing else uses.
-- - Cli (nodepilot/cli.py): `main` on parsed arguments, and the table of `status`.
-- - Logs (nodepilot/logs.py): `get_logger` and `kv`.
-- - Mpi (nodepilot/mpi.py): `rank_binding_plan` lays the cores of a job out to its MPI ranks.
-- - Host: what the program reads of the world outside, as the texts of files and the answers of
--   system calls; Proc reads /proc/meminfo. A call that looks is given one `Host`, that does not
--   change during the call; a `World` is a sequence of them, one for each call that looks.
-- - Common: Boolean tests, lists, integers, texts, decimal numbers, sorting, results.
-- - Tests: the theorems at concrete inputs.
--
-- Proofs: Config/Ids, Numa/CpuList/RoundTrip, Errors and Sets, Numa/Allocate/Order, Cores, Runs,
-- Chosen, Complete, Preferred and Sound, Numa/Topology/Siblings and Nodes, Cgroups/Limits,
-- Admission/Gate, Runner/Outcomes and Handles, Runner/Pins/Repinned, Mpi/Layout, Queue/Loading,
-- Queue/Dict/RoundTrip and Tolerance, StateFile/Atomic, Cli/Counts, Commands and Shown,
-- Orchestrator/Steps, Order, Phases, Induction, Lifecycle, Course, Settled, Drained, Unlimited,
-- Explained, Knots, Saved, Startup/Resume, Kills, Total, Cooldown, Safety, and Progress, on the end
-- of a run.
--
-- How values are modelled: amounts of RAM are whole bytes (1 GiB is 2 ^ 30), times are whole
-- microseconds, both natural numbers and exact, where the source computes in floats. Negative
-- numbers of cores, amounts of RAM and limits are not modelled. A difference that may be negative
-- in the source is written with its negative part on the other side of the comparison. A text is
-- a list of code points; `int` reads ASCII digits, and the letters of a unit name are those of
-- ASCII. The reason of a `Decision` is a tag with the printed values. The text of an exception is
-- left out of `launch_error`. An exception is an `err`, with the classes that the code tells apart.
--
-- Fuel: the `while True` loop of `_mark_dead_dependents` has one pass more than there are jobs as
-- its fuel; each pass but the last skips a pending job.
-- `run_loop` counts the ticks that are left, like `max_ticks`. A run without a limit is the relation
-- `RunsTo` of Orchestrator/Unlimited, which need not lead to any state.
--
-- Parameters, for what is not of the repository: yaml.safe_load and the rounding of the derived
-- RAM budget (`Loader`), json.dumps and json.loads (`Json`), the format `g` of a float
-- (`format_g`). A dictionary whose value is not of its field's type gives a dataclass that `Job`
-- and `Config` here cannot hold; loading then returns `none`, and is not followed further. A float
-- of a document is counted in one unit in which bytes and microseconds are whole. A disk is a
-- function from paths to texts, without directories, so that what exists is a file; `Midway` has
-- the disks that a save can leave when the process is killed. A save that raises (OSError, or the
-- TypeError of json.dumps) is `write_state` of the `Host`, and a text of /proc that is not ASCII
-- raises ValueError (`read_ascii`); both leave a run where the source does not catch them. The
-- files of sysfs, of the cgroups and /proc/meminfo, in which the kernel writes no names that a
-- user gives, are taken to be ASCII.
--
-- Not modelled: the calls of the operating system themselves (Popen, tmux, systemd-run, taskset,
-- signals, /proc, journalctl), whose answers are fields of `Host`; argparse; what a failed save
-- leaves within a run, which the exception then ends; the log lines but for those of
-- Orchestrator/Report; the command `run` without a limit on its ticks.
pub mod Common
pub mod Config
pub mod Numa
pub mod Host
pub mod Proc
pub mod Cgroups
pub mod Admission
pub mod Queue
pub mod StateFile
pub mod Runner
pub mod Orchestrator
pub mod Mpi
pub mod Logs
pub mod Cli
pub mod Tests
