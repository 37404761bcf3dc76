-- ===== src/Host.antt =====
-- The world outside the program: what its reads of files, processes and the clock return. A call
-- that reads is given one `Host`, which does not change during the call; the calls of a run are
-- given the observations of a `World`, one after the other, so any field may change between two.
use nodepilot.Common.{
  ℕ, Bool, List, Option, none, some, ℤ, Result, ok, err, value_error, ltb, if◌then◌else◌, all_of,
}
use nodepilot.Common.Text.{Text}

-- `os.kill(pid, 0)`: delivered, ProcessLookupError, PermissionError.
pub data Probe : Type 0 where
  delivered no_process not_permitted : Probe

-- An optional text is `none` where the call raises OSError.
pub record Host : Type 0 where
  -- time.time(), in microseconds
  pub now : ℕ
  -- os.getuid()
  pub uid : ℕ
  -- os.environ.get("XDG_RUNTIME_DIR")
  pub runtime_dir : Option Text
  -- Path(p).exists(), Path(p).is_dir() and Path(p).read_text()
  pub exists : Text → Bool
  pub is_dir : Text → Bool
  pub read_text : Text → Option Text
  -- shutil.which(name) is not None
  pub which : Text → Bool
  -- Popen.poll() of the handle for this pid
  pub poll : ℤ → Option ℤ
  pub kill_zero : ℤ → Probe
  -- os.getpgid(pid); none for ProcessLookupError
  pub getpgid : ℤ → Option ℤ
  -- the names in a directory that a glob `prefix[0-9]*` matches
  pub glob : Text → Text → List Text
  -- os.sched_getaffinity(0), none where it is missing or fails; os.cpu_count()
  pub affinity : Option (List ℕ)
  pub cpu_count : Option ℕ
  -- the names in /proc
  pub proc : List Text
  -- the exit status of `tmux has-session` is 0
  pub has_session : Text → Bool
  -- what `journalctl -k` prints; none where it fails
  pub journal : Option Text
  -- what `pgrep -f` prints
  pub pgrep : Text → Text
  -- Popen(argv): the new pid, or the exception
  pub popen : List Text → Result ℕ
  -- what save_state of nodepilot/state.py raises, if it does: OSError, or the TypeError of json.dumps
  pub write_state : Result (Unit {0})
  -- `tmux new-session` with check=True
  pub new_session : Text → List Text → Result (Unit {0})

abbrev pub World : Type 0
World = ℕ → Host

-- `Path(p).read_text(encoding="ascii")`, `none` for an OSError: any other character raises
-- UnicodeDecodeError, which is a ValueError.
unfoldable pub read_ascii : Host → Text → Result (Option Text)
read_ascii h path = elim (h.read_text path) [
  | none ↦ ok none
  | some text ↦ if all_of (λ c. ltb c 128) text then ok (some text) else err value_error
]
