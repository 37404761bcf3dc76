-- ===== src/Cgroups.antt =====
-- nodepilot/cgroups.py: the memory scope around a job's command, and the readers of the slice.
pub mod Limits
use nodepilot.Common.{
  ℕ, ◌+◌, ◌-◌, Bool, true, false, not, ◌||◌, ◌&&◌, List, [], ◌∷◌, ◌++◌, map, Option, none, some,
  leb, ltb, ◌==◌, if◌then◌else◌, Result, ok, err, ℤ, pos, negsuc, ltb_ℤ,
}
use nodepilot.Common.Text.{Text, codes, text_eq, is_empty, strip, under, lower, has_part}
use nodepilot.Common.Decimal.{int, decimal, show}
use nodepilot.Config.{gib}
use nodepilot.Host.{Host}

-- `_user_bus_socket_exists`; an empty XDG_RUNTIME_DIR counts as none.
user_bus_socket_exists : Host → Bool
unfolding is_empty
user_bus_socket_exists h =
    let fallback = codes "/run/user/" ++ decimal h.uid in
    let runtime : Text = elim h.runtime_dir [
      | none ↦ fallback
      | some dir ↦ if is_empty dir then fallback else dir
    ] in
    h.exists (under runtime (codes "bus"))

unfoldable pub systemd_run_available : Host → Bool
unfolding user_bus_socket_exists
systemd_run_available h =
    let named : Bool = elim h.runtime_dir [ none ↦ false | some dir ↦ not (is_empty dir) ] in
    h.which (codes "systemd-run") && (named || user_bus_socket_exists h)

-- `c.isalnum() or c in "-_"`, for the letters and digits of ASCII.
unfoldable pub is_unit_char : ℕ → Bool
is_unit_char c =
    (leb b'0' c && leb c b'9')
    || (leb b'A' c && leb c b'Z')
    || (leb b'a' c && leb c b'z')
    || c == b'-'
    || c == b'_'

unfoldable pub scope_unit_name : Text → Text
unfolding is_unit_char
scope_unit_name job_id =
    codes "nodepilot-" ++ map (λ c. if is_unit_char c then c else b'_') job_id ++ codes ".scope"

-- `max(1.0, ram_gb - high_headroom_gb)` with the default headroom of 4 GiB. The subtraction stops
-- at 0 here, and is negative there: below 1 GiB both ways.
unfoldable pub memory_high : ℕ → ℕ
memory_high ram_gb = let high = ram_gb - 4294967296 in if ltb high gib then gib else high

-- `format_g` prints an amount of RAM in GiB as the format `g` does.
unfoldable pub wrap_scope_command : (format_g : ℕ → Text) → List Text → Text → ℕ → Text → List Text
wrap_scope_command format_g argv job_id ram_gb slice_name =
    codes "systemd-run"
    ∷ codes "--user"
    ∷ codes "--scope"
    ∷ codes "--quiet"
    ∷ codes "--collect"
    ∷ codes "--no-block"
    ∷ (codes "--slice=" ++ slice_name)
    ∷ (codes "--unit=" ++ scope_unit_name job_id)
    ∷ codes "-p"
    ∷ (codes "MemoryMax=" ++ format_g ram_gb ++ codes "G")
    ∷ codes "-p"
    ∷ codes "MemorySwapMax=0"
    ∷ codes "-p"
    ∷ (codes "MemoryHigh=" ++ format_g (memory_high ram_gb) ++ codes "G")
    ∷ argv

-- `_slice_dir_candidates`
unfoldable pub slice_dir_candidates : (uid : ℕ) → Text → List Text
slice_dir_candidates uid slice_name =
    let root = codes "/sys/fs/cgroup" in
    let user = decimal uid in
    let base =
      under (under (under root (codes "user.slice")) (codes "user-" ++ user ++ codes ".slice"))
        (codes "user@" ++ user ++ codes ".service") in
    under base slice_name
    ∷ under (under base (codes "app.slice")) slice_name
    ∷ under root slice_name
    ∷ []

-- The loop of SliceMonitor.cgroup_dir.
first_dir : Host → List Text → Option Text
first_dir h [] = none
first_dir h (cand ∷ cands) =
    let rest = first_dir h cands in if h.is_dir cand then some cand else rest

unfoldable pub cgroup_dir : Host → Text → Option Text
unfolding first_dir
cgroup_dir h slice_name = first_dir h (slice_dir_candidates h.uid slice_name)

-- SliceMonitor.is_active
unfoldable pub is_active : Host → Text → Bool
is_active h slice_name = elim (cgroup_dir h slice_name) [ none ↦ false | some dir ↦ true ]

unfoldable pub read_mem_raw : Host → Text → Text → Option Text
read_mem_raw h slice_name fname = elim (cgroup_dir h slice_name) [
  | none ↦ none
  | some dir ↦ elim (h.read_text (under dir fname)) [ none ↦ none | some raw ↦ some (strip raw) ]
]

-- The bytes that a file of the slice names; `None` if it is missing, says `max` or is no number.
-- (The kernel writes no negative number; one would be read as missing.)
bytes_of : Result ℤ → Option ℕ
bytes_of (ok (pos n)) = some n
bytes_of (ok (negsuc n)) = none
bytes_of (err e) = none

unfoldable pub read_mem_file : Host → Text → Text → Option ℕ
unfolding bytes_of
read_mem_file h slice_name fname = elim (read_mem_raw h slice_name fname) [
  | none ↦ none
  | some raw ↦ if text_eq raw (codes "max") then none else bytes_of (int raw)
]

-- SliceMonitor.used_gb and SliceMonitor.max_gb
unfoldable pub used_gb : Host → Text → Option ℕ
used_gb h slice_name = read_mem_file h slice_name (codes "memory.current")

unfoldable pub max_gb : Host → Text → Option ℕ
max_gb h slice_name = read_mem_file h slice_name (codes "memory.max")

unfoldable pub scope_is_active : Host → Text → Text → Bool
scope_is_active h job_id slice_name = elim (cgroup_dir h slice_name) [
  | none ↦ false
  | some dir ↦ h.is_dir (under dir (scope_unit_name job_id))
]

-- `max(-1000, min(1000, value))`
unfoldable pub clamp_score : ℤ → ℤ
clamp_score value =
    let low = if ltb_ℤ value (pos 1000) then value else pos 1000 in
    if ltb_ℤ (negsuc 999) low then low else negsuc 999

-- `set_oom_score_adj`: the path that is written, and the text.
unfoldable pub oom_score_write : ℕ → ℤ → Text × Text
oom_score_write pid value =
    (codes "/proc/" ++ decimal pid ++ codes "/oom_score_adj", show (clamp_score value))

-- `pid` is the answer of os.getpid().
unfoldable pub set_self_oom_score_adj : (pid : ℕ) → ℤ → Text × Text
set_self_oom_score_adj pid value = oom_score_write pid value

unfoldable pub journal_reports_oom : Host → Bool
journal_reports_oom h = h.which (codes "journalctl") && (elim h.journal [
  | none ↦ false
  | some out ↦
      has_part (codes "oom-kill") (lower out) || has_part (codes "out of memory") (lower out)
])
