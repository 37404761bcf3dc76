-- ===== src/StateFile/Atomic.antt =====
-- save_state and load_state of nodepilot/state.py: what is saved is what is loaded, and a save that is
-- cut short leaves the old state or the new one.
use nodepilot.Common.{
  ℕ, ◌≡◌, refl, ap, ◌∙◌, ◌⊎◌, inl, inr, true, false, List, [], ◌∷◌, some, ok, arith, All, length,
  length-append, Bool-cases,
}
use nodepilot.Common.Text.{Text, codes, text_eq, text_eq_iff}
use nodepilot.Config.{Job}
use nodepilot.Queue.{jobs_from, both}
use nodepilot.Queue.Dict.{lookup}
use nodepilot.Queue.Dict.RoundTrip.{IsCanonical, job_from_dict-job_to_dict}
use nodepilot.StateFile.{
  Disk, Json, write, replace, tmp_of, dicts, payload, save_state, load_state, load_text,
  state_items, iterate, Midway, untouched, writing, replaced,
}

pub text_eq_refl : (s : Text) → text_eq s s ≡ true
text_eq_refl s = (text_eq_iff s s).1 refl

-- The temporary file is another one.
tmp_of_ne : (path : Text) → text_eq path (tmp_of path) ≡ false
tmp_of_ne path = elim (Bool-cases (text_eq path (tmp_of path))) [
  | inl same ↦
      let e = ap length ((text_eq_iff path (tmp_of path)).0 same) in
      absurd (omega (arith, e, length-append path (codes ".tmp")))
  | inr other ↦ other
]

-- Every job's status is one that its own text names.
abbrev pub AllCanonical : List Job → Type 0
AllCanonical jobs = All (λ job. IsCanonical job.status) jobs

jobs_from-dicts : (jobs : List Job) → AllCanonical jobs → jobs_from (dicts jobs) ≡ ok (some jobs)
unfolding jobs_from dicts both
jobs_from-dicts [] h = refl
jobs_from-dicts (job ∷ jobs) h =
    rw (job_from_dict-job_to_dict job h.0, jobs_from-dicts jobs h.1) refl

module _ (json : Json) where
  -- The JSON library reads back the text that it printed for this list.
  abbrev pub ReadsBack : ℕ → List Job → Type 0
  ReadsBack now jobs = json.loads (json.dumps (payload now jobs)) ≡ ok (payload now jobs)

  pub new_text :
      (now : ℕ) (path : Text) (jobs : List Job) (disk : Disk)
      → save_state json now path jobs disk path ≡ some (json.dumps (payload now jobs))
  unfolding save_state replace write
  new_text now path jobs disk = rw (text_eq_refl path, text_eq_refl (tmp_of path)) refl

  load_text-payload :
      (now : ℕ) (jobs : List Job)
      → ReadsBack now jobs
      → AllCanonical jobs
      → load_text json (some (json.dumps (payload now jobs))) ≡ ok (some jobs)
  unfolding load_text payload state_items iterate lookup text_eq
  load_text-payload now jobs back canonical = rw (back, jobs_from-dicts jobs canonical) refl

  -- Loading what was saved gives the jobs that were saved, every field of them, whatever was on the
  -- disk before: if the JSON library reads back what it printed, and each status is a constant of
  -- `JobStatus` or a text that is none of them.
  pub load_state-save_state :
      (now : ℕ) (path : Text) (jobs : List Job) (disk : Disk)
      → ReadsBack now jobs
      → AllCanonical jobs
      → load_state json (save_state json now path jobs disk) path ≡ ok (some jobs)
  unfolding load_state
  load_state-save_state now path jobs disk back canonical =
      ap (load_text json) (new_text now path jobs disk) ∙ load_text-payload now jobs back canonical

  kept :
      (path text : Text) (disk : Disk)
      → load_state json (write (tmp_of path) text disk) path ≡ load_state json disk path
  unfolding load_state write
  kept path text disk = ap (load_text json) (rw (tmp_of_ne path) refl)

  -- At every moment of a save, loading gives what it gave before the save, or the jobs that are saved:
  -- no reader finds a part of the text.
  pub save_state-Midway :
      (now : ℕ) (path : Text) (jobs : List Job) (disk seen : Disk)
      → ReadsBack now jobs
      → AllCanonical jobs
      → Midway path (json.dumps (payload now jobs)) disk seen
      → (load_state json seen path ≡ load_state json disk path)
        ⊎ (load_state json seen path ≡ ok (some jobs))
  unfolding save_state
  save_state-Midway now path jobs disk _ back canonical untouched = inl refl
  save_state-Midway now path jobs disk _ back canonical (writing n) = inl (kept path _ disk)
  save_state-Midway now path jobs disk _ back canonical replaced =
      inr (load_state-save_state now path jobs disk back canonical)
