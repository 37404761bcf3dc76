-- ===== src/StateFile.antt =====
-- nodepilot/state.py: the JSON file with the job list. `json.dumps` and `json.loads` are parameters.
pub mod Atomic
use nodepilot.Common.{
  ℕ, ◌*◌, Bool, true, false, List, [], ◌∷◌, ◌++◌, Option, none, some, if◌then◌else◌, Result, ok,
  err, value_error, os_error, type_error, ◌>>=◌, take,
}
use nodepilot.Common.Text.{Text, codes, text_eq}
use nodepilot.Config.{
  Value, Items, Fields, null, bool, num, real, str, arr, obj, nil, cons, end, field, Job,
}
use nodepilot.Queue.{jobs_from}
use nodepilot.Queue.Dict.{lookup, job_to_dict}

-- What the files hold.
abbrev pub Disk : Type 0
Disk = Text → Option Text

pub record Json : Type 0 where
  pub dumps : Value → Text
  pub loads : Text → Result Value

-- `Path(path).write_text(text)`
unfoldable pub write : Text → Text → Disk → Disk
write path text disk p = if text_eq p path then some text else disk p

-- `os.replace(from, to)` of a file that is there
unfoldable pub replace : Text → Text → Disk → Disk
replace from to disk p = if text_eq p to then disk from else if text_eq p from then none else disk p

-- `Path(path).unlink()`
unfoldable pub unlink : Text → Disk → Disk
unlink path disk p = if text_eq p path then none else disk p

-- `target.with_suffix(target.suffix + ".tmp")`, for a path that ends in a file's name
abbrev pub tmp_of : Text → Text
tmp_of path = path ++ codes ".tmp"

unfoldable pub dicts : List Job → Items
dicts [] = nil
dicts (job ∷ jobs) = cons (obj (job_to_dict job)) (dicts jobs)

unfoldable pub payload : ℕ → List Job → Value
payload now jobs = obj (
    field (codes "saved_at") (real (now * 1073741824))
      (field (codes "jobs") (arr (dicts jobs)) end))

unfoldable pub is_there : Option Text → Bool
is_there none = false
is_there (some text) = true

-- `state_exists`
unfoldable pub state_exists : Disk → Text → Bool
state_exists disk path = is_there (disk path)

keys : Fields → Items
keys end = nil
keys (field k v rest) = cons (str k) (keys rest)

characters : Text → Items
characters [] = nil
characters (c ∷ s) = cons (str (c ∷ [])) (characters s)

-- `for j in raw`
unfoldable pub iterate : Value → Result Items
unfolding keys characters
iterate (arr vs) = ok vs
iterate (obj fs) = ok (keys fs)
iterate (str s) = ok (characters s)
iterate _ = err type_error

-- The entries of a state.
unfoldable pub state_items : Value → Result Items
state_items (obj fs) = elim (lookup (codes "jobs") fs) [ none ↦ ok nil | some raw ↦ iterate raw ]
state_items (arr vs) = ok vs
state_items _ = err value_error

module _ (json : Json) where
  unfoldable pub save_state : ℕ → Text → List Job → Disk → Disk
  save_state now path jobs disk =
      replace (tmp_of path) path (write (tmp_of path) (json.dumps (payload now jobs)) disk)

  unfoldable pub load_text : Option Text → Result (Option (List Job))
  load_text none = err os_error
  load_text (some text) = do doc ← json.loads text; vs ← state_items doc; jobs_from vs

  unfoldable pub load_state : Disk → Text → Result (Option (List Job))
  load_state disk path = load_text (disk path)

-- The disk at some moment of `save_state`, at which the process may be killed: nothing is written yet,
-- a part of the text is in the temporary file, or the file is replaced.
pub data Midway (path text : Text) (disk : Disk) : Disk → Type 0 where
  untouched : Midway path text disk disk
  writing : (n : ℕ) → Midway path text disk (write (tmp_of path) (take n text) disk)
  replaced : Midway path text disk (replace (tmp_of path) path (write (tmp_of path) text disk))
