-- ===== src/Queue/Loading.antt =====
-- load_queue of nodepilot/config.py: what holds of a queue that is loaded.
use nodepilot.Common.{
  ◌≡◌, subst, List, Option, none, some, ok, >>=-eq-ok, arith, inl, inr, Option-cases,
}
use nodepilot.Common.Text.{Text}
use nodepilot.Config.{Value, Job, Config, validate_unique_ids}
use nodepilot.Config.Ids.{HasUniqueIds, validate_unique_ids_iff}
use nodepilot.Queue.{Loader, load_queue, queue_of, checked, parts, or_empty, jobs_from}

module _ (loader : Loader) where
  checked-HasUniqueIds :
      (c : Option Config) (js : Option (List Job)) (config : Config) (jobs : List Job)
      → checked loader c js ≡ ok (some (config, jobs))
      → HasUniqueIds jobs
  unfolding checked
  checked-HasUniqueIds none js config jobs e = absurd (ground arith)
  checked-HasUniqueIds (some c) none config jobs e = absurd (ground arith)
  checked-HasUniqueIds (some c) (some js) config jobs e =
      let (u, valid, e') = >>=-eq-ok (validate_unique_ids js) _ e in
      let same : js ≡ jobs = ground arith in
      subst HasUniqueIds same ((validate_unique_ids_iff js).0 valid)

  queue_of-HasUniqueIds :
      (doc : Value) (config : Config) (jobs : List Job)
      → queue_of loader doc ≡ ok (some (config, jobs))
      → HasUniqueIds jobs
  unfolding queue_of
  queue_of-HasUniqueIds doc config jobs e =
      let ((c, vs), read, e') = >>=-eq-ok (parts loader (or_empty doc)) _ e in
      let (js, built, e'') = >>=-eq-ok (jobs_from vs) _ e' in
      checked-HasUniqueIds c js config jobs e''

  -- No two jobs of a queue that is loaded have one id.
  pub load_queue-HasUniqueIds :
      (path : Text) (config : Config) (jobs : List Job)
      → load_queue loader path ≡ ok (some (config, jobs))
      → HasUniqueIds jobs
  unfolding load_queue
  load_queue-HasUniqueIds path config jobs e = elim (Option-cases (loader.host.read_text path)) [
    | inl missing ↦ absurd (ground arith)
    | inr (text, there) ↦
        let (doc, parsed, e') = >>=-eq-ok (loader.safe_load text) _ (rw (load_queue, there) at e) in
        queue_of-HasUniqueIds doc config jobs e'
  ]
