-- ===== src/Jobs/LineEffect.antt =====
-- What a line of a worker's output does to the store, and that it leaves the runs alone.
use botik.Base.{
  ℕ, ◌≡◌, refl, String, Option, none, some, lookup, lookup-insert, ◌==◌, arith, Bool-cases, inl,
  inr, if◌then◌else◌,
}
use botik.Base.Float.{Float, nought}
use botik.Jobs.Types.{JobDetails, Field, ProgressFields, Parsed, WorkerLine, Stream, stdout, stderr}
use botik.Jobs.Store.{update}
use botik.Jobs.Action.{App}
use botik.Jobs.Supervisor.{
  clamp, is_empty, next_state, record_progress, handle_progress, handle_stdout, handle_stream,
  handle_worker_line,
}

module _ {F : Type 0} ⦃fl : Float F⦄ where
  abbrev pub field_progress : Field F → Option F
  field_progress Field.absent = some nought
  field_progress (Field.given v) = some v
  field_progress Field.invalid = none

  abbrev pub parsed_progress : Parsed F → Option F
  parsed_progress (Parsed.progress_payload p) = field_progress p.progress
  parsed_progress _ = none

  -- The progress that a line reports, if it reports any.
  abbrev pub line_progress : Stream → WorkerLine F → Option F
  line_progress stderr line = none
  line_progress stdout line = if is_empty line.text then none else parsed_progress line.parsed

  -- The details of a job for which progress was reported.
  abbrev pub refreshed : Option F → ℕ → Option (JobDetails F) → Option (JobDetails F)
  refreshed none now o = o
  refreshed (some v) now none = none
  refreshed (some v) now (some d) =
      some (record d { progress = clamp v; state = next_state (some d); updated_at = now })

  abbrev pub Writes : ℕ → ℕ → Option F → ℕ → App F → App F → Type 0
  Writes k job_id v now a b =
      (lookup k b.store
        ≡ (if k == job_id then refreshed v now (lookup job_id a.store) else lookup k a.store))
      × (b.runs ≡ a.runs)

  module _ (k job_id now : ℕ) (a : App F) where
    unchanged : (v : Option F) → v ≡ none → Writes k job_id v now a a
    unchanged v e = ground arith

    record_progress-Writes :
        (v : F) (p : ProgressFields F)
        → Writes k job_id (some v) now a (record_progress job_id v p now a).1
    unfolding record_progress update
    record_progress-Writes v p = grind (arith, lookup-insert)

    handle_progress-Writes :
        (p : ProgressFields F) (f : Field F)
        → Writes k job_id (field_progress f) now a (handle_progress job_id p f now a).1
    unfolding handle_progress
    handle_progress-Writes p Field.absent = record_progress-Writes nought p
    handle_progress-Writes p (Field.given v) = record_progress-Writes v p
    handle_progress-Writes p Field.invalid = unchanged none refl

    handle_stdout-Writes :
        (text : String) (parsed : Parsed F)
        → Writes k job_id (parsed_progress parsed) now a (handle_stdout job_id text parsed now a).1
    unfolding handle_stdout
    handle_stdout-Writes text Parsed.not_json = unchanged none refl
    handle_stdout-Writes text Parsed.not_object = unchanged none refl
    handle_stdout-Writes text (Parsed.progress_payload p) = handle_progress-Writes p p.progress
    handle_stdout-Writes text (Parsed.log_payload level message) = unchanged none refl
    handle_stdout-Writes text Parsed.other_payload = unchanged none refl

    -- A line changes the job that its worker runs, and only if it reports progress: the progress
    -- is clamped, the time is set, and the state becomes running unless the job is stopping.
    pub handle_worker_line-Writes :
        (stream : Stream) (line : WorkerLine F)
        → Writes k job_id
            (line_progress stream line)
            now
            a
            (handle_worker_line job_id stream line now a).1
    unfolding handle_worker_line handle_stream
    handle_worker_line-Writes stderr line = elim (Bool-cases (is_empty line.text)) [
      | inl e ↦ rw e (unchanged none refl)
      | inr e ↦ rw e (unchanged none refl)
    ]
    handle_worker_line-Writes stdout line = elim (Bool-cases (is_empty line.text)) [
      | inl e ↦ rw e (unchanged none refl)
      | inr e ↦ rw e (handle_stdout-Writes line.text line.parsed)
    ]
