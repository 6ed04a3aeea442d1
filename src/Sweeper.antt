-- ===== src/Sweeper.antt =====
-- internal/app/stuck_jobs.go: the sweep over the jobs that have been processing for too long. The
-- table of jobs is a list in the order in which the repository lists it; an update changes the rows
-- with its id, unless the database refuses it.
pub mod Sweeping
use ai_cv_evaluator.Base.{
  ℕ, zero, suc, ◌+◌, ◌-◌, ◌*◌, ◌/◌, max, String, ap, Bool, not, ◌&&◌, ◌||◌, Option, none, some,
  List, [], ◌∷◌, str_eq, ltb, ◌==◌, if◌then◌else◌, length, take, drop, keep, sub64, sle, time_add,
  second, Bytes,
}
use ai_cv_evaluator.Domain.{Job, job_processing, job_failed, status_eq}

pub record StuckJobSweeper : Type 0 where
  pub max_processing_age : ℕ
  pub interval : ℕ

unfoldable pub new_stuck_job_sweeper : ℕ → ℕ → StuckJobSweeper
new_stuck_job_sweeper max_processing_age interval = record {
  max_processing_age = if sle max_processing_age 0 then 180 * second else max_processing_age;
  interval = if sle interval 0 then 60 * second else interval;
}

abbrev pub is_processing : Job → Bool
is_processing j = status_eq j.status job_processing

abbrev pub has_id : String → Job → Bool
has_id id j = str_eq j.id id

-- The jobs that `ListWithFilters` gives for the status `processing`.
unfoldable pub list_processing : ℕ → ℕ → List Job → List Job
list_processing offset limit table = take limit (drop offset (keep is_processing table))

abbrev pub failed_job : ℕ → Bytes → Job → Job
failed_job now message j = record j { status = job_failed; error = message; updated_at = now }

-- `UpdateStatus` to `failed`.
unfoldable pub mark_failed : ℕ → Bytes → String → List Job → List Job
mark_failed now message id [] = []
mark_failed now message id (j ∷ table) =
    (if has_id id j then failed_job now message j else j) ∷ mark_failed now message id table

-- The size of a page, the oldest time of an update that is not too old, the time and the text of an
-- update, the ids whose update the database refuses, and the offsets at which it does not list.
module _ (page_size cutoff now : ℕ) (message : Bytes) (refused : String → Bool)
    (unlisted : ℕ → Bool) where
  unfoldable pub mark_stuck : List Job → List Job → List Job
  mark_stuck [] table = table
  mark_stuck (j ∷ page) table =
      if ltb j.updated_at cutoff && not (refused j.id)
      then mark_stuck page (mark_failed now message j.id table)
      else mark_stuck page table

  -- The pages from an offset on; `none` when the fuel is spent.
  unfoldable pub sweep_pages : ℕ → ℕ → List Job → Option (List Job)
  sweep_pages zero offset table = none
  sweep_pages (suc fuel) offset table =
      let page = list_processing offset page_size table in
      let marked = mark_stuck page table in
      let rest = sweep_pages fuel (offset + page_size) marked in
      if unlisted offset || length page == 0
      then some table
      else if ltb (length page) page_size
      then some marked
      else rest

-- `sweepOnce`: no page starts beyond the last job.
unfoldable pub sweep_once :
    ℕ → Bytes → (String → Bool) → (ℕ → Bool) → StuckJobSweeper → List Job → Option (List Job)
sweep_once now message refused unlisted s table =
    let cutoff = time_add now (sub64 0 s.max_processing_age) in
    sweep_pages 100 cutoff now message refused unlisted (length table + 1) 0 table
