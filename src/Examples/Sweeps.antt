-- ===== src/Examples/Sweeps.antt =====
-- The theorem on the sweep of stuck jobs at a concrete table, and a sweep over two pages.
use ai_cv_evaluator.Base.{
  ℕ, ◌*◌, String, ◌≡◌, refl, false, some, [], ◌∷◌, length, keep, second, codes,
}
use mathlib.Core.List.{List}
use ai_cv_evaluator.Domain.{Job, job_processing}
use ai_cv_evaluator.Sweeper.{
  StuckJobSweeper, has_id, list_processing, mark_failed, mark_stuck, failed_job, sweep_pages,
  sweep_once, new_stuck_job_sweeper,
}
use ai_cv_evaluator.Sweeper.Sweeping.{sweep_once-other}
use ai_cv_evaluator.Examples.Fixtures.{queued_job}

abbrev busy : String → ℕ → Job
busy id updated_at = record queued_job { id = id; status = job_processing; updated_at = updated_at }

abbrev table : List Job
table = busy "old" 0 ∷ busy "new" (400 * second) ∷ []

abbrev sweeper : StuckJobSweeper
sweeper = record { max_processing_age = 180 * second; interval = 60 * second }

sweep_once-other_example :
    (table' : List Job) × (sweep_once
        (500 * second)
        (codes "old")
        (λ id. false)
        (λ n. false)
        sweeper
        table
      ≡ some table')
    × (length table' ≡ 2)
    × (keep (has_id "new") table' ≡ keep (has_id "new") table)
sweep_once-other_example =
    sweep_once-other (500 * second) (codes "old") (λ id. false) (λ n. false) sweeper "new" table
      refl

-- With pages of one job, the second of two stuck jobs is passed over: the first is no longer listed
-- when the sweep asks for the second page.
second_page_skipped :
    sweep_pages 1 300 500 [] (λ id. false) (λ n. false) 3 0 (busy "a" 0 ∷ busy "b" 0 ∷ [])
    ≡ some (failed_job 500 [] (busy "a" 0) ∷ busy "b" 0 ∷ [])
unfolding sweep_pages list_processing mark_stuck mark_failed
second_page_skipped = refl

defaults_of_sweeper :
    new_stuck_job_sweeper 0 0 ≡ record { max_processing_age = 180 * second; interval = 60 * second }
unfolding new_stuck_job_sweeper
defaults_of_sweeper = refl
