-- ===== src/Sweeper/Sweeping.antt =====
-- internal/app/stuck_jobs.go: the end of a sweep, and the jobs that it leaves as they are.
use ai_cv_evaluator.Base.{
  ℕ, zero, suc, ◌+◌, ◌-◌, ◌≤◌, ◌<◌, String, ◌≡◌, refl, sym, ap, ◌∙◌, inl, inr, Bool, false, not,
  ◌&&◌, ◌||◌, some, [], ◌∷◌, arith, str_eq, eq_iff, ltb, ◌==◌, Bool-cases, length, drop, any, keep,
  length-keep-le, length-take, length-drop, any-take, sub64, time_add, Bytes,
}
use mathlib.Core.List.{List}
use ai_cv_evaluator.Domain.{Job}
use ai_cv_evaluator.Sweeper.{
  StuckJobSweeper, is_processing, has_id, list_processing, mark_failed, mark_stuck, sweep_pages,
  sweep_once,
}

length-mark_failed :
    (now : ℕ) (message : Bytes) (id : String) (table : List Job)
    → length (mark_failed now message id table) ≡ length table
unfolding mark_failed
length-mark_failed now message id [] = refl
length-mark_failed now message id (j ∷ table) =
    ground (arith, length-mark_failed now message id table)

mark_failed-other :
    (now : ℕ) (message : Bytes) (id other : String) (table : List Job)
    → str_eq other id ≡ false
    → keep (has_id id) (mark_failed now message other table) ≡ keep (has_id id) table
unfolding mark_failed
mark_failed-other now message id other [] h = refl
mark_failed-other now message id other (j ∷ table) h = ground (
  arith,
  mark_failed-other now message id other table h,
  eq_iff j.id id,
  eq_iff j.id other,
  eq_iff other id,
)

-- A job of the id that has been processing since before the cutoff.
abbrev pub is_stuck : ℕ → String → Job → Bool
is_stuck cutoff id j = has_id id j && (is_processing j && ltb j.updated_at cutoff)

abbrev is_old : ℕ → String → Job → Bool
is_old cutoff id j = has_id id j && ltb j.updated_at cutoff

any-keep-processing :
    (cutoff : ℕ) (id : String) (table : List Job)
    → any (is_old cutoff id) (keep is_processing table) ≡ any (is_stuck cutoff id) table
any-keep-processing cutoff id [] = refl
any-keep-processing cutoff id (j ∷ table) = ground (arith, any-keep-processing cutoff id table)

any-keep-has_id :
    (cutoff : ℕ) (id : String) (table : List Job)
    → any (is_stuck cutoff id) (keep (has_id id) table) ≡ any (is_stuck cutoff id) table
any-keep-has_id cutoff id [] = refl
any-keep-has_id cutoff id (j ∷ table) = ground (arith, any-keep-has_id cutoff id table)

any-drop {ℓ} :
    {A : Type ℓ} (p : A → Bool) (n : ℕ) (xs : List A) → any p xs ≡ false → any p (drop n xs) ≡ false
any-drop p zero xs h = h
any-drop p (suc n) [] h = ground (arith, h)
any-drop p (suc n) (x ∷ xs) h = any-drop p n xs (ground (arith, h))

any-list_processing :
    (cutoff : ℕ) (id : String) (offset limit : ℕ) (table : List Job)
    → any (is_stuck cutoff id) table ≡ false
    → any (is_old cutoff id) (list_processing offset limit table) ≡ false
unfolding list_processing
any-list_processing cutoff id offset limit table h =
    any-take (is_old cutoff id) limit (drop offset (keep is_processing table)) (
      any-drop (is_old cutoff id) offset (keep is_processing table)
        (any-keep-processing cutoff id table ∙ h))

module _ (page_size cutoff now : ℕ) (message : Bytes) (refused : String → Bool)
    (unlisted : ℕ → Bool) where
  length-mark_stuck :
      (page table : List Job)
      → length (mark_stuck page_size cutoff now message refused unlisted page table) ≡ length table
  unfolding mark_stuck
  length-mark_stuck [] table = refl
  length-mark_stuck (j ∷ page) table =
      elim (Bool-cases (ltb j.updated_at cutoff && not (refused j.id))) [
        | inl e ↦
            rw (e, mark_stuck)
              (length-mark_stuck page (mark_failed now message j.id table)
                ∙ length-mark_failed now message j.id table)
        | inr e ↦ rw (e, mark_stuck) (length-mark_stuck page table)
      ]

  length-list_processing :
      (offset limit : ℕ) (table : List Job)
      → length (list_processing offset limit table) ≤ length table - offset
  unfolding list_processing
  length-list_processing offset limit table =
      let listed = keep is_processing table in
      omega (
        arith,
        length-take limit (drop offset listed),
        length-drop offset listed,
        length-keep-le is_processing table,
      )

  mark_stuck-other :
      (id : String) (page table : List Job)
      → any (is_old cutoff id) page ≡ false
      → keep (has_id id) (mark_stuck page_size cutoff now message refused unlisted page table)
        ≡ keep (has_id id) table
  unfolding mark_stuck
  mark_stuck-other id [] table h = refl
  mark_stuck-other id (j ∷ page) table h =
      elim (Bool-cases (ltb j.updated_at cutoff && not (refused j.id))) [
        | inl e ↦
            rw (e, mark_stuck)
              (mark_stuck-other id page (mark_failed now message j.id table) (ground (arith, h))
                ∙ mark_failed-other now message id j.id table (ground (arith, h, e)))
        | inr e ↦ rw (e, mark_stuck) (mark_stuck-other id page table (ground (arith, h)))
      ]

  -- With fuel for every offset up to the number of jobs, the sweep ends, and it leaves the jobs of an id
  -- as they are when none of them has been processing since before the cutoff.
  pub sweep_pages-other :
      (id : String) (fuel offset : ℕ) (table : List Job)
      → 1 ≤ page_size
      → length table < offset + fuel
      → offset ≤ length table
      → any (is_stuck cutoff id) table ≡ false
      → (table' : List Job) × (sweep_pages page_size cutoff now message refused unlisted fuel offset
            table
          ≡ some table')
        × (length table' ≡ length table)
        × (keep (has_id id) table' ≡ keep (has_id id) table)
  unfolding sweep_pages
  sweep_pages-other id zero offset table pos enough below h = ground (arith, enough, below)
  sweep_pages-other id (suc fuel) offset table pos enough below h =
      let page : List Job = list_processing offset page_size table in
      let marked : List Job = mark_stuck page_size cutoff now message refused unlisted page table in
      let same : length marked ≡ length table = length-mark_stuck page table in
      let kept : keep (has_id id) marked ≡ keep (has_id id) table =
        mark_stuck-other id page table (any-list_processing cutoff id offset page_size table h) in
      elim (Bool-cases (unlisted offset || length page == 0)) [
        | inl e ↦ (table, ground (arith, e), refl, refl)
        | inr e ↦ elim (Bool-cases (ltb (length page) page_size)) [
          | inl last ↦ (marked, ground (arith, e, last), same, kept)
          | inr full ↦
              let (table', ended, length_kept, ids_kept) =
                sweep_pages-other id fuel (offset + page_size) marked pos
                  (ground (arith, enough, same, pos))
                  (ground (arith, same, full, length-list_processing offset page_size table))
                  (sym (any-keep-has_id cutoff id marked)
                    ∙ ap (any (is_stuck cutoff id)) kept
                    ∙ any-keep-has_id cutoff id table
                    ∙ h) in
              (table', ground (arith, e, full, ended), length_kept ∙ same, ids_kept ∙ kept)
        ]
      ]

-- A sweep ends, whatever the table holds and whatever the database refuses. It keeps the number of the
-- jobs, and the jobs of an id as they are when none of them has been processing for longer than the age.
pub sweep_once-other :
    (now : ℕ) (message : Bytes) (refused : String → Bool) (unlisted : ℕ → Bool)
    (s : StuckJobSweeper) (id : String) (table : List Job)
    → any (is_stuck (time_add now (sub64 0 s.max_processing_age)) id) table ≡ false
    → (table' : List Job) × (sweep_once now message refused unlisted s table ≡ some table')
      × (length table' ≡ length table)
      × (keep (has_id id) table' ≡ keep (has_id id) table)
unfolding sweep_once
sweep_once-other now message refused unlisted s id table h =
    let cutoff = time_add now (sub64 0 s.max_processing_age) in
    sweep_pages-other 100 cutoff now message refused unlisted id (length table + 1) 0 table
      (ground arith) (ground arith) (ground arith) h
