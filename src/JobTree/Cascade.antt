-- ===== src/JobTree/Cascade.antt =====
-- What a cancellation with its cascade reaches.
use local_mind.Base.{
  ℕ, zero, suc, ◌≤◌, ◌<◌, ◌≡◌, ◌⊎◌, refl, false, sort_by, mem-sort_by, ap, ◌∙◌, Bool, true, not,
  ◌&&◌, ◌||◌, List, [], ◌∷◌, inl, inr, arith, leb, ◌==◌, is_none, select, All, All-append, All-mono,
  All-select, All-select_sat, All-both, All-update, All-update_always, All-of_mem, All-sort_by,
  Memᴰ, Bool-cases,
}
use local_mind.Jobs.{Job, has_status, cancelling, with_id, update_job_status}
use local_mind.Delegation.{Delegation, JobRow, max_delegation_depth}
use local_mind.Delegation.Limits.{Call, run, run-IsBounded, empty-IsBounded}
use local_mind.Delegation.Subtree.{child_ids}
use local_mind.Delegation.Subtree.Reach.{
  Below, here, under, edges, each-keeps, each-reaches, mem-child_ids,
}
use local_mind.Delegation.Subtree.Enough.{
  Within, Within-child, each-ext, mem-edges, Below-IsBounded,
}
use local_mind.JobTree.Levels.{tree_ids-more, tree_ids-reaches, mem-jobs_of}
use local_mind.JobTree.{
  set_cancelling, cascade_cancel, cancel_job, all_child_ids, tree_ids, jobs_of, get_job_tree,
}

-- The row is being cancelled, and has neither error nor result.
abbrev pub is_being_cancelled : Job → Bool
is_being_cancelled j = has_status j.status cancelling && is_none j.error && is_none j.result_summary

-- Every row of the job `x` is.
abbrev IsCancelling : ℕ → List Job → Type 0
IsCancelling x jobs = All (λ j. not (j.id == x) || is_being_cancelled j ≡ true) jobs

set_cancelling-IsCancelling :
    (x now : ℕ) (jobs : List Job) → IsCancelling x (set_cancelling x now jobs)
unfolding update_job_status
set_cancelling-IsCancelling x now jobs =
    All-update_always (λ j. not (j.id == x) || is_being_cancelled j ≡ true) (with_id x) _ jobs
      (λ j. ground arith)

set_cancelling-keeps :
    (x y now : ℕ) (jobs : List Job)
    → IsCancelling x jobs
    → IsCancelling x (set_cancelling y now jobs)
unfolding update_job_status
set_cancelling-keeps x y now jobs h =
    All-update (with_id y) _ (λ j. not (j.id == x) || is_being_cancelled j ≡ true)
      (λ j. not (j.id == x) || is_being_cancelled j ≡ true) jobs (λ j k. ground (arith, k)) h

cascade_cancel-keeps :
    (fuel now job x : ℕ) (rows : List Delegation) (jobs : List Job)
    → IsCancelling x jobs
    → IsCancelling x (cascade_cancel fuel now job rows jobs)
unfolding cascade_cancel
cascade_cancel-keeps zero now job x rows jobs h = h
cascade_cancel-keeps (suc fuel) now job x rows jobs h =
    each-keeps _ (IsCancelling x) (child_ids job rows) jobs
      (λ c s k. cascade_cancel-keeps fuel now c x rows _ (set_cancelling-keeps x c now s k)) h

-- With fuel for its level, a job below a job that is reached is reached.
cascade_cancel-IsCancelling :
    (rows : List Delegation) (x n job fuel now : ℕ) (jobs : List Job)
    → Below (edges rows) x n job
    → n < suc fuel
    → IsCancelling job jobs
    → IsCancelling x (cascade_cancel fuel now job rows jobs)
unfolding cascade_cancel
cascade_cancel-IsCancelling rows x n job fuel now jobs here lt h =
    cascade_cancel-keeps fuel now x x rows jobs h
cascade_cancel-IsCancelling rows x (suc n) job zero now jobs (under c m b) lt h =
    absurd (omega arith)
cascade_cancel-IsCancelling rows x (suc n) job (suc fuel) now jobs (under c m b) lt h =
    each-reaches _ (λ s. Unit {0}) (IsCancelling x) c (child_ids job rows) jobs (λ d s i. tt)
      (λ d s k. cascade_cancel-keeps fuel now d x rows _ (set_cancelling-keeps x d now s k))
      (λ s i.
        cascade_cancel-IsCancelling rows x n c fuel now (set_cancelling c now s) b (omega arith)
          (set_cancelling-IsCancelling c now s))
      (mem-child_ids job c rows m) tt

-- One more unit of fuel than is needed changes nothing.
cascade_cancel-suc :
    (fuel now job : ℕ) (rows : List Delegation) (jobs : List Job)
    → Within (edges rows) fuel job
    → cascade_cancel (suc fuel) now job rows jobs ≡ cascade_cancel fuel now job rows jobs
unfolding cascade_cancel
cascade_cancel-suc zero now job rows jobs w = absurd (let lt = w job 0 here in omega arith)
cascade_cancel-suc (suc fuel) now job rows jobs w =
    each-ext _ _ (λ s. Unit {0}) (child_ids job rows) jobs
      (λ c m s i. cascade_cancel-suc fuel now c rows _ (Within-child rows fuel job c w m))
      (λ c s i. tt) tt

cascade_cancel-more :
    (fuel more now job : ℕ) (rows : List Delegation) (jobs : List Job)
    → Within (edges rows) fuel job
    → fuel ≤ more
    → cascade_cancel more now job rows jobs ≡ cascade_cancel fuel now job rows jobs
cascade_cancel-more fuel zero now job rows jobs w le =
    ap (λ f. cascade_cancel f now job rows jobs) (omega arith)
cascade_cancel-more fuel (suc more) now job rows jobs w le = elim (Bool-cases (leb fuel more)) [
  | inl t ↦
      cascade_cancel-suc more now job rows jobs (λ x n b. let lt = w x n b in ground arith)
      ∙ cascade_cancel-more fuel more now job rows jobs w (ground arith)
  | inr f ↦ ap (λ x. cascade_cancel x now job rows jobs) (ground arith)
]

-- A child is one level further down.
Below-child :
    (tree : List (ℕ × ℕ)) (x c n job : ℕ)
    → Below tree x n job
    → Memᴰ (x, c) tree
    → Below tree c (suc n) job
Below-child tree x c n job here m = under c m here
Below-child tree x c (suc n) job (under d e b) m = under d e (Below-child tree x c n d b m)

abbrev Descends : List Delegation → (job x : ℕ) → Type 0
Descends rows job x = (n : ℕ) × Below (edges rows) x n job

all_child_ids-Descends :
    (rows : List Delegation) (job : ℕ) (ids : List ℕ)
    → All (Descends rows job) ids
    → All (Descends rows job) (all_child_ids ids rows)
all_child_ids-Descends rows job [] h = tt
all_child_ids-Descends rows job (i ∷ ids) ((n, b), h) =
    All-append (Descends rows job) (child_ids i rows) (all_child_ids ids rows)
      (All-of_mem (Descends rows job) (child_ids i rows)
        (λ c m. (suc n, Below-child (edges rows) i c n job b (mem-edges i c rows m))))
      (all_child_ids-Descends rows job ids h)

tree_ids-Descends :
    (rows : List Delegation) (job fuel : ℕ) (ids : List ℕ)
    → All (Descends rows job) ids
    → All (Descends rows job) (tree_ids fuel ids rows)
unfolding tree_ids
tree_ids-Descends rows job zero ids h = tt
tree_ids-Descends rows job (suc fuel) ids h = All-append (Descends rows job) ids _ h (
    tree_ids-Descends rows job fuel (all_child_ids ids rows)
      (all_child_ids-Descends rows job ids h))

jobs_of-All :
    (P : ℕ → Type 0) (ids : List ℕ) (jobs : List Job)
    → All P ids
    → ((x : ℕ) → P x → IsCancelling x jobs)
    → All (λ j. is_being_cancelled j ≡ true) (jobs_of ids jobs)
jobs_of-All P [] jobs h k = tt
jobs_of-All P (i ∷ ids) jobs (p, h) k =
    All-append (λ j. is_being_cancelled j ≡ true) (select (with_id i) jobs) (jobs_of ids jobs)
      (All-mono _ (λ j. is_being_cancelled j ≡ true) (select (with_id i) jobs)
        (λ j (mine, reached). ground arith)
        (All-both (λ j. with_id i j ≡ true) (λ j. not (j.id == i) || is_being_cancelled j ≡ true)
          (select (with_id i) jobs) (All-select_sat (with_id i) jobs)
          (All-select _ (with_id i) jobs (k i p))))
      (jobs_of-All P ids jobs h k)

-- In a tree that spawns and completions built, cancel_job with its cascade marks every job that
-- get_job_tree then reads from the same root as being cancelled, those that were done or failed
-- included, and none of them keeps its error or its result; and get_job_tree reads every row of every job `x`
-- that is below the root, on whatever level. The levels that the model goes down are enough for both: with
-- any more of them the cascade has the same outcome, and the query finds the same ids.
pub cancel_job-get_job_tree :
    (calls : List Call) (engine_jobs : List JobRow) (jobs : List Job) (now root more x n : ℕ)
    → max_delegation_depth ≤ more
    → Below (edges (run calls (engine_jobs, [])).1) x n root
    → let rows = (run calls (engine_jobs, [])).1 in
      let after = cancel_job root true now rows jobs in
      let tree = get_job_tree root rows after in
      All (λ j. is_being_cancelled j ≡ true) tree
      × All (λ j. ((j.id == x) ≡ false) ⊎ Memᴰ j tree) after
      × (cascade_cancel more now root rows (set_cancelling root now jobs) ≡ after)
      × (sort_by (λ j. j.created_at) (jobs_of (tree_ids more (root ∷ []) rows) after) ≡ tree)
unfolding cancel_job get_job_tree
cancel_job-get_job_tree calls engine_jobs jobs now root more x n le below =
    let state = run calls (engine_jobs, []) in
    let rows : List Delegation = state.1 in
    let bounded = run-IsBounded calls (engine_jobs, []) (empty-IsBounded engine_jobs) in
    let within : Within (edges rows) max_delegation_depth root =
      λ x n b. Below-IsBounded state.0 rows x n root bounded b in
    let marked : List Job = set_cancelling root now jobs in
    let after : List Job = cancel_job root true now rows jobs in
    let ids : List ℕ = tree_ids max_delegation_depth (root ∷ []) rows in
    let reached : (x : ℕ) → Descends rows root x → IsCancelling x after = λ x (n, b).
      cascade_cancel-IsCancelling rows x n root max_delegation_depth now marked b
        (let lt = within x n b in omega arith) (set_cancelling-IsCancelling root now jobs) in
    let found : Memᴰ x ids =
      tree_ids-reaches rows x n root max_delegation_depth (root ∷ []) below (Memᴰ.head refl)
        (within x n below) in
    (
      All-sort_by (λ j. j.created_at) (λ j. is_being_cancelled j ≡ true) _
          (jobs_of-All (Descends rows root) ids after
            (tree_ids-Descends rows root max_delegation_depth (root ∷ []) ((0, here), tt)) reached),
      All-of_mem _ after (λ j m. elim (Bool-cases (j.id == x)) [
        | inr f ↦ inl f
        | inl t ↦ inr (
            mem-sort_by (λ j. j.created_at) j (jobs_of ids after)
              (mem-jobs_of x ids after j found m t))
      ]),
      cascade_cancel-more max_delegation_depth more now root rows marked within le,
      ap (λ t. sort_by (λ j. j.created_at) (jobs_of t after))
          (tree_ids-more rows max_delegation_depth more root within le),
    )
