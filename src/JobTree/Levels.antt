-- ===== src/JobTree/Levels.antt =====
-- The levels that get_job_tree's query goes down, and the jobs that it finds.
use local_mind.Base.{
  ℕ, zero, suc, ◌≤◌, ◌<◌, ◌≡◌, refl, ap, ◌∙◌, true, List, [], ◌∷◌, ◌++◌, inl, inr, arith, leb, ◌==◌,
  subst, select, All, All-append, All-of_mem, Memᴰ, mem-select, Bool-cases,
}
use mathlib.Core.List.Memᴰ.{append_left, append_right}
use local_mind.Jobs.{Job, with_id}
use local_mind.Delegation.{Delegation}
use local_mind.Delegation.Subtree.{child_ids}
use local_mind.Delegation.Subtree.Reach.{Below, here, under, edges, mem-child_ids}
use local_mind.Delegation.Subtree.Enough.{Within, Within-child}
use local_mind.JobTree.{all_child_ids, tree_ids, jobs_of}

module _ (rows : List Delegation) where
  all_child_ids-Within :
      (fuel : ℕ) (ids : List ℕ)
      → All (Within (edges rows) (suc fuel)) ids
      → All (Within (edges rows) fuel) (all_child_ids ids rows)
  all_child_ids-Within fuel [] w = tt
  all_child_ids-Within fuel (i ∷ ids) (here_w, w) =
      All-append (Within (edges rows) fuel) (child_ids i rows) (all_child_ids ids rows)
        (All-of_mem (Within (edges rows) fuel) (child_ids i rows)
          (λ c m. Within-child rows fuel i c here_w m))
        (all_child_ids-Within fuel ids w)

  -- One more level than is needed adds nothing.
  tree_ids-suc :
      (fuel : ℕ) (ids : List ℕ)
      → All (Within (edges rows) fuel) ids
      → tree_ids (suc fuel) ids rows ≡ tree_ids fuel ids rows
  unfolding tree_ids
  tree_ids-suc zero [] w = refl
  tree_ids-suc zero (i ∷ ids) (w, _) = absurd (let lt = w i 0 here in omega arith)
  tree_ids-suc (suc fuel) ids w =
      ap (λ t. ids ++ t)
        (tree_ids-suc fuel (all_child_ids ids rows) (all_child_ids-Within fuel ids w))

  pub tree_ids-more :
      (fuel more root : ℕ)
      → Within (edges rows) fuel root
      → fuel ≤ more
      → tree_ids more (root ∷ []) rows ≡ tree_ids fuel (root ∷ []) rows
  tree_ids-more fuel zero root w le = ap (λ f. tree_ids f (root ∷ []) rows) (omega arith)
  tree_ids-more fuel (suc more) root w le = elim (Bool-cases (leb fuel more)) [
    | inl t ↦
        tree_ids-suc more (root ∷ []) ((λ x n b. let lt = w x n b in ground arith), tt)
        ∙ tree_ids-more fuel more root w (ground arith)
    | inr f ↦ ap (λ x. tree_ids x (root ∷ []) rows) (ground arith)
  ]

  mem-all_child_ids :
      (i c : ℕ) (ids : List ℕ)
      → Memᴰ i ids
      → Memᴰ (i, c) (edges rows)
      → Memᴰ c (all_child_ids ids rows)
  mem-all_child_ids i c [] m e = elim m [ ]
  mem-all_child_ids i c (k ∷ ids) (Memᴰ.head same) e =
      append_left (all_child_ids ids rows)
        (subst (λ y. Memᴰ c (child_ids y rows)) same (mem-child_ids i c rows e))
  mem-all_child_ids i c (k ∷ ids) (Memᴰ.tail m) e =
      append_right (child_ids k rows) (mem-all_child_ids i c ids m e)

  -- With a level for it, a job below one of the list is found.
  pub tree_ids-reaches :
      (x n i fuel : ℕ) (ids : List ℕ)
      → Below (edges rows) x n i
      → Memᴰ i ids
      → n < fuel
      → Memᴰ x (tree_ids fuel ids rows)
  unfolding tree_ids
  tree_ids-reaches x n i zero ids b m lt = absurd (omega arith)
  tree_ids-reaches x n i (suc fuel) ids here m lt =
      append_left (tree_ids fuel (all_child_ids ids rows) rows) m
  tree_ids-reaches x (suc n) i (suc fuel) ids (under c e b) m lt = append_right ids (
      tree_ids-reaches x n c fuel (all_child_ids ids rows) b (mem-all_child_ids i c ids m e)
        (omega arith))

pub mem-jobs_of :
    (x : ℕ) (ids : List ℕ) (jobs : List Job) (j : Job)
    → Memᴰ x ids
    → Memᴰ j jobs
    → (j.id == x) ≡ true
    → Memᴰ j (jobs_of ids jobs)
mem-jobs_of x [] jobs j m here_j e = elim m [ ]
mem-jobs_of x (i ∷ ids) jobs j (Memᴰ.head same) here_j e =
    append_left (jobs_of ids jobs)
      (mem-select (with_id i) jobs j here_j (subst (λ y. (j.id == y) ≡ true) same e))
mem-jobs_of x (i ∷ ids) jobs j (Memᴰ.tail m) here_j e =
    append_right (select (with_id i) jobs) (mem-jobs_of x ids jobs j m here_j e)
