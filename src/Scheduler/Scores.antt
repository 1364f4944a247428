-- ===== src/Scheduler/Scores.antt =====
-- The scores of the candidates: _score_candidates of backend/core/scheduler.py, and the sort of
-- schedule_next by them.
use local_mind.Base.{
  ℕ, ◌+◌, ◌%◌, Bool, false, ◌&&◌, ◌||◌, List, [], ◌∷◌, map, Option, none, some, ltb, ◌==◌,
  if◌then◌else◌, length, get_elem?, exists, Text, eq_text, before_colon,
}
use local_mind.GpuManager.{GpuManager}
use local_mind.Scheduler.{
  Candidate, Scored, Surroundings, Scheduler, max_gpu_wait, review_priority_boost, is_review_node,
  from_keys, pick_model_for_node,
}

-- The workspace whose turn it is.
unfoldable pub next_ws : Surroundings → Scheduler → List Candidate → Option ℕ
next_ws env s candidates =
    let workspace_ids = env.set_order (from_keys (map (λ c. c.workspace_id) candidates)) in
    get_elem? workspace_ids (s.last_workspace_idx % length workspace_ids)

abbrev pub is_next : Option ℕ → ℕ → Bool
is_next none workspace_id = false
is_next (some w) workspace_id = workspace_id == w

-- `age_sec > MAX_GPU_WAIT_SEC`
abbrev pub is_starving : (now : ℕ) → Candidate → Bool
is_starving now c = ltb (c.created_at + max_gpu_wait) now

abbrev pub loaded_base : GpuManager → Text → Bool
loaded_base gpu model_id =
    exists (λ (key, slot). eq_text (before_colon key) (before_colon model_id)) gpu.loaded_models

-- The body of the loop of _score_candidates.
unfoldable pub score_candidate :
    Surroundings → (now : ℕ) → GpuManager → (turn : Option ℕ) → Candidate → Scored
score_candidate env now gpu turn c = record {
  candidate = c;
  model_id = pick_model_for_node env c;
  starving = is_starving now c;
  score =
      c.priority
      + (if is_review_node env.lower c.title then review_priority_boost else 0)
      + (if loaded_base gpu (pick_model_for_node env c) then 30 else 0)
      + (if is_next turn c.workspace_id then 20 else 0)
      + (if is_starving now c then 1000 else 0);
}

unfoldable pub score_candidates :
    Surroundings → (now : ℕ) → GpuManager → Scheduler → List Candidate → List Scored
score_candidates env now gpu s candidates =
    map (score_candidate env now gpu (next_ws env s candidates)) candidates

-- The order of the key (-score, created_at).
abbrev pub comes_before : Scored → Scored → Bool
comes_before a b =
    ltb b.score a.score || (a.score == b.score && ltb a.candidate.created_at b.candidate.created_at)

-- The stable sort by it.
abbrev pub insert_scored : Scored → List Scored → List Scored
insert_scored x [] = x ∷ []
insert_scored x (y ∷ ys) =
    let later = y ∷ insert_scored x ys in if comes_before y x then later else x ∷ y ∷ ys

abbrev pub sort_scored : List Scored → List Scored
sort_scored [] = []
sort_scored (x ∷ xs) = insert_scored x (sort_scored xs)
