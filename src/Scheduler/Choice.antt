-- ===== src/Scheduler/Choice.antt =====
-- Which node the scheduler chooses, and that it does not leave a waiting node behind.
use local_mind.Base.{ℕ, ◌≡◌, ◌⊎◌, true, false, List, [], ◌∷◌, Option, none, some, All, Memᴰ}
use local_mind.GpuManager.{GpuManager, can_fit}
use local_mind.Scheduler.{Candidate, Scored, Surroundings, Scheduler}
use local_mind.Scheduler.Scores.{is_starving, comes_before}
use local_mind.Scheduler.Decisions.{Decision, decision, advance_workspace_cursor}

-- No element comes before it: it has the highest score, and is the oldest of those that have it.
abbrev pub IsFirst : Scored → List Scored → Type 0
IsFirst w xs = Memᴰ w xs × All (λ x. comes_before x w ≡ false) xs

-- The head of a list, if there is one, is the first of another.
abbrev Heads : List Scored → List Scored → Type 0
Heads [] xs = xs ≡ []
Heads (w ∷ ws) xs = IsFirst w xs

-- The decision on scored candidates: the first one, unless its model does not fit and it is not starving;
-- then, and where there is no candidate, nothing changes.
abbrev pub Decides :
    Surroundings
    → GpuManager
    → List Candidate
    → List Scored
    → Scheduler
    → Option Decision × Scheduler
    → Type 0
Decides env gpu candidates scored s (result, s') =
    ((result ≡ none)
      × (s' ≡ s)
      × ((scored ≡ [])
          ⊎ ((w : Scored) × IsFirst w scored
              × (can_fit gpu (decision env w).vram_mb ≡ false)
              × (w.starving ≡ false))))
    ⊎ ((w : Scored) × IsFirst w scored
        × (result ≡ some (decision env w))
        × ((can_fit gpu (decision env w).vram_mb ≡ true) ⊎ (w.starving ≡ true))
        × (s' ≡ advance_workspace_cursor w.candidate.workspace_id candidates s))

-- What is decided where a node waits too long: one of those that do.
abbrev pub ServesStarving : (now : ℕ) → List Candidate → Option Decision → Type 0
ServesStarving now candidates result =
    (d : Decision) × (c : Candidate) × (result ≡ some d)
    × (d.node_id ≡ c.node_id)
    × Memᴰ c candidates
    × (is_starving now c ≡ true)
