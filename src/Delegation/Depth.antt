-- ===== src/Delegation/Depth.antt =====
-- The walk up the tree: it always ends, and counts the steps to a job without parent.
use local_mind.Base.{
  ℕ, zero, suc, ◌+◌, ◌≤◌, ◌<◌, ◌≡◌, ◌⊎◌, refl, sym, ◌∙◌, ap, subst, true, false, not, List, [], ◌∷◌,
  Option, none, some, inl, inr, arith, ◌==◌, is_none, length, fetchone, rowcount, All, All-mono,
  Option-cases, Bool-cases,
}
use mathlib.Core.Option.{some-injective}
use local_mind.Delegation.{
  Delegation, is_child, visited_before, walk, walk_up, get_depth, get_tree_root,
}

-- The rows whose child was not visited yet.
abbrev unvisited : List ℕ → List Delegation → ℕ
unvisited visited rows = rowcount (λ r. not (visited_before r.child_job_id visited)) rows

unvisited_le :
    (current : ℕ) (visited : List ℕ) (rows : List Delegation)
    → unvisited (current ∷ visited) rows ≤ unvisited visited rows
unvisited_le current visited [] = omega arith
unvisited_le current visited (r ∷ rows) = ground (arith, unvisited_le current visited rows)

unvisited_lt :
    (current : ℕ) (visited : List ℕ) (rows : List Delegation) (r : Delegation)
    → visited_before current visited ≡ false
    → fetchone (is_child current) rows ≡ some r
    → unvisited (current ∷ visited) rows < unvisited visited rows
unvisited_lt current visited [] r v h = cc
unvisited_lt current visited (x ∷ rows) r v h = elim (Bool-cases (is_child current x)) [
  | inl t ↦
      let same : x.child_job_id ≡ current = ground arith in
      let fresh : visited_before x.child_job_id visited ≡ false =
        ap (λ c. visited_before c visited) same ∙ v in
      ground (arith, unvisited_le current visited rows)
  | inr f ↦ ground (arith, unvisited_lt current visited rows r v)
]

unvisited-length : (rows : List Delegation) → unvisited [] rows ≡ length rows
unvisited-length [] = refl
unvisited-length (r ∷ rows) = ground (arith, unvisited-length rows)

walk-some :
    (fuel : ℕ) (visited : List ℕ) (current depth : ℕ) (rows : List Delegation)
    → unvisited visited rows < fuel
    → is_none (walk fuel visited current depth rows) ≡ false
unfolding walk
walk-some zero visited current depth rows lt = absurd (omega arith)
walk-some (suc fuel) visited current depth rows lt =
    elim (Bool-cases (visited_before current visited)) [
      | inl t ↦ rw t refl
      | inr f ↦ rw f (elim (Option-cases (fetchone (is_child current) rows)) [
        | inl n ↦ rw n refl
        | inr (r, e) ↦
            let fewer = unvisited_lt current visited rows r f e in
            rw e (walk-some fuel (current ∷ visited) r.parent_job_id (depth + 1) rows (omega arith))
      ])
    ]

-- `job` is `d` steps below a job without parent.
pub data Climbs (rows : List Delegation) : ℕ → ℕ → Type 0 where
  root : {job : ℕ} → fetchone (is_child job) rows ≡ none → Climbs rows job 0
  up :
      {job d : ℕ} (r : Delegation)
      → fetchone (is_child job) rows ≡ some r
      → Climbs rows r.parent_job_id d
      → Climbs rows job (suc d)

pub Climbs-unique :
    (rows : List Delegation) {job : ℕ} {d e : ℕ} → Climbs rows job d → Climbs rows job e → d ≡ e
Climbs-unique rows (root n) (root m) = refl
Climbs-unique rows (root n) (up r h c) = cc
Climbs-unique rows (up r h c) (root m) = cc
Climbs-unique rows {job = job} {e = suc e'} (up r h c) (up s k b) =
    let same : s ≡ r = some-injective _ _ (sym k ∙ h) in
    ap suc (Climbs-unique rows c (subst (λ x. Climbs rows x.parent_job_id e') same b))

module _ (rows : List Delegation) where
  -- `v` is more than `d` steps below its root.
  abbrev Deeper : ℕ → ℕ → Type 0
  Deeper d v = (e : ℕ) × Climbs rows v e × (d < e)

  visited-Deeper :
      (d job : ℕ) (visited : List ℕ)
      → All (Deeper d) visited
      → visited_before job visited ≡ true
      → Deeper d job
  visited-Deeper d job [] h v = cc
  visited-Deeper d job (w ∷ visited) h v = elim (Bool-cases (w == job)) [
    | inl t ↦ subst (Deeper d) (ground arith) h.0
    | inr f ↦ visited-Deeper d job visited h.1 (ground arith)
  ]

  not_visited :
      (d job : ℕ) (visited : List ℕ)
      → Climbs rows job d
      → All (Deeper d) visited
      → visited_before job visited ≡ false
  not_visited d job visited c h = elim (Bool-cases (visited_before job visited)) [
    | inr f ↦ f
    | inl t ↦
        let (e, b, lt) = visited-Deeper d job visited h t in
        absurd (omega (arith, Climbs-unique rows c b))
  ]

  -- The outcome of a walk from a job that is `d` steps below its root, unless the fuel runs out.
  abbrev Arrives : (depth : ℕ) → Option (ℕ × ℕ) → Type 0
  Arrives depth o =
      (o ≡ none) ⊎ ((top : ℕ) × (o ≡ some (top, depth)) × (fetchone (is_child top) rows ≡ none))

  Climbs-walk :
      (d job : ℕ)
      → Climbs rows job d
      → (fuel k : ℕ) (visited : List ℕ) → All (Deeper d) visited
      → Arrives (k + d) (walk fuel visited job k rows)
  unfolding walk
  Climbs-walk d job c zero k visited h = inl refl
  Climbs-walk d job (root n) (suc fuel) k visited h =
      let fresh = not_visited 0 job visited (root n) h in
      rw fresh (rw n (inr (job, ap (λ x. some (job, x)) (omega arith), n)))
  Climbs-walk (suc d) job (up r e c) (suc fuel) k visited h =
      let fresh = not_visited (suc d) job visited (up r e c) h in
      let later = Climbs-walk d r.parent_job_id c fuel (k + 1) (job ∷ visited) (
        (suc d, up r e c, omega arith),
        All-mono _ _ visited (λ v (x, b, lt). (x, b, omega arith)) h,
      ) in
      let count : k + 1 + d ≡ k + suc d = omega arith in
      rw fresh (
        rw e (
          subst (λ x. Arrives x (walk fuel (job ∷ visited) r.parent_job_id (k + 1) rows)) count
            later))

-- Whatever rows the table holds, cycles included, both walks end: a step for each row and one more are
-- enough.
pub walks_end :
    (job_id : ℕ) (rows : List Delegation)
    → (is_none (get_depth job_id rows) ≡ false) × (is_none (get_tree_root job_id rows) ≡ false)
unfolding get_depth get_tree_root walk_up
walks_end job_id rows =
    let ends =
      walk-some (length rows + 1) [] job_id 0 rows (omega (arith, unvisited-length rows)) in
    elim (Option-cases (walk (length rows + 1) [] job_id 0 rows)) [
      | inl n ↦ absurd (ground arith)
      | inr (r, e) ↦ rw (e, get_depth, get_tree_root) (refl, refl)
    ]

-- For a job that is `d` steps below a job without parent, get_depth is `d`, and get_tree_root is a job
-- without parent.
pub get_depth-Climbs :
    (rows : List Delegation) (job_id d : ℕ)
    → Climbs rows job_id d
    → (get_depth job_id rows ≡ some d)
      × ((top : ℕ) × (get_tree_root job_id rows ≡ some top) × (fetchone (is_child top) rows ≡ none))
unfolding get_depth get_tree_root walk_up
get_depth-Climbs rows job_id d c =
    let ends =
      walk-some (length rows + 1) [] job_id 0 rows (omega (arith, unvisited-length rows)) in
    elim (Climbs-walk rows d job_id c (length rows + 1) 0 [] tt) [
      | inl n ↦ absurd (ground arith)
      | inr (top, e, n) ↦
          let count : 0 + d ≡ d = omega arith in
          rw (e, get_depth, get_tree_root) (ap some count, (top, refl, n))
    ]
