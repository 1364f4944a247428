-- ===== src/Jobs/Nodes/Next.antt =====
-- The choice of the next node: sound, complete, and never stuck on a pipeline that is in order.
use local_mind.Base.{
  ℕ, zero, suc, ◌≤◌, ◌≡◌, refl, Bool, true, false, ◌&&◌, ◌||◌, List, [], ◌∷◌, none, some, inl, inr,
  arith, ltb, ◌==◌, is_none, select, fetchone, fetchone-mem, fetchone-some, fetchone-none-All,
  select-none, All, All-mem, All-of_mem, Pairwise, Memᴰ, sort_by-IsOrdered, All-sort_by,
  All-select_sat, Option-cases, Bool-cases, subst, All-select, ◌⊎◌, exists, exists_of_mem,
}
use local_mind.Jobs.Nodes.{
  Node, NodeStatus, pending, is_pending, is_completed, dep_completed, all_completed, is_eligible,
  get_nodes, get_next_pending_node,
}

get_nodes-job :
    (job_id : ℕ) (rows : List Node) → All (λ n. n.job_id == job_id ≡ true) (get_nodes job_id rows)
unfolding get_nodes
get_nodes-job job_id rows =
    All-sort_by (λ n. n.sequence) _ _ (All-select_sat (λ n. n.job_id == job_id) rows)

get_nodes-ordered :
    (job_id : ℕ) (rows : List Node)
    → Pairwise (λ a b. a.sequence ≤ b.sequence) (get_nodes job_id rows)
unfolding get_nodes
get_nodes-ordered job_id rows =
    sort_by-IsOrdered {A = Node} (λ n. n.sequence) (select (λ n. n.job_id == job_id) rows)

-- In an ordered list the first row that fits comes before all others that fit.
fetchone-least :
    (p : Node → Bool) (rows : List Node) (n : Node)
    → Pairwise (λ a b. a.sequence ≤ b.sequence) rows
    → fetchone p rows ≡ some n
    → All (λ m. n.sequence ≤ m.sequence) (select p rows)
fetchone-least p [] n o h = tt
fetchone-least p (r ∷ rows) n o h = elim (Bool-cases (p r)) [
  | inl t ↦
      let same : r ≡ n = ground arith in
      rw t (
        subst (λ x. All (λ m. x.sequence ≤ m.sequence) (r ∷ select p rows)) same
          (omega arith, All-select _ p rows o.0))
  | inr f ↦ rw f (fetchone-least p rows n o.1 (ground arith))
]

pub only_pending : (s : NodeStatus) → is_pending s ≡ true → s ≡ pending
only_pending s e = ground arith

dep_completed-exists :
    (nodes : List Node) (dep : ℕ)
    → dep_completed nodes dep ≡ true
    → exists (λ r. r.id == dep && is_completed r.status) nodes ≡ true
dep_completed-exists nodes dep h = elim (Option-cases (fetchone (λ r. r.id == dep) nodes)) [
  | inl n ↦ absurd (ground arith)
  | inr (r, e) ↦
      let fits = fetchone-some (λ r. r.id == dep) nodes r e in
      exists_of_mem (λ r. r.id == dep && is_completed r.status) nodes r
        (fetchone-mem (λ r. r.id == dep) nodes r e) (ground arith)
]

all_completed-All :
    (nodes : List Node) (deps : List ℕ)
    → all_completed nodes deps ≡ true
    → All (λ dep. exists (λ r. r.id == dep && is_completed r.status) nodes ≡ true) deps
all_completed-All nodes [] h = tt
all_completed-All nodes (dep ∷ deps) h =
    (dep_completed-exists nodes dep (ground arith), all_completed-All nodes deps (ground arith))

-- The node that is chosen is a pending node of the job whose dependencies are all completed nodes of
-- the job, and no other such node comes before it. None is chosen only if there is no such node.
pub get_next_pending_node-exact :
    (job_id : ℕ) (rows : List Node)
    → let nodes = get_nodes job_id rows in
      (get_next_pending_node job_id rows ≡ none) × (select (is_eligible nodes) nodes ≡ [])
      ⊎ ((n : Node) × (get_next_pending_node job_id rows ≡ some n)
          × (n.job_id == job_id ≡ true)
          × (n.status ≡ pending)
          × All
              (λ dep. exists (λ r. r.id == dep && is_completed r.status) nodes ≡ true)
              n.depends_on
          × All (λ m. n.sequence ≤ m.sequence) (select (is_eligible nodes) nodes))
unfolding get_next_pending_node
get_next_pending_node-exact job_id rows =
    let nodes = get_nodes job_id rows in
    elim (Option-cases (fetchone (is_eligible nodes) nodes)) [
      | inl h ↦
          inl (
            h,
            select-none (is_eligible nodes) nodes (fetchone-none-All (is_eligible nodes) nodes h),
          )
      | inr (n, h) ↦ inr (
        n,
        h,
        All-mem _ nodes (get_nodes-job job_id rows) n (fetchone-mem (is_eligible nodes) nodes n h),
        only_pending n.status (ground (arith, fetchone-some (is_eligible nodes) nodes n h)),
        all_completed-All nodes n.depends_on
            (ground (arith, fetchone-some (is_eligible nodes) nodes n h)),
        fetchone-least (is_eligible nodes) nodes n (get_nodes-ordered job_id rows) h,
      )
    ]

-- A dependency of `n` that the job has, on a node that comes before `n`.
abbrev pub comes_before : List Node → Node → ℕ → Bool
comes_before nodes n dep_id = elim (fetchone (λ r. r.id == dep_id) nodes) [
  | none ↦ false
  | some r ↦ ltb r.sequence n.sequence
]

-- Every dependency of every node is on a node that comes before it.
abbrev pub IsInOrder : List Node → Type 0
IsInOrder nodes = All (λ n. All (λ dep. comes_before nodes n dep ≡ true) n.depends_on) nodes

abbrev pub is_settled : Node → Bool
is_settled n = is_pending n.status || is_completed n.status

module _ (nodes : List Node) (settled : All (λ n. is_settled n ≡ true) nodes) (k : ℕ)
    (early : All (λ n. ltb n.sequence k && is_pending n.status ≡ false) nodes) where
  -- When no node before number `k` is pending, the dependencies of a node of number `k` are completed.
  dep-completed :
      (n : Node) (dep : ℕ)
      → n.sequence ≤ k
      → comes_before nodes n dep ≡ true
      → dep_completed nodes dep ≡ true
  dep-completed n dep le b = elim (Option-cases (fetchone (λ r. r.id == dep) nodes)) [
    | inl h ↦ absurd (ground arith)
    | inr (r, h) ↦
        let here = fetchone-mem (λ r. r.id == dep) nodes r h in
        let done = All-mem _ nodes settled r here in
        let not_early = All-mem _ nodes early r here in ground arith
  ]

  deps-completed :
      (n : Node) (deps : List ℕ)
      → n.sequence ≤ k
      → All (λ dep. comes_before nodes n dep ≡ true) deps
      → all_completed nodes deps ≡ true
  deps-completed n [] le h = refl
  deps-completed n (dep ∷ deps) le h =
      ground (arith, dep-completed n dep le h.0, deps-completed n deps le h.1)

module _ (nodes : List Node) (settled : All (λ n. is_settled n ≡ true) nodes)
    (order : IsInOrder nodes) (stuck : All (λ n. is_eligible nodes n ≡ false) nodes) where
  -- If no node is eligible, then no node is pending, by induction on its number.
  none_pending : (k : ℕ) → All (λ n. ltb n.sequence k && is_pending n.status ≡ false) nodes
  none_pending zero = All-of_mem _ nodes (λ n m. ground arith)
  none_pending (suc k) =
      let early = none_pending k in
      All-of_mem _ nodes (λ n m.
        let now = All-mem _ nodes early n m in
        let no = All-mem _ nodes stuck n m in
        elim (Bool-cases (ltb n.sequence (suc k))) [
          | inl t ↦
              let ready =
                deps-completed nodes settled k early n n.depends_on (ground arith)
                  (All-mem _ nodes order n m) in
              ground arith
          | inr f ↦ ground arith
        ])

-- Progress: where every dependency is on an earlier node of the job, and every node is pending or
-- completed, a job with a pending node always has a next node.
pub get_next_pending_node-progress :
    (job_id : ℕ) (rows : List Node) (n : Node)
    → IsInOrder (get_nodes job_id rows)
    → All (λ m. is_settled m ≡ true) (get_nodes job_id rows)
    → Memᴰ n (get_nodes job_id rows)
    → n.status ≡ pending
    → is_none (get_next_pending_node job_id rows) ≡ false
unfolding get_next_pending_node
get_next_pending_node-progress job_id rows n order settled m p =
    let nodes = get_nodes job_id rows in
    elim (Option-cases (fetchone (is_eligible nodes) nodes)) [
      | inl h ↦
          let idle =
            All-mem _ nodes
              (none_pending nodes settled order (fetchone-none-All (is_eligible nodes) nodes h)
                (suc n.sequence))
              n m in
          let is : is_pending n.status ≡ true = rw p refl in absurd (ground arith)
      | inr (r, h) ↦ rw h refl
    ]
