-- ===== src/Jobs/Nodes/Progress.antt =====
-- A pipeline that is in order runs to its end.
use local_mind.Base.{
  ℕ, ◌≤◌, ◌<◌, ◌≡◌, refl, sym, ◌∙◌, ap, subst, Bool, true, List, [], ◌∷◌, Option, none, some, inl,
  inr, arith, leb, ◌==◌, select, fetchone-mem, rowcount, update, updated, All, All-mem, All-update,
  All-mono, Memᴰ, sort_by, insert_by, Option-cases, Bool-cases, All-of_mem, length, fetchone-some,
  ==_refl,
}
use local_mind.Jobs.Nodes.{
  Node, completed, is_pending, is_completed, is_eligible, get_nodes, get_next_pending_node,
  update_node, set_opt,
}
use local_mind.Jobs.Nodes.Next.{
  comes_before, IsInOrder, is_settled, get_next_pending_node-progress, only_pending,
}

-- The update that an executor makes when a node is done.
abbrev finish : (output_json : Option ℕ) → (now : ℕ) → Node → Node
finish output now n = record n {
  updated_at = now;
  status = completed;
  input_json = n.input_json;
  output_json = set_opt output n.output_json;
  error = n.error;
}

module _ (p : Node → Bool) (f : Node → Node)
    (same_order : (n : Node) → (f n).sequence ≡ n.sequence) where
  insert_by-update :
      (n : Node) (nodes : List Node)
      → update p f (insert_by (λ m. m.sequence) n nodes)
        ≡ insert_by (λ m. m.sequence) (updated p f n) (update p f nodes)
  insert_by-update n [] = refl
  insert_by-update n (m ∷ nodes) =
      let key_n : (updated p f n).sequence ≡ n.sequence = ground (arith, same_order n) in
      let key_m : (updated p f m).sequence ≡ m.sequence = ground (arith, same_order m) in
      rw (key_n, key_m)
        (elim (Bool-cases (leb n.sequence m.sequence)) [
          | inl t ↦ rw t refl
          | inr e ↦ rw e (ap (λ ns. updated p f m ∷ ns) (insert_by-update n nodes))
        ])

  sort_by-update :
      (nodes : List Node)
      → update p f (sort_by (λ m. m.sequence) nodes) ≡ sort_by (λ m. m.sequence) (update p f nodes)
  sort_by-update [] = refl
  sort_by-update (n ∷ nodes) =
      insert_by-update n (sort_by (λ m. m.sequence) nodes)
      ∙ ap (insert_by (λ m. m.sequence) (updated p f n)) (sort_by-update nodes)

  select-update :
      (q : Node → Bool) (nodes : List Node)
      → ((n : Node) → q (f n) ≡ q n)
      → update p f (select q nodes) ≡ select q (update p f nodes)
  select-update q [] keep = refl
  select-update q (n ∷ nodes) keep =
      let same : q (updated p f n) ≡ q n = ground (arith, keep n) in
      elim (Bool-cases (q n)) [
        | inl t ↦ rw (same, t) (ap (λ ns. updated p f n ∷ ns) (select-update q nodes keep))
        | inr e ↦ rw (same, e) (select-update q nodes keep)
      ]

  -- get_nodes after an update that keeps a node's job and number: the same list, updated.
  pub get_nodes-update :
      (job_id : ℕ) (rows : List Node)
      → ((n : Node) → (f n).job_id ≡ n.job_id)
      → get_nodes job_id (update p f rows) ≡ update p f (get_nodes job_id rows)
  unfolding get_nodes
  get_nodes-update job_id rows same_job =
      ap (sort_by (λ n. n.sequence)) (
        sym
          (select-update (λ n. n.job_id == job_id) rows (λ n. ap (λ x. x == job_id) (same_job n))))
      ∙ sym (sort_by-update (select (λ n. n.job_id == job_id) rows))

-- get_nodes after a node is done: the same list, with that node finished.
get_nodes-update_node :
    (job_id node_id now : ℕ) (output : Option ℕ) (rows : List Node)
    → get_nodes job_id (update_node node_id (some completed) none output none now rows)
      ≡ update (λ n. n.id == node_id) (finish output now) (get_nodes job_id rows)
unfolding update_node
get_nodes-update_node job_id node_id now output rows =
    get_nodes-update (λ n. n.id == node_id) (finish output now) (λ n. refl) job_id rows (λ n. refl)

module _ (node_id now : ℕ) (output : Option ℕ) where
  abbrev finished : List Node → List Node
  finished nodes = update (λ n. n.id == node_id) (finish output now) nodes

  comes_before-finished :
      (nodes : List Node) (m : Node) (dep : ℕ)
      → comes_before (finished nodes) (updated (λ n. n.id == node_id) (finish output now) m) dep
        ≡ comes_before nodes m dep
  comes_before-finished [] m dep = refl
  comes_before-finished (n ∷ nodes) m dep = ground (arith, comes_before-finished nodes m dep)

  depends_on-finished :
      (n : Node) → n.depends_on ≡ (updated (λ x. x.id == node_id) (finish output now) n).depends_on
  depends_on-finished n = elim (Bool-cases (n.id == node_id)) [
    | inl t ↦ rw t refl
    | inr e ↦ rw e refl
  ]

  finished-IsInOrder : (nodes : List Node) → IsInOrder nodes → IsInOrder (finished nodes)
  finished-IsInOrder nodes h =
      All-update (λ n. n.id == node_id) (finish output now)
        (λ n. All (λ dep. comes_before nodes n dep ≡ true) n.depends_on)
        (λ n. All (λ dep. comes_before (finished nodes) n dep ≡ true) n.depends_on) nodes
        (λ n k.
          subst
            (All (λ dep.
              comes_before (finished nodes) (updated (λ x. x.id == node_id) (finish output now) n)
                dep
              ≡ true))
            (depends_on-finished n)
            (All-mono _ _ n.depends_on (λ dep e. comes_before-finished nodes n dep ∙ e) k))
        h

  finished-settled :
      (nodes : List Node)
      → All (λ n. is_settled n ≡ true) nodes
      → All (λ n. is_settled n ≡ true) (finished nodes)
  finished-settled nodes h =
      All-update (λ n. n.id == node_id) (finish output now) (λ n. is_settled n ≡ true)
        (λ n. is_settled n ≡ true) nodes (λ n k. ground (arith, k)) h

  finished-pending_le :
      (nodes : List Node)
      → rowcount (λ n. is_pending n.status) (finished nodes)
        ≤ rowcount (λ n. is_pending n.status) nodes
  finished-pending_le [] = omega arith
  finished-pending_le (n ∷ nodes) = ground (arith, finished-pending_le nodes)

  finished-pending_lt :
      (nodes : List Node) (n : Node)
      → Memᴰ n nodes
      → (n.id == node_id) ≡ true
      → is_pending n.status ≡ true
      → rowcount (λ m. is_pending m.status) (finished nodes)
        < rowcount (λ m. is_pending m.status) nodes
  finished-pending_lt [] n m i e = elim m [ ]
  finished-pending_lt (x ∷ nodes) n (Memᴰ.head s) i e =
      let here : (x.id == node_id) ≡ true = ap (λ y. y.id == node_id) (sym s) ∙ i in
      let ready : is_pending x.status ≡ true = ap (λ y. is_pending y.status) (sym s) ∙ e in
      ground (arith, finished-pending_le nodes)
  finished-pending_lt (x ∷ nodes) n (Memᴰ.tail m) i e =
      ground (arith, finished-pending_lt nodes n m i e)

-- The turns of an executor that finishes one node after the other, each with its output and the
-- clock's reading.
unfoldable pub run_nodes : (job_id : ℕ) → (turns : List (Option ℕ × ℕ)) → List Node → List Node
run_nodes job_id [] rows = rows
run_nodes job_id ((output, now) ∷ turns) rows = elim (get_next_pending_node job_id rows) [
  | none ↦ rows
  | some n ↦ run_nodes job_id turns (update_node n.id (some completed) none output none now rows)
]

abbrev pub pending_nodes : List Node → ℕ
pending_nodes nodes = rowcount (λ n. is_pending n.status) nodes

none_pending-completed :
    (nodes : List Node)
    → All (λ n. is_settled n ≡ true) nodes
    → pending_nodes nodes ≤ 0
    → All (λ n. is_completed n.status ≡ true) nodes
none_pending-completed [] h le = tt
none_pending-completed (n ∷ nodes) h le = elim (Bool-cases (is_pending n.status)) [
  | inl t ↦ absurd (ground arith)
  | inr e ↦ (ground (arith, h.0), none_pending-completed nodes h.1 (ground arith))
]

-- When no node is chosen, all are completed.
stopped-completed :
    (job_id : ℕ) (rows : List Node)
    → IsInOrder (get_nodes job_id rows)
    → All (λ n. is_settled n ≡ true) (get_nodes job_id rows)
    → get_next_pending_node job_id rows ≡ none
    → All (λ n. is_completed n.status ≡ true) (get_nodes job_id rows)
stopped-completed job_id rows order settled h = All-of_mem _ (get_nodes job_id rows) (λ n m.
    elim (Bool-cases (is_pending n.status)) [
      | inl t ↦
          let some_next =
            get_next_pending_node-progress job_id rows n order settled m
              (only_pending n.status t) in
          absurd (ground (arith, h))
      | inr e ↦ ground (arith, All-mem _ (get_nodes job_id rows) settled n m)
    ])

pub chosen-pending :
    (job_id : ℕ) (rows : List Node) (n : Node)
    → get_next_pending_node job_id rows ≡ some n
    → Memᴰ n (get_nodes job_id rows) × (is_pending n.status ≡ true)
unfolding get_next_pending_node
chosen-pending job_id rows n h =
    let nodes = get_nodes job_id rows in
    let fits = fetchone-some (is_eligible nodes) nodes n h in
    (fetchone-mem (is_eligible nodes) nodes n h, ground arith)

-- Where every dependency is on an earlier node of the job, and every node is pending or completed, an
-- executor that finishes the node that get_next_pending_node chooses, over and over, completes all
-- nodes of the job, in at most as many turns as nodes were pending.
pub run_nodes-completes :
    (job_id : ℕ) (turns : List (Option ℕ × ℕ)) (rows : List Node)
    → IsInOrder (get_nodes job_id rows)
    → All (λ n. is_settled n ≡ true) (get_nodes job_id rows)
    → pending_nodes (get_nodes job_id rows) ≤ length turns
    → All (λ n. is_completed n.status ≡ true) (get_nodes job_id (run_nodes job_id turns rows))
unfolding run_nodes
run_nodes-completes job_id [] rows order settled le = none_pending-completed _ settled le
run_nodes-completes job_id ((output, now) ∷ turns) rows order settled le =
    elim (Option-cases (get_next_pending_node job_id rows)) [
      | inl h ↦ rw (h, run_nodes) (stopped-completed job_id rows order settled h)
      | inr (n, h) ↦
          let nodes = get_nodes job_id rows in
          let same = get_nodes-update_node job_id n.id now output rows in
          let (m, ready) = chosen-pending job_id rows n h in
          let fewer = finished-pending_lt n.id now output nodes n m (==_refl n.id) ready in
          let rest =
            run_nodes-completes job_id turns
              (update_node n.id (some completed) none output none now rows)
              (subst IsInOrder (sym same) (finished-IsInOrder n.id now output nodes order))
              (subst (All (λ x. is_settled x ≡ true)) (sym same)
                (finished-settled n.id now output nodes settled))
              (subst (λ ns. pending_nodes ns ≤ length turns) (sym same) (omega arith)) in
          rw (h, run_nodes) rest
    ]
