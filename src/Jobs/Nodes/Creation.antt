-- ===== src/Jobs/Nodes/Creation.antt =====
-- What `create_nodes` writes, and that `get_nodes` reads it back.
use local_mind.Base.{
  ℕ, ◌+◌, ◌≤◌, ◌≡◌, refl, sym, ◌∙◌, ap, subst, Bool, true, false, List, [], ◌∷◌, ◌++◌, Option, none,
  some, inl, inr, arith, ◌==◌, select, select-append, select-All, select-none, insert, exists, All,
  ◌⊎◌, Pairwise, sort_by, sort_by-ordered, Option-cases, Bool-cases,
}
use mathlib.Core.Option.{some-injective}
use mathlib.Core.List.{append_assoc, append-nil}
use local_mind.Jobs.Nodes.{
  Node, NodeDef, pending, title_to_id, new_node, insert_nodes, create_nodes, get_nodes,
  resolved_deps,
}

-- The rows that stand for the definitions: pending nodes of the job under the given ids, numbered
-- from `seq` on, with the dependencies resolved.
abbrev pub Stands :
    (dep_to_id : ℕ → Option ℕ) → (job_id seq : ℕ) → List ℕ → List NodeDef → List Node → Type 0
Stands dep_to_id job_id seq [] nodes created = created ≡ []
Stands dep_to_id job_id seq (nid ∷ ids) [] created = created ≡ []
Stands dep_to_id job_id seq (nid ∷ ids) (d ∷ nodes) [] = ⊥
Stands dep_to_id job_id seq (nid ∷ ids) (d ∷ nodes) (n ∷ created) =
    (n.id ≡ nid)
    × (n.job_id ≡ job_id)
    × (n.sequence ≡ seq)
    × (n.status ≡ pending)
    × (n.depends_on ≡ resolved_deps dep_to_id d.depends_on)
    × Stands dep_to_id job_id (seq + 1) ids nodes created

module _ (dep_to_id : ℕ → Option ℕ) (job_id now : ℕ) where
  -- The loop's outcome: the rows created stand for the definitions, and come last in the table.
  abbrev Inserted : (seq : ℕ) → List ℕ → List NodeDef → List Node → List Node × List Node → Type 0
  Inserted seq ids nodes rows r = Stands dep_to_id job_id seq ids nodes r.0 × (r.1 ≡ rows ++ r.0)

  insert_nodes-Inserted :
      (seq : ℕ) (ids : List ℕ) (nodes : List NodeDef) (rows : List Node) (r : List Node × List Node)
      → insert_nodes dep_to_id job_id seq now ids nodes rows ≡ some r
      → Inserted seq ids nodes rows r
  unfolding insert_nodes new_node
  insert_nodes-Inserted seq [] nodes rows r h =
      subst (Inserted seq [] nodes rows) (some-injective _ _ h) (refl, sym (append-nil rows))
  insert_nodes-Inserted seq (nid ∷ ids) [] rows r h =
      subst (Inserted seq (nid ∷ ids) [] rows) (some-injective _ _ h) (refl, sym (append-nil rows))
  insert_nodes-Inserted seq (nid ∷ ids) (d ∷ nodes) rows r h =
      let row = new_node dep_to_id job_id seq nid now d in
      elim (Bool-cases (exists (λ x. x.id == nid) rows)) [
        | inl t ↦ absurd (ground arith)
        | inr f ↦
            elim (Option-cases
              (insert_nodes dep_to_id job_id (seq + 1) now ids nodes (insert row rows))) [
                | inl n ↦ absurd (ground arith)
                | inr (q, e) ↦
                    let (stands, last) =
                      insert_nodes-Inserted (seq + 1) ids nodes (insert row rows) q e in
                    let same : (row ∷ q.0, q.1) ≡ r = ground arith in
                    subst (Inserted seq (nid ∷ ids) (d ∷ nodes) rows) same (
                      (refl, refl, refl, refl, refl, stands),
                      last ∙ append_assoc rows (row ∷ []) q.0,
                    )
              ]
      ]

module _ (dep_to_id : ℕ → Option ℕ) (job_id : ℕ) where
  Stands-later :
      (seq low : ℕ) (ids : List ℕ) (nodes : List NodeDef) (created : List Node)
      → low ≤ seq
      → Stands dep_to_id job_id seq ids nodes created
      → All (λ n. low ≤ n.sequence) created
  Stands-later seq low [] nodes [] le h = tt
  Stands-later seq low [] nodes (n ∷ created) le h = cc
  Stands-later seq low (i ∷ ids) [] [] le h = tt
  Stands-later seq low (i ∷ ids) [] (n ∷ created) le h = cc
  Stands-later seq low (i ∷ ids) (d ∷ nodes) [] le h = absurd h
  Stands-later seq low (i ∷ ids) (d ∷ nodes) (n ∷ created) le (_, _, e, _, _, rest) =
      (omega arith, Stands-later (seq + 1) low ids nodes created (omega arith) rest)

  Stands-ordered :
      (seq : ℕ) (ids : List ℕ) (nodes : List NodeDef) (created : List Node)
      → Stands dep_to_id job_id seq ids nodes created
      → Pairwise (λ a b. a.sequence ≤ b.sequence) created
  Stands-ordered seq [] nodes [] h = tt
  Stands-ordered seq [] nodes (n ∷ created) h = cc
  Stands-ordered seq (i ∷ ids) [] [] h = tt
  Stands-ordered seq (i ∷ ids) [] (n ∷ created) h = cc
  Stands-ordered seq (i ∷ ids) (d ∷ nodes) [] h = absurd h
  Stands-ordered seq (i ∷ ids) (d ∷ nodes) (n ∷ created) (_, _, e, _, _, rest) = (
    Stands-later (seq + 1) n.sequence ids nodes created (omega arith) rest,
    Stands-ordered (seq + 1) ids nodes created rest,
  )

  Stands-job :
      (seq : ℕ) (ids : List ℕ) (nodes : List NodeDef) (created : List Node)
      → Stands dep_to_id job_id seq ids nodes created
      → All (λ n. n.job_id == job_id ≡ true) created
  Stands-job seq [] nodes [] h = tt
  Stands-job seq [] nodes (n ∷ created) h = cc
  Stands-job seq (i ∷ ids) [] [] h = tt
  Stands-job seq (i ∷ ids) [] (n ∷ created) h = cc
  Stands-job seq (i ∷ ids) (d ∷ nodes) [] h = absurd h
  Stands-job seq (i ∷ ids) (d ∷ nodes) (n ∷ created) (_, e, _, _, _, rest) =
      (ground arith, Stands-job (seq + 1) ids nodes created rest)

get_nodes-append :
    (job_id : ℕ) (rows created : List Node)
    → All (λ n. n.job_id == job_id ≡ false) rows
    → All (λ n. n.job_id == job_id ≡ true) created
    → Pairwise (λ a b. a.sequence ≤ b.sequence) created
    → get_nodes job_id (rows ++ created) ≡ created
unfolding get_nodes
get_nodes-append job_id rows created others ours order =
    ap (sort_by (λ n. n.sequence)) (
      select-append (λ n. n.job_id == job_id) rows created
      ∙ (ap (λ xs. xs ++ select (λ n. n.job_id == job_id) created)
            (select-none (λ n. n.job_id == job_id) rows others)
          ∙ select-All (λ n. n.job_id == job_id) created ours))
    ∙ sort_by-ordered (λ n. n.sequence) created order

created_nodes-get_nodes :
    (dep_to_id : ℕ → Option ℕ) (job_id now : ℕ) (ids : List ℕ) (nodes : List NodeDef)
    (rows : List Node) (r : List Node × List Node)
    → All (λ n. n.job_id == job_id ≡ false) rows
    → insert_nodes dep_to_id job_id 1 now ids nodes rows ≡ some r
    → Stands dep_to_id job_id 1 ids nodes r.0 × (get_nodes job_id r.1 ≡ r.0)
created_nodes-get_nodes dep_to_id job_id now ids nodes rows r others h =
    let (stands, last) = insert_nodes-Inserted dep_to_id job_id now 1 ids nodes rows r h in
    (
      stands,
      ap (get_nodes job_id) last
          ∙ get_nodes-append job_id rows r.0 others
              (Stands-job dep_to_id job_id 1 ids nodes r.0 stands)
              (Stands-ordered dep_to_id job_id 1 ids nodes r.0 stands),
    )

-- For a job without nodes, create_nodes either raises and leaves the table as it was, or the nodes
-- that it returns stand for the definitions: pending, under the given ids, numbered from 1 in the
-- order of the definitions, with each dependency that is a title replaced by the id of the last
-- definition of that title; and get_nodes then reads exactly these nodes, in that order.
pub create_nodes-get_nodes :
    (job_id now : ℕ) (ids : List ℕ) (nodes : List NodeDef) (known_job : Bool) (rows : List Node)
    → All (λ n. n.job_id == job_id ≡ false) rows
    → let r = create_nodes job_id now ids nodes known_job rows in
      (r ≡ (none, rows))
      ⊎ ((created : List Node) × (r.0 ≡ some created)
          × Stands (title_to_id ids nodes) job_id 1 ids nodes created
          × (get_nodes job_id r.1 ≡ created))
unfolding create_nodes
create_nodes-get_nodes job_id now ids [] known_job rows others = inr (
  [],
  refl,
  none_stand ids,
  ap (get_nodes job_id) (sym (append-nil rows)) ∙ get_nodes-append job_id rows [] others tt tt,
)
  where
    none_stand : (ids : List ℕ) → Stands (title_to_id ids []) job_id 1 ids [] []
    none_stand [] = refl
    none_stand (i ∷ ids) = refl
create_nodes-get_nodes job_id now ids (d ∷ nodes) false rows others = inl refl
create_nodes-get_nodes job_id now ids (d ∷ nodes) true rows others =
    let dep_to_id = title_to_id ids (d ∷ nodes) in
    elim (Option-cases (insert_nodes dep_to_id job_id 1 now ids (d ∷ nodes) rows)) [
      | inl n ↦ inl (rw n refl)
      | inr (r, e) ↦
          let (stands, reads) =
            created_nodes-get_nodes dep_to_id job_id now ids (d ∷ nodes) rows r others e in
          rw e (inr (r.0, refl, stands, reads))
    ]
