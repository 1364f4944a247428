-- ===== src/Messages/Roots.antt =====
-- The walk to the root of a job's tree in the message bus and the one of the delegation engine.
use local_mind.Base.{
  ℕ, zero, suc, ◌+◌, ◌<◌, ◌≤◌, ◌≡◌, refl, ap, sym, subst, ◌∙◌, List, [], ◌∷◌, none, some, inl, inr,
  arith, fetchone, length, Bool-cases, Option-cases,
}
use mathlib.Core.Option.{some-injective}
use local_mind.Delegation.{
  Delegation, is_child, visited_before, walk, walk_up, get_tree_root, get_parent, get_depth,
}
use local_mind.Messages.{climb, safety_cap}

climb_at_root :
    (steps root : ℕ) (delegations : List Delegation)
    → fetchone (is_child root) delegations ≡ none
    → climb steps root delegations ≡ root
unfolding climb
climb_at_root zero root delegations h = refl
climb_at_root (suc steps) root delegations h = rw (h, climb) refl

at_root :
    (steps current root : ℕ) (delegations : List Delegation)
    → current ≡ root
    → fetchone (is_child root) delegations ≡ none
    → climb steps current delegations ≡ root
at_root steps current root delegations same h =
    subst (λ c. climb steps c delegations ≡ root) (sym same)
      (climb_at_root steps root delegations h)

-- A walk counts up.
walk_deepens :
    (fuel depth current root last : ℕ) (visited : List ℕ) (delegations : List Delegation)
    → walk fuel visited current depth delegations ≡ some (root, last)
    → depth ≤ last
unfolding walk
walk_deepens zero depth current root last visited delegations h = cc
walk_deepens (suc fuel) depth current root last visited delegations h =
    elim (Bool-cases (visited_before current visited)) [
      | inl t ↦
          let same : (current, depth) ≡ (root, last) =
            some-injective _ _ (sym (rw (t, walk) refl) ∙ h) in
          omega (arith, ap (λ r. r.1) same)
      | inr f ↦ elim (Option-cases (fetchone (is_child current) delegations)) [
        | inl n ↦
            let same : (current, depth) ≡ (root, last) =
              some-injective _ _ (sym (rw (f, n, walk) refl) ∙ h) in
            omega (arith, ap (λ r. r.1) same)
        | inr (r, e) ↦
            let deeper =
              walk_deepens fuel (depth + 1) r.parent_job_id root last (current ∷ visited)
                delegations (sym (rw (f, e, walk) refl) ∙ h) in
            omega (arith, deeper)
      ]
    ]

one_up :
    (steps current depth root last : ℕ) (r : Delegation) (delegations : List Delegation)
    → fetchone (is_child current) delegations ≡ some r
    → last < depth + suc steps
    → depth + 1 ≤ last
    → ((s : ℕ) → last < depth + 1 + suc s → climb s r.parent_job_id delegations ≡ root)
    → climb steps current delegations ≡ root
unfolding climb
one_up zero current depth root last r delegations e near deep rest = absurd (omega arith)
one_up (suc steps) current depth root last r delegations e near deep rest =
    rw (e, climb) (rest steps (omega arith))

-- The engine's walk ends within the steps that the bus has.
climb-walk :
    (fuel steps current depth root last : ℕ) (visited : List ℕ) (delegations : List Delegation)
    → walk fuel visited current depth delegations ≡ some (root, last)
    → fetchone (is_child root) delegations ≡ none
    → last < depth + suc steps
    → climb steps current delegations ≡ root
unfolding climb walk
climb-walk zero steps current depth root last visited delegations h none_above near = cc
climb-walk (suc fuel) steps current depth root last visited delegations h none_above near =
    elim (Bool-cases (visited_before current visited)) [
      | inl t ↦
          let same : (current, depth) ≡ (root, last) =
            some-injective _ _ (sym (rw (t, walk) refl) ∙ h) in
          at_root steps current root delegations (ap (λ r. r.0) same) none_above
      | inr f ↦ elim (Option-cases (fetchone (is_child current) delegations)) [
        | inl n ↦
            let same : (current, depth) ≡ (root, last) =
              some-injective _ _ (sym (rw (f, n, walk) refl) ∙ h) in
            at_root steps current root delegations (ap (λ r. r.0) same) none_above
        | inr (r, e) ↦
            let further : walk fuel (current ∷ visited) r.parent_job_id (depth + 1) delegations
                ≡ some (root, last) =
              sym (rw (f, e, walk) refl) ∙ h in
            one_up steps current depth root last r delegations e near
              (walk_deepens fuel (depth + 1) r.parent_job_id root last (current ∷ visited)
                delegations further)
              (λ s lt.
                climb-walk fuel s r.parent_job_id (depth + 1) root last (current ∷ visited)
                  delegations further none_above lt)
      ]
    ]

-- Where get_tree_root of the delegation engine finds a job without parent for a job that is at most 50
-- deep, by get_depth, the walk of the message bus, which is capped at 50 steps, finds the same one.
pub climb-get_tree_root :
    (job_id top depth : ℕ) (delegations : List Delegation)
    → get_tree_root job_id delegations ≡ some top
    → get_parent top delegations ≡ none
    → get_depth job_id delegations ≡ some depth
    → depth ≤ 50
    → climb safety_cap job_id delegations ≡ top
unfolding get_tree_root get_parent get_depth walk_up
climb-get_tree_root job_id top depth delegations found none_above deep near =
    elim (Option-cases (walk_up job_id delegations)) [
      | inl n ↦ let no : none ≡ some top = sym (rw (n, get_tree_root) refl) ∙ found in absurd (cc)
      | inr ((root, last), e) ↦
          let at_top : root ≡ top = some-injective _ _ (sym (rw (e, get_tree_root) refl) ∙ found) in
          let at_depth : last ≡ depth = some-injective _ _ (sym (rw (e, get_depth) refl) ∙ deep) in
          let above : fetchone (is_child root) delegations ≡ none =
            subst (λ t. fetchone (is_child t) delegations ≡ none) (sym at_top) none_above in
          climb-walk (length delegations + 1) safety_cap job_id 0 root last [] delegations e above
            (omega (arith, at_depth))
          ∙ at_top
    ]
