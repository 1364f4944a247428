-- ===== src/Execution/Attempts/Tracking.antt =====
-- What the tracker stores of a failure, and the order of a node's attempts.
use local_mind.Base.{
  ℕ, ◌≤◌, ◌≡◌, refl, ap, ◌⊎◌, inl, inr, List, [], none, some, arith, ◌==◌, select, fetchone,
  fetchone-update_hit, All, Pairwise, Memᴰ, Option-cases, sort_by, greatest, greatest_max,
  All-sort_by, sort_by-IsOrdered, mem_of_select, greatest-none,
}
use local_mind.ErrorStrategy.{ErrorCategory}
use local_mind.Execution.Attempts.{
  Attempt, failed, transient, text_of, valid_category, fail_attempt, get_attempts,
  get_latest_attempt,
}

valid_category-text_of :
    (c : ErrorCategory)
    → (valid_category (text_of c) ≡ text_of c)
      ⊎ (c ≡ ErrorCategory.injection_detected) × (valid_category (text_of c) ≡ transient)
unfolding valid_category text_of
valid_category-text_of c = ground arith

-- An attempt that fails with a category of the error strategy is stored as failed, with that
-- category's text, in every category but one: a detected injection is stored as transient.
pub fail_attempt-text_of :
    (c : ErrorCategory) (attempt_id error now : ℕ) (attempts : List Attempt) (a : Attempt)
    → fetchone (λ x. x.id == attempt_id) attempts ≡ some a
    → (b : Attempt) × (fetchone
          (λ x. x.id == attempt_id)
          (fail_attempt attempt_id error (text_of c) now attempts)
        ≡ some b)
      × (b.status ≡ failed)
      × (b.error ≡ some error)
      × ((b.error_category ≡ some (text_of c))
          ⊎ (c ≡ ErrorCategory.injection_detected) × (b.error_category ≡ some transient))
unfolding fail_attempt
fail_attempt-text_of c attempt_id error now attempts a h = (
  _,
  fetchone-update_hit (λ x. x.id == attempt_id)
      (λ x. record x {
        status = failed;
        completed_at = some now;
        error = some error;
        error_category = some (valid_category (text_of c));
      })
      attempts a (λ x. refl) h,
  refl,
  refl,
  elim (valid_category-text_of c) [ inl e ↦ inl (ap some e) | inr (i, e) ↦ inr (i, ap some e) ],
)

-- get_attempts lists a node's attempts in the order of their numbers. get_latest_attempt finds
-- none exactly if there are none, and else one of the node's whose number no other exceeds.
pub get_latest_attempt-greatest :
    (node_id : ℕ) (attempts : List Attempt)
    → Pairwise (λ a b. a.attempt_number ≤ b.attempt_number) (get_attempts node_id attempts)
      × ((get_latest_attempt node_id attempts ≡ none) × (get_attempts node_id attempts ≡ [])
          ⊎ ((a : Attempt) × (get_latest_attempt node_id attempts ≡ some a)
              × Memᴰ a attempts
              × (a.node_id ≡ node_id)
              × All (λ b. b.attempt_number ≤ a.attempt_number) (get_attempts node_id attempts)))
unfolding get_attempts get_latest_attempt
get_latest_attempt-greatest node_id attempts =
    let rows = select (λ a. a.node_id == node_id) attempts in
    (
      sort_by-IsOrdered (λ a. a.attempt_number) rows,
      elim (Option-cases (greatest (λ a. a.attempt_number) rows)) [
        | inl n ↦
            let empty = greatest-none (λ a. a.attempt_number) rows n in
            inl (n, ap (sort_by (λ a. a.attempt_number)) empty)
        | inr (a, e) ↦
            let (most, here) = greatest_max (λ a. a.attempt_number) rows a e in
            let (there, ours) = mem_of_select (λ a. a.node_id == node_id) attempts a here in
            inr (
              a,
              e,
              there,
              ground arith,
              All-sort_by (λ a. a.attempt_number) (λ b. b.attempt_number ≤ a.attempt_number) rows
                  most,
            )
      ],
    )
