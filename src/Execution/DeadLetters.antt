-- ===== src/Execution/DeadLetters.antt =====
-- DeadLetterQueue of backend/core/execution.py, over the table dead_letters.
pub mod Resolved
use local_mind.Base.{
  ℕ, Bool, true, false, not, ◌&&◌, List, [], ◌∷◌, Option, none, some, Result, ok, err, ◌==◌,
  is_none, if◌then◌else◌, select, update, insert, exists, sort_desc_by,
}

-- The texts of `valid_resolutions`, and any other.
pub data Resolution : Type 0 where
  retried skipped manual_fix : Resolution
  invalid : ℕ → Resolution

abbrev pub is_valid : Resolution → Bool
is_valid (invalid _) = false
is_valid _ = true

pub record DeadLetter : Type 0 where
  pub id : ℕ
  pub job_id : ℕ
  pub node_id : Option ℕ
  pub attempt_id : Option ℕ
  pub error : ℕ
  pub error_category : ℕ
  pub payload_json : Option ℕ
  pub created_at : ℕ
  pub resolved_at : Option ℕ
  pub resolved_by : Option ℕ
  pub resolution : Option Resolution

abbrev pub new_dead_letter :
    (dl_id job_id : ℕ)
    → (node_id attempt_id : Option ℕ) → (error error_category : ℕ) → (payload_json : Option ℕ)
    → (now : ℕ) → DeadLetter
new_dead_letter dl_id job_id node_id attempt_id error error_category payload_json now = record {
  id = dl_id;
  job_id = job_id;
  node_id = node_id;
  attempt_id = attempt_id;
  error = error;
  error_category = error_category;
  payload_json = payload_json;
  created_at = now;
  resolved_at = none;
  resolved_by = none;
  resolution = none;
}

-- `none` is the IntegrityError of an id that is taken.
unfoldable pub add_dead_letter :
    (dl_id job_id : ℕ)
    → (node_id attempt_id : Option ℕ) → (error error_category : ℕ) → (payload_json : Option ℕ)
    → (now : ℕ) → List DeadLetter
    → Option ℕ × List DeadLetter
add_dead_letter dl_id job_id node_id attempt_id error error_category payload_json now letters =
    if exists (λ d. d.id == dl_id) letters then (none, letters) else (
      some dl_id,
      insert (new_dead_letter dl_id job_id node_id attempt_id error error_category payload_json now)
          letters,
    )

unfoldable pub list_dead_letters : (resolved : Bool) → List DeadLetter → List DeadLetter
list_dead_letters resolved letters =
    if resolved
    then sort_desc_by (λ d. d.created_at) (select (λ d. not (is_none d.resolved_at)) letters)
    else sort_desc_by (λ d. d.created_at) (select (λ d. is_none d.resolved_at) letters)

pub data ResolveError : Type 0 where
  value_error integrity_error : ResolveError

-- The UPDATE of `resolve_dead_letter`.
abbrev pub resolve : (resolved_by : ℕ) → Resolution → (now : ℕ) → DeadLetter → DeadLetter
resolve resolved_by resolution now d = record d {
  resolved_at = some now;
  resolved_by = some resolved_by;
  resolution = some resolution;
}

-- `known_user` says whether the user exists, which the foreign key of `resolved_by` asks for; it
-- is checked only where a row is written.
unfoldable pub resolve_dead_letter :
    (dead_letter_id resolved_by : ℕ)
    → Resolution
    → (known_user : Bool) → (now : ℕ) → List DeadLetter
    → Result ResolveError Unit × List DeadLetter
resolve_dead_letter dead_letter_id resolved_by resolution known_user now letters =
    if not (is_valid resolution)
    then (err value_error, letters)
    else if exists (λ d. d.id == dead_letter_id) letters && not known_user
    then (err integrity_error, letters)
    else (ok tt, update (λ d. d.id == dead_letter_id) (resolve resolved_by resolution now) letters)
