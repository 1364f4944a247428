-- ===== src/Execution/DeadLetters/Resolved.antt =====
-- The resolution of a dead letter, as the lists show it.
use local_mind.Base.{
  ℕ, ◌+◌, ◌≡◌, refl, Bool, true, false, not, ◌&&◌, List, [], ◌∷◌, some, ok, arith, ◌==◌, is_none,
  length, select, fetchone, fetchone-mem, fetchone-some, update, exists_of_mem, All, All-select,
  All-update_always, Memᴰ, mem-update, mem-select, mem-sort_desc_by, All-sort_desc_by,
  length-sort_desc_by, All-select_sat, All-both, All-mono,
}
use local_mind.Execution.DeadLetters.{
  DeadLetter, list_dead_letters, Resolution, is_valid, resolve, resolve_dead_letter,
}

length-split :
    (p : DeadLetter → Bool) (letters : List DeadLetter)
    → length (select (λ d. not (p d)) letters) + length (select p letters) ≡ length letters
length-split p [] = refl
length-split p (d ∷ letters) = ground (arith, length-split p letters)

-- The two lists share the letters out: each letter of the list asked for is in that state, and
-- together they are as long as the table.
pub list_dead_letters-exact :
    (letters : List DeadLetter)
    → All (λ d. is_none d.resolved_at ≡ false) (list_dead_letters true letters)
      × All (λ d. is_none d.resolved_at ≡ true) (list_dead_letters false letters)
      × (length (list_dead_letters true letters) + length (list_dead_letters false letters)
          ≡ length letters)
unfolding list_dead_letters
list_dead_letters-exact letters = (
  All-sort_desc_by (λ d. d.created_at) _ _
      (All-mono _ _ _ (λ d h. ground arith)
        (All-select_sat (λ d. not (is_none d.resolved_at)) letters)),
  All-sort_desc_by (λ d. d.created_at) _ _ (All-select_sat (λ d. is_none d.resolved_at) letters),
  omega (
    arith,
    length-sort_desc_by (λ d. d.created_at) (select (λ d. not (is_none d.resolved_at)) letters),
    length-sort_desc_by (λ d. d.created_at) (select (λ d. is_none d.resolved_at) letters),
    length-split (λ d. is_none d.resolved_at) letters,
  ),
)

module _ (letter_id by : ℕ) (resolution : Resolution) (now : ℕ) (letters : List DeadLetter)
    (d : DeadLetter) where
  -- A letter that a known user resolves in one of the three ways leaves the list of the unresolved
  -- ones, and stands among the resolved ones with that user and resolution.
  pub resolve-list_dead_letters :
      fetchone (λ x. x.id == letter_id) letters ≡ some d
      → is_valid resolution ≡ true
      → let r = resolve_dead_letter letter_id by resolution true now letters in
        (r.0 ≡ ok tt)
        × All (λ x. x.id == letter_id ≡ false) (list_dead_letters false r.1)
        × Memᴰ (resolve by resolution now d) (list_dead_letters true r.1)
  unfolding resolve_dead_letter list_dead_letters
  resolve-list_dead_letters h v =
      let found =
        exists_of_mem (λ x. x.id == letter_id) letters d
          (fetchone-mem (λ x. x.id == letter_id) letters d h)
          (fetchone-some (λ x. x.id == letter_id) letters d h) in
      let after = update (λ x. x.id == letter_id) (resolve by resolution now) letters in
      rw (v, found)
        (
          refl,
          All-sort_desc_by (λ x. x.created_at) (λ x. x.id == letter_id ≡ false)
              (select (λ x. is_none x.resolved_at) after)
              (All-mono _ _ _ (λ x (a, b). ground arith)
                (All-both (λ x. is_none x.resolved_at ≡ true)
                  (λ x. x.id == letter_id && is_none x.resolved_at ≡ false) _
                  (All-select_sat (λ x. is_none x.resolved_at) after)
                  (All-select _ (λ x. is_none x.resolved_at) after
                    (All-update_always (λ x. x.id == letter_id && is_none x.resolved_at ≡ false)
                      (λ x. x.id == letter_id) (resolve by resolution now) letters
                      (λ x. ground arith))))),
          mem-sort_desc_by (λ x. x.created_at) (resolve by resolution now d) _
              (mem-select (λ x. not (is_none x.resolved_at)) after (resolve by resolution now d)
                (mem-update (λ x. x.id == letter_id) (resolve by resolution now) letters d
                  (fetchone-mem (λ x. x.id == letter_id) letters d h)
                  (fetchone-some (λ x. x.id == letter_id) letters d h))
                refl),
        )
