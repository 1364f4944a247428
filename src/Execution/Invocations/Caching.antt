-- ===== src/Execution/Invocations/Caching.antt =====
-- What the log answers from its cache.
use local_mind.Base.{
  ℕ, ◌+◌, ◌≤◌, ◌≡◌, refl, true, List, [], ◌∷◌, Option, some, inl, inr, arith, ◌==◌, is_some_of,
  select, fetchone, fetchone-mem, fetchone-some, update, All, All-mem, Memᴰ, mem_of_select,
  mem-select, mem-update, greatest, greatest_max, greatest-none, Option-cases,
}
use local_mind.Execution.Invocations.{
  Invocation, InvocationStatus, success, is_success, with_result, update_invocation, is_cached,
  completion, get_cached_result,
}

-- A cached result is that of a logged call with the key which has succeeded, and no such call was
-- completed later.
pub get_cached_result-some :
    (key : ℕ) (log : List Invocation) (i : Invocation)
    → get_cached_result key log ≡ some i
    → Memᴰ i log
      × (is_some_of i.idempotency_key key ≡ true)
      × (i.status ≡ success)
      × All (λ j. completion j ≤ completion i) (select (is_cached key) log)
unfolding get_cached_result
get_cached_result-some key log i h =
    let (most, here) = greatest_max completion (select (is_cached key) log) i h in
    let (there, fits) = mem_of_select (is_cached key) log i here in
    (there, ground arith, succeeded i.status (ground arith), most)
  where
    succeeded : (s : InvocationStatus) → is_success s ≡ true → s ≡ success
    succeeded success e = refl
    succeeded InvocationStatus.pending e = cc
    succeeded (InvocationStatus.other n) e = cc

cached_of_mem :
    (key : ℕ) (log : List Invocation) (i : Invocation)
    → Memᴰ i log
    → is_cached key i ≡ true
    → (j : Invocation) × (get_cached_result key log ≡ some j) × (completion i ≤ completion j)
unfolding get_cached_result
cached_of_mem key log i m h =
    let rows = select (is_cached key) log in
    let here = mem-select (is_cached key) log i m h in
    elim (Option-cases (greatest completion rows)) [
      | inl n ↦ absurd (nothing rows (greatest-none completion rows n) here)
      | inr (j, e) ↦ (
        j,
        e,
        All-mem (λ x. completion x ≤ completion j) rows (greatest_max completion rows j e).0 i here,
      )
    ]
  where
    nothing : (rows : List Invocation) → rows ≡ [] → Memᴰ i rows → ⊥
    nothing [] e m = elim m [ ]
    nothing (r ∷ rows) e m = cc

-- Once a logged call with an idempotency key is recorded as a success at `now`, the key has a
-- cached result, completed no earlier than `now`: a retry does not run the tool again.
pub update_invocation-get_cached_result :
    (key now result : ℕ) (policy duration : Option ℕ) (log : List Invocation) (i : Invocation)
    → fetchone (λ x. x.id == i.id) log ≡ some i
    → i.idempotency_key ≡ some key
    → (j : Invocation) × (get_cached_result key
          (update_invocation i.id result success policy duration now log)
        ≡ some j)
      × (now + 1 ≤ completion j)
      × (j.status ≡ success)
      × (is_some_of j.idempotency_key key ≡ true)
unfolding update_invocation
update_invocation-get_cached_result key now result policy duration log i h k =
    let done = with_result result success policy duration now in
    let log' = update (λ x. x.id == i.id) done log in
    let there : Memᴰ (done i) log' =
      mem-update (λ x. x.id == i.id) done log i (fetchone-mem (λ x. x.id == i.id) log i h)
        (fetchone-some (λ x. x.id == i.id) log i h) in
    let (j, e, le) = cached_of_mem key log' (done i) there (rw k (ground arith)) in
    let (_, fits, ok, _) = get_cached_result-some key log' j e in (j, e, le, ok, fits)
