-- ===== src/SharedMemory/Races.antt =====
-- Two writers at once.
use local_mind.Base.{
  ℕ, ◌+◌, ◌≡◌, inl, inr, refl, ap, sym, Bool, false, List, some, ok, arith, fetchone, update,
  fetchone-update_hit, Option-cases,
}
use mathlib.Core.Path.{subst}
use local_mind.SharedMemory.{
  SharedMemoryEntry, Write, at_key, overwrite, mismatch, put_existing, put_between, put, get,
  get_version,
}

-- Of two writes of a key that both expect its version `v`, the first one whole between the SELECT and the UPDATE
-- of the second, both succeed with the version `v + 1`, and the value of the first is lost: the UPDATE has
-- no test of the version.
pub put_between-loses :
    (w w' : Write) (entries : List SharedMemoryEntry) (v : ℕ)
    → w'.tree_root_job_id ≡ w.tree_root_job_id
    → w'.key ≡ w.key
    → w.expected_version ≡ some v
    → w'.expected_version ≡ some v
    → get_version w.tree_root_job_id w.key entries ≡ some v
    → let second = put_between w' (λ es. (put w es).1) entries in
      (e : SharedMemoryEntry) × (e' : SharedMemoryEntry) × ((put w entries).0 ≡ ok e)
      × (e.version ≡ v + 1)
      × (second.0 ≡ ok e')
      × (e'.version ≡ v + 1)
      × (e'.value_json ≡ w'.value_json)
      × (get w.tree_root_job_id w.key second.1 ≡ some e')
unfolding put put_between put_existing get get_version overwrite
put_between-loses w w' entries v t k x y h =
    let at : SharedMemoryEntry → Bool = at_key w.tree_root_job_id w.key in
    elim (Option-cases (fetchone at entries)) [
      | inl n ↦ absurd (ground arith)
      | inr (e, s) ↦
          let current : e.version ≡ v = ground arith in
          let fits : mismatch w.expected_version e.version ≡ false = ground (arith, x, current) in
          let fits' : mismatch w'.expected_version e.version ≡ false = ground (arith, y, current) in
          let first : put w entries
              ≡ (ok (overwrite w e.version e), update at (overwrite w e.version) entries) =
            rw (s, fits, put, put_between, put_existing) refl in
          let here : fetchone (at_key w'.tree_root_job_id w'.key) entries ≡ some e = rw (t, k) s in
          let found : fetchone at (put w entries).1 ≡ some (overwrite w e.version e) =
            rw first (fetchone-update_hit at (overwrite w e.version) entries e (λ d. refl) s) in
          let after = (put w entries).1 in
          let second : put_between w' (λ es. (put w es).1) entries ≡ (
            ok (overwrite w' e.version e),
            update (at_key w'.tree_root_job_id w'.key) (overwrite w' e.version) after,
          ) =
            rw (here, fits', put_between, put_existing) refl in
          let last : fetchone at (put_between w' (λ es. (put w es).1) entries).1
              ≡ some (overwrite w' e.version e) =
            subst (λ r. fetchone at r.1 ≡ some (overwrite w' e.version e)) (sym second)
              (rw (t, k)
                (fetchone-update_hit at (overwrite w' e.version) after (overwrite w e.version e)
                  (λ d. refl) found)) in
          (
            overwrite w e.version e,
            overwrite w' e.version e,
            ap (λ r. r.0) first,
            ap (λ n. n + 1) current,
            ap (λ r. r.0) second,
            ap (λ n. n + 1) current,
            refl,
            last,
          )
    ]
