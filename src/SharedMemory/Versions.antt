-- ===== src/SharedMemory/Versions.antt =====
-- Optimistic concurrency: versions count the writes, and a stale write is refused.
use local_mind.Base.{
  ℕ, ◌+◌, ◌≡◌, ◌⊎◌, inl, inr, refl, true, false, List, Option, none, some, Result, ok, err, arith,
  is_none, fetchone, update, insert, exists, fetchone-insert, fetchone-update_hit, fetchone-some,
  Bool-cases, Option-cases,
}
use mathlib.Core.Path.{subst}
use local_mind.SharedMemory.{
  SharedMemoryEntry, MemoryError, version_conflict, integrity_error, Write, at_key, overwrite,
  new_entry, clashes, mismatch, put_existing, put_new, put_between, put, get, get_version,
}

module _ (w : Write) (entries : List SharedMemoryEntry) where
  abbrev stored : Option SharedMemoryEntry
  stored = fetchone (at_key w.tree_root_job_id w.key) entries

  overwrite-at_key :
      (v : ℕ) (e : SharedMemoryEntry)
      → at_key w.tree_root_job_id w.key (overwrite w v e) ≡ at_key w.tree_root_job_id w.key e
  unfolding overwrite
  overwrite-at_key v e = refl

  new_entry-at_key : at_key w.tree_root_job_id w.key (new_entry w) ≡ true
  unfolding new_entry
  new_entry-at_key = ground arith

  -- The ways in which `put` ends.
  pub data Outcome : Result MemoryError SharedMemoryEntry × List SharedMemoryEntry → Type 0 where
    stale :
        (e : SharedMemoryEntry)
        → stored ≡ some e
        → mismatch w.expected_version e.version ≡ true
        → {x : MemoryError} → Outcome (err x, entries)
    replaced :
        (e : SharedMemoryEntry)
        → stored ≡ some e
        → mismatch w.expected_version e.version ≡ false
        → Outcome (
          ok (overwrite w e.version e),
          update (at_key w.tree_root_job_id w.key) (overwrite w e.version) entries,
        )
    missing :
        stored ≡ none
        → is_none w.expected_version ≡ false
        → {x : MemoryError} → Outcome (err x, entries)
    clashed :
        stored ≡ none → exists (clashes w) entries ≡ true → Outcome (err integrity_error, entries)
    created :
        stored ≡ none
        → is_none w.expected_version ≡ true
        → Outcome (ok (new_entry w), insert (new_entry w) entries)

  put_existing-Outcome :
      (e : SharedMemoryEntry) → stored ≡ some e → Outcome (put_existing w e entries)
  unfolding put_existing
  put_existing-Outcome e h = elim (Bool-cases (mismatch w.expected_version e.version)) [
    | inl t ↦ rw t (stale e h t)
    | inr f ↦ rw f (replaced e h f)
  ]

  put_new-conflict :
      (v : ℕ)
      → w.expected_version ≡ some v
      → put_new w entries ≡ (err (version_conflict v none), entries)
  unfolding put_new
  put_new-conflict v e = ground arith

  put_new-clash :
      w.expected_version ≡ none
      → exists (clashes w) entries ≡ true
      → put_new w entries ≡ (err integrity_error, entries)
  unfolding put_new
  put_new-clash e c = ground arith

  put_new-insert :
      w.expected_version ≡ none
      → exists (clashes w) entries ≡ false
      → put_new w entries ≡ (ok (new_entry w), insert (new_entry w) entries)
  unfolding put_new
  put_new-insert e c = ground arith

  put_new-Outcome : stored ≡ none → Outcome (put_new w entries)
  put_new-Outcome h = elim (Option-cases w.expected_version) [
    | inl n ↦ elim (Bool-cases (exists (clashes w) entries)) [
      | inl t ↦ rw (put_new-clash n t) (clashed h t)
      | inr f ↦ rw (put_new-insert n f) (created h (ground arith))
    ]
    | inr (v, s) ↦ rw (put_new-conflict v s) (missing h (ground arith))
  ]

  pub put-Outcome : Outcome (put w entries)
  unfolding put put_between
  put-Outcome = elim (Option-cases stored) [
    | inl n ↦ rw (n, put, put_between) (put_new-Outcome n)
    | inr (e, s) ↦ rw (s, put, put_between) (put_existing-Outcome e s)
  ]

  -- What a reader finds under the key after a write that succeeded.
  abbrev pub Stored : SharedMemoryEntry → List SharedMemoryEntry → Type 0
  Stored e after =
      (get w.tree_root_job_id w.key after ≡ some e)
      × (e.value_json ≡ w.value_json)
      × (e.tree_root_job_id ≡ w.tree_root_job_id)
      × (e.key ≡ w.key)
      × (((get_version w.tree_root_job_id w.key entries ≡ none)
            × (w.expected_version ≡ none)
            × (e.version ≡ 1))
          ⊎ ((v : ℕ) × (get_version w.tree_root_job_id w.key entries ≡ some v)
              × (e.version ≡ v + 1)
              × (mismatch w.expected_version v ≡ false)))

  replaced-Stored :
      (e : SharedMemoryEntry)
      → stored ≡ some e
      → mismatch w.expected_version e.version ≡ false
      → Stored
          (overwrite w e.version e)
          (update (at_key w.tree_root_job_id w.key) (overwrite w e.version) entries)
  unfolding get get_version overwrite
  replaced-Stored e h m =
      let fits = fetchone-some (at_key w.tree_root_job_id w.key) entries e h in
      (
        fetchone-update_hit (at_key w.tree_root_job_id w.key) (overwrite w e.version) entries e
            (overwrite-at_key e.version) h,
        refl,
        ground arith,
        ground arith,
        inr (e.version, ground arith, refl, m),
      )

  created-Stored :
      stored ≡ none
      → is_none w.expected_version ≡ true
      → Stored (new_entry w) (insert (new_entry w) entries)
  unfolding get get_version new_entry
  created-Stored h n = (
    fetchone-insert (at_key w.tree_root_job_id w.key) (new_entry w) entries h new_entry-at_key,
    refl,
    refl,
    refl,
    inl (ground arith, ground arith, refl),
  )

Outcome-ok :
    (w : Write) (entries : List SharedMemoryEntry) (e : SharedMemoryEntry)
    {r : Result MemoryError SharedMemoryEntry × List SharedMemoryEntry}
    → Outcome w entries r
    → r.0 ≡ ok e
    → Stored w entries e r.1
Outcome-ok w entries e (stale f h m) k = cc
Outcome-ok w entries e (replaced f h m) k =
    let same : overwrite w f.version f ≡ e = cc in
    subst
      (λ x.
        Stored w entries x
          (update (at_key w.tree_root_job_id w.key) (overwrite w f.version) entries))
      same (replaced-Stored w entries f h m)
Outcome-ok w entries e (missing h n) k = cc
Outcome-ok w entries e (clashed h c) k = cc
Outcome-ok w entries e (created h n) k =
    let same : new_entry w ≡ e = cc in
    subst (λ x. Stored w entries x (insert (new_entry w) entries)) same
      (created-Stored w entries h n)

-- A write that succeeds is what `get` finds under the key from then on, with the value written.
-- Its version is 1 if the key was new and no version expected, and else one more than the stored version, which is the
-- expected one where the caller named it.
pub put-get :
    (w : Write) (entries : List SharedMemoryEntry) (e : SharedMemoryEntry)
    → (put w entries).0 ≡ ok e
    → Stored w entries e (put w entries).1
put-get w entries e h = Outcome-ok w entries e (put-Outcome w entries) h
