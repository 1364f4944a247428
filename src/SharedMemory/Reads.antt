-- ===== src/SharedMemory/Reads.antt =====
-- What `delete`, `clear` and a write leave of the other keys and trees.
use local_mind.Base.{
  ℕ, ◌≡◌, ◌≢◌, ◌⊎◌, refl, Bool, true, false, ◌&&◌, List, [], ◌∷◌, none, Result, arith, ◌==◌,
  if◌then◌else◌, fetchone, delete, rowcount, fetchone-insert_miss, fetchone-update_other, ltb,
  is_none, not,
}
use local_mind.SharedMemory.{
  SharedMemoryEntry, MemoryError, Write, at_key, overwrite, new_entry, put, get, delete_key, clear,
}
use local_mind.SharedMemory.Versions.{
  Outcome, put-Outcome, stale, replaced, missing, clashed, created,
}

module _ (w : Write) (entries : List SharedMemoryEntry) (tree key : ℕ)
    (other : (tree ≢ w.tree_root_job_id) ⊎ (key ≢ w.key)) where
  overwrite-other :
      (v : ℕ) (e : SharedMemoryEntry)
      → at_key w.tree_root_job_id w.key e ≡ true
      → (at_key tree key e ≡ false) × (at_key tree key (overwrite w v e) ≡ false)
  unfolding overwrite
  overwrite-other v e h = ground arith

  new_entry-other : at_key tree key (new_entry w) ≡ false
  unfolding new_entry
  new_entry-other = ground arith

  Outcome-other :
      {r : Result MemoryError SharedMemoryEntry × List SharedMemoryEntry}
      → Outcome w entries r
      → get tree key r.1 ≡ get tree key entries
  unfolding get
  Outcome-other (stale f h m) = refl
  Outcome-other (replaced f h m) =
      fetchone-update_other (at_key w.tree_root_job_id w.key) (at_key tree key)
        (overwrite w f.version) entries (overwrite-other f.version)
  Outcome-other (missing h n) = refl
  Outcome-other (clashed h c) = refl
  Outcome-other (created h n) =
      fetchone-insert_miss (at_key tree key) (new_entry w) entries new_entry-other

  -- A write, whether it succeeds or raises, changes no other key, in its tree or in another.
  pub put-get_other : get tree key (put w entries).1 ≡ get tree key entries
  put-get_other = Outcome-other (put-Outcome w entries)

found-delete :
    (p : SharedMemoryEntry → Bool) (entries : List SharedMemoryEntry)
    → ltb 0 (rowcount p entries) ≡ not (is_none (fetchone p entries))
found-delete p [] = refl
found-delete p (e ∷ entries) = ground (arith, found-delete p entries)

get-delete_key :
    (tree key t k : ℕ) (entries : List SharedMemoryEntry)
    → fetchone (at_key t k) (delete (at_key tree key) entries)
      ≡ (if t == tree && k == key then none else fetchone (at_key t k) entries)
get-delete_key tree key t k [] = ground arith
get-delete_key tree key t k (e ∷ es) = ground (arith, get-delete_key tree key t k es)

get-clear :
    (tree t k : ℕ) (entries : List SharedMemoryEntry)
    → fetchone (at_key t k) (delete (λ e. e.tree_root_job_id == tree) entries)
      ≡ (if t == tree then none else fetchone (at_key t k) entries)
get-clear tree t k [] = ground arith
get-clear tree t k (e ∷ es) = ground (arith, get-clear tree t k es)

-- `delete` reports exactly whether the key was there. Afterwards the key is gone, and every other
-- key, in any tree, reads as before. `clear` removes the keys of its tree and no others.
pub delete_key-get :
    (tree key t k : ℕ) (entries : List SharedMemoryEntry)
    → ((delete_key tree key entries).0 ≡ not (is_none (get tree key entries)))
      × (get t k (delete_key tree key entries).1
          ≡ (if t == tree && k == key then none else get t k entries))
      × (get t k (clear tree entries) ≡ (if t == tree then none else get t k entries))
unfolding get delete_key clear
delete_key-get tree key t k entries = (
  found-delete (at_key tree key) entries,
  get-delete_key tree key t k entries,
  get-clear tree t k entries,
)
