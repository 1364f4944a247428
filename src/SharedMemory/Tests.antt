-- ===== src/SharedMemory/Tests.antt =====
-- Runs of the shared memory, and its theorems at concrete inputs.
use local_mind.Base.{
  ℕ, ◌≡◌, inr, refl, [], ◌∷◌, Option, none, some, ok, err, arith, not, is_none, if◌then◌else◌, ◌&&◌,
  ◌==◌,
}
use local_mind.SharedMemory.{
  SharedMemoryEntry, version_conflict, Write, overwrite, new_entry, put_existing, put_new,
  put_between, put, get, get_version, delete_key, clear,
}
use local_mind.SharedMemory.Versions
use local_mind.SharedMemory.Versions.{Stored}
use local_mind.SharedMemory.Races
use local_mind.SharedMemory.Reads

program : Unit {0}
unfolding put_existing put_new put_between put get get_version delete_key clear overwrite new_entry
program = tt

abbrev write : (key value : ℕ) → Option ℕ → Write
write key value expected = record {
  tree_root_job_id = 1;
  key = key;
  value_json = value;
  written_by_job_id = 2;
  written_by_node_id = none;
  expected_version = expected;
  now = 10;
  entry_id = 50;
}

abbrev entry : (value version : ℕ) → SharedMemoryEntry
entry value version = record {
  id = 50;
  tree_root_job_id = 1;
  key = 5;
  value_json = value;
  written_by_job_id = 2;
  written_by_node_id = none;
  version = version;
  created_at = 10;
  updated_at = 10;
}

put_twice :
    (put (write 5 100 none) [] ≡ (ok (entry 100 1), entry 100 1 ∷ []))
    × (put (write 5 101 (some 1)) (entry 100 1 ∷ []) ≡ (ok (entry 101 2), entry 101 2 ∷ []))
    × (put (write 5 102 (some 1)) (entry 101 2 ∷ [])
        ≡ (err (version_conflict 1 (some 2)), entry 101 2 ∷ []))
unfolding program
put_twice = (refl, refl, refl)

put-get_example :
    Stored
      (write 5 101 (some 1))
      (entry 100 1 ∷ [])
      (entry 101 2)
      (put (write 5 101 (some 1)) (entry 100 1 ∷ [])).1
unfolding program
put-get_example = Versions.put-get (write 5 101 (some 1)) (entry 100 1 ∷ []) (entry 101 2) refl

put_between-loses_example :
    let w = write 5 101 (some 1) in
    let second = put_between (write 5 102 (some 1)) (λ es. (put w es).1) (entry 100 1 ∷ []) in
    (e : SharedMemoryEntry) × (e' : SharedMemoryEntry) × ((put w (entry 100 1 ∷ [])).0 ≡ ok e)
    × (e.version ≡ 2)
    × (second.0 ≡ ok e')
    × (e'.version ≡ 2)
    × (e'.value_json ≡ 102)
    × (get 1 5 second.1 ≡ some e')
unfolding program
put_between-loses_example =
    Races.put_between-loses (write 5 101 (some 1)) (write 5 102 (some 1)) (entry 100 1 ∷ []) 1 refl
      refl refl refl refl

other_keys_stay : get 1 6 (put (write 5 101 none) (entry 100 1 ∷ [])).1 ≡ get 1 6 (entry 100 1 ∷ [])
other_keys_stay = Reads.put-get_other (write 5 101 none) (entry 100 1 ∷ []) 1 6 (inr (omega arith))

a_deleted_key_is_gone :
    ((delete_key 1 5 (entry 100 1 ∷ [])).0 ≡ not (is_none (get 1 5 (entry 100 1 ∷ []))))
    × (get 2 5 (delete_key 1 5 (entry 100 1 ∷ [])).1
        ≡ (if 2 == 1 && 5 == 5 then none else get 2 5 (entry 100 1 ∷ [])))
    × (get 2 5 (clear 1 (entry 100 1 ∷ [])) ≡ (if 2 == 1 then none else get 2 5 (entry 100 1 ∷ [])))
a_deleted_key_is_gone = Reads.delete_key-get 1 5 2 5 (entry 100 1 ∷ [])
