-- ===== src/SharedMemory.antt =====
-- backend/swarm/shared_memory.py, with the SharedMemoryEntry of backend/swarm/models.py: versioned
-- keys for each job tree, over the swarm_shared_memory table. A value is its JSON text. A write
-- takes the clock's reading and the uuid that it may use.
pub mod Versions
pub mod Races
pub mod Reads
mod Tests
use local_mind.Base.{
  ℕ, ◌+◌, Bool, true, false, not, ◌&&◌, ◌||◌, List, Option, none, some, Result, ok, err, ltb, ◌==◌,
  is_none, if◌then◌else◌, select, fetchone, rowcount, update, delete, insert, exists,
}
use mathlib.Core.Option

pub record SharedMemoryEntry : Type 0 where
  pub id : ℕ
  pub tree_root_job_id : ℕ
  pub key : ℕ
  pub value_json : ℕ
  pub written_by_job_id : ℕ
  pub written_by_node_id : Option ℕ
  pub version : ℕ
  pub created_at : ℕ
  pub updated_at : ℕ

pub data MemoryError : Type 0 where
  version_conflict : (expected : ℕ) (found : Option ℕ) → MemoryError
  integrity_error : MemoryError

-- The arguments of `put`, with `now` and the uuid of a new row.
pub record Write : Type 0 where
  pub tree_root_job_id : ℕ
  pub key : ℕ
  pub value_json : ℕ
  pub written_by_job_id : ℕ
  pub written_by_node_id : Option ℕ
  pub expected_version : Option ℕ
  pub now : ℕ
  pub entry_id : ℕ

-- `WHERE tree_root_job_id = ? AND key = ?`
abbrev pub at_key : (tree_root_job_id key : ℕ) → SharedMemoryEntry → Bool
at_key tree_root_job_id key e = e.tree_root_job_id == tree_root_job_id && e.key == key

-- The SET clause of the UPDATE, with the version that was selected.
unfoldable pub overwrite : Write → (current_version : ℕ) → SharedMemoryEntry → SharedMemoryEntry
overwrite w current_version e = record e {
  value_json = w.value_json;
  written_by_job_id = w.written_by_job_id;
  written_by_node_id = w.written_by_node_id;
  version = current_version + 1;
  updated_at = w.now;
}

unfoldable pub new_entry : Write → SharedMemoryEntry
new_entry w = record {
  id = w.entry_id;
  tree_root_job_id = w.tree_root_job_id;
  key = w.key;
  value_json = w.value_json;
  written_by_job_id = w.written_by_job_id;
  written_by_node_id = w.written_by_node_id;
  version = 1;
  created_at = w.now;
  updated_at = w.now;
}

-- `expected_version is not None and expected_version != current_version`
abbrev pub mismatch : Option ℕ → ℕ → Bool
mismatch none current = false
mismatch (some expected) current = not (expected == current)

-- The branch of `put` for a key that exists.
unfoldable pub put_existing :
    Write
    → SharedMemoryEntry
    → List SharedMemoryEntry
    → Result MemoryError SharedMemoryEntry × List SharedMemoryEntry
unfolding overwrite
put_existing w e entries =
    if mismatch w.expected_version e.version
    then (err (version_conflict (Option.get_or w.expected_version 0) (some e.version)), entries)
    else (
      ok (overwrite w e.version e),
      update (at_key w.tree_root_job_id w.key) (overwrite w e.version) entries,
    )

-- `id` is the PRIMARY KEY, and UNIQUE(tree_root_job_id, key).
abbrev pub clashes : Write → SharedMemoryEntry → Bool
clashes w e = e.id == w.entry_id || at_key w.tree_root_job_id w.key e

-- The branch for a key that does not.
unfoldable pub put_new :
    Write → List SharedMemoryEntry → Result MemoryError SharedMemoryEntry × List SharedMemoryEntry
unfolding new_entry
put_new w entries = elim w.expected_version [
  | some expected ↦ (err (version_conflict expected none), entries)
  | none ↦
      if exists (clashes w) entries
      then (err integrity_error, entries)
      else (ok (new_entry w), insert (new_entry w) entries)
]

-- `between` is what others write after the SELECT, before the UPDATE or INSERT.
unfoldable pub put_between :
    Write
    → (between : List SharedMemoryEntry → List SharedMemoryEntry) → List SharedMemoryEntry
    → Result MemoryError SharedMemoryEntry × List SharedMemoryEntry
unfolding put_existing put_new
put_between w between entries = elim (fetchone (at_key w.tree_root_job_id w.key) entries) [
  | some e ↦ put_existing w e (between entries)
  | none ↦ put_new w (between entries)
]

-- With nobody in between.
unfoldable pub put :
    Write → List SharedMemoryEntry → Result MemoryError SharedMemoryEntry × List SharedMemoryEntry
unfolding put_between
put w entries = put_between w (λ e. e) entries

unfoldable pub get : (tree_root_job_id key : ℕ) → List SharedMemoryEntry → Option SharedMemoryEntry
get tree_root_job_id key entries = fetchone (at_key tree_root_job_id key) entries

unfoldable pub get_version : (tree_root_job_id key : ℕ) → List SharedMemoryEntry → Option ℕ
get_version tree_root_job_id key entries =
    Option.map (λ e. e.version) (fetchone (at_key tree_root_job_id key) entries)

-- DELETE with its row count.
unfoldable pub delete_key :
    (tree_root_job_id key : ℕ) → List SharedMemoryEntry → Bool × List SharedMemoryEntry
delete_key tree_root_job_id key entries = (
  ltb 0 (rowcount (at_key tree_root_job_id key) entries),
  delete (at_key tree_root_job_id key) entries,
)

unfoldable pub clear : (tree_root_job_id : ℕ) → List SharedMemoryEntry → List SharedMemoryEntry
clear tree_root_job_id entries = delete (λ e. e.tree_root_job_id == tree_root_job_id) entries
