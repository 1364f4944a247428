-- ===== src/Execution/Events.antt =====
-- SourceEvent of backend/core/execution.py: the deduplication of incoming events over the table
-- source_events, which is UNIQUE(source, source_event_id).
pub mod Dedup
use local_mind.Base.{
  ℕ, Bool, true, false, ◌&&◌, ◌||◌, List, [], ◌∷◌, Option, none, some, ◌==◌, if◌then◌else◌, update,
  insert, exists,
}

pub record Event : Type 0 where
  pub id : ℕ
  pub source : ℕ
  pub source_event_id : ℕ
  pub workspace_id : ℕ
  pub processed_at : Option ℕ
  pub result_json : Option ℕ

-- The two unique constraints: PRIMARY KEY(id) and UNIQUE(source, source_event_id).
abbrev pub same_event : (source source_event_id : ℕ) → Event → Bool
same_event source source_event_id e = e.source == source && e.source_event_id == source_event_id

abbrev pub collides : (event_id source source_event_id : ℕ) → Event → Bool
collides event_id source source_event_id e = e.id == event_id || same_event source source_event_id e

abbrev pub new_event : (event_id source source_event_id workspace_id : ℕ) → Event
new_event event_id source source_event_id workspace_id = record {
  id = event_id;
  source = source;
  source_event_id = source_event_id;
  workspace_id = workspace_id;
  processed_at = none;
  result_json = none;
}

-- Every IntegrityError is taken for a duplicate. `known_workspace` says whether the workspace
-- exists, which the foreign key asks for.
unfoldable pub record_event :
    (event_id source source_event_id workspace_id : ℕ)
    → (known_workspace : Bool) → List Event
    → Option ℕ × List Event
record_event event_id source source_event_id workspace_id known_workspace events =
    if exists (collides event_id source source_event_id) events
    then (none, events)
    else if known_workspace
    then (some event_id, insert (new_event event_id source source_event_id workspace_id) events)
    else (none, events)

unfoldable pub mark_processed : (event_id result_json now : ℕ) → List Event → List Event
mark_processed event_id result_json now events =
    update (λ e. e.id == event_id)
      (λ e. record e { processed_at = some now; result_json = some result_json }) events
