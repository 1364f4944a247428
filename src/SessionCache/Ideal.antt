-- ===== src/SessionCache/Ideal.antt =====
-- What a client may rely on while the cache is not full: a map from keys to texts with a lifetime,
-- without order and without limit.
use local_mind.Base.{
  ℕ, ◌+◌, not, List, [], ◌∷◌, Option, none, some, ltb, ◌==◌, get_or, is_none, if◌then◌else◌,
}
use local_mind.SessionCache.{Call, Reply, done, value, present}

pub record Cell : Type 0 where
  pub value : ℕ
  pub created_at : ℕ
  pub ttl : ℕ

abbrev pub Map : Type 0
Map = ℕ → Option Cell

abbrev pub empty : Map
empty key = none

-- What is left of a cell at a time.
abbrev pub live_cell : (now : ℕ) → Option Cell → Option Cell
live_cell now none = none
live_cell now (some c) = if ltb (c.created_at + c.ttl) now then none else some c

abbrev pub created_or : (now : ℕ) → Option Cell → ℕ
created_or now none = now
created_or now (some c) = c.created_at

abbrev pub value_of : Option Cell → Option ℕ
value_of none = none
value_of (some c) = some c.value

-- The lifetime counts from when the key came in, not from when its text changed.
abbrev pub put_cell : (key val ttl now : ℕ) → Map → Map
put_cell key val ttl now m k =
    if key == k
    then some (record { value = val; created_at = created_or now (m key); ttl = ttl })
    else m k

-- A key that is looked at goes if its lifetime is over.
abbrev pub look_at : (key now : ℕ) → Map → Map
look_at key now m k = if key == k then live_cell now (m key) else m k

abbrev pub perform_ideal : (default_ttl now : ℕ) → Call → Map → Reply × Map
perform_ideal default_ttl now (Call.puts key val category ttl) m =
    (done, put_cell key val (get_or ttl default_ttl) now m)
perform_ideal default_ttl now (Call.gets key) m =
    (value (value_of (live_cell now (m key))), look_at key now m)
perform_ideal default_ttl now (Call.asks_for key) m =
    (present (not (is_none (live_cell now (m key)))), look_at key now m)
perform_ideal default_ttl now Call.evicts_expired m = (done, λ k. live_cell now (m k))
perform_ideal default_ttl now Call.clears m = (done, empty)

unfoldable pub run_ideal : (default_ttl : ℕ) → List (ℕ × Call) → Map → List Reply
run_ideal default_ttl [] m = []
run_ideal default_ttl ((now, call) ∷ calls) m =
    let (reply, m') = perform_ideal default_ttl now call m in reply ∷ run_ideal default_ttl calls m'
