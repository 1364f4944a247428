-- ===== src/SessionCache.antt =====
-- backend/memory/session_cache.py: a cache of texts with a lifetime and a least-recently-used limit,
-- an OrderedDict whose first entry is the least recently used. The clock's reading is an argument.
pub mod Store
pub mod Ideal
pub mod Order
pub mod Invariant
pub mod Simulation
pub mod Refinement
mod Tests
use local_mind.Base.{
  ℕ, suc, ◌+◌, Bool, true, false, not, ◌&&◌, ◌||◌, List, [], ◌∷◌, ◌++◌, Option, none, some, ltb,
  leb, ◌==◌, get_or, if◌then◌else◌, fetchone, delete, insert, length, select, rowcount,
}

-- A text is an opaque number.
pub record SessionEntry : Type 0 where
  pub key : ℕ
  pub value : ℕ
  pub category : ℕ
  pub created_at : ℕ
  pub accessed_at : ℕ
  pub access_count : ℕ
  pub ttl : ℕ

pub record Cache : Type 0 where
  pub store : List SessionEntry
  pub max_size : ℕ
  pub default_ttl : ℕ

abbrev pub is_expired : (now : ℕ) → SessionEntry → Bool
is_expired now e = ltb (e.created_at + e.ttl) now

abbrev pub has_key : ℕ → SessionEntry → Bool
has_key key e = e.key == key

-- `del self._store[key]`, then the entry at the end
abbrev pub move_to_end : SessionEntry → List SessionEntry → List SessionEntry
move_to_end e store = insert e (delete (has_key e.key) store)

-- `while len(self._store) > self._max_size: self._store.popitem(last=False)`
abbrev pub evict_lru : (max_size : ℕ) → List SessionEntry → List SessionEntry
evict_lru max_size [] = []
evict_lru max_size (e ∷ store) =
    let rest = evict_lru max_size store in
    if ltb max_size (length (e ∷ store)) then rest else e ∷ store

abbrev pub fresh_entry : (key value category ttl now : ℕ) → SessionEntry
fresh_entry key value category ttl now = record {
  key = key;
  value = value;
  category = category;
  created_at = now;
  accessed_at = now;
  access_count = 0;
  ttl = ttl;
}

-- An entry that is there is updated in place: `created_at` stays.
abbrev pub put_entry : (key value category ttl now : ℕ) → List SessionEntry → List SessionEntry
put_entry key value category ttl now store = elim (fetchone (has_key key) store) [
  | none ↦ insert (fresh_entry key value category ttl now) store
  | some e ↦
      move_to_end
        (record e {
          key = key;
          value = value;
          category = category;
          accessed_at = now;
          access_count = e.access_count + 1;
          ttl = ttl;
        })
        store
]

unfoldable pub put : (key value category : ℕ) → (ttl : Option ℕ) → (now : ℕ) → Cache → Cache
put key value category ttl now c = record c {
  store =
      evict_lru c.max_size (put_entry key value category (get_or ttl c.default_ttl) now c.store);
}

unfoldable pub get : (key now : ℕ) → Cache → Option ℕ × Cache
get key now c = elim (fetchone (has_key key) c.store) [
  | none ↦ (none, c)
  | some e ↦
      if is_expired now e then (none, record c { store = delete (has_key key) c.store }) else (
        some e.value,
        record c {
          store =
              move_to_end
                (record e { key = key; accessed_at = now; access_count = e.access_count + 1 })
                c.store;
        },
      )
]

-- `key in cache`
unfoldable pub contains : (key now : ℕ) → Cache → Bool × Cache
contains key now c = elim (fetchone (has_key key) c.store) [
  | none ↦ (false, c)
  | some e ↦
      if is_expired now e
      then (false, record c { store = delete (has_key key) c.store })
      else (true, c)
]

unfoldable pub evict_expired : (now : ℕ) → Cache → ℕ × Cache
evict_expired now c =
    (rowcount (is_expired now) c.store, record c { store = delete (is_expired now) c.store })

unfoldable pub clear : Cache → Cache
clear c = record c { store = [] }

-- At most `limit` of the entries that satisfy `keep`; the first is taken before the limit is looked at.
abbrev pub first_matches :
    (keep : SessionEntry → Bool) → (limit : ℕ) → List SessionEntry → (found : ℕ) → List SessionEntry
first_matches keep limit [] found = []
first_matches keep limit (e ∷ entries) found =
    let more = first_matches keep limit entries (suc found) in
    let rest = first_matches keep limit entries found in
    if keep e then (if leb limit (suc found) then e ∷ [] else e ∷ more) else rest

abbrev pub reversed : List SessionEntry → List SessionEntry
reversed [] = []
reversed (e ∷ entries) = reversed entries ++ e ∷ []

abbrev pub in_category : Option ℕ → SessionEntry → Bool
in_category none e = true
in_category (some category) e = e.category == category

-- `mentions` says whether the query stands in the key or the value, case aside.
unfoldable pub search :
    (mentions : SessionEntry → Bool)
    → (category : Option ℕ) → (limit now : ℕ) → Cache
    → List SessionEntry × Cache
unfolding evict_expired
search mentions category limit now c =
    let c' = (evict_expired now c).1 in
    (first_matches (λ e. in_category category e && mentions e) limit (reversed c'.store) 0, c')

unfoldable pub get_by_category : (category limit now : ℕ) → Cache → List SessionEntry × Cache
unfolding evict_expired
get_by_category category limit now c =
    let c' = (evict_expired now c).1 in
    (first_matches (λ e. e.category == category) limit (reversed c'.store) 0, c')

-- The calls of a client, each with the clock's reading, and what it is told.
pub data Call : Type 0 where
  puts : (key value category : ℕ) → (ttl : Option ℕ) → Call
  gets asks_for : (key : ℕ) → Call
  evicts_expired clears : Call

pub data Reply : Type 0 where
  done : Reply
  value : Option ℕ → Reply
  present : Bool → Reply

abbrev pub perform : (now : ℕ) → Call → Cache → Reply × Cache
perform now (Call.puts key val category ttl) c = (done, put key val category ttl now c)
perform now (Call.gets key) c = let (v, c') = get key now c in (value v, c')
perform now (Call.asks_for key) c = let (b, c') = contains key now c in (present b, c')
perform now Call.evicts_expired c = (done, (evict_expired now c).1)
perform now Call.clears c = (done, clear c)

unfoldable pub run : List (ℕ × Call) → Cache → List Reply × Cache
run [] c = ([], c)
run ((now, call) ∷ calls) c =
    let (reply, c') = perform now call c in
    let (replies, last) = run calls c' in (reply ∷ replies, last)
