-- ===== src/SessionCache/Invariant.antt =====
-- What holds of a cache after any use.
use local_mind.Base.{
  ℕ, ◌+◌, ◌≤◌, ◌≡◌, refl, sym, subst, Bool, true, false, List, [], ◌∷◌, Option, none, some, inl,
  inr, arith, get_or, fetchone, delete, length, All, All-mono, All-append, All-right, Bool-cases,
  Option-cases,
}
use local_mind.SessionCache.{
  SessionEntry, Cache, Call, is_expired, has_key, move_to_end, evict_lru, fresh_entry, put_entry,
  put, get, contains, evict_expired, clear, perform, run,
}
use local_mind.SessionCache.Store.{
  Unique, All-delete, Unique-move_to_end, Pairwise-delete, Pairwise-evict_lru, length-insert,
  length-evict_lru, length-delete_le,
}
use local_mind.SessionCache.Simulation.{put_entry-Unique}
use local_mind.SessionCache.Order.{
  InOrder, Before, move_to_end-InOrder, put_entry-InOrder, evict_lru-split, fetchone-delete_lt,
}

-- The clock of the calls does not go back.
abbrev pub Clock : (since : ℕ) → List (ℕ × Call) → Type 0
Clock since [] = Unit
Clock since ((now, call) ∷ calls) = (since ≤ now) × Clock now calls

-- What every cache satisfies that a client has used until `now`.
abbrev pub IsCache : (now : ℕ) → Cache → Type 0
IsCache now c =
    Unique c.store
    × (length c.store ≤ c.max_size)
    × InOrder c.store
    × All (λ e. e.accessed_at ≤ now) c.store

later : (since now : ℕ) (c : Cache) → since ≤ now → IsCache since c → IsCache now c
later since now c le (u, size, order, before) =
    (u, size, order, All-mono _ _ c.store (λ e b. omega arith) before)

delete-IsCache :
    (now : ℕ) (p : SessionEntry → Bool) (c : Cache)
    → IsCache now c
    → IsCache now (record c { store = delete p c.store })
delete-IsCache now p c (u, size, order, before) = (
  Pairwise-delete _ p c.store u,
  omega (arith, length-delete_le p c.store),
  Pairwise-delete _ p c.store order,
  All-delete _ p c.store before,
)

-- An entry that is used is moved.
move_to_end-IsCache :
    (now : ℕ) (c : Cache) (old e : SessionEntry)
    → fetchone (has_key e.key) c.store ≡ some old
    → e.accessed_at ≡ now
    → IsCache now c
    → IsCache now (record c { store = move_to_end e c.store })
move_to_end-IsCache now c old e there used (u, size, order, before) =
    let fewer = fetchone-delete_lt (has_key e.key) c.store old there in
    let rest = All-delete (λ x. x.accessed_at ≤ now) (has_key e.key) c.store before in
    (
      Unique-move_to_end e c.store u,
      omega (arith, length-insert e (delete (has_key e.key) c.store)),
      move_to_end-InOrder e c.store order (subst (λ n. Before n c.store) (sym used) before),
      All-append (λ x. x.accessed_at ≤ now) (delete (has_key e.key) c.store) (e ∷ []) rest
          (omega arith, tt),
    )

get-IsCache : (key now : ℕ) (c : Cache) → IsCache now c → IsCache now (get key now c).1
unfolding get
get-IsCache key now c inv =
    let Fine : Option ℕ × Cache → Type 0 = λ g. IsCache now g.1 in
    elim (Option-cases (fetchone (has_key key) c.store)) [
      | inl n ↦ let same : get key now c ≡ (none, c) = rw (n, get) refl in subst Fine (sym same) inv
      | inr (e, s) ↦ elim (Bool-cases (is_expired now e)) [
        | inl t ↦
            let same : get key now c ≡ (none, record c { store = delete (has_key key) c.store }) =
              rw (s, t, get) refl in
            subst Fine (sym same) (delete-IsCache now (has_key key) c inv)
        | inr f ↦
            let e' : SessionEntry = record e {
              key = key;
              accessed_at = now;
              access_count = e.access_count + 1;
            } in
            let same : get key now c ≡ (some e.value, record c { store = move_to_end e' c.store }) =
              rw (s, f, get) refl in
            subst Fine (sym same) (move_to_end-IsCache now c e e' s refl inv)
      ]
    ]

contains-IsCache : (key now : ℕ) (c : Cache) → IsCache now c → IsCache now (contains key now c).1
unfolding contains
contains-IsCache key now c inv =
    let Fine : Bool × Cache → Type 0 = λ g. IsCache now g.1 in
    elim (Option-cases (fetchone (has_key key) c.store)) [
      | inl n ↦
          let same : contains key now c ≡ (false, c) = rw (n, contains) refl in
          subst Fine (sym same) inv
      | inr (e, s) ↦ elim (Bool-cases (is_expired now e)) [
        | inl t ↦
            let same : contains key now c
                ≡ (false, record c { store = delete (has_key key) c.store }) =
              rw (s, t, contains) refl in
            subst Fine (sym same) (delete-IsCache now (has_key key) c inv)
        | inr f ↦
            let same : contains key now c ≡ (true, c) = rw (s, f, contains) refl in
            subst Fine (sym same) inv
      ]
    ]

put_entry-Before :
    (key val category ttl now : ℕ) (store : List SessionEntry)
    → Before now store
    → Before now (put_entry key val category ttl now store)
put_entry-Before key val category ttl now store before =
    elim (Option-cases (fetchone (has_key key) store)) [
      | inl n ↦
          rw (n, put_entry)
            (All-append (λ x. x.accessed_at ≤ now) store (fresh_entry key val category ttl now ∷ [])
              before (omega arith, tt))
      | inr (e, s) ↦
          rw (s, put_entry)
            (All-append (λ x. x.accessed_at ≤ now) (delete (has_key key) store) _
              (All-delete (λ x. x.accessed_at ≤ now) (has_key key) store before) (omega arith, tt))
    ]

put-IsCache :
    (key val category now : ℕ) (ttl : Option ℕ) (c : Cache)
    → IsCache now c
    → IsCache now (put key val category ttl now c)
unfolding put
put-IsCache key val category now ttl c (u, size, order, before) =
    let life = get_or ttl c.default_ttl in
    let all = put_entry key val category life now c.store in
    let split = evict_lru-split c.max_size all in
    (
      Pairwise-evict_lru _ c.max_size all (put_entry-Unique key val category life now c.store u),
      length-evict_lru c.max_size all,
      Pairwise-evict_lru _ c.max_size all
          (put_entry-InOrder key val category life now c.store order before),
      All-right (λ e. e.accessed_at ≤ now) split.0 (evict_lru c.max_size all)
          (subst (Before now) split.1 (put_entry-Before key val category life now c.store before)),
    )

evict_expired-IsCache : (now : ℕ) (c : Cache) → IsCache now c → IsCache now (evict_expired now c).1
unfolding evict_expired
evict_expired-IsCache now c inv = delete-IsCache now (is_expired now) c inv

clear-IsCache : (now : ℕ) (c : Cache) → IsCache now (clear c)
unfolding clear
clear-IsCache now c = (tt, omega arith, tt, tt)

perform-IsCache :
    (now : ℕ) (call : Call) (c : Cache) → IsCache now c → IsCache now (perform now call c).1
perform-IsCache now (Call.puts key val category ttl) c inv =
    put-IsCache key val category now ttl c inv
perform-IsCache now (Call.gets key) c inv = get-IsCache key now c inv
perform-IsCache now (Call.asks_for key) c inv = contains-IsCache key now c inv
perform-IsCache now Call.evicts_expired c inv = evict_expired-IsCache now c inv
perform-IsCache now Call.clears c inv = clear-IsCache now c

run-keeps_cache :
    (calls : List (ℕ × Call)) (since : ℕ) (c : Cache)
    → Clock since calls
    → IsCache since c
    → let last = (run calls c).1 in
      Unique last.store × (length last.store ≤ last.max_size) × InOrder last.store
unfolding run
run-keeps_cache [] since c clock (u, size, order, before) = (u, size, order)
run-keeps_cache ((now, call) ∷ calls) since c (le, clock) inv =
    run-keeps_cache calls now (perform now call c).1 clock
      (perform-IsCache now call c (later since now c le inv))

-- However an empty cache is used, under a clock that does not go back, it never has more entries than its
-- limit, nor two of one key, and its entries stand in the order in which they were last used.
pub run-InOrder :
    (calls : List (ℕ × Call)) (max_size default_ttl : ℕ)
    → Clock 0 calls
    → let last =
        (run calls (record { store = []; max_size = max_size; default_ttl = default_ttl })).1 in
      Unique last.store × (length last.store ≤ last.max_size) × InOrder last.store
run-InOrder calls max_size default_ttl clock =
    run-keeps_cache calls 0 (record { store = []; max_size = max_size; default_ttl = default_ttl })
      clock (tt, omega arith, tt, tt)
