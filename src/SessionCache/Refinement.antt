-- ===== src/SessionCache/Refinement.antt =====
-- While it is not full, the cache is the map of Ideal.
use local_mind.Base.{
  ℕ, suc, ◌+◌, ◌≤◌, ◌<◌, ◌≡◌, refl, ap, sym, subst, ◌∙◌, Bool, true, false, not, List, [], ◌∷◌,
  Option, none, some, inl, inr, arith, ◌==◌, ==_iff, get_or, is_none, if◌then◌else◌, fetchone,
  delete, length, Bool-cases, Option-cases,
}
use local_mind.SessionCache.{
  SessionEntry, Cache, Call, Reply, is_expired, has_key, move_to_end, put_entry, put, get, contains,
  evict_expired, clear, perform, run,
}
use local_mind.SessionCache.Store.{
  Unique, live, fetchone-delete_key, fetchone-move_to_end, fetchone-delete_expired,
  length-move_to_end, Unique-move_to_end, Pairwise-delete, evict_lru_within, length-delete_le,
}
use local_mind.SessionCache.Ideal.{
  Cell, Map, empty, live_cell, value_of, look_at, perform_ideal, run_ideal,
}
use local_mind.SessionCache.Simulation.{
  cell, Agrees, cell-live, cell-if, cell-drop, put_entry-Agrees, put_entry-Unique, put_entry-length,
}

-- What one call leaves: the same reply, the same map, and at most one entry more.
abbrev Simulates : Cache → (Reply × Cache) → (Reply × Map) → Type 0
Simulates c r i =
    (r.0 ≡ i.0)
    × Agrees r.1.store i.1
    × Unique r.1.store
    × (length r.1.store ≤ suc (length c.store))
    × (r.1.max_size ≡ c.max_size)
    × (r.1.default_ttl ≡ c.default_ttl)

module _ (now : ℕ) (c : Cache) (m : Map) (h : Agrees c.store m) (u : Unique c.store) where
  put-Simulates :
      (key val category : ℕ) (ttl : Option ℕ)
      → length c.store < c.max_size
      → Simulates c
          (perform now (Call.puts key val category ttl) c)
          (perform_ideal c.default_ttl now (Call.puts key val category ttl) m)
  unfolding put
  put-Simulates key val category ttl lt =
      let life = get_or ttl c.default_ttl in
      let store' = put_entry key val category life now c.store in
      let le = put_entry-length key val category life now c.store in
      let same = evict_lru_within c.max_size store' (omega arith) in
      rw same (
        refl,
        put_entry-Agrees key val category life now c.store m h,
        put_entry-Unique key val category life now c.store u,
        le,
        refl,
        refl,
      )

  -- A key whose cell is the same after the look.
  kept-Agrees : (key : ℕ) → live_cell now (m key) ≡ m key → Agrees c.store (look_at key now m)
  kept-Agrees key same k = elim (Bool-cases (key == k)) [
    | inl t ↦ rw (t, look_at) (h k ∙ ap m (sym ((==_iff key k).0 t)) ∙ sym same)
    | inr f ↦ rw (f, look_at) (h k)
  ]

  dropped-Agrees :
      (key : ℕ)
      → live_cell now (m key) ≡ none
      → Agrees (delete (has_key key) c.store) (look_at key now m)
  dropped-Agrees key dead k =
      ap cell (fetchone-delete_key key k c.store)
      ∙ cell-drop (key == k) (fetchone (has_key k) c.store) (m k) (h k)
      ∙ rw (dead, look_at) refl

  touched-Agrees :
      (key : ℕ) (e : SessionEntry) (d : Cell)
      → e.key ≡ key
      → cell (some e) ≡ some d
      → live_cell now (m key) ≡ some d
      → Agrees (move_to_end e c.store) (look_at key now m)
  touched-Agrees key e d same there alive k =
      ap cell (fetchone-move_to_end e k c.store)
      ∙ cell-if (e.key == k) e d (fetchone (has_key k) c.store) (m k) there (h k)
      ∙ rw (alive, look_at) (ap (λ x. if x == k then some d else m k) same)

  -- What the map has of a key that the store has.
  found-live :
      (key : ℕ) (e : SessionEntry)
      → fetchone (has_key key) c.store ≡ some e
      → live_cell now (m key) ≡ cell (live now (some e))
  found-live key e s = ap (live_cell now) (sym (h key) ∙ ap cell s) ∙ sym (cell-live now (some e))

  missing-live : (key : ℕ) → fetchone (has_key key) c.store ≡ none → m key ≡ none
  missing-live key n = sym (h key) ∙ ap cell n

  get-Simulates :
      (key : ℕ)
      → Simulates c
          (perform now (Call.gets key) c)
          (perform_ideal c.default_ttl now (Call.gets key) m)
  unfolding get
  get-Simulates key =
      let i = perform_ideal c.default_ttl now (Call.gets key) m in
      let Told : Option ℕ × Cache → Type 0 = λ g. Simulates c (Reply.value g.0, g.1) i in
      elim (Option-cases (fetchone (has_key key) c.store)) [
        | inl n ↦
            let gone = missing-live key n in
            let dead : live_cell now (m key) ≡ none = rw gone refl in
            subst Told {x = (none, c)} (rw (n, get) refl) (
              ap (λ o. Reply.value (value_of o)) (sym dead),
              kept-Agrees key (dead ∙ sym gone),
              u,
              omega arith,
              refl,
              refl,
            )
        | inr (e, s) ↦ elim (Bool-cases (is_expired now e)) [
          | inl t ↦
              let dead : live_cell now (m key) ≡ none = found-live key e s ∙ rw (t, live) refl in
              subst Told {x = (none, record c { store = delete (has_key key) c.store })}
                (rw (s, t, get) refl)
                (
                  ap (λ o. Reply.value (value_of o)) (sym dead),
                  dropped-Agrees key dead,
                  Pairwise-delete _ (has_key key) c.store u,
                  omega (arith, length-delete_le (has_key key) c.store),
                  refl,
                  refl,
                )
          | inr f ↦
              let d : Cell = record { value = e.value; created_at = e.created_at; ttl = e.ttl } in
              let alive : live_cell now (m key) ≡ some d = found-live key e s ∙ rw (f, live) refl in
              let e' : SessionEntry = record e {
                key = key;
                accessed_at = now;
                access_count = e.access_count + 1;
              } in
              subst Told {x = (some e.value, record c { store = move_to_end e' c.store })}
                (rw (s, f, get) refl)
                (
                  ap (λ o. Reply.value (value_of o)) (sym alive),
                  touched-Agrees key e' d refl refl alive,
                  Unique-move_to_end e' c.store u,
                  length-move_to_end e' c.store,
                  refl,
                  refl,
                )
        ]
      ]

  contains-Simulates :
      (key : ℕ)
      → Simulates c
          (perform now (Call.asks_for key) c)
          (perform_ideal c.default_ttl now (Call.asks_for key) m)
  unfolding contains
  contains-Simulates key =
      let i = perform_ideal c.default_ttl now (Call.asks_for key) m in
      let Told : Bool × Cache → Type 0 = λ g. Simulates c (Reply.present g.0, g.1) i in
      let said : Option Cell → Reply = λ o. Reply.present (not (is_none o)) in
      elim (Option-cases (fetchone (has_key key) c.store)) [
        | inl n ↦
            let gone = missing-live key n in
            let dead : live_cell now (m key) ≡ none = rw gone refl in
            subst Told {x = (false, c)} (rw (n, contains) refl)
              (ap said (sym dead), kept-Agrees key (dead ∙ sym gone), u, omega arith, refl, refl)
        | inr (e, s) ↦ elim (Bool-cases (is_expired now e)) [
          | inl t ↦
              let dead : live_cell now (m key) ≡ none = found-live key e s ∙ rw (t, live) refl in
              subst Told {x = (false, record c { store = delete (has_key key) c.store })}
                (rw (s, t, contains) refl)
                (
                  ap said (sym dead),
                  dropped-Agrees key dead,
                  Pairwise-delete _ (has_key key) c.store u,
                  omega (arith, length-delete_le (has_key key) c.store),
                  refl,
                  refl,
                )
          | inr f ↦
              let alive = found-live key e s ∙ rw (f, live) refl in
              subst Told {x = (true, c)} (rw (s, f, contains) refl) (
                ap said (sym alive),
                kept-Agrees key (alive ∙ sym (ap cell s) ∙ h key),
                u,
                omega arith,
                refl,
                refl,
              )
        ]
      ]

  evict_expired-Simulates :
      Simulates c
        (perform now Call.evicts_expired c)
        (perform_ideal c.default_ttl now Call.evicts_expired m)
  unfolding evict_expired
  evict_expired-Simulates = (
    refl,
    (λ k.
        ap cell (fetchone-delete_expired now k c.store u)
        ∙ cell-live now (fetchone (has_key k) c.store)
        ∙ ap (live_cell now) (h k)),
    Pairwise-delete _ (is_expired now) c.store u,
    omega (arith, length-delete_le (is_expired now) c.store),
    refl,
    refl,
  )

  clear-Simulates :
      Simulates c (perform now Call.clears c) (perform_ideal c.default_ttl now Call.clears m)
  unfolding clear
  clear-Simulates = (refl, (λ k. refl), tt, omega arith, refl, refl)

perform-Simulates :
    (now : ℕ) (call : Call) (c : Cache) (m : Map)
    → Agrees c.store m
    → Unique c.store
    → length c.store < c.max_size
    → Simulates c (perform now call c) (perform_ideal c.default_ttl now call m)
perform-Simulates now (Call.puts key val category ttl) c m h u lt =
    put-Simulates now c m h u key val category ttl lt
perform-Simulates now (Call.gets key) c m h u lt = get-Simulates now c m h u key
perform-Simulates now (Call.asks_for key) c m h u lt = contains-Simulates now c m h u key
perform-Simulates now Call.evicts_expired c m h u lt = evict_expired-Simulates now c m h u
perform-Simulates now Call.clears c m h u lt = clear-Simulates now c m h u

run-ideal :
    (calls : List (ℕ × Call)) (c : Cache) (m : Map)
    → Agrees c.store m
    → Unique c.store
    → length c.store + length calls ≤ c.max_size
    → (run calls c).0 ≡ run_ideal c.default_ttl calls m
unfolding run run_ideal
run-ideal [] c m h u le = refl
run-ideal ((now, call) ∷ calls) c m h u le =
    let (reply, agrees, unique, longer, size, life) =
      perform-Simulates now call c m h u (omega arith) in
    let c' = (perform now call c).1 in
    let m' = (perform_ideal c.default_ttl now call m).1 in
    let rest = run-ideal calls c' m' agrees unique (omega arith) in
    ap (λ r. r ∷ (run calls c').0) reply
    ∙ ap (λ rs. (perform_ideal c.default_ttl now call m).0 ∷ rs)
        (rest ∙ ap (λ d. run_ideal d calls m') life)

-- An empty cache answers any sequence of calls, at any times, as the map does, as long as no more calls
-- come than it has room for: each get and each membership test gives the text that was put last under
-- the key, or nothing where the lifetime of that key is over, and the evictions of expired entries in
-- between are not seen.
pub run-run_ideal :
    (calls : List (ℕ × Call)) (max_size default_ttl : ℕ)
    → length calls ≤ max_size
    → (run calls (record { store = []; max_size = max_size; default_ttl = default_ttl })).0
      ≡ run_ideal default_ttl calls empty
run-run_ideal calls max_size default_ttl le =
    run-ideal calls (record { store = []; max_size = max_size; default_ttl = default_ttl }) empty
      (λ k. refl) tt (omega arith)
