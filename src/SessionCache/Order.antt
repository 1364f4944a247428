-- ===== src/SessionCache/Order.antt =====
-- The cache's limit, and whom it costs.
use local_mind.Base.{
  ℕ, ◌+◌, ◌≤◌, ◌<◌, ◌≡◌, refl, ap, subst, ◌∙◌, Bool, true, List, [], ◌∷◌, ◌++◌, Option, none, some,
  inl, inr, arith, ltb, get_or, fetchone, delete, insert, length, All, All-right, ◌-◌, ==_refl,
  Pairwise, Pairwise-snoc, Bool-cases, Option-cases,
}
use local_mind.SessionCache.{
  SessionEntry, Cache, is_expired, has_key, move_to_end, evict_lru, fresh_entry, put_entry, put,
  get,
}
use local_mind.SessionCache.Store.{
  All-delete, Pairwise-delete, length-insert, fetchone-move_to_end, evict_lru_within,
  length-evict_lru, length-delete_le,
}
use local_mind.SessionCache.Simulation.{written}

-- The least recently used first.
abbrev pub InOrder : List SessionEntry → Type 0
InOrder store = Pairwise (λ a b. a.accessed_at ≤ b.accessed_at) store

abbrev pub Before : (now : ℕ) → List SessionEntry → Type 0
Before now store = All (λ e. e.accessed_at ≤ now) store

insert-InOrder :
    (e : SessionEntry) (store : List SessionEntry)
    → InOrder store
    → Before e.accessed_at store
    → InOrder (insert e store)
insert-InOrder e store order before =
    Pairwise-snoc (λ a b. a.accessed_at ≤ b.accessed_at) store e order before

pub move_to_end-InOrder :
    (e : SessionEntry) (store : List SessionEntry)
    → InOrder store
    → Before e.accessed_at store
    → InOrder (move_to_end e store)
move_to_end-InOrder e store order before =
    insert-InOrder e (delete (has_key e.key) store) (Pairwise-delete _ (has_key e.key) store order)
      (All-delete _ (has_key e.key) store before)

pub put_entry-InOrder :
    (key val category ttl now : ℕ) (store : List SessionEntry)
    → InOrder store
    → Before now store
    → InOrder (put_entry key val category ttl now store)
put_entry-InOrder key val category ttl now store order before =
    elim (Option-cases (fetchone (has_key key) store)) [
      | inl n ↦
          rw (n, put_entry)
            (insert-InOrder (fresh_entry key val category ttl now) store order before)
      | inr (e, s) ↦
          let e' : SessionEntry = record e {
            key = key;
            value = val;
            category = category;
            accessed_at = now;
            access_count = e.access_count + 1;
            ttl = ttl;
          } in
          rw (s, put_entry) (move_to_end-InOrder e' store order before)
    ]

pub evict_lru-split :
    (n : ℕ) (store : List SessionEntry)
    → (gone : List SessionEntry) × (store ≡ gone ++ evict_lru n store)
      × (length gone ≡ length store - n)
evict_lru-split n [] = ([], refl, omega arith)
evict_lru-split n (e ∷ store) = elim (Bool-cases (ltb n (length (e ∷ store)))) [
  | inl t ↦
      let (gone, same, count) = evict_lru-split n store in
      (e ∷ gone, rw t (ap (λ xs. e ∷ xs) same), ground (arith, count))
  | inr f ↦ ([], rw f refl, ground arith)
]

older :
    (gone kept : List SessionEntry)
    → InOrder (gone ++ kept)
    → All (λ g. All (λ e. g.accessed_at ≤ e.accessed_at) kept) gone
older [] kept h = tt
older (g ∷ gone) kept h =
    (All-right (λ e. g.accessed_at ≤ e.accessed_at) gone kept h.0, older gone kept h.1)

-- A put evicts the least recently used entries, and only as many as the limit asks for: what the cache
-- then has is the rest of what it had with the new entry, no entry that is gone was used after one that
-- is left, and none is gone where there is room.
pub put-evicts_oldest :
    (key val category now : ℕ) (ttl : Option ℕ) (c : Cache)
    → InOrder c.store
    → All (λ e. e.accessed_at ≤ now) c.store
    → let c' = put key val category ttl now c in
      let all = put_entry key val category (get_or ttl c.default_ttl) now c.store in
      (length c'.store ≤ c.max_size)
      × ((gone : List SessionEntry) × (all ≡ gone ++ c'.store)
          × All (λ g. All (λ e. g.accessed_at ≤ e.accessed_at) c'.store) gone
          × (length gone ≡ length all - c.max_size))
unfolding put
put-evicts_oldest key val category now ttl c order before =
    let all = put_entry key val category (get_or ttl c.default_ttl) now c.store in
    let ordered =
      put_entry-InOrder key val category (get_or ttl c.default_ttl) now c.store order before in
    let (gone, same, count) = evict_lru-split c.max_size all in
    (
      length-evict_lru c.max_size all,
      (gone, same, older gone (evict_lru c.max_size all) (subst InOrder same ordered), count),
    )

pub fetchone-delete_lt :
    (p : SessionEntry → Bool) (store : List SessionEntry) (e : SessionEntry)
    → fetchone p store ≡ some e
    → length (delete p store) < length store
fetchone-delete_lt p [] e h = cc
fetchone-delete_lt p (x ∷ store) e h =
    ground (arith, fetchone-delete_lt p store e, length-delete_le p store)

get_expired :
    (key now : ℕ) (c : Cache) (e : SessionEntry)
    → fetchone (has_key key) c.store ≡ some e
    → is_expired now e ≡ true
    → (get key now c).0 ≡ none
unfolding get
get_expired key now c e s t = rw (s, t, get) refl

-- A put under a key that the cache has keeps the time at which the key came in: where the lifetime of the
-- new text, counted from then, is over, the get that follows at once finds nothing, and drops the text.
pub put-get_stale :
    (key val category now : ℕ) (ttl : Option ℕ) (c : Cache) (e : SessionEntry)
    → fetchone (has_key key) c.store ≡ some e
    → length c.store ≤ c.max_size
    → e.created_at + get_or ttl c.default_ttl < now
    → (get key now (put key val category ttl now c)).0 ≡ none
unfolding put
put-get_stale key val category now ttl c e s size over =
    let life = get_or ttl c.default_ttl in
    let w = written key val category life now e in
    let fewer = fetchone-delete_lt (has_key key) c.store e s in
    let moved = move_to_end w c.store in
    let small : length moved ≤ c.max_size =
      omega (arith, length-insert w (delete (has_key key) c.store)) in
    let stored : put_entry key val category life now c.store ≡ moved = rw (s, put_entry) refl in
    let same = ap (evict_lru c.max_size) stored ∙ evict_lru_within c.max_size moved small in
    let hit : fetchone (has_key key) moved ≡ some w =
      fetchone-move_to_end w key c.store ∙ rw (==_refl key) refl in
    get_expired key now (put key val category ttl now c) w (ap (fetchone (has_key key)) same ∙ hit)
      (ground arith)
