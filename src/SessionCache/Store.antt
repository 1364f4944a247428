-- ===== src/SessionCache/Store.antt =====
-- What the operations make of the entries: which one a key finds, how many there are, and that no two
-- have one key.
use local_mind.Base.{
  ℕ, suc, ◌≤◌, ◌≡◌, refl, ◌∙◌, Bool, true, false, List, [], ◌∷◌, Option, none, some, inl, inr,
  arith, ltb, ◌==◌, if◌then◌else◌, fetchone, delete, insert, length, length-append, length-delete,
  fetchone-delete_self, fetchone-none-All, All, All-mono, Pairwise, Pairwise-snoc, Bool-cases,
}
use local_mind.SessionCache.{SessionEntry, is_expired, has_key, move_to_end, evict_lru}

-- No two entries have one key.
abbrev pub Unique : List SessionEntry → Type 0
Unique store = Pairwise (λ a b. (b.key == a.key) ≡ false) store

pub fetchone-delete_key :
    (key k : ℕ) (store : List SessionEntry)
    → fetchone (has_key k) (delete (has_key key) store)
      ≡ (if key == k then none else fetchone (has_key k) store)
fetchone-delete_key key k [] = ground arith
fetchone-delete_key key k (e ∷ store) = ground (arith, fetchone-delete_key key k store)

pub fetchone-insert_entry :
    (e : SessionEntry) (k : ℕ) (store : List SessionEntry)
    → fetchone (has_key e.key) store ≡ none
    → fetchone (has_key k) (insert e store)
      ≡ (if e.key == k then some e else fetchone (has_key k) store)
fetchone-insert_entry e k [] h = ground arith
fetchone-insert_entry e k (x ∷ store) h = ground (arith, fetchone-insert_entry e k store)

pub fetchone-move_to_end :
    (e : SessionEntry) (k : ℕ) (store : List SessionEntry)
    → fetchone (has_key k) (move_to_end e store)
      ≡ (if e.key == k then some e else fetchone (has_key k) store)
fetchone-move_to_end e k store =
    let free = fetchone-delete_self (has_key e.key) store in
    let moved = fetchone-insert_entry e k (delete (has_key e.key) store) free in
    let others = fetchone-delete_key e.key k store in
    elim (Bool-cases (e.key == k)) [
      | inl t ↦ moved ∙ rw t refl
      | inr f ↦ moved ∙ rw f (others ∙ rw f refl)
    ]

-- What is left of an entry that may have expired.
abbrev pub live : (now : ℕ) → Option SessionEntry → Option SessionEntry
live now none = none
live now (some e) = if is_expired now e then none else some e

fetchone-other :
    (key k : ℕ) (store : List SessionEntry)
    → (key == k) ≡ true
    → All (λ b. (b.key == key) ≡ false) store
    → fetchone (has_key k) store ≡ none
fetchone-other key k [] e h = refl
fetchone-other key k (x ∷ store) e h =
    let rest = fetchone-other key k store e h.1 in ground (arith, h.0, rest)

pub fetchone-delete_expired :
    (now k : ℕ) (store : List SessionEntry)
    → Unique store
    → fetchone (has_key k) (delete (is_expired now) store) ≡ live now (fetchone (has_key k) store)
fetchone-delete_expired now k [] h = refl
fetchone-delete_expired now k (e ∷ store) h = elim (Bool-cases (e.key == k)) [
  | inl t ↦
      let alone = fetchone-other e.key k store t h.0 in
      ground (arith, fetchone-delete_expired now k store h.1, alone)
  | inr f ↦ ground (arith, fetchone-delete_expired now k store h.1)
]

pub All-delete {κ} :
    (P : SessionEntry → Type κ) (p : SessionEntry → Bool) (store : List SessionEntry)
    → All P store
    → All P (delete p store)
All-delete P p [] h = tt
All-delete P p (e ∷ store) h = elim (Bool-cases (p e)) [
  | inl t ↦ rw t (All-delete P p store h.1)
  | inr f ↦ rw f (h.0, All-delete P p store h.1)
]

pub Pairwise-delete :
    (R : SessionEntry → SessionEntry → Type 0) (p : SessionEntry → Bool) (store : List SessionEntry)
    → Pairwise R store
    → Pairwise R (delete p store)
Pairwise-delete R p [] h = tt
Pairwise-delete R p (e ∷ store) h = elim (Bool-cases (p e)) [
  | inl t ↦ rw t (Pairwise-delete R p store h.1)
  | inr f ↦ rw f (All-delete (R e) p store h.0, Pairwise-delete R p store h.1)
]

pub Unique-insert :
    (e : SessionEntry) (store : List SessionEntry)
    → fetchone (has_key e.key) store ≡ none
    → Unique store
    → Unique (insert e store)
Unique-insert e store h u =
    Pairwise-snoc (λ a b. (b.key == a.key) ≡ false) store e u
      (All-mono _ _ store (λ x k. ground (arith, k)) (fetchone-none-All (has_key e.key) store h))

pub Pairwise-evict_lru :
    (R : SessionEntry → SessionEntry → Type 0) (n : ℕ) (store : List SessionEntry)
    → Pairwise R store
    → Pairwise R (evict_lru n store)
Pairwise-evict_lru R n [] h = tt
Pairwise-evict_lru R n (e ∷ store) h = elim (Bool-cases (ltb n (length (e ∷ store)))) [
  | inl t ↦ rw t (Pairwise-evict_lru R n store h.1)
  | inr f ↦ rw f h
]

pub length-evict_lru : (n : ℕ) (store : List SessionEntry) → length (evict_lru n store) ≤ n
length-evict_lru n [] = omega arith
length-evict_lru n (e ∷ store) = ground (arith, length-evict_lru n store)

-- A cache within its limit evicts nothing.
pub evict_lru_within :
    (n : ℕ) (store : List SessionEntry) → length store ≤ n → evict_lru n store ≡ store
evict_lru_within n [] le = refl
evict_lru_within n (e ∷ store) le = ground arith

pub length-delete_le :
    (p : SessionEntry → Bool) (store : List SessionEntry) → length (delete p store) ≤ length store
length-delete_le p store = omega (arith, length-delete p store)

pub length-insert :
    (e : SessionEntry) (store : List SessionEntry) → length (insert e store) ≡ suc (length store)
length-insert e store = omega (arith, length-append store (e ∷ []))

pub length-move_to_end :
    (e : SessionEntry) (store : List SessionEntry)
    → length (move_to_end e store) ≤ suc (length store)
length-move_to_end e store =
    omega (
      arith,
      length-insert e (delete (has_key e.key) store),
      length-delete_le (has_key e.key) store,
    )

pub Unique-move_to_end :
    (e : SessionEntry) (store : List SessionEntry) → Unique store → Unique (move_to_end e store)
Unique-move_to_end e store u =
    Unique-insert e (delete (has_key e.key) store) (fetchone-delete_self (has_key e.key) store)
      (Pairwise-delete _ (has_key e.key) store u)
