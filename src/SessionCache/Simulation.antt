-- ===== src/SessionCache/Simulation.antt =====
-- What relates the entries of the cache and the map of Ideal.
use local_mind.Base.{
  ℕ, suc, ◌+◌, ◌≤◌, ◌≡◌, refl, ap, sym, ◌∙◌, Bool, true, false, List, Option, none, some, inl, inr,
  arith, ◌==◌, if◌then◌else◌, fetchone, length, Option-cases,
}
use local_mind.SessionCache.{SessionEntry, has_key, fresh_entry, put_entry}
use local_mind.SessionCache.Store.{
  Unique, live, fetchone-insert_entry, fetchone-move_to_end, length-insert, length-move_to_end,
  Unique-insert, Unique-move_to_end,
}
use local_mind.SessionCache.Ideal.{Cell, Map, live_cell, created_or, put_cell}

abbrev pub cell : Option SessionEntry → Option Cell
cell none = none
cell (some e) = some (record { value = e.value; created_at = e.created_at; ttl = e.ttl })

-- Each key finds the same in both.
abbrev pub Agrees : List SessionEntry → Map → Type 0
Agrees store m = (k : ℕ) → cell (fetchone (has_key k) store) ≡ m k

pub cell-live : (now : ℕ) (o : Option SessionEntry) → cell (live now o) ≡ live_cell now (cell o)
cell-live now none = refl
cell-live now (some e) = ground arith

pub cell-if :
    (b : Bool) (e : SessionEntry) (c : Cell) (o : Option SessionEntry) (d : Option Cell)
    → cell (some e) ≡ some c
    → cell o ≡ d
    → cell (if b then some e else o) ≡ (if b then some c else d)
cell-if true e c o d h k = h
cell-if false e c o d h k = k

pub cell-drop :
    (b : Bool) (o : Option SessionEntry) (d : Option Cell)
    → cell o ≡ d
    → cell (if b then none else o) ≡ (if b then none else d)
cell-drop true o d k = refl
cell-drop false o d k = k

-- The entry that a put writes.
abbrev pub written : (key val category ttl now : ℕ) → SessionEntry → SessionEntry
written key val category ttl now e = record e {
  key = key;
  value = val;
  category = category;
  accessed_at = now;
  access_count = e.access_count + 1;
  ttl = ttl;
}

module _ (key val category ttl now : ℕ) (store : List SessionEntry) where
  pub put_entry-Agrees :
      (m : Map)
      → Agrees store m
      → Agrees (put_entry key val category ttl now store) (put_cell key val ttl now m)
  put_entry-Agrees m h k = elim (Option-cases (fetchone (has_key key) store)) [
    | inl n ↦
        let e = fresh_entry key val category ttl now in
        let none_yet : m key ≡ none = sym (h key) ∙ ap cell n in
        rw (n, put_entry)
          (ap cell (fetchone-insert_entry e k store n)
            ∙ cell-if (key == k) e
                (record { value = val; created_at = created_or now (m key); ttl = ttl })
                (fetchone (has_key k) store) (m k) (rw none_yet refl) (h k))
    | inr (e, s) ↦
        let e' = written key val category ttl now e in
        let there = sym (h key) ∙ ap cell s in
        rw (s, put_entry)
          (ap cell (fetchone-move_to_end e' k store)
            ∙ cell-if (key == k) e'
                (record { value = val; created_at = created_or now (m key); ttl = ttl })
                (fetchone (has_key k) store) (m k) (rw there refl) (h k))
  ]

  pub put_entry-Unique : Unique store → Unique (put_entry key val category ttl now store)
  put_entry-Unique u = elim (Option-cases (fetchone (has_key key) store)) [
    | inl n ↦ rw (n, put_entry) (Unique-insert (fresh_entry key val category ttl now) store n u)
    | inr (e, s) ↦
        rw (s, put_entry) (Unique-move_to_end (written key val category ttl now e) store u)
  ]

  pub put_entry-length : length (put_entry key val category ttl now store) ≤ suc (length store)
  put_entry-length = elim (Option-cases (fetchone (has_key key) store)) [
    | inl n ↦
        rw (n, put_entry)
          (omega (arith, length-insert (fresh_entry key val category ttl now) store))
    | inr (e, s) ↦
        rw (s, put_entry)
          (omega (arith, length-move_to_end (written key val category ttl now e) store))
  ]
