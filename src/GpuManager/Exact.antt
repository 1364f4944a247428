-- ===== src/GpuManager/Exact.antt =====
-- The VRAM of the loaded models, and how the dict operations change it.
use local_mind.Base.{
  ℕ, ◌+◌, ◌≤◌, ◌≡◌, ◌≢◌, refl, true, List, [], ◌∷◌, none, some, arith, All, Pairwise, Memᴰ,
  Bool-cases, inl, inr, All-mem, ap, ◌∙◌,
}
use local_mind.GpuManager.{
  Text, ModelSlot, GpuManager, eq_text, starts_with, find, assign, delete_key, delete_all,
  find_prefix,
}

pub eq_text→eq : (s t : Text) → eq_text s t ≡ true → s ≡ t
eq_text→eq [] [] h = refl
eq_text→eq [] (d ∷ t) h = cc
eq_text→eq (c ∷ s) [] h = cc
eq_text→eq (c ∷ s) (d ∷ t) h = ground (arith, eq_text→eq s t)

pub eq_text_refl : (s : Text) → eq_text s s ≡ true
eq_text_refl [] = refl
eq_text_refl (c ∷ s) = ground (arith, eq_text_refl s)

abbrev pub Item : Type 0
Item = Text × ModelSlot

-- The VRAM of all loaded models together.
abbrev pub loaded_vram : List Item → ℕ
loaded_vram [] = 0
loaded_vram ((k, ms) ∷ items) = ms.vram_mb + loaded_vram items

-- The keys of a dict are distinct.
abbrev pub HasDistinctKeys : List Item → Type 0
HasDistinctKeys = Pairwise (λ (x y : Item). x.0 ≢ y.0)

-- What the manager means to keep: the allocated VRAM is that of the loaded models, and fits.
pub record IsExact (g : GpuManager) : Type 0 where
  pub exact : g.vram_allocated_mb ≡ loaded_vram g.loaded_models
  pub fits : g.vram_allocated_mb ≤ g.vram_total_mb
  pub distinct : HasDistinctKeys g.loaded_models

pub find-none-All :
    (key : Text) (items : List Item) → find key items ≡ none → All (λ (x : Item). x.0 ≢ key) items
find-none-All key [] h = tt
find-none-All key ((k, ms) ∷ items) h = elim (Bool-cases (eq_text k key)) [
  | inl t ↦ absurd (ground arith)
  | inr f ↦ (λ e. ground (arith, eq_text_refl key), find-none-All key items (ground arith))
]

-- Writing a new key adds its VRAM.
pub loaded_vram-assign_new :
    (key : Text) (ms : ModelSlot) (items : List Item)
    → find key items ≡ none
    → loaded_vram (assign key ms items) ≡ loaded_vram items + ms.vram_mb
loaded_vram-assign_new key ms [] h = omega arith
loaded_vram-assign_new key ms ((k, old) ∷ items) h =
    ground (arith, loaded_vram-assign_new key ms items)

-- Writing an old key trades the old model's VRAM for the new one's.
pub loaded_vram-assign_old :
    (key : Text) (ms old : ModelSlot) (items : List Item)
    → find key items ≡ some old
    → ms.vram_mb ≡ old.vram_mb
    → loaded_vram (assign key ms items) ≡ loaded_vram items
loaded_vram-assign_old key ms old [] h e = cc
loaded_vram-assign_old key ms old ((k, x) ∷ items) h e =
    ground (arith, loaded_vram-assign_old key ms old items)

All-assign :
    (P : Text → Type 0) (key : Text) (ms : ModelSlot) (items : List Item)
    → P key
    → All (λ (x : Item). P x.0) items
    → All (λ (x : Item). P x.0) (assign key ms items)
All-assign P key ms [] p h = (p, tt)
All-assign P key ms ((k, old) ∷ items) p h = elim (Bool-cases (eq_text k key)) [
  | inl t ↦ rw t h
  | inr f ↦ rw f (h.0, All-assign P key ms items p h.1)
]

pub assign-HasDistinctKeys :
    (key : Text) (ms : ModelSlot) (items : List Item)
    → HasDistinctKeys items
    → HasDistinctKeys (assign key ms items)
assign-HasDistinctKeys key ms [] h = (tt, tt)
assign-HasDistinctKeys key ms ((k, old) ∷ items) h = elim (Bool-cases (eq_text k key)) [
  | inl t ↦ rw t h
  | inr f ↦
      let differ : k ≢ key = λ e. ground (arith, eq_text_refl key) in
      rw f
        (All-assign (λ t. k ≢ t) key ms items differ h.0, assign-HasDistinctKeys key ms items h.1)
]

All-delete_key :
    (P : Item → Type 0) (key : Text) (items : List Item)
    → All P items
    → All P (delete_key key items)
All-delete_key P key [] h = tt
All-delete_key P key ((k, ms) ∷ items) h = elim (Bool-cases (eq_text k key)) [
  | inl t ↦ rw t h.1
  | inr f ↦ rw f (h.0, All-delete_key P key items h.1)
]

pub delete_key-HasDistinctKeys :
    (key : Text) (items : List Item)
    → HasDistinctKeys items
    → HasDistinctKeys (delete_key key items)
delete_key-HasDistinctKeys key [] h = tt
delete_key-HasDistinctKeys key ((k, ms) ∷ items) h = elim (Bool-cases (eq_text k key)) [
  | inl t ↦ rw t h.1
  | inr f ↦ rw f (All-delete_key _ key items h.0, delete_key-HasDistinctKeys key items h.1)
]

pub delete_all-HasDistinctKeys :
    (keys : List Text) (items : List Item)
    → HasDistinctKeys items
    → HasDistinctKeys (delete_all keys items)
delete_all-HasDistinctKeys [] items h = h
delete_all-HasDistinctKeys (k ∷ keys) items h =
    delete_all-HasDistinctKeys keys (delete_key k items) (delete_key-HasDistinctKeys k items h)

pub find-delete_key-none :
    (key k : Text) (items : List Item)
    → find key items ≡ none
    → find key (delete_key k items) ≡ none
find-delete_key-none key k [] h = refl
find-delete_key-none key k ((j, ms) ∷ items) h = ground (arith, find-delete_key-none key k items)

find_prefix-some :
    (prefix old : Text) (ms : ModelSlot) (items : List Item)
    → find_prefix prefix items ≡ some (old, ms)
    → starts_with old prefix ≡ true
find_prefix-some prefix old ms [] h = cc
find_prefix-some prefix old ms ((k, x) ∷ items) h =
    ground (arith, find_prefix-some prefix old ms items)

-- Deleting the item that `find_prefix` finds takes its VRAM away.
pub loaded_vram-delete_found :
    (prefix old : Text) (ms : ModelSlot) (items : List Item)
    → find_prefix prefix items ≡ some (old, ms)
    → loaded_vram (delete_key old items) + ms.vram_mb ≡ loaded_vram items
loaded_vram-delete_found prefix old ms [] h = cc
loaded_vram-delete_found prefix old ms ((k, x) ∷ items) h = ground (
  arith,
  eq_text→eq k old,
  eq_text_refl old,
  find_prefix-some prefix old ms items,
  loaded_vram-delete_found prefix old ms items,
)

-- Deleting a key that the dict holds takes its model's VRAM away.
pub loaded_vram-delete_mem :
    (k : Text) (ms : ModelSlot) (items : List Item)
    → HasDistinctKeys items
    → Memᴰ (k, ms) items
    → loaded_vram (delete_key k items) + ms.vram_mb ≡ loaded_vram items
loaded_vram-delete_mem k ms [] d m = elim m [ ]
loaded_vram-delete_mem k ms ((j, x) ∷ items) d (Memᴰ.head e) = ground (arith, eq_text_refl k)
loaded_vram-delete_mem k ms ((j, x) ∷ items) d (Memᴰ.tail m) =
    let differ = All-mem (λ (y : Item). j ≢ y.0) items d.0 (k, ms) m in
    ground (arith, eq_text→eq j k, loaded_vram-delete_mem k ms items d.1 m)

pub mem-delete_key_ne :
    (k : Text) (y : Item) (items : List Item) → y.0 ≢ k → Memᴰ y items → Memᴰ y (delete_key k items)
mem-delete_key_ne k y [] ne m = elim m [ ]
mem-delete_key_ne k y ((j, x) ∷ items) ne (Memᴰ.head e) = elim (Bool-cases (eq_text j k)) [
  | inl t ↦ absurd (ne (ap (λ (z : Item). z.0) e ∙ eq_text→eq j k t))
  | inr f ↦ rw f (Memᴰ.head e)
]
mem-delete_key_ne k y ((j, x) ∷ items) ne (Memᴰ.tail m) = elim (Bool-cases (eq_text j k)) [
  | inl t ↦ rw t m
  | inr f ↦ rw f (Memᴰ.tail (mem-delete_key_ne k y items ne m))
]

pub find-delete_all-none :
    (key : Text) (keys : List Text) (items : List Item)
    → find key items ≡ none
    → find key (delete_all keys items) ≡ none
find-delete_all-none key [] items h = h
find-delete_all-none key (k ∷ keys) items h =
    find-delete_all-none key keys (delete_key k items) (find-delete_key-none key k items h)
