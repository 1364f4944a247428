-- ===== src/GpuManager/Evict.antt =====
-- Eviction: what it removes is a part of the models from the least recently used on, it keeps the
-- accounts exact, and it makes room for whatever fits at all.
use local_mind.Base.{
  ℕ, ◌+◌, ◌-◌, ◌≤◌, ◌≡◌, ◌≢◌, refl, sym, List, [], ◌∷◌, ◌++◌, map, arith, leb, All, All-mono,
  All-both, All-of_mem, All-left, Memᴰ, Bool-cases, inl, inr, ◌⊎◌, ap, ◌∙◌,
}
use mathlib.Core.Path.{subst}
use mathlib.Core.List.{append-nil}
use mathlib.Core.Option.{none}
use local_mind.GpuManager.{
  find, Text, GpuManager, delete_key, delete_all, can_fit, insert_by_use, sorted_by_use, evict_loop,
  evict_lru_locked,
}
use local_mind.GpuManager.Exact.{
  find-delete_all-none, Item, loaded_vram, HasDistinctKeys, IsExact, loaded_vram-delete_mem,
  mem-delete_key_ne, delete_all-HasDistinctKeys, delete_key-HasDistinctKeys,
}

loaded_vram-insert :
    (x : Item) (ys : List Item) → loaded_vram (insert_by_use x ys) ≡ x.1.vram_mb + loaded_vram ys
loaded_vram-insert x [] = refl
loaded_vram-insert x (y ∷ ys) = ground (arith, loaded_vram-insert x ys)

loaded_vram-sorted : (xs : List Item) → loaded_vram (sorted_by_use xs) ≡ loaded_vram xs
loaded_vram-sorted [] = refl
loaded_vram-sorted (x ∷ xs) =
    omega (arith, loaded_vram-insert x (sorted_by_use xs), loaded_vram-sorted xs)

All-insert_by_use :
    (P : Item → Type 0) (x : Item) (ys : List Item) → P x → All P ys → All P (insert_by_use x ys)
All-insert_by_use P x [] p h = (p, tt)
All-insert_by_use P x (y ∷ ys) p h = elim (Bool-cases (leb x.1.last_used_at y.1.last_used_at)) [
  | inl t ↦ rw t (p, h)
  | inr f ↦ rw f (h.0, All-insert_by_use P x ys p h.1)
]

All-sorted : (P : Item → Type 0) (xs : List Item) → All P xs → All P (sorted_by_use xs)
All-sorted P [] h = tt
All-sorted P (x ∷ xs) h = All-insert_by_use P x (sorted_by_use xs) h.0 (All-sorted P xs h.1)

insert-HasDistinctKeys :
    (x : Item) (ys : List Item)
    → All (λ (y : Item). x.0 ≢ y.0) ys
    → HasDistinctKeys ys
    → HasDistinctKeys (insert_by_use x ys)
insert-HasDistinctKeys x [] a h = (tt, tt)
insert-HasDistinctKeys x (y ∷ ys) a h = elim (Bool-cases (leb x.1.last_used_at y.1.last_used_at)) [
  | inl t ↦ rw t (a, h)
  | inr f ↦ rw f (
    All-insert_by_use (λ (z : Item). y.0 ≢ z.0) x ys (λ e. a.0 (sym e)) h.0,
    insert-HasDistinctKeys x ys a.1 h.1,
  )
]

sorted-HasDistinctKeys : (xs : List Item) → HasDistinctKeys xs → HasDistinctKeys (sorted_by_use xs)
sorted-HasDistinctKeys [] h = tt
sorted-HasDistinctKeys (x ∷ xs) h =
    insert-HasDistinctKeys x (sorted_by_use xs) (All-sorted _ xs h.0)
      (sorted-HasDistinctKeys xs h.1)

abbrev keys_of : List Item → List Text
keys_of = map (λ (x : Item). x.0)

-- Deleting the keys of items that the dict holds takes their VRAM away.
loaded_vram-delete_all :
    (gone items : List Item)
    → HasDistinctKeys gone
    → HasDistinctKeys items
    → All (λ x. Memᴰ x items) gone
    → loaded_vram (delete_all (keys_of gone) items) + loaded_vram gone ≡ loaded_vram items
loaded_vram-delete_all [] items dg di m = omega arith
loaded_vram-delete_all ((k, ms) ∷ gone) items (apart, dg) di (here, m) =
    let kept = All-mono _ _ gone still gone_mem in
    let rest =
      loaded_vram-delete_all gone (delete_key k items) dg (delete_key-HasDistinctKeys k items di)
        kept in
    omega (arith, loaded_vram-delete_mem k ms items di here)
  where
    gone_mem : All (λ (x : Item). (k ≢ x.0) × Memᴰ x items) gone
    gone_mem = All-both _ _ gone apart m

    still : (x : Item) → (k ≢ x.0) × Memᴰ x items → Memᴰ x (delete_key k items)
    still x (ne, mx) = mem-delete_key_ne k x items (λ e. ne (sym e)) mx

-- What the loop evicts is an initial part of the candidates; it stops when there is room.
pub record Evicted (needed total allocated : ℕ) (candidates : List Item) (r : List Text × ℕ)
    : Type 0 where
  pub gone : List Item
  pub rest : List Item
  pub split : candidates ≡ gone ++ rest
  pub keys : r.0 ≡ keys_of gone
  pub left : loaded_vram candidates ≤ allocated → r.1 + loaded_vram gone ≡ allocated
  pub roomy : (r.1 + needed ≤ total) ⊎ (rest ≡ [])

evict_loop-Evicted :
    (needed total allocated : ℕ) (candidates : List Item)
    → Evicted needed total allocated candidates (evict_loop needed total allocated candidates)
unfolding evict_loop
evict_loop-Evicted needed total allocated [] = record {
  gone = [];
  rest = [];
  split = refl;
  keys = refl;
  left = λ _. omega arith;
  roomy = inr refl;
}
evict_loop-Evicted needed total allocated ((k, ms) ∷ candidates) =
    elim (Bool-cases (leb (allocated + needed) total)) [
      | inl t ↦
          rw (t, evict_loop)
            (record {
              gone = [];
              rest = (k, ms) ∷ candidates;
              split = refl;
              keys = refl;
              left = λ _. omega arith;
              roomy = inl (ground arith);
            })
      | inr f ↦
          let e = evict_loop-Evicted needed total (allocated - ms.vram_mb) candidates in
          rw (f, evict_loop)
            (record {
              gone = (k, ms) ∷ e.gone;
              rest = e.rest;
              split = ap (◌∷◌ (k, ms)) e.split;
              keys = ap (◌∷◌ k) e.keys;
              left = λ h. omega (arith, e.left (omega arith));
              roomy = e.roomy;
            })
    ]

-- The parts of a list of distinct keys.
left_part : (xs ys : List Item) → HasDistinctKeys (xs ++ ys) → HasDistinctKeys xs
left_part [] ys h = tt
left_part (x ∷ xs) ys h = (All-left (λ (y : Item). x.0 ≢ y.0) xs ys h.0, left_part xs ys h.1)

module _ (needed : ℕ) (g : GpuManager) (before : IsExact g) where
  abbrev outcome : List Text × ℕ
  outcome = evict_loop needed g.vram_total_mb g.vram_allocated_mb (sorted_by_use g.loaded_models)

  evicted :
      Evicted needed g.vram_total_mb g.vram_allocated_mb (sorted_by_use g.loaded_models) outcome
  evicted =
      evict_loop-Evicted needed g.vram_total_mb g.vram_allocated_mb (sorted_by_use g.loaded_models)

  left-gone : outcome.1 + loaded_vram evicted.gone ≡ g.vram_allocated_mb
  left-gone = evicted.left (omega (arith, loaded_vram-sorted g.loaded_models, before.exact))

  kept_vram :
      loaded_vram (delete_all outcome.0 g.loaded_models) + loaded_vram evicted.gone
      ≡ loaded_vram g.loaded_models
  kept_vram =
      let parts = evicted.split in
      rw evicted.keys (
        loaded_vram-delete_all evicted.gone g.loaded_models
          (left_part evicted.gone evicted.rest
            (subst HasDistinctKeys parts (sorted-HasDistinctKeys g.loaded_models before.distinct)))
          before.distinct
          (All-left (λ x. Memᴰ x g.loaded_models) evicted.gone evicted.rest
            (subst (All (λ x. Memᴰ x g.loaded_models)) parts (
              All-sorted (λ x. Memᴰ x g.loaded_models) g.loaded_models
                (All-of_mem (λ x. Memᴰ x g.loaded_models) g.loaded_models (λ x m. m))))))

  room : needed ≤ g.vram_total_mb → outcome.1 + needed ≤ g.vram_total_mb
  room h = elim evicted.roomy [
    | inl r ↦ r
    | inr all_gone ↦
        let everything : sorted_by_use g.loaded_models ≡ evicted.gone =
          evicted.split ∙ ap (λ r. evicted.gone ++ r) all_gone ∙ append-nil evicted.gone in
        let sum_gone : loaded_vram (sorted_by_use g.loaded_models) ≡ loaded_vram evicted.gone =
          ap loaded_vram everything in
        omega (arith, left-gone, sum_gone, loaded_vram-sorted g.loaded_models, before.exact)
  ]

  fits_iff : leb (outcome.1 + needed) g.vram_total_mb ≡ leb needed g.vram_total_mb
  fits_iff = elim (Bool-cases (leb needed g.vram_total_mb)) [
    | inl t ↦ ground (arith, room (ground arith))
    | inr f ↦ ground arith
  ]

  -- Eviction keeps the accounts exact, and frees enough exactly for what fits in the whole VRAM.
  -- The total and the waiters stay.
  pub evict_lru_locked-IsExact :
      let r = evict_lru_locked needed g in
      IsExact r.1
      × (r.1.vram_total_mb ≡ g.vram_total_mb)
      × (r.1.waiters ≡ g.waiters)
      × (r.0 ≡ leb needed g.vram_total_mb)
      × (can_fit r.1 needed ≡ leb needed g.vram_total_mb)
  unfolding evict_lru_locked
  evict_lru_locked-IsExact = (
    record {
      exact = omega (arith, left-gone, kept_vram, before.exact);
      fits = omega (arith, left-gone, before.fits);
      distinct = delete_all-HasDistinctKeys outcome.0 g.loaded_models before.distinct;
    },
    refl,
    refl,
    fits_iff,
    fits_iff,
  )

pub evict_lru_locked-find :
    (needed : ℕ) (g : GpuManager) (key : Text)
    → find key g.loaded_models ≡ none
    → find key (evict_lru_locked needed g).1.loaded_models ≡ none
unfolding evict_lru_locked
evict_lru_locked-find needed g key h =
    find-delete_all-none key
      (evict_loop needed g.vram_total_mb g.vram_allocated_mb (sorted_by_use g.loaded_models)).0
      g.loaded_models h
