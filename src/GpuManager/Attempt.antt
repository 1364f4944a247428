-- ===== src/GpuManager/Attempt.antt =====
-- `acquire`, as long as the accounts are exact: it keeps them so, and never has to wait.
use local_mind.Base.{
  ℕ, ◌+◌, ◌≤◌, ◌≡◌, ◌<◌, ◌⊎◌, refl, true, false, ◌&&◌, List, [], ◌∷◌, ◌++◌, Option, none, some, ok,
  err, arith, ltb, Bool-cases, Option-cases, inl, inr, sym, ◌∙◌,
}
use local_mind.GpuManager.{
  ModelSlot, InferenceSlot, GpuManager, model_key, find, find_prefix, assign, delete_key, can_fit,
  evict_lru_locked, Request, allocate_new, allocate_or_evict, attempt, acquire, acquire_loop, Wait,
  value_error, touch,
}
use local_mind.GpuManager.Exact.{
  Item, IsExact, loaded_vram-assign_new, loaded_vram-assign_old, assign-HasDistinctKeys,
  delete_key-HasDistinctKeys, find-delete_key-none, loaded_vram-delete_found,
}
use local_mind.GpuManager.Evict.{evict_lru_locked-IsExact, evict_lru_locked-find}

-- A turn of `acquire` from `g`: exact accounts again, on the same GPU, and a slot if the request
-- fits on the GPU at all.
abbrev pub Serves : Request → GpuManager → Option InferenceSlot × GpuManager → Type 0
Serves q g r =
    IsExact r.1
    × (r.1.vram_total_mb ≡ g.vram_total_mb)
    × ((g.vram_total_mb < q.estimated_vram_mb) ⊎ ((s : InferenceSlot) × (r.0 ≡ some s)))

module _ (q : Request) (now slot_id : ℕ) where
  allocate_new-IsExact :
      (g : GpuManager)
      → IsExact g
      → find (model_key q.model_id q.lora_id) g.loaded_models ≡ none
      → can_fit g q.estimated_vram_mb ≡ true
      → IsExact (allocate_new q now slot_id g).1
  unfolding allocate_new can_fit
  allocate_new-IsExact g h new room = record {
    exact = omega (
      arith,
      h.exact,
      loaded_vram-assign_new (model_key q.model_id q.lora_id) _ g.loaded_models new,
    );
    fits = ground arith;
    distinct = assign-HasDistinctKeys (model_key q.model_id q.lora_id) _ g.loaded_models h.distinct;
  }

  allocate_or_evict-Serves :
      (g : GpuManager)
      → IsExact g
      → find (model_key q.model_id q.lora_id) g.loaded_models ≡ none
      → Serves q g (allocate_or_evict q now slot_id g)
  unfolding allocate_or_evict allocate_new
  allocate_or_evict-Serves g h new = elim (Bool-cases (can_fit g q.estimated_vram_mb)) [
    | inl t ↦ rw t (allocate_new-IsExact g h new t, refl, inr (_, refl))
    | inr f ↦
        let (exact, same, _, frees, fits) = evict_lru_locked-IsExact q.estimated_vram_mb g h in
        let g' = (evict_lru_locked q.estimated_vram_mb g).1 in
        let new' =
          evict_lru_locked-find q.estimated_vram_mb g (model_key q.model_id q.lora_id) new in
        elim (Bool-cases
          ((evict_lru_locked q.estimated_vram_mb g).0 && can_fit g' q.estimated_vram_mb)) [
            | inl t ↦
                rw (f, t) (allocate_new-IsExact g' exact new' (ground arith), same, inr (_, refl))
            | inr n ↦ rw (f, n) (exact, same, inl (ground arith))
          ]
  ]

  -- Every turn under exact accounts leaves them exact, on the same GPU, and serves each request
  -- that fits on the GPU at all: by the loaded model, a swap of the adapter, free VRAM or eviction.
  pub attempt-Serves : (g : GpuManager) → IsExact g → Serves q g (attempt q now slot_id g)
  unfolding attempt
  attempt-Serves g h = elim (Option-cases (find (model_key q.model_id q.lora_id) g.loaded_models)) [
    | inr (ms, e) ↦ rw (e, attempt) (reused ms e, refl, inr (_, refl))
    | inl new ↦ elim (Option-cases (find_prefix (q.model_id ++ b':' ∷ []) g.loaded_models)) [
      | inl n ↦ rw (new, attempt) (rw (n, attempt) (allocate_or_evict-Serves g h new))
      | inr (item, e) ↦
          rw (new, attempt) (rw (e, attempt) (swapped item new e, refl, inr (_, refl)))
    ]
  ]
    where
      reused :
          (ms : ModelSlot)
          → find (model_key q.model_id q.lora_id) g.loaded_models ≡ some ms
          → IsExact (record g {
            loaded_models = assign (model_key q.model_id q.lora_id) (touch now ms) g.loaded_models;
          })
      reused ms e = record {
        exact =
            h.exact
            ∙ sym (
                loaded_vram-assign_old (model_key q.model_id q.lora_id) (touch now ms) ms
                  g.loaded_models e refl);
        fits = h.fits;
        distinct =
            assign-HasDistinctKeys (model_key q.model_id q.lora_id) _ g.loaded_models h.distinct;
      }

      swapped :
          (item : Item)
          → find (model_key q.model_id q.lora_id) g.loaded_models ≡ none
          → find_prefix (q.model_id ++ b':' ∷ []) g.loaded_models ≡ some item
          → IsExact (record g {
            loaded_models =
                assign
                  (model_key q.model_id q.lora_id)
                  (record (item.1) { lora_id = q.lora_id; last_used_at = now })
                  (delete_key item.0 g.loaded_models);
          })
      swapped (old, ms) new e =
          let absent =
            find-delete_key-none (model_key q.model_id q.lora_id) old g.loaded_models new in
          let less = delete_key old g.loaded_models in
          record {
            exact = omega (
              arith,
              h.exact,
              loaded_vram-assign_new (model_key q.model_id q.lora_id)
                  (record ms { lora_id = q.lora_id; last_used_at = now }) less absent,
              loaded_vram-delete_found (q.model_id ++ b':' ∷ []) old ms g.loaded_models e,
            );
            fits = h.fits;
            distinct =
                assign-HasDistinctKeys (model_key q.model_id q.lora_id) _ less
                  (delete_key-HasDistinctKeys old g.loaded_models h.distinct);
          }

acquire_loop-first :
    (q : Request) (deadline now slot_id : ℕ) (waits : List Wait) (g : GpuManager)
    (s : InferenceSlot)
    → (attempt q now slot_id g).0 ≡ some s
    → acquire_loop q deadline now slot_id waits g ≡ (ok s, (attempt q now slot_id g).1)
unfolding acquire_loop
acquire_loop-first q deadline now slot_id [] g s h = ground arith
acquire_loop-first q deadline now slot_id (w ∷ waits) g s h = ground arith

acquire_too_big :
    (q : Request) (timeout_sec started now slot_id : ℕ) (waits : List Wait) (g : GpuManager)
    → ltb g.vram_total_mb q.estimated_vram_mb ≡ true
    → acquire q timeout_sec started now slot_id waits g ≡ (err value_error, g)
unfolding acquire
acquire_too_big q timeout_sec started now slot_id waits g big = rw big

acquire_served :
    (q : Request) (timeout_sec started now slot_id : ℕ) (waits : List Wait) (g : GpuManager)
    → IsExact g
    → ltb g.vram_total_mb q.estimated_vram_mb ≡ false
    → let r = acquire q timeout_sec started now slot_id waits g in
      (q.estimated_vram_mb ≤ g.vram_total_mb) × ((s : InferenceSlot) × (r.0 ≡ ok s)) × IsExact r.1
unfolding acquire
acquire_served q timeout_sec started now slot_id waits g h small =
    let (exact, same, serves) = attempt-Serves q now slot_id g h in
    elim serves [
      | inl big ↦ absurd (ground arith)
      | inr (s, e) ↦ rw small (
          rw (acquire_loop-first q (started + timeout_sec) now slot_id waits g s e)
            (ground arith, (s, refl), exact))
    ]

-- With exact accounts `acquire` raises ValueError for what exceeds the whole VRAM, with the manager
-- unchanged, and otherwise returns a slot in its first turn, whatever the other tasks would do
-- while it waits, and leaves the accounts exact. It never waits and never times out.
pub acquire-IsExact :
    (q : Request) (timeout_sec started now slot_id : ℕ) (waits : List Wait) (g : GpuManager)
    → IsExact g
    → let r = acquire q timeout_sec started now slot_id waits g in
      (g.vram_total_mb < q.estimated_vram_mb) × (r ≡ (err value_error, g))
      ⊎ (q.estimated_vram_mb ≤ g.vram_total_mb) × ((s : InferenceSlot) × (r.0 ≡ ok s)) × IsExact r.1
acquire-IsExact q timeout_sec started now slot_id waits g h =
    elim (Bool-cases (ltb g.vram_total_mb q.estimated_vram_mb)) [
      | inl big ↦ inl (ground arith, acquire_too_big q timeout_sec started now slot_id waits g big)
      | inr small ↦ inr (acquire_served q timeout_sec started now slot_id waits g h small)
    ]
