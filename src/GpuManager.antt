-- ===== src/GpuManager.antt =====
-- backend/core/gpu_manager.py: VRAM reservations and the models that stay loaded. A text is the
-- list of its code points; the dict `_loaded_models` is the list of its items in insertion order.
-- What `_lock` guards runs whole, under one reading `now` of the clock.
pub mod Exact
pub mod Evict
pub mod Attempt
pub mod Release
mod Tests
pub use local_mind.Base.{
  Text, eq_text, starts_with, find, assign, delete_key, delete_all, find_prefix,
}
use local_mind.Base.{
  ℕ, ◌+◌, ◌-◌, ◌*◌, ◌≡◌, Bool, true, false, not, ◌&&◌, List, [], ◌∷◌, ◌++◌, Option, none, some,
  Result, ok, err, ltb, leb, ◌==◌, if◌then◌else◌, length,
}

pub record ModelSlot : Type 0 where
  pub model_id : Text
  pub lora_id : Option Text
  pub vram_mb : ℕ
  pub loaded_at : ℕ
  pub last_used_at : ℕ
  pub job_id : Option ℕ

pub record InferenceSlot : Type 0 where
  pub slot_id : ℕ
  pub model_id : Text
  pub lora_id : Option Text
  pub vram_mb : ℕ
  pub acquired_at : ℕ

pub record GpuManager : Type 0 where
  pub loaded_models : List (Text × ModelSlot)
  pub vram_total_mb : ℕ
  pub vram_allocated_mb : ℕ
  pub waiters : List ℕ

-- `lora_id or '_'`: an empty text is false too.
abbrev pub or_underscore : Option Text → Text
or_underscore none = b'_' ∷ []
or_underscore (some []) = b'_' ∷ []
or_underscore (some (c ∷ t)) = c ∷ t

-- f"{model_id}:{lora_id or '_'}"
unfoldable pub model_key : Text → Option Text → Text
model_key model_id lora_id = model_id ++ (b':' ∷ or_underscore lora_id)

unfoldable pub init : ℕ → GpuManager
init vram_total_mb = record {
  loaded_models = [];
  vram_total_mb = vram_total_mb;
  vram_allocated_mb = 0;
  waiters = [];
}

abbrev pub touch : ℕ → ModelSlot → ModelSlot
touch now ms = record ms { last_used_at = now }

unfoldable pub can_fit : GpuManager → ℕ → Bool
can_fit g estimated_vram_mb = leb (g.vram_allocated_mb + estimated_vram_mb) g.vram_total_mb

-- `sorted(…, key=last_used_at)`, which is stable.
abbrev pub insert_by_use : Text × ModelSlot → List (Text × ModelSlot) → List (Text × ModelSlot)
insert_by_use x [] = x ∷ []
insert_by_use x (y ∷ ys) =
    let later = y ∷ insert_by_use x ys in
    if leb x.1.last_used_at y.1.last_used_at then x ∷ y ∷ ys else later

abbrev pub sorted_by_use : List (Text × ModelSlot) → List (Text × ModelSlot)
sorted_by_use [] = []
sorted_by_use (x ∷ xs) = insert_by_use x (sorted_by_use xs)

-- The first `for` loop of `_evict_lru_locked`: the evicted keys, and the VRAM left allocated.
-- `max(0, a - b)` is the subtraction of natural numbers.
unfoldable pub evict_loop : (needed total allocated : ℕ) → List (Text × ModelSlot) → List Text × ℕ
evict_loop needed total allocated [] = ([], allocated)
evict_loop needed total allocated ((key, ms) ∷ candidates) =
    let (keys, left) = evict_loop needed total (allocated - ms.vram_mb) candidates in
    if leb (allocated + needed) total then ([], allocated) else (key ∷ keys, left)

unfoldable pub evict_lru_locked : ℕ → GpuManager → Bool × GpuManager
unfolding evict_loop can_fit
evict_lru_locked needed_mb g =
    let (keys, left) =
      evict_loop needed_mb g.vram_total_mb g.vram_allocated_mb (sorted_by_use g.loaded_models) in
    let g' = record g {
      loaded_models = delete_all keys g.loaded_models;
      vram_allocated_mb = left;
    } in
    (can_fit g' needed_mb, g')

-- The arguments of `acquire`. `priority` is never read.
pub record Request : Type 0 where
  pub model_id : Text
  pub lora_id : Option Text
  pub estimated_vram_mb : ℕ

abbrev pub inference_slot : Request → (vram_mb now slot_id : ℕ) → InferenceSlot
inference_slot q vram_mb now slot_id = record {
  slot_id = slot_id;
  model_id = q.model_id;
  lora_id = q.lora_id;
  vram_mb = vram_mb;
  acquired_at = now;
}

unfoldable pub allocate_new : Request → (now slot_id : ℕ) → GpuManager → InferenceSlot × GpuManager
unfolding model_key
allocate_new q now slot_id g = (
  inference_slot q q.estimated_vram_mb now slot_id,
  record g {
    loaded_models =
        assign (model_key q.model_id q.lora_id)
          (record {
            model_id = q.model_id;
            lora_id = q.lora_id;
            vram_mb = q.estimated_vram_mb;
            loaded_at = now;
            last_used_at = now;
            job_id = none;
          })
          g.loaded_models;
    vram_allocated_mb = g.vram_allocated_mb + q.estimated_vram_mb;
  },
)

-- The part of `acquire` that needs fresh VRAM.
unfoldable pub allocate_or_evict :
    Request → (now slot_id : ℕ) → GpuManager → Option InferenceSlot × GpuManager
unfolding can_fit evict_lru_locked allocate_new
allocate_or_evict q now slot_id g =
    if can_fit g q.estimated_vram_mb
    then (let (slot, g') = allocate_new q now slot_id g in (some slot, g'))
    else (let (evicted, g') = evict_lru_locked q.estimated_vram_mb g in
        if evicted && can_fit g' q.estimated_vram_mb
        then (let (slot, g'') = allocate_new q now slot_id g' in (some slot, g''))
        else (none, g'))

-- The body of the loop under `_lock`: reuse, swap of the LoRA adapter, or fresh VRAM.
unfoldable pub attempt :
    Request → (now slot_id : ℕ) → GpuManager → Option InferenceSlot × GpuManager
unfolding model_key allocate_or_evict
attempt q now slot_id g =
    let key = model_key q.model_id q.lora_id in
    elim (find key g.loaded_models) [
      | some existing ↦ (
        some (inference_slot q 0 now slot_id),
        record g { loaded_models = assign key (touch now existing) g.loaded_models },
      )
      | none ↦ elim (find_prefix (q.model_id ++ b':' ∷ []) g.loaded_models) [
        | some (old, ms) ↦ (
          some (inference_slot q 0 now slot_id),
          record g {
            loaded_models =
                assign key (record ms { lora_id = q.lora_id; last_used_at = now })
                  (delete_key old g.loaded_models);
          },
        )
        | none ↦ allocate_or_evict q now slot_id g
      ]
    ]

-- `release` and `_wake_waiters`, which clears the list of waiters.
unfoldable pub release : InferenceSlot → GpuManager → GpuManager
release slot g =
    let g' =
      if ltb 0 slot.vram_mb
      then record g { vram_allocated_mb = g.vram_allocated_mb - slot.vram_mb }
      else g in
    record g' { waiters = [] }

-- What happens between two turns of `acquire`'s loop: the clock where the deadline is tested, what
-- the other tasks do to the manager meanwhile, whether the waiter is woken in time, and the clock
-- and the uuid of the next turn.
pub record Wait : Type 0 where
  pub tested_at : ℕ
  pub others : GpuManager → GpuManager
  pub woken : Bool
  pub now : ℕ
  pub slot_id : ℕ

pub data GpuError : Type 0 where
  value_error timeout_error still_waiting : GpuError

abbrev pub remove_waiter : ℕ → List ℕ → List ℕ
remove_waiter w [] = []
remove_waiter w (x ∷ xs) = let rest = x ∷ remove_waiter w xs in if x == w then xs else rest

-- The `while True` of `acquire`, over the waits that it goes through. A waiter is named by the
-- uuid of its turn. `still_waiting` is no outcome of the code: it says that the waits ran out.
unfoldable pub acquire_loop :
    Request
    → (deadline now slot_id : ℕ) → List Wait
    → GpuManager
    → Result GpuError InferenceSlot × GpuManager
unfolding attempt
acquire_loop q deadline now slot_id [] g =
    let (slot, g') = attempt q now slot_id g in
    elim slot [ some s ↦ (ok s, g') | none ↦ (err still_waiting, g') ]
acquire_loop q deadline now slot_id (w ∷ waits) g =
    let (slot, g') = attempt q now slot_id g in
    elim slot [
      | some s ↦ (ok s, g')
      | none ↦
          let g₁ = w.others (record g' { waiters = g'.waiters ++ slot_id ∷ [] }) in
          let g₂ = record g₁ { waiters = remove_waiter slot_id g₁.waiters } in
          let again = acquire_loop q deadline w.now w.slot_id waits g₂ in
          if leb deadline w.tested_at
          then (err timeout_error, g')
          else if w.woken
          then again
          else (err timeout_error, g₂)
    ]

unfoldable pub acquire :
    Request
    → (timeout_sec started now slot_id : ℕ) → List Wait
    → GpuManager
    → Result GpuError InferenceSlot × GpuManager
unfolding acquire_loop
acquire q timeout_sec started now slot_id waits g =
    if ltb g.vram_total_mb q.estimated_vram_mb
    then (err value_error, g)
    else acquire_loop q (started + timeout_sec) now slot_id waits g
