-- ===== src/GpuManager/Tests.antt =====
-- Runs of the GPU manager, and its theorems at concrete inputs.
use local_mind.Base.{ℕ, ◌≤◌, ◌<◌, ◌≡◌, refl, [], ◌∷◌, none, some, ok, err, arith, leb, ◌⊎◌}
use local_mind.GpuManager.{
  ModelSlot, InferenceSlot, GpuManager, model_key, init, can_fit, evict_loop, evict_lru_locked,
  Request, inference_slot, allocate_new, allocate_or_evict, attempt, release, acquire_loop, acquire,
  value_error,
}
use local_mind.GpuManager.Exact.{IsExact, loaded_vram}
use local_mind.GpuManager.Evict
use local_mind.GpuManager.Attempt
use local_mind.GpuManager.Attempt.{Serves}
use local_mind.GpuManager.Release

program : Unit {0}
unfolding model_key init can_fit evict_loop evict_lru_locked allocate_new allocate_or_evict attempt
    release acquire_loop acquire
program = tt

abbrev request : ℕ → ℕ → Request
request model mb = record { model_id = model ∷ []; lora_id = none; estimated_vram_mb = mb }

abbrev slot_a : ModelSlot
slot_a = record {
  model_id = b'a' ∷ [];
  lora_id = none;
  vram_mb = 8000;
  loaded_at = 5;
  last_used_at = 5;
  job_id = none;
}

-- A GPU of 10 GB with model `a` loaded.
abbrev loaded : GpuManager
loaded = record {
  loaded_models = (b'a' ∷ b':' ∷ b'_' ∷ [], slot_a) ∷ [];
  vram_total_mb = 10240;
  vram_allocated_mb = 8000;
  waiters = [];
}

first_request :
    attempt (request b'a' 8000) 5 1 (init 10240)
    ≡ (some (inference_slot (request b'a' 8000) 8000 5 1), loaded)
unfolding program
first_request = refl

-- Model `b` needs room, so `a` is evicted.
eviction : loaded_vram (attempt (request b'b' 6000) 6 2 loaded).1.loaded_models ≡ 6000
unfolding program
eviction = refl

loaded-IsExact : IsExact loaded
loaded-IsExact = record { exact = refl; fits = omega arith; distinct = (tt, tt) }

an_eviction :
    let r = evict_lru_locked 6000 loaded in
    IsExact r.1
    × (r.1.vram_total_mb ≡ loaded.vram_total_mb)
    × (r.1.waiters ≡ loaded.waiters)
    × (r.0 ≡ leb 6000 loaded.vram_total_mb)
    × (can_fit r.1 6000 ≡ leb 6000 loaded.vram_total_mb)
an_eviction = Evict.evict_lru_locked-IsExact 6000 loaded loaded-IsExact

the_model_is_served : Serves (request b'b' 6000) loaded (attempt (request b'b' 6000) 6 2 loaded)
the_model_is_served = Attempt.attempt-Serves (request b'b' 6000) 6 2 loaded loaded-IsExact

acquire-IsExact_example :
    let r = acquire (request b'b' 6000) 300 6 6 2 [] loaded in
    (loaded.vram_total_mb < 6000) × (r ≡ (err value_error, loaded))
    ⊎ (6000 ≤ loaded.vram_total_mb) × ((s : InferenceSlot) × (r.0 ≡ ok s)) × IsExact r.1
acquire-IsExact_example =
    Attempt.acquire-IsExact (request b'b' 6000) 300 6 6 2 [] loaded loaded-IsExact

-- Model `a` is released and stays loaded; `b` is then loaded beside it, 14000 MB of 10240.
release_overcommits_example :
    10240
    < loaded_vram
        (attempt
          (request b'b' 6000)
          6
          2
          (release (inference_slot (request b'a' 8000) 8000 5 1) loaded)).1.loaded_models
unfolding program
release_overcommits_example =
    Release.release_overcommits (inference_slot (request b'a' 8000) 8000 5 1) (request b'b' 6000) 6
      2 loaded loaded-IsExact (omega arith) refl refl (omega arith) (omega arith)
