-- ===== src/GpuManager/Release.antt =====
-- `release` gives back the VRAM of a model that stays loaded, so the accounts fall short.
use local_mind.Base.{ℕ, ◌+◌, ◌-◌, ◌≤◌, ◌<◌, ◌≡◌, ap, true, ◌++◌, [], ◌∷◌, none, arith, leb}
use local_mind.GpuManager.{
  InferenceSlot, GpuManager, model_key, find, find_prefix, can_fit, Request, allocate_new, attempt,
  release,
}
use local_mind.GpuManager.Exact.{loaded_vram, IsExact, loaded_vram-assign_new}

-- After the release of a slot that had allocated VRAM, the manager counts that much less than the
-- loaded models take, and no model is unloaded.
pub release-loaded_vram :
    (slot : InferenceSlot) (g : GpuManager)
    → IsExact g
    → slot.vram_mb ≤ g.vram_allocated_mb
    → ((release slot g).vram_allocated_mb + slot.vram_mb
        ≡ loaded_vram (release slot g).loaded_models)
      × ((release slot g).loaded_models ≡ g.loaded_models)
unfolding release
release-loaded_vram slot g h le = (ground arith, ground arith)

allocate_free :
    (q : Request) (now slot_id : ℕ) (g : GpuManager)
    → find (model_key q.model_id q.lora_id) g.loaded_models ≡ none
    → find_prefix (q.model_id ++ b':' ∷ []) g.loaded_models ≡ none
    → g.vram_allocated_mb + q.estimated_vram_mb ≤ g.vram_total_mb
    → loaded_vram (attempt q now slot_id g).1.loaded_models
      ≡ loaded_vram g.loaded_models + q.estimated_vram_mb
unfolding attempt can_fit allocate_new
allocate_free q now slot_id g new other room =
    let fits : leb (g.vram_allocated_mb + q.estimated_vram_mb) g.vram_total_mb ≡ true =
      ground arith in
    rw (new, attempt)
      (rw (other, attempt)
        (rw fits (loaded_vram-assign_new (model_key q.model_id q.lora_id) _ g.loaded_models new)))

after_release :
    (slot : InferenceSlot) (g : GpuManager) (q : Request)
    → g.vram_allocated_mb - slot.vram_mb + q.estimated_vram_mb ≤ g.vram_total_mb
    → (release slot g).vram_allocated_mb + q.estimated_vram_mb ≤ (release slot g).vram_total_mb
unfolding release
after_release slot g q h = ground arith

-- So the GPU is overcommitted: after such a release, a request for another model that fits by the
-- manager's count, but not beside the models that are loaded, is served without eviction, and the
-- loaded models then take more than the whole VRAM.
pub release_overcommits :
    (slot : InferenceSlot) (q : Request) (now slot_id : ℕ) (g : GpuManager)
    → IsExact g
    → slot.vram_mb ≤ g.vram_allocated_mb
    → find (model_key q.model_id q.lora_id) g.loaded_models ≡ none
    → find_prefix (q.model_id ++ b':' ∷ []) g.loaded_models ≡ none
    → g.vram_allocated_mb - slot.vram_mb + q.estimated_vram_mb ≤ g.vram_total_mb
    → g.vram_total_mb < g.vram_allocated_mb + q.estimated_vram_mb
    → g.vram_total_mb < loaded_vram (attempt q now slot_id (release slot g)).1.loaded_models
release_overcommits slot q now slot_id g h le new other room over =
    let g' = release slot g in
    let (short, same) = release-loaded_vram slot g h le in
    omega (
      arith,
      allocate_free q now slot_id g' (rw same new) (rw same other) (after_release slot g q room),
      ap loaded_vram same,
      h.exact,
    )
