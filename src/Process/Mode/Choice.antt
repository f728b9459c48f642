-- ===== src/Process/Mode/Choice.antt =====
-- What `New` builds from any settings.
use ta2mongo.Prelude.{
  ◌^◌, ◌≡◌, refl, ◌∙◌, ap, Option, none, some, Result, ok, err, ◌==◌, arith, Bool-cases, inl, inr,
  ◌>>=◌,
}
use ta2mongo.Prelude.Int.{pos, ◌<ℤ◌}
use ta2mongo.Process.Pipeline.Config as PipelineConfig
use ta2mongo.Process.Pipeline.Config.Laws.{IsUsable, apply_defaults-IsUsable, apply_defaults-small}
use ta2mongo.Process.Mode.{
  Mode, mode_single, mode_batch, mode_pipeline, ModeError, Config, or_zero_config, or_zero_pipeline,
  apply_defaults, mode_value, Uploader, single_uploader, batch_uploader, pipeline_uploader,
  uploader_of, new,
}

-- A strategy that can run: its batches hold something, its pipeline's settings are usable.
abbrev pub IsRunnable : Uploader → Type 0
IsRunnable single_uploader = Unit
IsRunnable (batch_uploader size) = pos 0 <ℤ size
IsRunnable (pipeline_uploader p) = IsUsable p

abbrev pub mode_of : Uploader → Mode
mode_of single_uploader = mode_single
mode_of (batch_uploader size) = mode_batch
mode_of (pipeline_uploader p) = mode_pipeline

-- The batch size of the pipeline, if there is a pipeline, leaves room for its double.
abbrev pub IsSmall : Option Config → Type 0
IsSmall cfg = (or_zero_pipeline (or_zero_config cfg).pipeline).batch_size <ℤ pos (2 ^ 62)

mode_value-defaults :
    (cfg : Option Config) → mode_value (some (apply_defaults (or_zero_config cfg))) ≡ mode_value cfg
unfolding mode_value apply_defaults
mode_value-defaults none = refl
mode_value-defaults (some c) = elim (Bool-cases (c.mode == "")) [
  | inl e ↦ rw e refl
  | inr e ↦ rw e (rw e refl)
]

uploader_of-IsRunnable :
    (cfg : Option Config) (mode : Mode)
    → IsSmall cfg
    → let u = uploader_of (apply_defaults (or_zero_config cfg)) mode in
      IsRunnable u × (mode_of u ≡ mode)
unfolding uploader_of apply_defaults
uploader_of-IsRunnable cfg mode_single small = (tt, refl)
uploader_of-IsRunnable cfg mode_batch small = (ground arith, refl)
uploader_of-IsRunnable cfg mode_pipeline small =
    let p = or_zero_pipeline (or_zero_config cfg).pipeline in
    (apply_defaults-IsUsable (PipelineConfig.apply_defaults p) (apply_defaults-small p small), refl)

-- From any settings, or none, whose pipeline has a batch size below 2 ^ 62, `New` builds the
-- strategy that `ModeValue` answers for these settings, and fails with its error if it fails. A
-- batch strategy has a positive batch size, a pipeline has usable settings.
pub new-Chosen :
    (cfg : Option Config)
    → IsSmall cfg
    → ((e : ModeError) → mode_value cfg ≡ err e → new cfg ≡ err e)
      × ((mode : Mode)
          → mode_value cfg ≡ ok mode
          → (u : Uploader) × (new cfg ≡ ok u) × (mode_of u ≡ mode) × IsRunnable u)
unfolding new
new-Chosen cfg small =
    let c = apply_defaults (or_zero_config cfg) in
    let built : Result ModeError Mode → Result ModeError Uploader =
      λ r. r >>= λ mode. ok (uploader_of c mode) in
    (
      λ e h. ap built (mode_value-defaults cfg ∙ h),
      λ mode h.
          let (runnable, same) = uploader_of-IsRunnable cfg mode small in
          (uploader_of c mode, ap built (mode_value-defaults cfg ∙ h), same, runnable),
    )
