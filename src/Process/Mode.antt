-- ===== src/Process/Mode.antt =====
-- process.go and config.go of internal/process: the choice of an upload strategy.
pub mod Choice
use ta2mongo.Prelude.{
  String, Bool, Option, none, some, Result, ok, err, ◌==◌, ◌>>=◌, wrap, if◌then◌else◌,
}
use ta2mongo.Prelude.Int.{ℤ, pos, leb_ℤ}
use ta2mongo.Process.Pipeline.Config as PipelineConfig
use ta2mongo.Process.Pipeline.Config.{ConfigError}

pub data Mode : Type 0 where
  mode_single mode_batch mode_pipeline : Mode

pub data ModeError : Type 0 where
  unknown_mode : String → ModeError
  bad_pipeline : ConfigError → ModeError

unfoldable pub parse_mode : String → Result ModeError Mode
parse_mode s =
    if s == "single"
    then ok mode_single
    else if s == "batch"
    then ok mode_batch
    else if s == "pipeline"
    then ok mode_pipeline
    else err (unknown_mode s)

-- `Config`; a pointer that is nil is none.
pub record Config : Type 0 where
  pub mode : String
  pub batch_size : ℤ
  pub pipeline : Option PipelineConfig.Config

-- The zero value of pipeline.Config
abbrev pub zero_pipeline : PipelineConfig.Config
zero_pipeline = record {
  batch_size = pos 0;
  batch_size_min = pos 0;
  batch_size_max = pos 0;
  batch_workers = pos 0;
  flush_interval = pos 0;
  channel_buffer = pos 0;
  dead_letter_cap = pos 0;
}

abbrev pub zero_config : Config
zero_config = record { mode = ""; batch_size = pos 0; pipeline = none }

abbrev pub or_zero_pipeline : Option PipelineConfig.Config → PipelineConfig.Config
or_zero_pipeline none = zero_pipeline
or_zero_pipeline (some p) = p

abbrev pub or_zero_config : Option Config → Config
or_zero_config none = zero_config
or_zero_config (some c) = c

unfoldable pub apply_defaults : Config → Config
unfolding PipelineConfig.apply_defaults
apply_defaults c = record {
  mode = if c.mode == "" then "batch" else c.mode;
  batch_size = if leb_ℤ c.batch_size (pos 0) then pos 1000 else c.batch_size;
  pipeline = some (PipelineConfig.apply_defaults (or_zero_pipeline c.pipeline));
}

-- `ModeValue`, of a configuration that may be nil
unfoldable pub mode_value : Option Config → Result ModeError Mode
unfolding parse_mode
mode_value none = ok mode_batch
mode_value (some c) = if c.mode == "" then ok mode_batch else parse_mode c.mode

-- A nil pipeline is valid.
abbrev pub validate_pipeline : Option PipelineConfig.Config → Result ModeError (Unit {0})
validate_pipeline none = ok tt
validate_pipeline (some p) = wrap bad_pipeline (PipelineConfig.validate p)

unfoldable pub validate : Config → Result ModeError (Unit {0})
unfolding mode_value PipelineConfig.validate
validate c = mode_value (some c) >>= λ mode. validate_pipeline c.pipeline

-- The strategy that `New` builds, with what it is built from.
pub data Uploader : Type 0 where
  single_uploader : Uploader
  batch_uploader : ℤ → Uploader
  pipeline_uploader : PipelineConfig.Config → Uploader

-- The settings have their defaults, so the pipeline has some; `NewUploader` of the pipeline applies
-- the defaults of the pipeline again.
unfoldable pub uploader_of : Config → Mode → Uploader
unfolding PipelineConfig.apply_defaults
uploader_of c mode_single = single_uploader
uploader_of c mode_batch = batch_uploader c.batch_size
uploader_of c mode_pipeline =
    pipeline_uploader (PipelineConfig.apply_defaults (or_zero_pipeline c.pipeline))

unfoldable pub new : Option Config → Result ModeError Uploader
unfolding apply_defaults mode_value uploader_of
new cfg =
    let c = apply_defaults (or_zero_config cfg) in
    mode_value (some c) >>= λ mode. ok (uploader_of c mode)
