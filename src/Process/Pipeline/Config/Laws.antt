-- ===== src/Process/Pipeline/Config/Laws.antt =====
-- The defaults make settings that pass the validation and from which the workers run.
use ta2mongo.Prelude.{◌^◌, ◌≡◌, arith, ok}
use ta2mongo.Prelude.Int.{ℤ, pos, ◌≤ℤ◌, ◌<ℤ◌}
use ta2mongo.Process.Pipeline.Config.{
  Config, validate, apply_defaults, min_batch_size, max_batch_size, channel_size,
}

-- The sizes that a worker computes its threshold and its channel from.
pub record IsUsable (c : Config) : Type 0 where
  pub valid : validate c ≡ ok tt
  pub workers : pos 0 <ℤ c.batch_workers
  pub interval : pos 0 <ℤ c.flush_interval
  pub dead_letters : pos 0 <ℤ c.dead_letter_cap
  pub min : pos 0 <ℤ min_batch_size c
  pub initial : min_batch_size c ≤ℤ c.batch_size
  pub max : c.batch_size ≤ℤ max_batch_size c
  pub channel : pos 0 <ℤ channel_size c

abbrev bound : ℤ
bound = pos (2 ^ 62)

-- With any settings of which the batch size is below 2 ^ 62, `ApplyDefaults` leaves settings that
-- `Validate` accepts, with a positive number of workers, interval, dead-letter cap and channel
-- size, and with 0 < MinBatchSize ≤ BatchSize ≤ MaxBatchSize.
pub apply_defaults-IsUsable : (c : Config) → c.batch_size <ℤ bound → IsUsable (apply_defaults c)
unfolding apply_defaults validate min_batch_size max_batch_size channel_size
apply_defaults-IsUsable c small = record {
  valid = ground arith;
  workers = ground arith;
  interval = ground arith;
  dead_letters = ground arith;
  min = ground arith;
  initial = ground arith;
  max = ground arith;
  channel = ground arith;
}

-- The defaults leave room for the double of the batch size.
pub apply_defaults-small :
    (c : Config) → c.batch_size <ℤ bound → (apply_defaults c).batch_size <ℤ bound
unfolding apply_defaults
apply_defaults-small c small = ground arith
