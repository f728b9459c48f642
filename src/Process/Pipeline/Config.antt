-- ===== src/Process/Pipeline/Config.antt =====
-- config.go: the settings of the pipeline. An int is of 64 bits.
pub mod Laws
use ta2mongo.Prelude.{
  ℕ, ◌+◌, ◌-◌, ◌*◌, ◌/◌, ◌%◌, ◌^◌, Bool, ◌&&◌, Result, ok, err, ltb, if◌then◌else◌,
}
use ta2mongo.Prelude.Int.{ℤ, pos, pos_part, neg_part, sub_ℕ, leb_ℤ, ltb_ℤ}

-- The durations are in nanoseconds.
pub record Config : Type 0 where
  pub batch_size : ℤ
  pub batch_size_min : ℤ
  pub batch_size_max : ℤ
  pub batch_workers : ℤ
  pub flush_interval : ℤ
  pub channel_buffer : ℤ
  pub dead_letter_cap : ℤ

pub data ConfigError : Type 0 where
  min_exceeds_size : ℤ → ℤ → ConfigError
  size_exceeds_max : ℤ → ℤ → ConfigError

-- The int of a bit pattern, and the sum of an int with itself, which may wrap.
abbrev pub of_bits : ℕ → ℤ
of_bits n = if ltb n (2 ^ 63) then pos n else sub_ℕ n (2 ^ 64)

abbrev pub double : ℤ → ℤ
double n = of_bits ((2 * pos_part n + (2 ^ 65 - 2 * neg_part n)) % 2 ^ 64)

unfoldable pub validate : Config → Result ConfigError (Unit {0})
validate c =
    if ltb_ℤ (pos 0) c.batch_size_min && ltb_ℤ c.batch_size c.batch_size_min
    then err (min_exceeds_size c.batch_size_min c.batch_size)
    else if ltb_ℤ (pos 0) c.batch_size_max && ltb_ℤ c.batch_size_max c.batch_size
    then err (size_exceeds_max c.batch_size c.batch_size_max)
    else ok tt

-- if v <= 0 { v = d }
abbrev pub default_to : ℤ → ℤ → ℤ
default_to d v = if leb_ℤ v (pos 0) then d else v

unfoldable pub apply_defaults : Config → Config
apply_defaults c =
    let size = default_to (pos 1000) c.batch_size in
    record {
      batch_size = size;
      batch_size_min =
          if ltb_ℤ (pos 0) c.batch_size_min && ltb_ℤ size c.batch_size_min
          then size
          else c.batch_size_min;
      batch_size_max =
          if ltb_ℤ (pos 0) c.batch_size_max && ltb_ℤ c.batch_size_max size
          then size
          else c.batch_size_max;
      batch_workers = default_to (pos 2) c.batch_workers;
      flush_interval = default_to (pos 1000000000) c.flush_interval;
      channel_buffer = c.channel_buffer;
      dead_letter_cap = default_to (pos 128) c.dead_letter_cap;
    }

unfoldable pub min_batch_size : Config → ℤ
min_batch_size c =
    -- a negative quotient is below one as well
    let quarter = pos (pos_part c.batch_size / 4) in
    if ltb_ℤ (pos 0) c.batch_size_min
    then (if ltb_ℤ c.batch_size c.batch_size_min then c.batch_size else c.batch_size_min)
    else if ltb_ℤ quarter (pos 1)
    then pos 1
    else quarter

unfoldable pub max_batch_size : Config → ℤ
max_batch_size c =
    if ltb_ℤ (pos 0) c.batch_size_max
    then (if ltb_ℤ c.batch_size_max c.batch_size then c.batch_size else c.batch_size_max)
    else double c.batch_size

unfoldable pub channel_size : Config → ℤ
channel_size c = if ltb_ℤ (pos 0) c.channel_buffer then c.channel_buffer else double c.batch_size
