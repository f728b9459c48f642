-- ===== src/Tailer/Settings.antt =====
-- internal/source/tailer/config.go, with `New`, `WithTuning` and the choice of a mode in `startFile`
-- of tailer.go, `NewTailer` of internal/source/source.go and its settings of config.go.
use ta2mongo.Prelude.{
  ◌≡◌, refl, ◌*◌, String, Bool, ◌||◌, Option, none, some, List, [], Result, ok, err, ◌==◌, eq_iff,
  arith, Bool-cases, inl, inr, if◌then◌else◌,
}
use ta2mongo.Prelude.Int.{ℤ, pos, leb_ℤ, ltb_ℤ, ◌<ℤ◌}

-- The durations are in nanoseconds.
pub record Config : Type 0 where
  pub log_pattern : List String
  pub tail_mode : String
  pub rescan_interval : ℤ
  pub poll_interval : ℤ
  pub max_line_bytes : ℤ
  pub max_open_fds : ℤ

pub data SettingsError : Type 0 where
  unknown_tail_mode : String → SettingsError

abbrev pub is_mode : String → Bool
is_mode m = m == "hybrid" || m == "poll" || m == "event"

unfoldable pub validate : Config → Result SettingsError (Unit {0})
validate c =
    if c.tail_mode == "" || is_mode c.tail_mode then ok tt else err (unknown_tail_mode c.tail_mode)

abbrev pub default_poll_interval : ℤ
default_poll_interval = pos 200000000

abbrev pub default_max_line_size : ℤ
default_max_line_size = pos (10 * 1024 * 1024)

-- if v <= 0 { v = d }
abbrev pub or_default : ℤ → ℤ → ℤ
or_default d v = if leb_ℤ v (pos 0) then d else v

unfoldable pub apply_defaults : Config → Config
apply_defaults c = record {
  log_pattern = c.log_pattern;
  tail_mode = if c.tail_mode == "" then "hybrid" else c.tail_mode;
  rescan_interval = or_default (pos 30000000000) c.rescan_interval;
  poll_interval = or_default (pos 200000000) c.poll_interval;
  max_line_bytes = or_default default_max_line_size c.max_line_bytes;
  max_open_fds = if ltb_ℤ c.max_open_fds (pos 0) then pos 0 else c.max_open_fds;
}

-- The settings of a `Tailer`
pub record Tailer : Type 0 where
  pub patterns : List String
  pub rescan_interval : ℤ
  pub tail_mode : String
  pub poll_interval : ℤ
  pub max_line_size : ℤ

unfoldable pub new : List String → ℤ → String → Tailer
new patterns rescan_interval tail_mode = record {
  patterns = patterns;
  rescan_interval = rescan_interval;
  tail_mode = if tail_mode == "" then "poll" else tail_mode;
  poll_interval = default_poll_interval;
  max_line_size = default_max_line_size;
}

unfoldable pub with_tuning : ℤ → ℤ → Tailer → Tailer
with_tuning poll_interval max_line_bytes t = record t {
  poll_interval = if ltb_ℤ (pos 0) poll_interval then poll_interval else t.poll_interval;
  max_line_size = if ltb_ℤ (pos 0) max_line_bytes then max_line_bytes else t.max_line_size;
}

-- The function that a file's goroutine runs.
pub data TailFn : Type 0 where
  by_event by_poll by_hybrid : TailFn

unfoldable pub tail_fn : Tailer → TailFn
tail_fn t =
    if t.tail_mode == "event"
    then by_event
    else if t.tail_mode == "poll"
    then by_poll
    else by_hybrid

abbrev pub zero_config : Config
zero_config = record {
  log_pattern = [];
  tail_mode = "";
  rescan_interval = pos 0;
  poll_interval = pos 0;
  max_line_bytes = pos 0;
  max_open_fds = pos 0;
}

abbrev pub or_zero : Option Config → Config
or_zero none = zero_config
or_zero (some c) = c

unfoldable pub new_tailer : Option Config → Tailer
unfolding new with_tuning
new_tailer cfg =
    let c = or_zero cfg in
    with_tuning c.poll_interval c.max_line_bytes (new c.log_pattern c.rescan_interval c.tail_mode)

-- The settings of the source: `ApplyDefaults` builds a tailer's settings where there are none.
unfoldable pub source_defaults : Option Config → Config
unfolding apply_defaults
source_defaults cfg = apply_defaults (or_zero cfg)

-- The mode that a tailer runs in, by the mode that is set.
abbrev fn_of : String → TailFn
fn_of mode = if mode == "event" then by_event else if mode == "poll" then by_poll else by_hybrid

-- What the tailer of some settings has.
record IsConfigured (c : Config) (t : Tailer) : Type 0 where
  rescan : pos 0 <ℤ t.rescan_interval
  poll : pos 0 <ℤ t.poll_interval
  lines : pos 0 <ℤ t.max_line_size
  poll_set : pos 0 <ℤ c.poll_interval → t.poll_interval ≡ c.poll_interval
  lines_set : pos 0 <ℤ c.max_line_bytes → t.max_line_size ≡ c.max_line_bytes
  mode : tail_fn t ≡ fn_of c.tail_mode

mode_lem :
    (m : String)
    → let m' = if m == "" then "hybrid" else m in fn_of (if m' == "" then "poll" else m') ≡ fn_of m
mode_lem m = elim (Bool-cases (m == "")) [
  | inl e ↦ let same : m ≡ "" = (eq_iff m "").0 e in rw same refl
  | inr e ↦ rw (e, e) refl
]

-- A tailer that the source builds from its settings has positive intervals and a positive line size,
-- the poll interval and the line size that are set if they are positive, and runs in hybrid mode
-- unless the mode is event or poll.
new_tailer-IsConfigured :
    (cfg : Option Config) → IsConfigured (or_zero cfg) (new_tailer (some (source_defaults cfg)))
unfolding new_tailer apply_defaults source_defaults tail_fn
new_tailer-IsConfigured cfg =
    let c = or_zero cfg in
    record {
      rescan = ground arith;
      poll = ground arith;
      lines = ground arith;
      poll_set = λ h. ground (arith, h);
      lines_set = λ h. ground (arith, h);
      mode = mode_lem c.tail_mode;
    }
