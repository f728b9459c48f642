-- ===== src/Process/Pipeline/Threshold.antt =====
-- dynamicbatch.go: how many models a worker gathers before it flushes, by the backlog of its
-- channel.
pub mod Bounds
use ta2mongo.Prelude.{ℕ, Bool, true, false, ◌||◌, leb, ltb, if◌then◌else◌}
use ta2mongo.Prelude.Int.{ℤ, pos, pos_part, ◌-ℤ◌, leb_ℤ, ltb_ℤ}

-- The float64 arithmetic that the interpolation uses; `round_int v` is int(math.Round(v)).
pub record Float : Type 1 where
  pub Carrier : Type 0
  pub of_int : ℤ → Carrier
  pub half : Carrier
  pub div : Carrier → Carrier → Carrier
  pub mul : Carrier → Carrier → Carrier
  pub add : Carrier → Carrier → Carrier
  pub sub : Carrier → Carrier → Carrier
  pub le : Carrier → Carrier → Bool
  pub round_int : Carrier → ℤ

-- if v <= 0 { v = d }
abbrev pub or_default : ℕ → ℤ → ℕ
or_default d v = if leb_ℤ v (pos 0) then d else pos_part v

-- The bounds after the guards.
pub record Sizes : Type 0 where
  pub min : ℕ
  pub initial : ℕ
  pub max : ℕ

unfoldable pub guarded_sizes : ℤ → ℤ → ℤ → Sizes
guarded_sizes size_min size_initial size_max =
    let min = or_default 1 size_min in
    let initial = or_default min size_initial in
    let max = or_default initial size_max in
    let initial' = if ltb initial min then min else initial in
    let max' = if ltb max initial' then initial' else max in
    record { min = if ltb max' min then max' else min; initial = initial'; max = max' }

unfoldable pub clamp_int : ℤ → ℕ → ℕ → ℕ
clamp_int x lo hi = if ltb_ℤ x (pos lo) then lo else if ltb_ℤ (pos hi) x then hi else pos_part x

module _ (float : Float) where
  open float use {of_int, half, div, mul, add, sub, le, round_int, Carrier}

  -- The point at `t` between two sizes.
  unfoldable pub interpolate : ℕ → ℕ → Carrier → ℤ
  interpolate a b t = round_int (add (of_int (pos a)) (mul (of_int (pos b -ℤ pos a)) t))

  unfoldable pub compute_flush_threshold : ℤ → ℤ → ℤ → ℤ → ℤ → ℕ
  unfolding guarded_sizes clamp_int interpolate
  compute_flush_threshold size_min size_initial size_max backlog ch_cap =
      let s = guarded_sizes size_min size_initial size_max in
      let r = div (of_int backlog) (of_int ch_cap) in
      if leb_ℤ ch_cap (pos 0) || leb_ℤ backlog (pos 0)
      then s.max
      else if le r (of_int (pos 0))
      then s.max
      else if le (of_int (pos 1)) r
      then s.min
      else if le r half
      then clamp_int (interpolate s.max s.initial (div r half)) s.min s.max
      else clamp_int (interpolate s.initial s.min (div (sub r half) half)) s.min s.max
