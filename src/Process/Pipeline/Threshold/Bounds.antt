-- ===== src/Process/Pipeline/Threshold/Bounds.antt =====
-- The threshold stays between the sizes that are configured.
use ta2mongo.Prelude.{ℕ, ◌≤◌, ◌<◌, ◌≡◌, Bool, true, false, ◌||◌, arith, if◌then◌else◌}
use mathlib.Core.Path.{subst}
use ta2mongo.Prelude.Int.{ℤ, pos, ◌≤ℤ◌, ◌<ℤ◌, leb_ℤ}
use ta2mongo.Process.Pipeline.Threshold.{
  Float, guarded_sizes, clamp_int, interpolate, compute_flush_threshold,
}

clamp_int-bounds :
    (x : ℤ) (lo hi : ℕ) → lo ≤ hi → (lo ≤ clamp_int x lo hi) × (clamp_int x lo hi ≤ hi)
unfolding clamp_int
clamp_int-bounds x lo hi h = ground arith

-- The guards order the sizes.
guarded_sizes-ordered :
    (a b c : ℤ)
    → let s = guarded_sizes a b c in (0 < s.min) × ((s.min ≤ s.initial) × (s.initial ≤ s.max))
unfolding guarded_sizes
guarded_sizes-ordered a b c = ground arith

-- The guards leave sizes that are positive and in order alone.
guarded_sizes-same :
    (a b c : ℤ)
    → pos 0 <ℤ a
    → a ≤ℤ b
    → b ≤ℤ c
    → let s = guarded_sizes a b c in (pos s.min ≡ a) × ((pos s.initial ≡ b) × (pos s.max ≡ c))
unfolding guarded_sizes
guarded_sizes-same a b c h k l = ground arith

choice : {A : Type 0} (P : A → Type 0) (b : Bool) {x y : A} → P x → P y → P (if b then x else y)
choice P true hx hy = hx
choice P false hx hy = hy

module _ (float : Float) where
  open float use {of_int, half, div, mul, add, sub, le}

  threshold-guarded :
      (size_min size_initial size_max backlog ch_cap : ℤ)
      → let out = compute_flush_threshold float size_min size_initial size_max backlog ch_cap in
        let s = guarded_sizes size_min size_initial size_max in (s.min ≤ out) × (out ≤ s.max)
  unfolding compute_flush_threshold
  threshold-guarded a b c backlog ch_cap =
      let s = guarded_sizes a b c in
      let r = div (of_int backlog) (of_int ch_cap) in
      let (positive, (low, high)) = guarded_sizes-ordered a b c in
      let Good : ℕ → Type 0 = λ out. (s.min ≤ out) × (out ≤ s.max) in
      let inner : (x : ℤ) → Good (clamp_int x s.min s.max) =
        λ x. clamp_int-bounds x s.min s.max (omega (arith, low, high)) in
      let top : Good s.max = (omega (arith, low, high), omega arith) in
      let bottom : Good s.min = (omega arith, omega (arith, low, high)) in
      choice Good (leb_ℤ ch_cap (pos 0) || leb_ℤ backlog (pos 0)) top (
        choice Good (le r (of_int (pos 0))) top (
          choice Good (le (of_int (pos 1)) r) bottom (
            choice Good (le r half) (inner (interpolate float s.max s.initial (div r half)))
              (inner (interpolate float s.initial s.min (div (sub r half) half))))))

  -- Where the sizes are positive and in order, the threshold is at least the minimum and at most
  -- the maximum, on any backlog and capacity and whatever the float arithmetic yields.
  pub compute_flush_threshold-bounds :
      (size_min size_initial size_max backlog ch_cap : ℤ)
      → pos 0 <ℤ size_min
      → size_min ≤ℤ size_initial
      → size_initial ≤ℤ size_max
      → let out =
          pos (compute_flush_threshold float size_min size_initial size_max backlog ch_cap) in
        (size_min ≤ℤ out) × (out ≤ℤ size_max)
  compute_flush_threshold-bounds a b c backlog ch_cap h k l =
      let (positive, (low, high)) = guarded_sizes-ordered a b c in
      let (x, y) = threshold-guarded a b c backlog ch_cap in
      let (e, (f, g)) = guarded_sizes-same a b c h k l in
      let out = pos (compute_flush_threshold float a b c backlog ch_cap) in
      (subst (λ z. z ≤ℤ out) e (omega (arith, x)), subst (λ z. out ≤ℤ z) g (omega (arith, y)))
