-- ===== src/Process/Pipeline/Dispatch.antt =====
-- dispatch.go: each line goes to the worker of its key, or spills to another one that has room.
-- However it ends, the channels are closed then.
pub mod Delivery
use ta2mongo.Prelude.{
  ℕ, zero, suc, ◌+◌, ◌-◌, ◌%◌, String, Bool, true, false, Option, none, some, List, [], ◌∷◌,
  if◌then◌else◌,
}
use ta2mongo.Prelude.Int.{ℤ, pos}
use ta2mongo.Process.Pipeline.Routing.{route_index, extract_routing_key}

-- A line and what its sends meet: whether the channel of a worker takes it at once, and whether
-- the blocking send succeeds before the context is done.
pub record Offer : Type 0 where
  pub line : String
  pub has_room : ℕ → Bool
  pub waited : Bool

module _ (gjson : String → String → Option String) (bytes : String → List ℕ) where
  -- The loop over the other workers, from an offset on, with the workers that are left.
  unfoldable pub spill : (ℕ → Bool) → ℕ → ℕ → ℕ → ℕ → Option ℕ
  spill has_room idx n offset zero = none
  spill has_room idx n offset (suc left) =
      let alt_idx = (idx + offset) % n in
      let rest = spill has_room idx n (suc offset) left in
      if has_room alt_idx then some alt_idx else rest

  -- The worker of a line, none when the context is done first.
  unfoldable pub place : ℕ → Offer → Option ℕ
  unfolding spill
  place n offer =
      let idx = route_index (bytes (extract_routing_key gjson offer.line)) (pos n) in
      if offer.has_room idx then some idx else elim (spill offer.has_room idx n 1 (n - 1)) [
        | some alt_idx ↦ some alt_idx
        | none ↦ if offer.waited then some idx else none
      ]

  -- `Dispatch` to `n` workers: the sends, in order, and whether it ended by the context.
  unfoldable pub dispatch : ℕ → List Offer → List (ℕ × String) × Bool
  unfolding place
  dispatch n [] = ([], false)
  dispatch n (offer ∷ offers) =
      let (sends, cancelled) = dispatch n offers in
      elim (place n offer) [ none ↦ ([], true) | some idx ↦ ((idx, offer.line) ∷ sends, cancelled) ]
