-- ===== src/Process/Pipeline/Dispatch/Delivery.antt =====
-- Each line is sent once, in order, to a worker that exists.
use ta2mongo.Prelude.{
  ℕ, zero, suc, ◌+◌, ◌-◌, ◌%◌, ◌<◌, ◌≡◌, refl, String, Bool, true, false, Option, some, List, [],
  ◌∷◌, ◌++◌, arith, Option-cases, Bool-cases, inl, inr, All,
}
use ta2mongo.Prelude.Int.{pos}
use ta2mongo.Process.Pipeline.Routing.{route_index, extract_routing_key, route_index_lt}
use ta2mongo.Process.Pipeline.Dispatch.{Offer, spill, place}

abbrev pub lines_of : List Offer → List String
lines_of [] = []
lines_of (o ∷ offers) = o.line ∷ lines_of offers

abbrev pub sent_lines : List (ℕ × String) → List String
sent_lines [] = []
sent_lines ((i, l) ∷ sends) = l ∷ sent_lines sends

abbrev pub IsBelow : ℕ → ℕ × String → Type 0
IsBelow n (i, l) = i < n

module _ (gjson : String → String → Option String) (bytes : String → List ℕ) where
  -- The worker of an offer's key.
  abbrev pub home : ℕ → Offer → ℕ
  home n offer = route_index (bytes (extract_routing_key gjson offer.line)) (pos n)

  -- A line whose own worker has room at once is sent there.
  abbrev pub AtHome : ℕ → List (ℕ × String) → List Offer → Type 0
  AtHome n [] offers = Unit
  AtHome n (send ∷ sends) [] = Unit
  AtHome n ((i, l) ∷ sends) (o ∷ offers) =
      (o.has_room (home n o) ≡ true → i ≡ home n o) × AtHome n sends offers

  spill_lt :
      (has_room : ℕ → Bool) (idx n offset left i : ℕ)
      → 0 < n
      → spill gjson bytes has_room idx n offset left ≡ some i
      → (i < n) × (has_room i ≡ true)
  unfolding spill
  spill_lt has_room idx n offset zero i positive h = absurd (ground arith)
  spill_lt has_room idx n offset (suc left) i positive h =
      elim (Bool-cases (has_room ((idx + offset) % n))) [
        | inl r ↦
            let e : (idx + offset) % n ≡ i = ground (arith, r, h) in
            rw (← e) ((omega (arith, positive)), r)
        | inr r ↦ spill_lt has_room idx n (suc offset) left i positive (ground (arith, r, h))
      ]

  elsewhere :
      (n : ℕ) (offer : Offer) (i : ℕ)
      → 0 < n
      → offer.has_room (home n offer) ≡ false
      → place gjson bytes n offer ≡ some i
      → i < n
  unfolding place
  elsewhere n offer i positive r h =
      let own : home n offer < n =
        route_index_lt (bytes (extract_routing_key gjson offer.line)) n positive in
      elim (Option-cases (spill gjson bytes offer.has_room (home n offer) n 1 (n - 1))) [
        | inl e ↦ elim (Bool-cases offer.waited) [
          | inl w ↦ let same : home n offer ≡ i = ground (arith, r, e, w, h) in rw (← same) own
          | inr w ↦ absurd (ground (arith, r, e, w, h))
        ]
        | inr (j, e) ↦
            let same : j ≡ i = ground (arith, r, e, h) in
            (spill_lt offer.has_room (home n offer) n 1 (n - 1) i positive (rw (← same) e)).0
      ]

  -- A line whose own worker has room is sent there, and a worker that is sent a line exists.
  pub place_lem :
      (n : ℕ) (offer : Offer) (i : ℕ)
      → 0 < n
      → place gjson bytes n offer ≡ some i
      → (i < n) × (offer.has_room (home n offer) ≡ true → i ≡ home n offer)
  unfolding place
  place_lem n offer i positive h =
      let own : home n offer < n =
        route_index_lt (bytes (extract_routing_key gjson offer.line)) n positive in
      elim (Bool-cases (offer.has_room (home n offer))) [
        | inl r ↦ let e : home n offer ≡ i = ground (arith, r, h) in rw (← e) (own, (λ _. refl))
        | inr r ↦ (elsewhere n offer i positive r h, (λ t. absurd (ground (arith, r, t))))
      ]

  -- What `Dispatch` sends, by the offers it has: every send is to a worker that exists and the lines
  -- are sent in order, all of them unless the context ends the dispatch.
  pub record Delivered (n : ℕ) (offers : List Offer) (sends : List (ℕ × String)) (cancelled : Bool)
      : Type 0 where
    pub indices : All (IsBelow n) sends
    pub homes : AtHome n sends offers
    pub rest : List String
    pub order : lines_of offers ≡ sent_lines sends ++ rest
    pub all : cancelled ≡ false → rest ≡ []
