-- ===== src/Process/Pipeline/Pool/Progress.antt =====
-- `RunWorkers` is never stuck: from every state that it comes to, the dispatcher and all workers can
-- come to their ends.
use ta2mongo.Prelude.{
  ℕ, zero, suc, ◌≤◌, ◌<◌, ◌≡◌, ◌⊎◌, refl, ap, sym, ◌∙◌, String, true, false, Option, none, some,
  List, [], ◌∷◌, arith, length, Bool-cases, Option-cases, nat_eq, nat_eq_iff, inl, inr,
}
use ta2mongo.Prelude.Int.{pos}
use ta2mongo.Process.Uploads.{Stage}
use ta2mongo.Process.Uploads.Trace.{Act, traced}
use ta2mongo.Process.Pipeline.Config.{Config}
use ta2mongo.Process.Pipeline.Config.Laws.{IsUsable}
use ta2mongo.Process.Pipeline.Threshold.{Float}
use ta2mongo.Process.Pipeline.Routing.{extract_routing_key, route_index_lt}
use ta2mongo.Process.Pipeline.Worker.{Event, received, step, flush}
use ta2mongo.Process.Pipeline.Pool.{
  Slot, Pool, set, take_line, push, put, worker_count, has_room, own_worker, work, leave, unblocks,
  closes, receives, drains, stops, Reach, next,
}
use ta2mongo.Process.Pipeline.Pool.Sound.{not_both}
use ta2mongo.Process.Pipeline.Pool.Runs.{Reach-Sound}

module _ {L : Type 0} (i : ℕ) (s : Slot L) (slots : ℕ → Slot L) where
  set_own : set i s slots i ≡ s
  set_own = let own : nat_eq i i ≡ true = ground arith in rw own refl

  -- A change that does not start or stop a worker.
  set-same_running :
      s.running ≡ (slots i).running → (j : ℕ) → (set i s slots j).running ≡ (slots j).running
  set-same_running h j = elim (Bool-cases (nat_eq i j)) [
    | inl e ↦ rw e (h ∙ ap (λ (m : ℕ). (slots m).running) ((nat_eq_iff i j).0 e))
    | inr e ↦ rw e refl
  ]

  -- A worker that has returned is still so when another returns.
  set-returned :
      s.running ≡ false → (j : ℕ) → (slots j).running ≡ false → (set i s slots j).running ≡ false
  set-returned h j k = elim (Bool-cases (nat_eq i j)) [ inl e ↦ rw e h | inr e ↦ rw e k ]

module _ (gjson : String → String → Option String) (bytes : String → List ℕ) (float : Float)
    (cfg : Config) {W : Type 0} (stage : Stage W) where
  abbrev n : ℕ
  n = worker_count gjson bytes float cfg (traced stage)

  -- The entry of a worker after an iteration, and after its end.
  work_slot :
      (i : ℕ) (s : Slot (List Act)) (e : Event) (p : Pool W (List Act))
      → (s' : Slot (List Act)) × ((work gjson bytes float cfg (traced stage) i s e p).slots
          ≡ set i s' p.slots)
        × (s'.running ≡ s.running)
        × (s'.queue ≡ s.queue)
  unfolding work put
  work_slot i s e p =
      let (b, (w', l)) = step float cfg (traced stage) e (s.batches, (p.world, s.own)) in
      (record s { batches = b; own = l }, refl, refl, refl)

  leave_slot :
      (i : ℕ) (p : Pool W (List Act))
      → (s' : Slot (List Act)) × ((leave gjson bytes float cfg (traced stage) i p).slots
          ≡ set i s' p.slots)
        × (s'.running ≡ false)
  unfolding leave put
  leave_slot i p =
      let s = p.slots i in
      let (b, (w', l)) = flush float cfg (traced stage) (s.batches, (p.world, s.own)) in
      (record s { batches = b; own = l; running = false }, refl, refl)

  module _ (w : W) (lines : List String) where
    abbrev Reached : Pool W (List Act) → Type 0
    Reached p = Reach gjson bytes float cfg (traced stage) w (λ i. []) lines p

    -- The steps from a pool to another one leave the dispatcher as it was.
    record Onward (p p' : Pool W (List Act)) : Type 0 where
      reached : Reached p'
      done : p'.done ≡ p.done
      closed : p'.closed ≡ p.closed
      blocked : p'.blocked ≡ p.blocked
      returned : (j : ℕ) → (p.slots j).running ≡ false → (p'.slots j).running ≡ false

    here : (p : Pool W (List Act)) → Reached p → Onward p p
    here p r = record {
      reached = r;
      done = refl;
      closed = refl;
      blocked = refl;
      returned = λ j h. h;
    }

    after : {p q t : Pool W (List Act)} → Onward p q → Onward q t → Onward p t
    after a b = record {
      reached = b.reached;
      done = b.done ∙ a.done;
      closed = b.closed ∙ a.closed;
      blocked = b.blocked ∙ a.blocked;
      returned = λ j h. b.returned j (a.returned j h);
    }

    -- A worker that runs receives all that its channel has.
    empties :
        (i : ℕ) (queue : List String) (p : Pool W (List Act))
        → i < n
        → Reached p
        → (p.slots i).running ≡ true
        → (p.slots i).queue ≡ queue
        → (p' : Pool W (List Act)) × Onward p p'
          × ((p'.slots i).running ≡ true)
          × ((p'.slots i).queue ≡ [])
    unfolding work put
    empties i [] p below r on e = (p, here p r, on, e)
    empties i (line ∷ rest) p below r on e =
        let taking = take_line line rest (p.slots i) in
        let event = received line (pos (length rest)) false in
        let p1 = work gjson bytes float cfg (traced stage) i taking event p in
        let (s', slots, running, queue) = work_slot i taking event p in
        let reached : Reached p1 = next r (receives i line rest false below on e) in
        let first : Onward p p1 = record {
          reached = reached;
          done = refl;
          closed = refl;
          blocked = refl;
          returned = λ j h.
              ap (λ (f : ℕ → Slot (List Act)). (f j).running) slots
              ∙ set-same_running i s' p.slots running j
              ∙ h;
        } in
        let own : p1.slots i ≡ s' =
          ap (λ (f : ℕ → Slot (List Act)). f i) slots ∙ set_own i s' p.slots in
        let (p', onward, on', e') =
          empties i rest p1 below reached
            (ap (λ (s : Slot (List Act)). s.running) own ∙ running ∙ on)
            (ap (λ (s : Slot (List Act)). s.queue) own ∙ queue) in
        (p', after first onward, on', e')

    -- A worker returns, when its channel is closed and empty or when the context is done.
    leaves :
        (i : ℕ) (p : Pool W (List Act))
        → Reached (leave gjson bytes float cfg (traced stage) i p)
        → (p' : Pool W (List Act)) × Onward p p' × ((p'.slots i).running ≡ false)
    unfolding leave put
    leaves i p reached =
        let (s', slots, off) = leave_slot i p in
        (
          leave gjson bytes float cfg (traced stage) i p,
          record {
            reached = reached;
            done = refl;
            closed = refl;
            blocked = refl;
            returned = λ j h.
                ap (λ (f : ℕ → Slot (List Act)). (f j).running) slots
                ∙ set-returned i s' p.slots off j h;
          },
          ap (λ (f : ℕ → Slot (List Act)). (f i).running) slots
              ∙ ap (λ (s : Slot (List Act)). s.running) (set_own i s' p.slots)
              ∙ off,
        )

    -- Each worker can come to its end.
    one_returns :
        (i : ℕ) (p : Pool W (List Act))
        → i < n
        → Reached p
        → (p.done ≡ true) ⊎ (p.closed ≡ true)
        → (p' : Pool W (List Act)) × Onward p p' × ((p'.slots i).running ≡ false)
    one_returns i p below r over = elim (Bool-cases (p.slots i).running) [
      | inr off ↦ (p, here p r, off)
      | inl on ↦ elim over [
        | inl done ↦ leaves i p (next r (stops i below on done))
        | inr closed ↦
            let (q, first, on', e) = empties i (p.slots i).queue p below r on refl in
            let (t, last, off) =
              leaves i q (next first.reached (drains i below on' e (first.closed ∙ closed))) in
            (t, after first last, off)
      ]
    ]

    all_return :
        (k : ℕ) (p : Pool W (List Act))
        → k ≤ n
        → Reached p
        → (p.done ≡ true) ⊎ (p.closed ≡ true)
        → (p' : Pool W (List Act)) × Onward p p' × ((i : ℕ) → i < k → (p'.slots i).running ≡ false)
    all_return zero p below r over = (p, here p r, (λ i h. absurd (ground (arith, h))))
    all_return (suc k) p below r over =
        let (q, first, before) = all_return k p (omega (arith, below)) r over in
        let over' : (q.done ≡ true) ⊎ (q.closed ≡ true) = elim over [
          | inl done ↦ inl (first.done ∙ done)
          | inr closed ↦ inr (first.closed ∙ closed)
        ] in
        let (t, last, off) = one_returns k q (omega (arith, below)) first.reached over' in
        (
          t,
          after first last,
          (λ i h. elim (Bool-cases (nat_eq i k)) [
            | inl e ↦ ap (λ (j : ℕ). (t.slots j).running) ((nat_eq_iff i k).0 e) ∙ off
            | inr e ↦ last.returned i (before i (ground (arith, h, e)))
          ]),
        )

  module _ (usable : IsUsable cfg) (w : W) (lines : List String) where
    -- The dispatcher's blocked send ends, since its worker makes room.
    unblocked :
        (line : String) (p : Pool W (List Act))
        → Reached w lines p
        → p.done ≡ false
        → p.closed ≡ false
        → p.blocked ≡ some line
        → (p' : Pool W (List Act)) × Reached w lines p'
          × (p'.done ≡ false)
          × (p'.closed ≡ false)
          × (p'.blocked ≡ none)
    unfolding push
    unblocked line p r d opened e =
        let i = own_worker gjson bytes float cfg (traced stage) line in
        let positive : 0 < n = ground (arith, usable.workers) in
        let below : i < n = route_index_lt (bytes (extract_routing_key gjson line)) n positive in
        let h = Reach-Sound gjson bytes float cfg stage usable r in
        let on : (p.slots i).running ≡ true = elim (Bool-cases (p.slots i).running) [
          | inl on ↦ on
          | inr off ↦ absurd (not_both opened (h.drained i off d).1)
        ] in
        let (q, onward, _, empty) = empties w lines i (p.slots i).queue p below r on refl in
        let size : length (q.slots i).queue ≡ 0 = ap (λ (l : List String). length l) empty in
        let room : has_room gjson bytes float cfg (traced stage) q i ≡ true =
          ground (arith, size, usable.channel) in
        (
          record (push i line q) { blocked = none },
          next onward.reached (unblocks line (onward.closed ∙ opened) (onward.blocked ∙ e) room),
          onward.done ∙ d,
          onward.closed ∙ opened,
          refl,
        )

    close :
        (p : Pool W (List Act))
        → Reached w lines p
        → p.done ≡ false
        → p.closed ≡ false
        → p.blocked ≡ none
        → (p' : Pool W (List Act)) × Reached w lines p' × (p'.done ≡ false) × (p'.closed ≡ true)
    close p r d opened idle = (record p { closed = true }, next r (closes opened idle), d, refl)

    dispatcher_ends :
        (p : Pool W (List Act))
        → Reached w lines p
        → p.done ≡ false
        → (p' : Pool W (List Act)) × Reached w lines p' × (p'.done ≡ false) × (p'.closed ≡ true)
    dispatcher_ends p r d = elim (Bool-cases p.closed) [
      | inl closed ↦ (p, r, d, closed)
      | inr opened ↦ elim (Option-cases p.blocked) [
        | inl idle ↦ close p r d opened idle
        | inr (line, e) ↦
            let (q, r', d', opened', idle) = unblocked line p r d opened e in
            close q r' d' opened' idle
      ]
    ]

    -- `RunWorkers` is never stuck: with usable settings, from every state that the dispatcher and
    -- the workers come to, they can come to a state in which all workers have returned, without
    -- another line from the source and without the end of the context if it has not come.
    pub Reach-returns :
        {p : Pool W (List Act)}
        → Reached w lines p
        → (p' : Pool W (List Act)) × Reached w lines p'
          × (p'.done ≡ p.done)
          × ((i : ℕ) → i < n → (p'.slots i).running ≡ false)
    Reach-returns {p} r = elim (Bool-cases p.done) [
      | inl done ↦
          let (q, onward, all) = all_return w lines n p (omega arith) r (inl done) in
          (q, onward.reached, onward.done, all)
      | inr d ↦
          let (q, r', d', closed) = dispatcher_ends p r d in
          let (t, onward, all) = all_return w lines n q (omega arith) r' (inr closed) in
          (t, onward.reached, onward.done ∙ d' ∙ sym d, all)
    ]
