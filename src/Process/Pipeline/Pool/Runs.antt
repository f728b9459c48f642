-- ===== src/Process/Pipeline/Pool/Runs.antt =====
-- The workers and the dispatcher together: every line that is taken from the source is processed
-- once, and everything that is due for it is written.
use mathlib.Core.Path.{subst}
use ta2mongo.Prelude.{
  ℕ, ◌+◌, ◌≤◌, ◌<◌, ◌≡◌, refl, ap, String, true, false, Option, none, some, List, [], ◌∷◌, ◌++◌,
  arith, length,
}
use ta2mongo.Prelude.Int.{pos, ◌<ℤ◌}
use ta2mongo.Process.Uploads.{Stage}
use ta2mongo.Process.Uploads.Trace.{Act, traced}
use ta2mongo.Process.Pipeline.Config.{Config, max_batch_size}
use ta2mongo.Process.Pipeline.Config.Laws.{IsUsable}
use ta2mongo.Process.Pipeline.Threshold.{Float}
use ta2mongo.Process.Pipeline.Routing.{extract_routing_key, route_index_lt}
use ta2mongo.Process.Pipeline.Dispatch.Delivery.{place_lem}
use ta2mongo.Process.Pipeline.Worker.{Event, tick, step}
use ta2mongo.Process.Pipeline.Worker.Flushes.{Running, IsSmall}
use ta2mongo.Process.Pipeline.Worker.Runs.{
  IsComplete, count_lines, step-Running, started, flush-IsComplete,
}
use ta2mongo.Process.Pipeline.Pool.{
  Slot, Pool, take_line, push, put, worker_count, start_pool, has_room, try_place, own_worker, work,
  leave, Step, sends, blocks, unblocks, gives_up, closes, cancels, receives, ticks, drains, stops,
  Reach, start, next,
}
use ta2mongo.Process.Pipeline.Pool.Sound.{
  pending, Sound, not_both, zero_total, replaced-Sound, push-Sound,
}
use ta2mongo.Process.Pipeline.Pool.Slots.{
  running-SlotIsSound, SlotIsSound-running, count, held, total,
}

module _ (gjson : String → String → Option String) (bytes : String → List ℕ) (float : Float)
    (cfg : Config) {W : Type 0} (stage : Stage W) (usable : IsUsable cfg) where
  abbrev n : ℕ
  n = worker_count gjson bytes float cfg (traced stage)

  positive : pos 0 <ℤ max_batch_size cfg
  positive = omega (arith, usable.min, usable.initial, usable.max)

  some_worker : 0 < n
  some_worker = ground (arith, usable.workers)

  start_pool-Sound :
      (w : W) → Sound cfg n [] (start_pool gjson bytes float cfg (traced stage) w (λ i. []))
  unfolding start_pool
  start_pool-Sound w = record {
    workers = λ i. (started float cfg stage, (positive, positive));
    counted = λ x. omega (arith, zero_total n);
    drained = λ i r. absurd (not_both r refl);
    gate = λ c. absurd (not_both refl c);
  }

  -- A worker that runs goes on, with a line that it received or at a tick.
  work-Sound :
      {lines : List String} (p : Pool W (List Act)) (i before : ℕ) (s : Slot (List Act)) (e : Event)
      → Sound cfg n lines p
      → s.running ≡ true
      → Running (max_batch_size cfg) before s.batches s.own × IsSmall (max_batch_size cfg) s.batches
      → count_lines (e ∷ []) + before ≡ length s.taken
      → ((x : String) → held x s ≡ held x (p.slots i))
      → Sound cfg n lines (work gjson bytes float cfg (traced stage) i s e p)
  unfolding work put
  work-Sound p i before s e h r (running, small) lines same =
      let (b, (w, l)) = step float cfg (traced stage) e (s.batches, (p.world, s.own)) in
      let (running', small') =
        step-Running float cfg stage e before s.batches p.world s.own usable positive running
          small in
      let s' : Slot (List Act) = record s { batches = b; own = l } in
      replaced-Sound cfg n p w i s' h
        (SlotIsSound-running (max_batch_size cfg) s' r
          (subst (λ (m : ℕ). Running (max_batch_size cfg) m b l) lines running', small'))
        same (λ off. absurd (not_both off r))

  -- A worker returns.
  leave-Sound :
      {lines : List String} (p : Pool W (List Act)) (i : ℕ)
      → Sound cfg n lines p
      → (p.slots i).running ≡ true
      → (p.done ≡ false → ((p.slots i).queue ≡ []) × (p.closed ≡ true))
      → Sound cfg n lines (leave gjson bytes float cfg (traced stage) i p)
  unfolding leave put
  leave-Sound p i h r drained =
      let s = p.slots i in
      let (running, small) = running-SlotIsSound (max_batch_size cfg) s (h.workers i) r in
      replaced-Sound cfg n p _ i _ h
        (flush-IsComplete float cfg stage (length s.taken) s.batches p.world s.own positive running
          small)
        (λ x. refl) (λ _ d. drained d)

  sent-below :
      (line : String) (p : Pool W (List Act)) {i : ℕ}
      → try_place gjson bytes float cfg (traced stage) line p ≡ some i
      → i < n
  sent-below line p {i} e =
      (place_lem gjson bytes n
        (record {
          line = line;
          has_room = has_room gjson bytes float cfg (traced stage) p;
          waited = false;
        })
        i some_worker e).0

  step-Sound :
      {lines taken : List String} {p p' : Pool W (List Act)}
      → Step gjson bytes float cfg (traced stage) p taken p'
      → Sound cfg n lines p
      → Sound cfg n (taken ++ lines) p'
  unfolding push
  step-Sound {lines} {p = p} (sends line i opened idle e) h =
      push-Sound cfg n p line i (line ∷ lines) p.blocked (sent-below line p e) opened h
        (λ x. omega arith)
  step-Sound {lines} {p = p} (blocks line opened idle e) h = record {
    workers = h.workers;
    counted = λ x.
        let before : pending x p.blocked ≡ 0 = ap (pending x) idle in
        omega (arith, h.counted x, before);
    drained = h.drained;
    gate = λ c. absurd (not_both opened c);
  }
  step-Sound {lines} {p = p} (unblocks line opened e room) h =
      push-Sound cfg n p line (own_worker gjson bytes float cfg (traced stage) line) lines none
        (route_index_lt (bytes (extract_routing_key gjson line)) n some_worker) opened h
        (λ x.
          let before : pending x p.blocked ≡ count x (line ∷ []) = ap (pending x) e in
          omega (arith, before))
  step-Sound {p = p} (gives_up line opened e done) h = record {
    workers = h.workers;
    counted = h.counted;
    drained = λ i r d. absurd (not_both d done);
    gate = λ c d. absurd (not_both d done);
  }
  step-Sound {p = p} (closes opened idle) h = record {
    workers = h.workers;
    counted = h.counted;
    drained = λ i r d. ((h.drained i r d).0, refl);
    gate = λ c d. idle;
  }
  step-Sound cancels h = record {
    workers = h.workers;
    counted = h.counted;
    drained = λ i r d. absurd (not_both d refl);
    gate = λ c d. absurd (not_both d refl);
  }
  step-Sound {p = p} (receives i line rest late below r e) h =
      let s = p.slots i in
      work-Sound p i (length s.taken) (take_line line rest s) _ h r
        (running-SlotIsSound (max_batch_size cfg) s (h.workers i) r) (omega arith)
        (λ x.
          let queued : count x s.queue ≡ count x (line ∷ rest) = ap (count x) e in
          omega (arith, queued))
  step-Sound {p = p} (ticks i below r) h =
      let s = p.slots i in
      work-Sound p i (length s.taken) s tick h r
        (running-SlotIsSound (max_batch_size cfg) s (h.workers i) r) (omega arith) (λ x. refl)
  step-Sound {p = p} (drains i below r e c) h = leave-Sound p i h r (λ d. (e, c))
  step-Sound {p = p} (stops i below r done) h = leave-Sound p i h r (λ d. absurd (not_both d done))

  pub Reach-Sound :
      {w : W} {lines : List String} {p : Pool W (List Act)}
      → Reach gjson bytes float cfg (traced stage) w (λ i. []) lines p
      → Sound cfg n lines p
  Reach-Sound {w} start = start_pool-Sound w
  Reach-Sound (next r step) = step-Sound step (Reach-Sound r)

  -- What a run leaves when all workers have returned.
  pub record IsFinished (lines : List String) (p : Pool W (List Act)) : Type 0 where
    pub workers :
        (i : ℕ) → i < n → IsComplete (max_batch_size cfg) (length (p.slots i).taken) (p.slots i).own
    pub once : (x : String) → total n (λ i. count x (p.slots i).taken) ≤ count x lines
    pub all :
        p.done ≡ false → (x : String) → total n (λ i. count x (p.slots i).taken) ≡ count x lines
