-- ===== src/Process/Pipeline/Worker/Runs.antt =====
-- What a worker writes.
use mathlib.Core.List.{append-nil, append_assoc}
use ta2mongo.Prelude.{
  ℕ, suc, ◌+◌, ◌≡◌, refl, sym, ap, ◌∙◌, Bool, false, not, ◌||◌, Option, List, [], ◌∷◌, ◌++◌, length,
  arith, All, leb, length-append,
}
use ta2mongo.Prelude.Int.{ℤ, pos, ◌≤ℤ◌, ◌<ℤ◌}
use ta2mongo.WriteModel.{Model}
use ta2mongo.Store.{Target, user, event, dead_letter}
use ta2mongo.Process.Core.{
  Kind, kind_event, kind_user, kind_filtered, kind_parse_error, kind_identity_error, Cause,
}
use ta2mongo.Process.Uploads.{Stage}
use ta2mongo.Process.Uploads.Trace.{
  Act, processed, traced, to_list, due, sent, handled, length-to_list, outcome, zero_add,
}
use ta2mongo.Process.Pipeline.Config.{Config, min_batch_size, max_batch_size, channel_size}
use ta2mongo.Process.Pipeline.Config.Laws.{IsUsable}
use ta2mongo.Process.Pipeline.Threshold.{Float}
use ta2mongo.Process.Pipeline.Threshold.Bounds.{compute_flush_threshold-bounds}
use ta2mongo.Process.Pipeline.Worker.{
  add, full, empty, reset, Batches, Event, received, tick, initial, flush, threshold, check_flush,
  absorb, step,
}
use ta2mongo.Process.Pipeline.Worker.Flushes.{
  IsCapped, Running, IsSmall, IsFlushable, flush-Running, flush_if-Running,
}

-- What a worker has written when it returns: every line was processed, the models of all lines are
-- written, each collection's in order, and each write of users or events is of at most `max`.
pub record IsComplete (max : ℤ) (n : ℕ) (l : List Act) : Type 0 where
  pub written : (t : Target) → sent t l ≡ due t l
  pub capped : All (IsCapped max) l
  pub lines : handled l ≡ n

-- How many lines a worker received.
abbrev pub count_lines : List Event → ℕ
count_lines [] = 0
count_lines (received line backlog late ∷ events) = suc (count_lines events)
count_lines (tick ∷ events) = count_lines events

one_more : (n : ℕ) → 1 + n ≡ suc n
one_more n = omega arith

module _ (float : Float) (cfg : Config) {W : Type 0} (stage : Stage W) where
  abbrev max : ℤ
  max = max_batch_size cfg

  or_false : (p q r : Bool) → p || q || r ≡ false → (p ≡ false) × (q ≡ false)
  or_false p q r h = (ground arith, ground arith)

  -- A worker's threshold is at most the maximum.
  threshold-capped : (backlog : ℤ) → IsUsable cfg → pos (threshold float cfg stage backlog) ≤ℤ max
  threshold-capped backlog c =
      (compute_flush_threshold-bounds float (min_batch_size cfg) cfg.batch_size max backlog
        (channel_size cfg) c.min c.initial c.max).1

  unfull :
      (models : List Model) (size : ℕ)
      → leb size (length models) ≡ false
      → pos size ≤ℤ max
      → pos (length models) <ℤ max
  unfull models size h k = ground arith

  check_flush-Running :
      (backlog : ℤ) (late : Bool) (n : ℕ) (b : Batches) (w : W) (l : List Act)
      → IsUsable cfg
      → pos 0 <ℤ max
      → Running max n b l
      → IsFlushable max b
      → let r = check_flush float cfg (traced stage) backlog late (b, (w, l)) in
        Running max n r.0 r.1.1 × IsSmall max r.0
  unfolding check_flush
  check_flush-Running backlog late n b w l c positive h small =
      let size = threshold float cfg stage backlog in
      let cap = threshold-capped backlog c in
      flush_if-Running float cfg stage _ n b w l positive h small (λ d.
        let (p, q) =
          or_false (leb size (length b.users.models)) (leb size (length b.events.models)) late d in
        (unfull b.users.models size p cap, unfull b.events.models size q cap))

  below : (models : List Model) → pos (length models) <ℤ max → pos (length models) ≤ℤ max
  below models h = omega arith

  grown :
      (models : List Model) (m : Option Model)
      → pos (length models) <ℤ max
      → pos (length (models ++ to_list m)) ≤ℤ max
  grown models m h = omega (arith, h, length-append models (to_list m), length-to_list m)

  absorb-Running :
      (kind : Kind) (m : Option Model) (cause : Option Cause) (backlog : ℤ) (late : Bool) (n : ℕ)
      (b : Batches) (w : W) (l : List Act)
      → IsUsable cfg
      → pos 0 <ℤ max
      → Running max n b l
      → IsSmall max b
      → let r =
          absorb float cfg
            (traced stage)
            kind
            m
            backlog
            late
            (b, (w, processed (outcome kind m cause) ∷ l)) in
        Running max (suc n) r.0 r.1.1 × IsSmall max r.0
  unfolding absorb
  absorb-Running kind_user m c backlog late n b w l usable positive h small =
      check_flush-Running backlog late (suc n) (record b { users = add m b.users }) w
        (processed (outcome kind_user m c) ∷ l) usable positive
        (record {
          users = rw h.users (append_assoc (sent user l) b.users.models (to_list m));
          events = rw (append-nil (due event l)) h.events;
          deads = rw (append-nil (due dead_letter l)) h.deads;
          lines = ap suc h.lines;
          capped = (tt, h.capped);
        })
        (grown b.users.models m small.0, below b.events.models small.1)
  absorb-Running kind_event m c backlog late n b w l usable positive h small =
      check_flush-Running backlog late (suc n) (record b { events = add m b.events }) w
        (processed (outcome kind_event m c) ∷ l) usable positive
        (record {
          users = rw (append-nil (due user l)) h.users;
          events = rw h.events (append_assoc (sent event l) b.events.models (to_list m));
          deads = rw (append-nil (due dead_letter l)) h.deads;
          lines = ap suc h.lines;
          capped = (tt, h.capped);
        })
        (below b.users.models small.0, grown b.events.models m small.1)
  absorb-Running kind_filtered m c backlog late n b w l usable positive h small = (
    record {
      users = rw (append-nil (due user l)) h.users;
      events = rw (append-nil (due event l)) h.events;
      deads = rw (append-nil (due dead_letter l)) h.deads;
      lines = ap suc h.lines;
      capped = (tt, h.capped);
    },
    small,
  )
  absorb-Running kind_identity_error m c backlog late n b w l usable positive h small = (
    record {
      users = rw (append-nil (due user l)) h.users;
      events = rw (append-nil (due event l)) h.events;
      deads = rw h.deads (append_assoc (sent dead_letter l) b.deads.models (to_list m));
      lines = ap suc h.lines;
      capped = (tt, h.capped);
    },
    small,
  )
  absorb-Running kind_parse_error m c backlog late n b w l usable positive h small =
      let b' : Batches = record b { deads = add m b.deads } in
      flush_if-Running float cfg stage (full b'.deads || late) (suc n) b' w
        (processed (outcome kind_parse_error m c) ∷ l) positive
        (record {
          users = rw (append-nil (due user l)) h.users;
          events = rw (append-nil (due event l)) h.events;
          deads = rw h.deads (append_assoc (sent dead_letter l) b.deads.models (to_list m));
          lines = ap suc h.lines;
          capped = (tt, h.capped);
        })
        (below b.users.models small.0, below b.events.models small.1) (λ d. small)

  pub step-Running :
      (e : Event) (n : ℕ) (b : Batches) (w : W) (l : List Act)
      → IsUsable cfg
      → pos 0 <ℤ max
      → Running max n b l
      → IsSmall max b
      → let r = step float cfg (traced stage) e (b, (w, l)) in
        Running max (count_lines (e ∷ []) + n) r.0 r.1.1 × IsSmall max r.0
  unfolding step
  step-Running (received line backlog late) n b w l usable positive h small =
      let (o, w') = stage.process_line line w in
      rw (one_more n)
        (absorb-Running o.kind o.model o.cause backlog late n b w' l usable positive h small)
  step-Running tick n b w l usable positive h small = rw (zero_add n) (
      flush_if-Running float cfg stage
        (not (empty b.users) || not (empty b.events) || not (empty b.deads)) n b w l positive h
        (below b.users.models small.0, below b.events.models small.1) (λ d. small))

  all_sent :
      {n : ℕ} (b : Batches) {l : List Act}
      → Running max n
          (record { users = reset b.users; events = reset b.events; deads = reset b.deads })
          l
      → (t : Target) → sent t l ≡ due t l
  all_sent b {l = l} h user = sym (h.users ∙ append-nil (sent user l))
  all_sent b {l = l} h event = sym (h.events ∙ append-nil (sent event l))
  all_sent b {l = l} h dead_letter = sym (h.deads ∙ append-nil (sent dead_letter l))

  pub started : Running max 0 (initial float cfg stage) []
  started = record { users = refl; events = refl; deads = refl; lines = refl; capped = tt }

  -- The last flush leaves nothing unwritten.
  pub flush-IsComplete :
      (n : ℕ) (b : Batches) (w : W) (l : List Act)
      → pos 0 <ℤ max
      → Running max n b l
      → IsSmall max b
      → IsComplete max n (flush float cfg (traced stage) (b, (w, l))).1.1
  unfolding flush
  flush-IsComplete n b w l positive h small =
      let (done, _) =
        flush-Running float cfg stage n b w l positive h
          (below b.users.models small.0, below b.events.models small.1) in
      record { written = all_sent b done; capped = done.capped; lines = done.lines }
