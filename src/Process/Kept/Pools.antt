-- ===== src/Process/Kept/Pools.antt =====
-- What the calls keep, a pool of workers keeps, in whatever order they run.
use ta2mongo.Prelude.{ℕ, String, Bool, true, false, Option, List, [], ◌∷◌, leb, length, not, ◌||◌}
use ta2mongo.Prelude.Int.{ℤ, pos}
use ta2mongo.WriteModel.{Model}
use ta2mongo.Store.{Target, user, event, dead_letter}
use ta2mongo.Process.Core.{
  Kind, kind_event, kind_user, kind_filtered, kind_parse_error, kind_identity_error,
}
use ta2mongo.Process.Uploads.{Stage}
use ta2mongo.Process.Kept.{Keeps, note-keeps}
use ta2mongo.Process.Pipeline.Config.{Config}
use ta2mongo.Process.Pipeline.Threshold.{Float}
use ta2mongo.Process.Pipeline.Worker.{
  Batches, Event, received, tick, add, full, empty, threshold, flush_batch, flush, flush_if,
  check_flush, absorb, step,
}
use ta2mongo.Process.Pipeline.Pool.{
  Pool, put, push, work, leave, start_pool, Step, sends, blocks, unblocks, gives_up, closes,
  cancels, receives, ticks, drains, stops, Reach, start, next,
}

module _ (float : Float) (cfg : Config) {W : Type 0} (P : W → Type 0) (stage : Stage W)
    (keeps : Keeps P stage) where
  flush_batch-keeps :
      (t : Target) (ms : List Model) (w : W) → P w → P (flush_batch float cfg stage t ms w)
  unfolding flush_batch
  flush_batch-keeps t [] w p = p
  flush_batch-keeps t (m ∷ ms) w p =
      let (e, w') = stage.write t (m ∷ ms) w in
      note-keeps P stage keeps e w' (keeps.write t (m ∷ ms) w p)

  flush-keeps : (b : Batches) (w : W) → P w → P (flush float cfg stage (b, w)).1
  unfolding flush
  flush-keeps b w p =
      let w1 = flush_batch float cfg stage user b.users.models w in
      let w2 = flush_batch float cfg stage event b.events.models w1 in
      flush_batch-keeps dead_letter b.deads.models w2
        (flush_batch-keeps event b.events.models w1 (flush_batch-keeps user b.users.models w p))

  flush_if-keeps :
      (due : Bool) (b : Batches) (w : W) → P w → P (flush_if float cfg stage due (b, w)).1
  unfolding flush_if
  flush_if-keeps true b w p = flush-keeps b w p
  flush_if-keeps false b w p = p

  check_flush-keeps :
      (backlog : ℤ) (late : Bool) (b : Batches) (w : W)
      → P w
      → P (check_flush float cfg stage backlog late (b, w)).1
  unfolding check_flush
  check_flush-keeps backlog late b w p =
      let size = threshold float cfg stage backlog in
      flush_if-keeps (leb size (length b.users.models) || leb size (length b.events.models) || late)
        b w p

  absorb-keeps :
      (kind : Kind) (m : Option Model) (backlog : ℤ) (late : Bool) (b : Batches) (w : W)
      → P w
      → P (absorb float cfg stage kind m backlog late (b, w)).1
  unfolding absorb
  absorb-keeps kind_parse_error m backlog late b w p =
      let b' : Batches = record b { deads = add m b.deads } in
      flush_if-keeps (full b'.deads || late) b' w p
  absorb-keeps kind_identity_error m backlog late b w p = p
  absorb-keeps kind_filtered m backlog late b w p = p
  absorb-keeps kind_user m backlog late b w p =
      check_flush-keeps backlog late (record b { users = add m b.users }) w p
  absorb-keeps kind_event m backlog late b w p =
      check_flush-keeps backlog late (record b { events = add m b.events }) w p

  step-keeps : (e : Event) (b : Batches) (w : W) → P w → P (step float cfg stage e (b, w)).1
  unfolding step
  step-keeps (received l backlog late) b w p =
      let (o, w') = stage.process_line l w in
      absorb-keeps o.kind o.model backlog late b w' (keeps.line l w p)
  step-keeps tick b w p =
      flush_if-keeps (not (empty b.users) || not (empty b.events) || not (empty b.deads)) b w p

module _ (gjson : String → String → Option String) (bytes : String → List ℕ) (float : Float)
    (cfg : Config) {W L : Type 0} (P : W → Type 0) (stage : Stage (W × L)) where
  -- The property of the shared state, whatever a worker keeps for itself.
  abbrev pub Shared : W × L → Type 0
  Shared (w, l) = P w

  module _ (keeps : Keeps Shared stage) where
    Step-keeps :
        {p p' : Pool W L} {taken : List String}
        → Step gjson bytes float cfg stage p taken p'
        → P p.world
        → P p'.world
    unfolding push put work leave
    Step-keeps (sends line i opened idle e) k = k
    Step-keeps (blocks line opened idle e) k = k
    Step-keeps (unblocks line opened e room) k = k
    Step-keeps (gives_up line opened e done) k = k
    Step-keeps (closes opened idle) k = k
    Step-keeps cancels k = k
    Step-keeps {p = p} (receives i line rest late below r e) k =
        step-keeps float cfg Shared stage keeps (received line (pos (length rest)) late)
          (p.slots i).batches (p.world, (p.slots i).own) k
    Step-keeps {p = p} (ticks i below r) k =
        step-keeps float cfg Shared stage keeps tick (p.slots i).batches (p.world, (p.slots i).own)
          k
    Step-keeps {p = p} (drains i below r e c) k =
        flush-keeps float cfg Shared stage keeps (p.slots i).batches (p.world, (p.slots i).own) k
    Step-keeps {p = p} (stops i below r done) k =
        flush-keeps float cfg Shared stage keeps (p.slots i).batches (p.world, (p.slots i).own) k

    -- Whatever the order of the steps, the state that the workers share has the property.
    pub Reach-keeps :
        {w : W} {own : ℕ → L} {lines : List String} {p : Pool W L}
        → Reach gjson bytes float cfg stage w own lines p
        → P w
        → P p.world
    unfolding start_pool
    Reach-keeps start k = k
    Reach-keeps (next r step) k = Step-keeps step (Reach-keeps r k)
