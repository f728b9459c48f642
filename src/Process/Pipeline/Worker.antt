-- ===== src/Process/Pipeline/Worker.antt =====
-- batch.go and worker.go: a worker's batches and its loop.
pub mod Flushes
pub mod Runs
use ta2mongo.Prelude.{
  ℕ, suc, String, Bool, true, false, not, ◌&&◌, ◌||◌, Option, List, [], ◌∷◌, ◌++◌, length, leb,
  if◌then◌else◌,
}
use ta2mongo.Prelude.Int.{ℤ, pos, leb_ℤ}
use ta2mongo.WriteModel.{Model}
use ta2mongo.Store.{Target, user, event, dead_letter}
use ta2mongo.Process.Core.{
  Kind, kind_event, kind_user, kind_filtered, kind_parse_error, kind_identity_error,
}
use ta2mongo.Process.Uploads.{Stage, End}
use ta2mongo.Process.Uploads.Trace.{to_list}
use ta2mongo.Process.Single.{note_failure}
use ta2mongo.Process.Pipeline.Config.{Config, min_batch_size, max_batch_size, channel_size}
use ta2mongo.Process.Pipeline.Threshold.{Float, compute_flush_threshold}

pub record Batch : Type 0 where
  pub models : List Model
  pub cap : ℤ

abbrev pub new_batch : ℤ → Batch
new_batch capacity = record { models = []; cap = capacity }

-- `Add` of a result's model; a result that is not filtered has one.
abbrev pub add : Option Model → Batch → Batch
add m b = record b { models = b.models ++ to_list m }

abbrev pub full : Batch → Bool
full b = leb_ℤ b.cap (pos (length b.models))

abbrev pub is_nil : List Model → Bool
is_nil [] = true
is_nil l = false

abbrev pub empty : Batch → Bool
empty b = is_nil b.models

abbrev pub reset : Batch → Batch
reset b = record b { models = [] }

-- The variables of `worker`; the last flush and the count of invalid lines serve the clock and the
-- log only.
pub record Batches : Type 0 where
  pub users : Batch
  pub events : Batch
  pub deads : Batch

-- What a worker's loop selects: a line, with the length of the channel after it and whether the
-- flush interval has passed when it is handled, or a tick.
pub data Event : Type 0 where
  received : String → ℤ → Bool → Event
  tick : Event

module _ (float : Float) (cfg : Config) {W : Type 0} (stage : Stage W) where
  abbrev pub initial : Batches
  initial = record {
    users = new_batch (max_batch_size cfg);
    events = new_batch (max_batch_size cfg);
    deads = new_batch cfg.dead_letter_cap;
  }

  unfoldable pub flush_batch : Target → List Model → W → W
  unfolding note_failure
  flush_batch target [] w = w
  flush_batch target (m ∷ models) w =
      let (e, w') = stage.write target (m ∷ models) w in note_failure stage e w'

  unfoldable pub flush : Batches × W → Batches × W
  unfolding flush_batch
  flush (b, w) = (
    record { users = reset b.users; events = reset b.events; deads = reset b.deads },
    flush_batch dead_letter b.deads.models
        (flush_batch event b.events.models (flush_batch user b.users.models w)),
  )

  unfoldable pub flush_if : Bool → Batches × W → Batches × W
  unfolding flush
  flush_if due s = if due then flush s else s

  abbrev pub threshold : ℤ → ℕ
  threshold backlog =
      compute_flush_threshold float (min_batch_size cfg) cfg.batch_size (max_batch_size cfg) backlog
        (channel_size cfg)

  -- The check after a model of the users or events.
  unfoldable pub check_flush : ℤ → Bool → Batches × W → Batches × W
  unfolding flush_if
  check_flush backlog late (b, w) =
      let size = threshold backlog in
      flush_if (leb size (length b.users.models) || leb size (length b.events.models) || late)
        (b, w)

  unfoldable pub absorb : Kind → Option Model → ℤ → Bool → Batches × W → Batches × W
  unfolding check_flush flush_if
  absorb kind_parse_error m backlog late (b, w) =
      let b' = record b { deads = add m b.deads } in flush_if (full b'.deads || late) (b', w)
  absorb kind_identity_error m backlog late (b, w) = (record b { deads = add m b.deads }, w)
  absorb kind_filtered m backlog late (b, w) = (b, w)
  absorb kind_user m backlog late (b, w) =
      check_flush backlog late (record b { users = add m b.users }, w)
  absorb kind_event m backlog late (b, w) =
      check_flush backlog late (record b { events = add m b.events }, w)

  unfoldable pub step : Event → Batches × W → Batches × W
  unfolding absorb flush_if
  step (received line backlog late) (b, w) =
      let (res, w') = stage.process_line line w in absorb res.kind res.model backlog late (b, w')
  step tick (b, w) =
      flush_if (not (empty b.users) || not (empty b.events) || not (empty b.deads)) (b, w)

  unfoldable pub steps : List Event → Batches × W → Batches × W
  unfolding step
  steps [] s = s
  steps (e ∷ events) s = steps events (step e s)

  -- `worker` until its channel is closed or the context is done; both flush on the way out.
  unfoldable pub worker : List Event → W → W
  unfolding steps flush
  worker events w = (flush (steps events (initial, w))).1
