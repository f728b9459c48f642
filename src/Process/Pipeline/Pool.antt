-- ===== src/Process/Pipeline/Pool.antt =====
-- worker.go and dispatch.go: `RunWorkers`. The workers, each with its own channel and processor,
-- and the dispatcher run side by side, in any order; the state of the store is shared.
pub mod Slots
pub mod Sound
pub mod Runs
pub mod Progress
use ta2mongo.Prelude.{
  ℕ, ◌<◌, ◌≡◌, String, Bool, true, false, Option, none, some, List, [], ◌∷◌, ◌++◌, length, nat_eq,
  if◌then◌else◌,
}
use ta2mongo.Prelude.Int.{pos, pos_part, ltb_ℤ}
use ta2mongo.Process.Uploads.{Stage}
use ta2mongo.Process.Pipeline.Config.{Config, channel_size}
use ta2mongo.Process.Pipeline.Threshold.{Float}
use ta2mongo.Process.Pipeline.Routing.{route_index, extract_routing_key}
use ta2mongo.Process.Pipeline.Dispatch.{Offer, place}
use ta2mongo.Process.Pipeline.Worker.{Batches, Event, received, tick, initial, step, flush}

-- A worker: the lines in its channel, its batches, what its processor keeps, and whether it still
-- runs. The lines that it has received are kept for the statements.
pub record Slot (L : Type 0) : Type 0 where
  pub queue : List String
  pub batches : Batches
  pub own : L
  pub running : Bool
  pub taken : List String

-- The pool: the line whose send blocks the dispatcher, whether the channels are closed, and whether
-- the context is done.
pub record Pool (W L : Type 0) : Type 0 where
  pub world : W
  pub slots : ℕ → Slot L
  pub blocked : Option String
  pub closed : Bool
  pub done : Bool

module _ {L : Type 0} where
  abbrev pub set : ℕ → Slot L → (ℕ → Slot L) → ℕ → Slot L
  set i s slots j = if nat_eq i j then s else slots j

  -- A worker receives the first line of its channel.
  abbrev pub take_line : String → List String → Slot L → Slot L
  take_line line rest s = record s { queue = rest; taken = line ∷ s.taken }

module _ {W L : Type 0} where
  -- A line is put into a worker's channel.
  unfoldable pub push : ℕ → String → Pool W L → Pool W L
  push i line p =
      let s = p.slots i in
      record p { slots = set i (record s { queue = s.queue ++ line ∷ [] }) p.slots }

  -- What a worker did: its batches, with the store and its processor.
  unfoldable pub put : ℕ → Slot L → Batches × (W × L) → Pool W L → Pool W L
  put i s (b, (w, own)) p = record p {
    world = w;
    slots = set i (record s { batches = b; own = own }) p.slots;
  }

module _ (gjson : String → String → Option String) (bytes : String → List ℕ) (float : Float)
    (cfg : Config) {W L : Type 0} (stage : Stage (W × L)) where
  abbrev pub worker_count : ℕ
  worker_count = pos_part cfg.batch_workers

  unfoldable pub start_pool : W → (ℕ → L) → Pool W L
  start_pool w own = record {
    world = w;
    slots = λ i. record {
      queue = [];
      batches = initial float cfg stage;
      own = own i;
      running = true;
      taken = [];
    };
    blocked = none;
    closed = false;
    done = false;
  }

  -- Whether a channel takes a line at once.
  abbrev pub has_room : Pool W L → ℕ → Bool
  has_room p i = ltb_ℤ (pos (length (p.slots i).queue)) (channel_size cfg)

  -- The sends of the dispatcher that do not block.
  abbrev pub try_place : String → Pool W L → Option ℕ
  try_place line p =
      place gjson bytes worker_count (record { line = line; has_room = has_room p; waited = false })

  abbrev pub own_worker : String → ℕ
  own_worker line = route_index (bytes (extract_routing_key gjson line)) (pos worker_count)

  -- An iteration of a worker's loop.
  unfoldable pub work : ℕ → Slot L → Event → Pool W L → Pool W L
  unfolding put step
  work i s e p = put i s (step float cfg stage e (s.batches, (p.world, s.own))) p

  -- The last flush of a worker, which returns then.
  unfoldable pub leave : ℕ → Pool W L → Pool W L
  unfolding put flush
  leave i p =
      let s = p.slots i in
      put i (record s { running = false }) (flush float cfg stage (s.batches, (p.world, s.own))) p

  -- What can happen next, and the line that the dispatcher takes from the source, if it takes one.
  pub data Step (p : Pool W L) : List String → Pool W L → Type 0 where
    sends :
        (line : String) (i : ℕ)
        → p.closed ≡ false
        → p.blocked ≡ none
        → try_place line p ≡ some i
        → Step p (line ∷ []) (push i line p)
    blocks :
        (line : String)
        → p.closed ≡ false
        → p.blocked ≡ none
        → try_place line p ≡ none
        → Step p (line ∷ []) (record p { blocked = some line })
    unblocks :
        (line : String)
        → p.closed ≡ false
        → p.blocked ≡ some line
        → has_room p (own_worker line) ≡ true
        → Step p [] (record (push (own_worker line) line p) { blocked = none })
    gives_up :
        (line : String)
        → p.closed ≡ false
        → p.blocked ≡ some line
        → p.done ≡ true
        → Step p [] (record p { closed = true })
    closes : p.closed ≡ false → p.blocked ≡ none → Step p [] (record p { closed = true })
    cancels : Step p [] (record p { done = true })
    receives :
        (i : ℕ) (line : String) (rest : List String) (late : Bool)
        → i < worker_count
        → (p.slots i).running ≡ true
        → (p.slots i).queue ≡ line ∷ rest
        → Step p []
            (work i (take_line line rest (p.slots i)) (received line (pos (length rest)) late) p)
    ticks :
        (i : ℕ)
        → i < worker_count
        → (p.slots i).running ≡ true
        → Step p [] (work i (p.slots i) tick p)
    drains :
        (i : ℕ)
        → i < worker_count
        → (p.slots i).running ≡ true
        → (p.slots i).queue ≡ []
        → p.closed ≡ true
        → Step p [] (leave i p)
    stops :
        (i : ℕ)
        → i < worker_count
        → (p.slots i).running ≡ true
        → p.done ≡ true
        → Step p [] (leave i p)

  -- What a run has come to, with the lines that the dispatcher took from the source, newest first.
  pub data Reach (w : W) (own : ℕ → L) : List String → Pool W L → Type 0 where
    start : Reach w own [] (start_pool w own)
    next :
        {lines taken : List String} {p p' : Pool W L}
        → Reach w own lines p
        → Step p taken p'
        → Reach w own (taken ++ lines) p'
