-- ===== src/Process/Tests/Pool.antt =====
-- A run of two workers whose channels have room for one line each, and the theorems about the pool
-- at it.
use ta2mongo.Prelude.{ℕ, ◌<◌, ◌≡◌, refl, arith, String, true, false, List, [], ◌∷◌, codes}
use ta2mongo.Prelude.Int.{pos}
use ta2mongo.Process.Uploads.Trace.{Act, traced}
use ta2mongo.Process.Pipeline.Config.{Config, apply_defaults, channel_size}
use ta2mongo.Process.Pipeline.Config.Laws.{IsUsable, apply_defaults-IsUsable}
use ta2mongo.Process.Pipeline.Routing.{route_index, extract_routing_key}
use ta2mongo.Process.Pipeline.Dispatch.{place}
use ta2mongo.Process.Pipeline.Pool.{
  start_pool, push, put, work, leave, Pool, Reach, start, next, sends, blocks, unblocks, receives,
  closes, drains,
}
use ta2mongo.Process.Pipeline.Pool.Progress.{Reach-returns}
use ta2mongo.Process.Tests.{thousandths, stage, no_json}

abbrev two_workers : Config
two_workers = apply_defaults (record {
  batch_size = pos 4;
  batch_size_min = pos 0;
  batch_size_max = pos 0;
  batch_workers = pos 2;
  flush_interval = pos 0;
  channel_buffer = pos 1;
  dead_letter_cap = pos 0;
})

usable : IsUsable two_workers
usable = apply_defaults-IsUsable _ (omega arith)

abbrev Comes : List String → Pool ℕ (List Act) → Type 0
Comes = Reach no_json codes thousandths two_workers (traced stage) 0 (λ i. [])

-- The third line finds no room.
abbrev blocked_run : (p : Pool ℕ (List Act)) × Comes ("bad" ∷ "event" ∷ "user" ∷ []) p
unfolding start_pool place channel_size apply_defaults route_index extract_routing_key push
blocked_run = (
  _,
  next (next (next start (sends "user" 0 refl refl refl)) (sends "event" 1 refl refl refl))
      (blocks "bad" refl refl refl),
)

-- A worker takes a line, the dispatcher goes on, and all lines are processed.
abbrev whole_run : (p : Pool ℕ (List Act)) × Comes ("bad" ∷ "event" ∷ "user" ∷ []) p
unfolding start_pool place channel_size apply_defaults route_index extract_routing_key push work put
    leave
whole_run =
    let taken = next blocked_run.1 (receives 0 "user" [] false (omega arith) refl refl) in
    let room = next taken (unblocks "bad" refl refl refl) in
    let received =
      next (next room (receives 0 "bad" [] true (omega arith) refl refl))
        (receives 1 "event" [] false (omega arith) refl refl) in
    let closed = next received (closes refl refl) in
    (
      _,
      next (next closed (drains 1 (omega arith) refl refl refl))
          (drains 0 (omega arith) refl refl refl),
    )

Reach-returns_example :
    (p : Pool ℕ (List Act)) × Comes ("bad" ∷ "event" ∷ "user" ∷ []) p
    × (p.done ≡ blocked_run.0.done)
    × ((i : ℕ) → i < 2 → (p.slots i).running ≡ false)
unfolding apply_defaults
Reach-returns_example =
    Reach-returns no_json codes thousandths two_workers stage usable 0
      ("bad" ∷ "event" ∷ "user" ∷ []) blocked_run.1
