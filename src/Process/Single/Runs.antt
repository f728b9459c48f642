-- ===== src/Process/Single/Runs.antt =====
-- The single strategy is the batch strategy of batches of one model.
use ta2mongo.Prelude.{◌≡◌, refl, ◌∙◌, String, Option, none, some, List, [], ◌∷◌}
use ta2mongo.WriteModel.{Model}
use ta2mongo.Store.{Target, user, event, dead_letter, WriteError}
use ta2mongo.Process.Core.{
  Kind, kind_event, kind_user, kind_filtered, kind_parse_error, kind_identity_error,
}
use ta2mongo.Process.Uploads.{Stage, End, drained, cancelled, RunError}
use ta2mongo.Process.Uploads.Trace.{to_list}
use ta2mongo.Process.Batch
use ta2mongo.Process.Batch.{
  Buffers, emptied, flush_one, flush, flush_all, count_pending, absorb, run_line, finish,
}
use ta2mongo.Process.Single.{note_failure, write_one, write, run_lines, run}

module _ {W : Type 0} (stage : Stage W) where
  noted :
      (t : Target) (e : Option WriteError) (first : Option RunError) (w : W)
      → (Batch.note_failure stage t e first w).1 ≡ note_failure stage e w
  unfolding note_failure Batch.note_failure
  noted t none first w = refl
  noted t (some e) first w = refl

  flushed :
      (t : Target) (m : Option Model) (first : Option RunError) (w : W)
      → (flush_one stage t (to_list m) (first, w)).1 ≡ write_one stage t m w
  unfolding flush_one write_one
  flushed t none first w = refl
  flushed t (some m) first w =
      noted t (stage.write t (m ∷ []) w).0 first (stage.write t (m ∷ []) w).1

  -- Between the lines nothing is pending.
  absorbed :
      (kind : Kind) (m : Option Model) (first : Option RunError) (w : W)
      → let r = absorb stage 1 kind m (emptied first, w) in
        (r.0 ≡ emptied r.0.first) × (r.1 ≡ write stage kind m w)
  unfolding absorb count_pending flush_all flush flush_one write
  absorbed kind_user m first w = (refl, flushed user m none w)
  absorbed kind_event m first w = (refl, flushed event m none w)
  absorbed kind_filtered m first w = (refl, refl)
  absorbed kind_parse_error m first w = (refl, flushed dead_letter m none w)
  absorbed kind_identity_error m first w = (refl, flushed dead_letter m none w)

  lines_lem :
      (lines : List String) (first : Option RunError) (b : Buffers) (w : W)
      → b ≡ emptied first
      → let r = Batch.run_lines stage 1 lines (b, w) in
        (r.0 ≡ emptied r.0.first) × (r.1 ≡ run_lines stage lines w)
  unfolding run_lines Batch.run_lines run_line
  lines_lem [] first b w e = rw e (refl, refl)
  lines_lem (line ∷ lines) first b w e =
      let (o, w') = stage.process_line line w in
      let r = absorb stage 1 o.kind o.model (emptied first, w') in
      let (h, k) = absorbed o.kind o.model first w' in
      rw (e, ← k) (lines_lem lines r.0.first r.0 r.1 h)

  empty_flush :
      (first : Option RunError) (b : Buffers) (w : W)
      → b ≡ emptied first
      → (flush_all stage (b, w)).1 ≡ w
  unfolding flush_all flush flush_one
  empty_flush first b w e = rw e refl

  -- With batches of one model the batch strategy makes the calls of the single strategy: on any
  -- lines, any end of the source and any behaviour of the processor and the store, both leave the
  -- same state.
  pub run-batch_of_one :
      (lines : List String) (end : End) (w : W)
      → (Batch.run stage 1 lines end w).1 ≡ (run stage lines end w).1
  unfolding run Batch.run finish
  run-batch_of_one lines drained w =
      let r = Batch.run_lines stage 1 lines (emptied none, w) in
      let (h, k) = lines_lem lines none (emptied none) w refl in empty_flush r.0.first r.0 r.1 h ∙ k
  run-batch_of_one lines (cancelled text) w =
      let r = Batch.run_lines stage 1 lines (emptied none, w) in
      let (h, k) = lines_lem lines none (emptied none) w refl in empty_flush r.0.first r.0 r.1 h ∙ k
