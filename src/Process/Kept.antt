-- ===== src/Process/Kept.antt =====
-- What the calls of a strategy keep, every strategy keeps.
pub mod Pools
use ta2mongo.Prelude.{
  ℕ, suc, String, ◌≡◌, Bool, true, false, Option, none, some, List, [], ◌∷◌, ◌++◌, Bool-cases, inl,
  inr, leb, length, not, ◌||◌,
}
use ta2mongo.Prelude.Int.{ℤ}
use ta2mongo.WriteModel.{Model}
use ta2mongo.Store.{Target, user, event, dead_letter, WriteError}
use ta2mongo.Process.Core.{
  Kind, kind_event, kind_user, kind_filtered, kind_parse_error, kind_identity_error,
}
use ta2mongo.Process.Uploads.{Stage, End, drained, cancelled, RunError}
use ta2mongo.Process.Uploads.Trace.{to_list}
use ta2mongo.Process.Batch
use ta2mongo.Process.Batch.{Buffers, emptied}
use ta2mongo.Process.Single

-- The calls of a strategy keep a property of the state.
pub record Keeps {W : Type 0} (P : W → Type 0) (stage : Stage W) : Type 0 where
  pub line : (l : String) (w : W) → P w → P (stage.process_line l w).1
  pub write : (t : Target) (ms : List Model) (w : W) → P w → P (stage.write t ms w).1
  pub note : (w : W) → P w → P (stage.note_write_error w)

module _ {W : Type 0} (P : W → Type 0) (stage : Stage W) (keeps : Keeps P stage) where
  batch_note-keeps :
      (t : Target) (e : Option WriteError) (first : Option RunError) (w : W)
      → P w
      → P (Batch.note_failure stage t e first w).1
  unfolding Batch.note_failure
  batch_note-keeps t none first w p = p
  batch_note-keeps t (some e) first w p = keeps.note w p

  flush_one-keeps :
      (t : Target) (ms : List Model) (first : Option RunError) (w : W)
      → P w
      → P (Batch.flush_one stage t ms (first, w)).1
  unfolding Batch.flush_one
  flush_one-keeps t [] first w p = p
  flush_one-keeps t (m ∷ ms) first w p =
      let (e, w') = stage.write t (m ∷ ms) w in
      batch_note-keeps t e first w' (keeps.write t (m ∷ ms) w p)

  flush_all-keeps : (b : Buffers) (w : W) → P w → P (Batch.flush_all stage (b, w)).1
  unfolding Batch.flush_all Batch.flush
  flush_all-keeps b w p =
      let (e1, w1) = Batch.flush_one stage user b.users (none, w) in
      let (e2, w2) = Batch.flush_one stage event b.events (e1, w1) in
      flush_one-keeps dead_letter b.deads e2 w2
        (flush_one-keeps event b.events e1 w1 (flush_one-keeps user b.users none w p))

  count_pending-keeps :
      (size : ℕ) (b : Buffers) (w : W) → P w → P (Batch.count_pending stage size (b, w)).1
  unfolding Batch.count_pending
  count_pending-keeps size b w p =
      let b' = record b { pending = suc b.pending } in
      elim (Bool-cases (leb size b'.pending)) [
        | inl d ↦ rw (Batch.count_pending, d) (flush_all-keeps b' w p)
        | inr d ↦ rw (Batch.count_pending, d) p
      ]

  batch_absorb-keeps :
      (size : ℕ) (kind : Kind) (m : Option Model) (b : Buffers) (w : W)
      → P w
      → P (Batch.absorb stage size kind m (b, w)).1
  unfolding Batch.absorb
  batch_absorb-keeps size kind_parse_error m b w p = count_pending-keeps size _ w p
  batch_absorb-keeps size kind_identity_error m b w p = count_pending-keeps size _ w p
  batch_absorb-keeps size kind_filtered m b w p = p
  batch_absorb-keeps size kind_user m b w p = count_pending-keeps size _ w p
  batch_absorb-keeps size kind_event m b w p = count_pending-keeps size _ w p

  batch_lines-keeps :
      (size : ℕ) (lines : List String) (b : Buffers) (w : W)
      → P w
      → P (Batch.run_lines stage size lines (b, w)).1
  unfolding Batch.run_lines Batch.run_line
  batch_lines-keeps size [] b w p = p
  batch_lines-keeps size (l ∷ lines) b w p =
      let (o, w') = stage.process_line l w in
      let (b', w'') = Batch.absorb stage size o.kind o.model (b, w') in
      batch_lines-keeps size lines b' w''
        (batch_absorb-keeps size o.kind o.model b w' (keeps.line l w p))

  pub batch_run-keeps :
      (size : ℕ) (lines : List String) (end : End) (w : W)
      → P w
      → P (Batch.run stage size lines end w).1
  unfolding Batch.run Batch.finish
  batch_run-keeps size lines drained w p =
      let (b, w') = Batch.run_lines stage size lines (emptied none, w) in
      flush_all-keeps b w' (batch_lines-keeps size lines (emptied none) w p)
  batch_run-keeps size lines (cancelled text) w p =
      let (b, w') = Batch.run_lines stage size lines (emptied none, w) in
      flush_all-keeps b w' (batch_lines-keeps size lines (emptied none) w p)

  pub note-keeps : (e : Option WriteError) (w : W) → P w → P (Single.note_failure stage e w)
  unfolding Single.note_failure
  note-keeps none w p = p
  note-keeps (some e) w p = keeps.note w p

  write_one-keeps : (t : Target) (m : Option Model) (w : W) → P w → P (Single.write_one stage t m w)
  unfolding Single.write_one
  write_one-keeps t none w p = p
  write_one-keeps t (some m) w p =
      let (e, w') = stage.write t (m ∷ []) w in note-keeps e w' (keeps.write t (m ∷ []) w p)

  single_write-keeps :
      (kind : Kind) (m : Option Model) (w : W) → P w → P (Single.write stage kind m w)
  unfolding Single.write
  single_write-keeps kind_parse_error m w p = write_one-keeps dead_letter m w p
  single_write-keeps kind_identity_error m w p = write_one-keeps dead_letter m w p
  single_write-keeps kind_filtered m w p = p
  single_write-keeps kind_user m w p = write_one-keeps user m w p
  single_write-keeps kind_event m w p = write_one-keeps event m w p

  pub single_lines-keeps : (lines : List String) (w : W) → P w → P (Single.run_lines stage lines w)
  unfolding Single.run_lines
  single_lines-keeps [] w p = p
  single_lines-keeps (l ∷ lines) w p =
      let (o, w') = stage.process_line l w in
      single_lines-keeps lines (Single.write stage o.kind o.model w')
        (single_write-keeps o.kind o.model w' (keeps.line l w p))
