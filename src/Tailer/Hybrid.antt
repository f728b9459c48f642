-- ===== src/Tailer/Hybrid.antt =====
-- tailer.go: `tailFileHybrid` with its two phases, the event watcher (`tailFileHybridEvent`) and
-- the drain by polling (`drainByPoll`). The watcher is github.com/hpcloud/tail: the lines that it
-- delivers are in the events.
pub mod Coverage
use ta2mongo.Prelude.{
  ℕ, ◌+◌, Bool, true, false, not, Option, none, some, List, [], ◌∷◌, ◌++◌, ltb, length, take, drop,
  if◌then◌else◌,
}
use ta2mongo.Tailer.Lines.{Bytes, scan_lines}
use ta2mongo.Tailer.Poll.{send_lines, offset_at_end}

-- os.Stat on the path at a tick: it fails, it shows another file than the one that was opened, or
-- the size of the file.
pub data Stat : Type 0 where
  absent : Stat
  other_file : Stat
  size : ℕ → Stat

-- What the loop receives: a line and whether it is sent before the context is done, no line, the
-- end of the watcher's channel, the context's end, or a tick.
pub data Event : Type 0 where
  line : Bytes → Bool → Event
  no_line : Event
  channel_closed : Event
  context_done : Event
  tick : Stat → Event

-- How the loop stands: it goes on, the context ended it, or it returned.
pub data Exit : Type 0 where
  watching : Exit
  cancelled : Exit
  exited : Exit
  stalled : Exit

abbrev pub is_blank : Bytes → Bool
is_blank [] = true
is_blank (c ∷ s) = false

-- The offset `*lastSize` counts the bytes of the lines that were sent and of blank ones.
unfoldable pub tail_file_hybrid_event : ℕ → List Event → List Bytes × ℕ × Exit
tail_file_hybrid_event last [] = ([], last, watching)
tail_file_hybrid_event last (line text sent ∷ events) =
    let (lines, last', exit) = tail_file_hybrid_event (last + (length text + 1)) events in
    if is_blank text
    then (lines, last', exit)
    else if sent
    then (text ∷ lines, last', exit)
    else ([], last, cancelled)
tail_file_hybrid_event last (no_line ∷ events) = tail_file_hybrid_event last events
tail_file_hybrid_event last (channel_closed ∷ events) = ([], last, exited)
tail_file_hybrid_event last (context_done ∷ events) = ([], last, cancelled)
tail_file_hybrid_event last (tick absent ∷ events) = ([], 0, exited)
tail_file_hybrid_event last (tick other_file ∷ events) = ([], 0, exited)
tail_file_hybrid_event last (tick (size n) ∷ events) =
    let rest = tail_file_hybrid_event last events in
    if ltb last n then ([], last, stalled) else rest

-- What the drain meets: the file cannot be opened or sought, or its bytes, how many sends succeed
-- before the context is done, and whether the offset can be asked for at the end.
pub data Drain : Type 0 where
  unreadable : Drain
  reads : Bytes → Option ℕ → Bool → Drain

pub data DrainEnd : Type 0 where
  drained : DrainEnd
  drain_failed : DrainEnd
  drain_cancelled : DrainEnd

unfoldable pub drain_by_poll : ℕ → ℕ → Drain → List Bytes × ℕ × DrainEnd
unfolding send_lines scan_lines
drain_by_poll max last unreadable = ([], last, drain_failed)
drain_by_poll max last (reads content sent seeks) =
    let (found, fits) = scan_lines max (drop last content) in
    let (lines, done) = send_lines sent found in
    if done
    then (lines, last, drain_cancelled)
    else if not fits
    then (lines, last, drain_failed)
    else if seeks
    then (lines, offset_at_end last content, drained)
    else (lines, last, drain_failed)

-- A round of `tailFileHybrid`: the watcher does not start, or its events and the drain, if it comes
-- to that.
pub data Phase : Type 0 where
  not_started : Phase
  started : List Event → Drain → Phase

-- What follows a drain and a watcher; `next` is the rest of the loop, from an offset.
abbrev pub after_drain : List Bytes × ℕ × DrainEnd → (ℕ → List Bytes) → List Bytes
after_drain (lines, last, drained) next = lines ++ next last
after_drain (lines, last, drain_failed) next = lines ++ next last
after_drain (lines, last, drain_cancelled) next = lines

abbrev pub after_event :
    List Bytes × ℕ × Exit → (ℕ → List Bytes × ℕ × DrainEnd) → (ℕ → List Bytes) → List Bytes
after_event (lines, last, watching) drain next = lines
after_event (lines, last, cancelled) drain next = lines
after_event (lines, last, exited) drain next = lines ++ next last
after_event (lines, last, stalled) drain next = lines ++ after_drain (drain last) next

-- The loop from an offset. After an error the next round starts from the offset as it stands.
unfoldable pub hybrid_loop : ℕ → ℕ → List Phase → List Bytes
unfolding tail_file_hybrid_event drain_by_poll
hybrid_loop max last [] = []
hybrid_loop max last (not_started ∷ phases) = hybrid_loop max last phases
hybrid_loop max last (started events drain ∷ phases) =
    after_event (tail_file_hybrid_event last events) (λ last'. drain_by_poll max last' drain)
      (λ last'. hybrid_loop max last' phases)

-- The offset starts at the size of the file, if it can be asked for.
abbrev pub initial_size : Option ℕ → ℕ
initial_size none = 0
initial_size (some n) = n

unfoldable pub tail_file_hybrid : ℕ → Option ℕ → List Phase → List Bytes
unfolding hybrid_loop
tail_file_hybrid max stat phases = hybrid_loop max (initial_size stat) phases
