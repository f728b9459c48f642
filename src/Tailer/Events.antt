-- ===== src/Tailer/Events.antt =====
-- tailer.go: `tailFileEvent`, the loop of the event mode. The watcher is github.com/hpcloud/tail,
-- as in Tailer.Hybrid.
use ta2mongo.Prelude.{
  ℕ, ◌+◌, ◌≡◌, refl, Bool, true, false, List, [], ◌∷◌, arith, Bool-cases, inl, inr, ltb, length,
  if◌then◌else◌,
}
use ta2mongo.Tailer.Lines.{Bytes}
use ta2mongo.Tailer.Hybrid.{
  Event, line, no_line, channel_closed, context_done, tick, absent, other_file, size, Exit,
  watching, cancelled, exited, stalled, is_blank, tail_file_hybrid_event,
}

-- A tick only looks whether the file is still there: how much the file holds is not asked.
unfoldable pub tail_file_event : List Event → List Bytes × Exit
tail_file_event [] = ([], watching)
tail_file_event (line text sent ∷ events) =
    let (lines, exit) = tail_file_event events in
    if is_blank text then (lines, exit) else if sent then (text ∷ lines, exit) else ([], cancelled)
tail_file_event (no_line ∷ events) = tail_file_event events
tail_file_event (channel_closed ∷ events) = ([], exited)
tail_file_event (context_done ∷ events) = ([], cancelled)
tail_file_event (tick absent ∷ events) = ([], exited)
tail_file_event (tick other_file ∷ events) = ([], exited)
tail_file_event (tick (size n) ∷ events) = tail_file_event events

abbrev is_stalled : Exit → Bool
is_stalled stalled = true
is_stalled e = false

-- As long as the hybrid mode's watcher does not stall, the event mode sends the same lines and ends
-- the same way; where it does, the event mode goes on to wait.
tail_file_event-hybrid :
    (last : ℕ) (events : List Event)
    → is_stalled (tail_file_hybrid_event last events).2 ≡ false
    → tail_file_event events
      ≡ ((tail_file_hybrid_event last events).0, (tail_file_hybrid_event last events).2)
unfolding tail_file_event tail_file_hybrid_event
tail_file_event-hybrid last [] h = refl
tail_file_event-hybrid last (line [] sent ∷ events) h = tail_file_event-hybrid (last + 1) events h
tail_file_event-hybrid last (line (c ∷ text) true ∷ events) h =
    let ih = tail_file_event-hybrid (last + (length (c ∷ text) + 1)) events h in rw ih refl
tail_file_event-hybrid last (line (c ∷ text) false ∷ events) h = refl
tail_file_event-hybrid last (no_line ∷ events) h = tail_file_event-hybrid last events h
tail_file_event-hybrid last (channel_closed ∷ events) h = refl
tail_file_event-hybrid last (context_done ∷ events) h = refl
tail_file_event-hybrid last (tick absent ∷ events) h = refl
tail_file_event-hybrid last (tick other_file ∷ events) h = refl
tail_file_event-hybrid last (tick (size n) ∷ events) h = elim (Bool-cases (ltb last n)) [
  | inl grown ↦ absurd (ground (arith, h, grown))
  | inr same ↦
      rw (tail_file_hybrid_event, same)
        (tail_file_event-hybrid last events (ground (arith, h, same)))
]
