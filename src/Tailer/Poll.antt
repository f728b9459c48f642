-- ===== src/Tailer/Poll.antt =====
-- tailer.go: `readFollowFile`, which reads an open file to its end again and again, and `tailFile`,
-- which opens the path anew when that returns.
pub mod Growth
pub mod Retries
use ta2mongo.Prelude.{
  ℕ, Bool, true, false, not, Option, none, some, List, [], ◌∷◌, ◌++◌, ltb, length, take, drop,
  if◌then◌else◌,
}
use ta2mongo.Tailer.Lines.{Bytes, scan_lines}

-- What follows when a round has met the end of the file: the path is gone, or another file stands
-- there, the context ends the wait, a call on the open file fails, or the file has some size.
pub data After : Type 0 where
  gone : After
  rotated : After
  stopped : After
  failed : After
  waited : ℕ → After

-- One round: the bytes of the file as it is read, how many sends succeed before the context is done
-- (none when it is not done), and what follows.
pub record Round : Type 0 where
  pub content : Bytes
  pub sent : Option ℕ
  pub after : After

-- How the reading stands: it goes on, or it returned because of the context, because of an error or
-- because the file was rotated.
pub data End : Type 0 where
  following : End
  cancelled : End
  broken : End
  replaced : End

-- The sends of a round: those that succeed, and whether the context ended them.
unfoldable pub send_lines : Option ℕ → List Bytes → List Bytes × Bool
send_lines none lines = (lines, false)
send_lines (some n) lines = if ltb n (length lines) then (take n lines, true) else (lines, false)

-- The offset at the end of the file; a file that was cut shorter does not move it.
abbrev pub offset_at_end : ℕ → Bytes → ℕ
offset_at_end pos content = if ltb pos (length content) then length content else pos

-- A round that starts at an offset; `next` is what the rounds after it do from theirs.
unfoldable pub read_round :
    ℕ → ℕ → Bytes → Option ℕ → After → (ℕ → List Bytes × End) → List Bytes × End
unfolding send_lines scan_lines
read_round max pos content sent after next =
    let (found, fits) = scan_lines max (drop pos content) in
    let (lines, done) = send_lines sent found in
    let end = offset_at_end pos content in
    if done then (lines, cancelled) else if not fits then (lines, broken) else elim after [
      | gone ↦ (lines, broken)
      | rotated ↦ (lines, replaced)
      | stopped ↦ (lines, cancelled)
      | failed ↦ (lines, broken)
      | waited size ↦
          let (more, end') = next (if ltb size end then 0 else end) in (lines ++ more, end')
    ]

-- `readFollowFile` from an offset, for the rounds that follow; the file was opened.
unfoldable pub read_follow_file : ℕ → ℕ → List Round → List Bytes × End
unfolding read_round
read_follow_file max pos [] = ([], following)
read_follow_file max pos (round ∷ rounds) =
    read_round max pos round.content round.sent round.after
      (λ pos'. read_follow_file max pos' rounds)

-- An attempt of `tailFile`: the path cannot be opened, or the rounds that the reading meets.
pub data Attempt : Type 0 where
  missing : Attempt
  opened : List Round → Attempt

-- After an error and after a rotation the path is opened again, from its beginning.
abbrev pub is_over : End → Bool
is_over following = true
is_over cancelled = true
is_over broken = false
is_over replaced = false

unfoldable pub tail_file : ℕ → List Attempt → List Bytes
unfolding read_follow_file
tail_file max [] = []
tail_file max (missing ∷ attempts) = tail_file max attempts
tail_file max (opened rounds ∷ attempts) =
    let (lines, end) = read_follow_file max 0 rounds in
    let rest = tail_file max attempts in if is_over end then lines else lines ++ rest
