-- ===== src/Tailer/Poll/Retries.antt =====
-- `tailFile` on a file with a line that is too long.
use ta2mongo.Prelude.{
  ℕ, zero, suc, ◌≤◌, ◌≡◌, refl, ap, ◌∙◌, true, none, List, [], ◌∷◌, ◌++◌, length,
}
use ta2mongo.Tailer.Lines.{Bytes, line_limit}
use ta2mongo.Tailer.Lines.Laws.{is_closed, records, Readable, IsPlain, scan_lines-too_long}
use ta2mongo.Tailer.Poll.{
  Round, After, End, broken, read_round, read_follow_file, send_lines, Attempt, missing, opened,
  tail_file,
}

abbrev pub repeated : ℕ → List Bytes → List Bytes
repeated zero lines = []
repeated (suc n) lines = lines ++ repeated n lines

module _ (max : ℕ) (s long : Bytes) (c : ℕ) (closed : is_closed s ≡ true)
    (readable : Readable max s) (plain : IsPlain (c ∷ long))
    (reached : line_limit max ≤ length (c ∷ long)) where
  -- The file was opened, its first read meets the whole lines `s` and then the long one, and the
  -- context is not done during the sends.
  abbrev pub MeetsLong : Attempt → Type 0
  MeetsLong (opened (round ∷ rounds)) =
      (round.sent ≡ none) × (rest : Bytes) × (round.content ≡ s ++ ((c ∷ long) ++ rest))
  MeetsLong attempt = ⊥

  abbrev pub AllMeetLong : List Attempt → Type 0
  AllMeetLong [] = Unit
  AllMeetLong (attempt ∷ attempts) = MeetsLong attempt × AllMeetLong attempts

  read_round-too_long :
      (rest : Bytes) (after : After) (next : ℕ → List Bytes × End)
      → read_round max 0 (s ++ ((c ∷ long) ++ rest)) none after next ≡ (records s, broken)
  unfolding read_round send_lines
  read_round-too_long rest after next =
      rw (scan_lines-too_long max s c long rest closed readable plain reached)

  read_follow_file-too_long :
      (round : Round) (rounds : List Round)
      → MeetsLong (opened (round ∷ rounds))
      → read_follow_file max 0 (round ∷ rounds) ≡ (records s, broken)
  unfolding read_follow_file
  read_follow_file-too_long round rounds (sent, rest, e) =
      (λ i. read_round max 0 (e i) (sent i) round.after (λ pos. read_follow_file max pos rounds))
      ∙ read_round-too_long rest round.after (λ pos. read_follow_file max pos rounds)

  -- A line that reaches the limit of the scanner's buffer stops a polled file for good: however
  -- often the file is opened again, each time the lines before that line are sent once more,
  -- and none behind it is.
  pub tail_file-too_long :
      (attempts : List Attempt)
      → AllMeetLong attempts
      → tail_file max attempts ≡ repeated (length attempts) (records s)
  unfolding tail_file
  tail_file-too_long [] h = refl
  tail_file-too_long (opened (round ∷ rounds) ∷ attempts) h =
      rw (read_follow_file-too_long round rounds h.0)
        (ap (λ (l : List Bytes). records s ++ l) (tail_file-too_long attempts h.1))
  tail_file-too_long (opened [] ∷ attempts) h = absurd h.0
  tail_file-too_long (missing ∷ attempts) h = absurd h.0
