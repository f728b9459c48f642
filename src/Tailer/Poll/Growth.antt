-- ===== src/Tailer/Poll/Growth.antt =====
-- What a followed file yields: every line once while whole lines are written, and what happens to
-- a line that is read before it is complete, or that is too long.
use ta2mongo.Prelude.{
  ℕ, Option, ◌≤◌, ◌<◌, ◌≡◌, refl, ap, sym, ◌∙◌, true, false, none, List, [], ◌∷◌, ◌++◌, arith, ltb,
  leb, length, length-append,
}
use mathlib.Core.Path.{subst}
use mathlib.Core.List.{append-nil, append_assoc}
use ta2mongo.Tailer.Lines.{Bytes, newline, line_limit}
use ta2mongo.Tailer.Lines.Laws.{
  is_closed, records, Readable, scan_lines-Readable, records-append, is_closed-append, drop-append,
  IsPlain, records-IsPlain, raw_lines-IsPlain, raw_lines-terminated, IsPlain-append,
}
use ta2mongo.Tailer.Poll.{
  Round, read_round, After, waited, End, following, read_follow_file, send_lines, offset_at_end,
}

-- A round in which the context is not done, after which the file has not shrunk.
abbrev pub IsQuiet : Round → Type 0
IsQuiet round =
    (round.sent ≡ none) × (size : ℕ) × (round.after ≡ waited size) × (length round.content ≤ size)

-- Such a round reads the part that was appended since the last one.
read_round-chunk :
    (max : ℕ) (s chunk : Bytes) (size : ℕ) (next : ℕ → List Bytes × End)
    → length (s ++ chunk) ≤ size
    → Readable max chunk
    → read_round max (length s) (s ++ chunk) none (waited size) next
      ≡ (records chunk ++ (next (length (s ++ chunk))).0, (next (length (s ++ chunk))).1)
unfolding read_round send_lines
read_round-chunk max s chunk size next grown readable =
    let at_end : offset_at_end (length s) (s ++ chunk) ≡ length (s ++ chunk) =
      ground (arith, length-append s chunk) in
    let kept_size : ltb size (length (s ++ chunk)) ≡ false = ground (arith, grown) in
    rw (drop-append s chunk, scan_lines-Readable max chunk readable, at_end, kept_size)

read_follow_file-round :
    (max : ℕ) (s chunk : Bytes) (round : Round) (rounds : List Round)
    → round.content ≡ s ++ chunk
    → IsQuiet round
    → Readable max chunk
    → read_follow_file max (length s) (round ∷ rounds) ≡ (
      records chunk ++ (read_follow_file max (length (s ++ chunk)) rounds).0,
      (read_follow_file max (length (s ++ chunk)) rounds).1,
    )
unfolding read_follow_file
read_follow_file-round max s chunk round rounds e (sent, size, after, grown) readable =
    let next = λ (pos : ℕ). read_follow_file max pos rounds in
    ap₃ e sent after
    ∙ read_round-chunk max s chunk size next (subst (λ (c : Bytes). length c ≤ size) e grown)
        readable
  where
    ap₃ :
        {c d : Bytes} {m n : Option ℕ} {a b : After}
        → c ≡ d
        → m ≡ n
        → a ≡ b
        → read_round max (length s) c m a (λ (pos : ℕ). read_follow_file max pos rounds)
          ≡ read_round max (length s) d n b (λ (pos : ℕ). read_follow_file max pos rounds)
    ap₃ p q r = λ i.
        read_round max (length s) (p i) (q i) (r i) (λ (pos : ℕ). read_follow_file max pos rounds)

read_follow_file-last :
    (max : ℕ) (s chunk : Bytes) (round : Round)
    → round.content ≡ s ++ chunk
    → IsQuiet round
    → Readable max chunk
    → read_follow_file max (length s) (round ∷ []) ≡ (records chunk, following)
unfolding read_follow_file
read_follow_file-last max s chunk round e quiet readable =
    read_follow_file-round max s chunk round [] e quiet readable
    ∙ (λ i. (append-nil (records chunk) i, following))

-- The rounds see a file that grows by whole lines, none of them too long.
pub data Grows (max : ℕ) (final : Bytes) : Bytes → List Round → Type 0 where
  still : Grows max final final []
  grow :
      (s chunk : Bytes) {round : Round} {rounds : List Round}
      → round.content ≡ s ++ chunk
      → IsQuiet round
      → is_closed chunk ≡ true
      → Readable max chunk
      → Grows max final (s ++ chunk) rounds
      → Grows max final s (round ∷ rounds)

read_follow_file-Grows :
    (max : ℕ) (final : Bytes) {s : Bytes} {rounds : List Round}
    → Grows max final s rounds
    → is_closed s ≡ true
    → (records s ++ (read_follow_file max (length s) rounds).0 ≡ records final)
      × ((read_follow_file max (length s) rounds).1 ≡ following)
unfolding read_follow_file
read_follow_file-Grows max final still closed = (append-nil (records final), refl)
read_follow_file-Grows max final (grow s chunk {round} {rounds} e quiet whole readable g) closed =
    let ih = read_follow_file-Grows max final g (is_closed-append s chunk closed whole) in
    let step = read_follow_file-round max s chunk round rounds e quiet readable in
    let more = (read_follow_file max (length (s ++ chunk)) rounds).0 in
    (
      ap (λ (r : List Bytes × End). records s ++ r.0) step
          ∙ sym (append_assoc (records s) (records chunk) more)
          ∙ ap (λ (l : List Bytes). l ++ more) (sym (records-append s chunk closed))
          ∙ ih.0,
      ap (λ (r : List Bytes × End). r.1) step ∙ ih.1,
    )

-- A file that grows by whole lines between the reads, in which no line is too long, is read
-- completely: the lines sent from its beginning are the non-empty lines of the file, each
-- once and in order, and the reading goes on.
pub read_follow_file_complete :
    (max : ℕ) (final : Bytes) {rounds : List Round}
    → Grows max final [] rounds
    → read_follow_file max 0 rounds ≡ (records final, following)
unfolding records is_closed
read_follow_file_complete max final g =
    let (lines, end) = read_follow_file-Grows max final g refl in λ i. (lines i, end i)

-- A line below the limit is readable, before its newline is written and after.
Readable-IsPlain :
    (max c : ℕ) (s : Bytes)
    → IsPlain (c ∷ s)
    → length (c ∷ s) < line_limit max
    → Readable max (c ∷ s) × Readable max ((c ∷ s) ++ newline ∷ [])
Readable-IsPlain max c s h below =
    let short : leb (line_limit max) (length (c ∷ s)) ≡ false = ground (arith, below) in
    (rw (raw_lines-IsPlain c s h) (short, tt), rw (raw_lines-terminated (c ∷ s) h) (short, tt))

-- A line that is read before its newline is written is sent in two parts: where a file ends with
-- the one line `p ++ q`, shorter than the limit, and the reader met its end after `p`, neither
-- part being empty, the reader sends `p` and `q`.
pub read_follow_file-splits :
    (max : ℕ) (s : Bytes) (c d : ℕ) (p q : Bytes) (first second : Round)
    → is_closed s ≡ true
    → IsPlain (c ∷ p)
    → IsPlain (d ∷ q)
    → length ((c ∷ p) ++ (d ∷ q)) < line_limit max
    → first.content ≡ s ++ (c ∷ p)
    → second.content ≡ (s ++ (c ∷ p)) ++ ((d ∷ q) ++ newline ∷ [])
    → IsQuiet first
    → IsQuiet second
    → (records second.content ≡ records s ++ ((c ∷ p) ++ (d ∷ q)) ∷ [])
      × (read_follow_file max (length s) (first ∷ second ∷ [])
          ≡ ((c ∷ p) ∷ (d ∷ q) ∷ [], following))
read_follow_file-splits max s c d p q first second closed hp hq below e e' quiet quiet' =
    let whole = IsPlain-append (c ∷ p) (d ∷ q) hp hq in
    let total = length-append (c ∷ p) (d ∷ q) in
    let readable = (Readable-IsPlain max c p hp (omega arith)).0 in
    let readable' = (Readable-IsPlain max d q hq (omega arith)).1 in
    let two =
      read_follow_file-last max (s ++ (c ∷ p)) ((d ∷ q) ++ newline ∷ []) second e' quiet'
        readable' in
    (
      ap (λ (t : Bytes). records t)
            (e'
              ∙ append_assoc s (c ∷ p) ((d ∷ q) ++ newline ∷ [])
              ∙ ap (λ (t : Bytes). s ++ t) (sym (append_assoc (c ∷ p) (d ∷ q) (newline ∷ []))))
          ∙ records-append s (((c ∷ p) ++ (d ∷ q)) ++ newline ∷ []) closed
          ∙ ap (λ (l : List Bytes). records s ++ l) (records-IsPlain c (p ++ (d ∷ q)) whole).1,
      read_follow_file-round max s (c ∷ p) first (second ∷ []) e quiet readable
          ∙ (λ i. ((records-IsPlain c p hp).0 i ++ (two i).0, (two i).1))
          ∙ (λ i. ((c ∷ p) ∷ (records-IsPlain d q hq).1 i, following)),
    )
