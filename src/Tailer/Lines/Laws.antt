-- ===== src/Tailer/Lines/Laws.antt =====
-- The lines of two texts in a row, where the first ends with a whole line.
use ta2mongo.Prelude.{
  ℕ, ◌≤◌, ◌≡◌, refl, ap, ◌∙◌, drop, Bool, true, false, List, [], ◌∷◌, ◌++◌, arith, nat_eq, leb,
  length, Bool-cases, inl, inr,
}
use ta2mongo.Tailer.Lines.{
  Bytes, newline, carriage_return, extend, raw_lines, drop_cr, line_limit, keep_line, scan_loop,
  scan_lines,
}

-- The text is empty or ends with a newline.
unfoldable pub is_closed : Bytes → Bool
is_closed [] = true
is_closed (c ∷ []) = nat_eq c newline
is_closed (c ∷ d ∷ s) = is_closed (d ∷ s)

-- The lines that are not empty, with no carriage return at their ends.
unfoldable pub kept : List Bytes → List Bytes
unfolding drop_cr
kept [] = []
kept (raw ∷ raws) = keep_line (drop_cr raw) (kept raws)

unfoldable pub records : Bytes → List Bytes
unfolding kept raw_lines
records s = kept (raw_lines s)

-- No line reaches the limit of the scanner's buffer.
abbrev pub Fit : ℕ → List Bytes → Type 0
Fit limit [] = Unit
Fit limit (raw ∷ raws) = (leb limit (length raw) ≡ false) × Fit limit raws

-- No line of the text is too long for a scanner of that maximum.
abbrev pub Readable : ℕ → Bytes → Type 0
Readable max s = Fit (line_limit max) (raw_lines s)

scan_loop-Fit :
    (limit : ℕ) (raws : List Bytes) → Fit limit raws → scan_loop limit raws ≡ (kept raws, true)
unfolding scan_loop kept
scan_loop-Fit limit [] f = refl
scan_loop-Fit limit (raw ∷ raws) f = rw (f.0, scan_loop-Fit limit raws f.1)

-- A scan of lines that fit sends all that are not empty.
pub scan_lines-Readable :
    (max : ℕ) (s : Bytes) → Readable max s → scan_lines max s ≡ (records s, true)
unfolding scan_lines records
scan_lines-Readable max s f = scan_loop-Fit (line_limit max) (raw_lines s) f

keep_line-append :
    (line : Bytes) (xs ys : List Bytes) → keep_line line (xs ++ ys) ≡ keep_line line xs ++ ys
keep_line-append [] xs ys = refl
keep_line-append (c ∷ s) xs ys = refl

kept-append : (xs ys : List Bytes) → kept (xs ++ ys) ≡ kept xs ++ kept ys
unfolding kept
kept-append [] ys = refl
kept-append (x ∷ xs) ys = rw (kept-append xs ys) (keep_line-append (drop_cr x) (kept xs) (kept ys))

extend-append :
    (c d : ℕ) (s t : Bytes)
    → extend c (raw_lines (d ∷ s) ++ raw_lines t) ≡ extend c (raw_lines (d ∷ s)) ++ raw_lines t
unfolding raw_lines
extend-append c d s t = elim (Bool-cases (nat_eq d newline)) [
  | inl e ↦ rw e
  | inr e ↦ rw e (extended (raw_lines s))
]
  where
    extended :
        (lines : List Bytes)
        → extend c (extend d lines ++ raw_lines t) ≡ extend c (extend d lines) ++ raw_lines t
    extended [] = refl
    extended (line ∷ lines) = refl

pub raw_lines-append :
    (s t : Bytes) → is_closed s ≡ true → raw_lines (s ++ t) ≡ raw_lines s ++ raw_lines t
unfolding raw_lines is_closed
raw_lines-append [] t h = refl
raw_lines-append (c ∷ []) t h = rw h
raw_lines-append (c ∷ d ∷ s) t h = elim (Bool-cases (nat_eq c newline)) [
  | inl e ↦ rw e (ap (λ (l : List Bytes). [] ∷ l) (raw_lines-append (d ∷ s) t h))
  | inr e ↦ rw e (ap (extend c) (raw_lines-append (d ∷ s) t h) ∙ extend-append c d s t)
]

pub records-append : (s t : Bytes) → is_closed s ≡ true → records (s ++ t) ≡ records s ++ records t
unfolding records
records-append s t h = rw (raw_lines-append s t h) (kept-append (raw_lines s) (raw_lines t))

pub is_closed-append :
    (s t : Bytes) → is_closed s ≡ true → is_closed t ≡ true → is_closed (s ++ t) ≡ true
unfolding is_closed
is_closed-append [] t h k = k
is_closed-append (c ∷ []) [] h k = h
is_closed-append (c ∷ []) (d ∷ t) h k = k
is_closed-append (c ∷ d ∷ s) t h k = is_closed-append (d ∷ s) t h k

pub drop-append : (s t : Bytes) → drop (length s) (s ++ t) ≡ t
drop-append [] t = refl
drop-append (c ∷ s) t = drop-append s t

-- No byte is a newline or a carriage return.
abbrev pub IsPlain : Bytes → Type 0
IsPlain [] = Unit
IsPlain (c ∷ s) = (nat_eq c newline ≡ false) × (nat_eq c carriage_return ≡ false) × IsPlain s

pub drop_cr-IsPlain : (s : Bytes) → IsPlain s → drop_cr s ≡ s
unfolding drop_cr
drop_cr-IsPlain [] h = refl
drop_cr-IsPlain (c ∷ []) h = rw h.1
drop_cr-IsPlain (c ∷ d ∷ s) h = ap (λ (l : Bytes). c ∷ l) (drop_cr-IsPlain (d ∷ s) h.2)

-- What a line is continued by in a text: nothing, its newline, or more bytes.
pub raw_lines-IsPlain : (c : ℕ) (s : Bytes) → IsPlain (c ∷ s) → raw_lines (c ∷ s) ≡ (c ∷ s) ∷ []
unfolding raw_lines
raw_lines-IsPlain c [] h = rw h.0
raw_lines-IsPlain c (d ∷ s) h = rw h.0 (ap (extend c) (raw_lines-IsPlain d s h.2))

pub raw_lines-terminated : (s : Bytes) → IsPlain s → raw_lines (s ++ newline ∷ []) ≡ s ∷ []
unfolding raw_lines
raw_lines-terminated [] h = refl
raw_lines-terminated (c ∷ s) h = rw h.0 (ap (extend c) (raw_lines-terminated s h.2))

-- A line that is not empty is one record, before its newline is written and after.
pub records-IsPlain :
    (c : ℕ) (s : Bytes)
    → IsPlain (c ∷ s)
    → (records (c ∷ s) ≡ (c ∷ s) ∷ []) × (records ((c ∷ s) ++ newline ∷ []) ≡ (c ∷ s) ∷ [])
unfolding records kept
records-IsPlain c s h = (
  rw (raw_lines-IsPlain c s h, drop_cr-IsPlain (c ∷ s) h),
  rw (raw_lines-terminated (c ∷ s) h, drop_cr-IsPlain (c ∷ s) h),
)

pub IsPlain-append : (s t : Bytes) → IsPlain s → IsPlain t → IsPlain (s ++ t)
IsPlain-append [] t h k = k
IsPlain-append (c ∷ s) t h k = (h.0, h.1, IsPlain-append s t h.2 k)

-- The first line of a text that starts with bytes without a newline has all of them.
raw_lines-long :
    (c : ℕ) (s rest : Bytes)
    → IsPlain (c ∷ s)
    → (line : Bytes) × (lines : List Bytes) × (raw_lines ((c ∷ s) ++ rest) ≡ line ∷ lines)
      × (length (c ∷ s) ≤ length line)
unfolding raw_lines
raw_lines-long c [] rest h = longer (raw_lines rest) (rw h.0)
  where
    longer :
        (ls : List Bytes)
        → raw_lines (c ∷ rest) ≡ extend c ls
        → (line : Bytes) × (lines : List Bytes) × (raw_lines (c ∷ rest) ≡ line ∷ lines)
          × (1 ≤ length line)
    longer [] e = (c ∷ [], [], e, omega arith)
    longer (l ∷ ls) e = (c ∷ l, ls, e, omega arith)
raw_lines-long c (d ∷ s) rest h =
    let (line, lines, e, longer) = raw_lines-long d s rest h.2 in
    (c ∷ line, lines, rw h.0 (ap (extend c) e), omega arith)

-- A scan sends what stands before a line that is too long, and fails there.
pub scan_lines-too_long :
    (max : ℕ) (s : Bytes) (c : ℕ) (long rest : Bytes)
    → is_closed s ≡ true
    → Readable max s
    → IsPlain (c ∷ long)
    → line_limit max ≤ length (c ∷ long)
    → scan_lines max (s ++ ((c ∷ long) ++ rest)) ≡ (records s, false)
unfolding scan_lines records scan_loop kept
scan_lines-too_long max s c long rest closed readable h reached =
    let (line, lines, e, longer) = raw_lines-long c long rest h in
    rw (raw_lines-append s ((c ∷ long) ++ rest) closed, e)
      (stops (raw_lines s) line lines readable (ground (arith, reached, longer)))
  where
    stops :
        (raws : List Bytes) (line : Bytes) (lines : List Bytes)
        → Fit (line_limit max) raws
        → leb (line_limit max) (length line) ≡ true
        → scan_loop (line_limit max) (raws ++ line ∷ lines) ≡ (kept raws, false)
    stops [] line lines f h = rw h
    stops (raw ∷ raws) line lines f h = rw (f.0, stops raws line lines f.1 h)
