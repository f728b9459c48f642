-- ===== src/Source/Tests.antt =====
-- Runs of the sources, and the theorem at a concrete input.
use ta2mongo.Prelude.{
  ℕ, zero, suc, ◌≤◌, ◌≡◌, refl, true, none, some, [], ◌∷◌, ◌++◌, codes, arith, length,
}
use ta2mongo.Tailer.Lines.{Bytes, line_limit, raw_lines}
use ta2mongo.Tailer.Lines.Laws.{records, is_closed, Readable, IsPlain}
use ta2mongo.Source.{emit_lines, stdin_run, default_max_line_bytes, stdin_run-too_long}

emit_runs :
    (emit_lines none ("a" ∷ "" ∷ "b" ∷ []) ≡ "a" ∷ "b" ∷ [])
    × (emit_lines (some 1) ("" ∷ "a" ∷ "b" ∷ "c" ∷ []) ≡ "a" ∷ [])
unfolding emit_lines
emit_runs = (refl, refl)

xs : ℕ → Bytes
xs zero = []
xs (suc n) = b'x' ∷ xs n

length-xs : (n : ℕ) → length (xs n) ≡ n
unfolding xs
length-xs zero = refl
length-xs (suc n) = omega (arith, length-xs n)

xs-IsPlain : (n : ℕ) → IsPlain (xs n)
unfolding xs
xs-IsPlain zero = tt
xs-IsPlain (suc n) = (refl, refl, xs-IsPlain n)

abbrev two_lines : Bytes
two_lines = codes "a\n\nb\n"

two_lines-closed : is_closed two_lines ≡ true
unfolding is_closed
two_lines-closed = refl

two_lines-Readable : Readable default_max_line_bytes two_lines
unfolding raw_lines line_limit
two_lines-Readable = (refl, (refl, (refl, tt)))

one_mebibyte : line_limit default_max_line_bytes ≤ length (b'x' ∷ xs 1048575)
unfolding line_limit
one_mebibyte = omega (arith, length-xs 1048575)

stdin_run-too_long_example :
    stdin_run none (two_lines ++ ((b'x' ∷ xs 1048575) ++ codes "\nc\n")) ≡ records two_lines
stdin_run-too_long_example =
    stdin_run-too_long two_lines b'x' (xs 1048575) (codes "\nc\n") two_lines-closed
      two_lines-Readable (refl, refl, xs-IsPlain 1048575) one_mebibyte
