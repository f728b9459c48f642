-- ===== src/Tailer/Tests.antt =====
-- Runs on small inputs, and the theorems about the tailer at concrete inputs.
use ta2mongo.Prelude.{
  ◌≡◌, ◌↔◌, refl, ℕ, zero, suc, ◌≤◌, List, String, [], ◌∷◌, ◌++◌, true, false, none, some, codes,
  arith, length, if◌then◌else◌,
}
use ta2mongo.Tailer.Segment.{Text, match_segment, split}
use ta2mongo.Tailer.Discover.{Entry, glob_base_dir, discover_files}
use ta2mongo.Tailer.Glob.{glob_match}
use ta2mongo.Tailer.Glob.Matching.{Matches, glob_match-Matches}
use ta2mongo.Tailer.Followed.{contains, lookup, scan_and_tail, start, next, rescan}
use ta2mongo.Tailer.Followed.Rescans.{end_cancelled, scan_and_tail-settles}
use ta2mongo.Tailer.Lines.{Bytes, line_limit, raw_lines}
use ta2mongo.Tailer.Lines.Laws.{records, is_closed, IsPlain, Readable}
use ta2mongo.Tailer.Poll.{Round, waited, following, read_follow_file, Attempt, opened, tail_file}
use ta2mongo.Tailer.Poll.Growth.{
  Grows, still, grow, read_follow_file_complete, read_follow_file-splits,
}
use ta2mongo.Tailer.Poll.Retries.{repeated, tail_file-too_long}
use ta2mongo.Tailer.Events.{tail_file_event}
use ta2mongo.Tailer.Hybrid.{
  Phase, started, line, tick, size, reads, channel_closed, exited, stalled, tail_file_hybrid_event,
  tail_file_hybrid,
}

class_segment : match_segment false (codes "ta.[0-9a]*") (codes "ta.7.log") ≡ true
unfolding match_segment
class_segment = refl

open_class_segment : match_segment false (codes "a[b") (codes "ab") ≡ false
unfolding match_segment
open_class_segment = refl

deep_glob : glob_match false (codes "/var/**/*.log") (codes "/var/log/app/ta.log") ≡ true
unfolding glob_match match_segment
deep_glob = refl

deep_glob_no_level : glob_match false (codes "/var/**/**/ta.?og") (codes "/var/ta.log") ≡ true
unfolding glob_match match_segment
deep_glob_no_level = refl

shallow_glob : glob_match false (codes "/var/*.log") (codes "/var/log/ta.log") ≡ false
unfolding glob_match match_segment
shallow_glob = refl

abbrev deep_pattern : List ℕ
deep_pattern = codes "logs/**/ta.*.log"

glob_match-Matches_example :
    (glob_match false deep_pattern (codes "logs/a/ta.1.log") ≡ true)
    ↔ Matches false (split deep_pattern) (split (codes "logs/a/ta.1.log"))
glob_match-Matches_example = glob_match-Matches false deep_pattern (codes "logs/a/ta.1.log")

-- Two files are tailed; the next rescan finds one of them and a new one.
abbrev first_found : List String
first_found = "a.log" ∷ "b.log" ∷ []

abbrev then_found : List String
then_found = "b.log" ∷ "c.log" ∷ []

one_rescan :
    scan_and_tail then_found (scan_and_tail first_found [])
    ≡ ("c.log", false) ∷ ("b.log", false) ∷ ("a.log", true) ∷ []
unfolding scan_and_tail
one_rescan = refl

scan_and_tail-settles_example :
    lookup "a.log" (
      scan_and_tail then_found (
        end_cancelled
          (scan_and_tail then_found (scan_and_tail first_found []))
          (scan_and_tail then_found (scan_and_tail first_found []))))
    ≡ (if contains "a.log" then_found then some false else none)
scan_and_tail-settles_example =
    scan_and_tail-settles then_found (next start (rescan [] first_found)) "a.log"

abbrev line_a : Bytes
line_a = codes "a\n"

abbrev lines_ab : Bytes
lines_ab = codes "a\n\nb\n"

abbrev round_of : Bytes → Round
round_of content = record { content = content; sent = none; after = waited (length content) }

growing : Grows 100 lines_ab [] (round_of line_a ∷ round_of lines_ab ∷ [])
unfolding is_closed raw_lines line_limit
growing =
    grow [] line_a refl (refl, 2, refl, omega arith) refl (refl, tt)
      (grow line_a (codes "\nb\n") refl (refl, 5, refl, omega arith) refl (refl, (refl, tt)) still)

read_follow_file_complete_example :
    read_follow_file 100 0 (round_of line_a ∷ round_of lines_ab ∷ [])
    ≡ (records lines_ab, following)
read_follow_file_complete_example = read_follow_file_complete 100 lines_ab growing

records_run : records lines_ab ≡ codes "a" ∷ codes "b" ∷ []
unfolding records
records_run = refl

read_follow_file-splits_example :
    (records (codes "ab\n") ≡ records [] ++ codes "ab" ∷ [])
    × (read_follow_file 100 0 (round_of (codes "a") ∷ round_of (codes "ab\n") ∷ [])
        ≡ (codes "a" ∷ codes "b" ∷ [], following))
unfolding is_closed line_limit
read_follow_file-splits_example =
    read_follow_file-splits 100 [] b'a' b'b' [] [] (round_of (codes "a")) (round_of (codes "ab\n"))
      refl (refl, refl, tt) (refl, refl, tt) (omega arith) refl refl (refl, 1, refl, omega arith)
      (refl, 3, refl, omega arith)

-- A line of that many bytes.
xs : ℕ → Bytes
xs zero = []
xs (suc n) = b'x' ∷ xs n

xs-IsPlain : (n : ℕ) → IsPlain (xs n)
unfolding xs
xs-IsPlain zero = tt
xs-IsPlain (suc n) = (refl, refl, xs-IsPlain n)

length-xs : (n : ℕ) → length (xs n) ≡ n
unfolding xs
length-xs zero = refl
length-xs (suc n) = omega (arith, length-xs n)

abbrev blocked : Attempt
blocked = opened (round_of (line_a ++ ((b'x' ∷ xs 65535) ++ codes "\nb\n")) ∷ [])

line_a-closed : is_closed line_a ≡ true
unfolding is_closed
line_a-closed = refl

line_a-Readable : Readable 100 line_a
unfolding raw_lines line_limit
line_a-Readable = (refl, tt)

limit_reached : line_limit 100 ≤ length (b'x' ∷ xs 65535)
unfolding line_limit
limit_reached = omega (arith, length-xs 65535)

tail_file-too_long_example : tail_file 100 (blocked ∷ blocked ∷ []) ≡ repeated 2 (records line_a)
tail_file-too_long_example =
    tail_file-too_long 100 line_a (xs 65535) b'x' line_a-closed line_a-Readable
      (refl, refl, xs-IsPlain 65535) limit_reached (blocked ∷ blocked ∷ [])
      ((refl, codes "\nb\n", refl), ((refl, codes "\nb\n", refl), tt))

-- The watcher delivers `b` and stalls, the drain finds `c`.
abbrev handed : List Phase
handed =
    started (line (codes "b") true ∷ tick (size 6) ∷ []) (reads (codes "a\nb\nc\n") none true) ∷ []

hybrid_run : tail_file_hybrid 100 (some 2) handed ≡ codes "b" ∷ codes "c" ∷ []
unfolding tail_file_hybrid
hybrid_run = refl

-- What the walk below each directory visits.
abbrev tree : Text → List Entry
tree base =
    record { path = "logs/a.log"; accessible = true; is_dir = false }
    ∷ record { path = "logs/old"; accessible = true; is_dir = true }
    ∷ record { path = "logs/old/b.log"; accessible = true; is_dir = false }
    ∷ record { path = "logs/a.txt"; accessible = true; is_dir = false }
    ∷ []

discover_runs :
    discover_files (codes "/") tree (codes "./logs/**/*.log" ∷ [] ∷ codes "logs/*.log" ∷ [])
    ≡ "logs/a.log" ∷ "logs/old/b.log" ∷ []
unfolding discover_files match_segment
discover_runs = refl

base_runs : glob_base_dir (codes "/") (codes "/var/log/app/ta.*.log") ≡ codes "/var/log/app"
unfolding glob_base_dir
base_runs = refl

base_of_literal : glob_base_dir (codes "/mnt/") (codes "C:\\logs\\..\\app.log") ≡ codes "/mnt/c"
unfolding glob_base_dir
base_of_literal = refl

-- The base of a pattern at the root is the current directory.
base_at_root : glob_base_dir (codes "/") (codes "/*.log") ≡ codes "."
unfolding glob_base_dir
base_at_root = refl

-- The event mode waits where the hybrid mode stalls.
event_runs :
    (tail_file_event (line (codes "b") true ∷ tick (size 9) ∷ channel_closed ∷ [])
      ≡ (codes "b" ∷ [], exited))
    × (tail_file_hybrid_event 0 (line (codes "b") true ∷ tick (size 9) ∷ channel_closed ∷ [])
        ≡ (codes "b" ∷ [], 2, stalled))
unfolding tail_file_event tail_file_hybrid_event
event_runs = (refl, refl)
