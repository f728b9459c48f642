-- ===== src/Process/Core/Accounting.antt =====
-- Every line is accounted for once in the counters.
use ta2mongo.Prelude.{
  ℕ, ◌+◌, ◌%◌, ◌^◌, String, ◌≡◌, Bool, true, false, Option, List, [], ◌∷◌, ◌++◌, arith, Result, ok,
  err, is_some, Bool-cases, inl, inr,
}
use ta2mongo.Prelude.Int.{ℤ}
use ta2mongo.Value.{Fields}
use ta2mongo.Filter.{ExprLang, Filter, keep, is_empty}
use ta2mongo.Talog
use ta2mongo.Talog.{Record, RecordCategory, category, category_user, category_event, parse_line}
use ta2mongo.Identity.Mapping.{Driver}
use ta2mongo.Identity.Resolver.{Failure, Resolver}
use ta2mongo.Identity.Resolve.{resolve}
use ta2mongo.Process.Core.{
  Cause, Stat, on_line, on_parse_ok, on_parse_error, on_identity_error, on_user_write,
  on_event_write, on_dead_letter, on_filtered, on_filter_error, classify, identified, screen,
  parsed, filter_error, process, Counters, count_stat, count_stats,
}

abbrev modulus : ℕ
modulus = 2 ^ 64

-- The counters agree, modulo the wrap: each line parsed or did not, each parsed line was filtered,
-- failed its identity or is written, and each failure is a dead letter.
pub record IsBalanced (c : Counters) : Type 0 where
  pub lines : c.total_lines % modulus ≡ (c.parsed_ok + c.parse_errors) % modulus
  pub parsed :
      c.parsed_ok % modulus
      ≡ (c.filtered + c.identity_errors + c.user_writes + c.event_writes) % modulus
  pub dead : c.dead_letters % modulus ≡ (c.parse_errors + c.identity_errors) % modulus

-- The calls that follow on_line and on_parse_ok for one parsed record.
data Tail : List Stat → Type 0 where
  dropped : Tail (on_filtered ∷ [])
  unknown : Tail (on_identity_error ∷ on_dead_letter ∷ [])
  user : Tail (on_user_write ∷ [])
  event : Tail (on_event_write ∷ [])
  failing : {l : List Stat} → Tail l → Tail (on_filter_error ∷ l)

-- The calls of one line.
data Calls : List Stat → Type 0 where
  rejected : Calls (on_line ∷ on_parse_error ∷ on_dead_letter ∷ [])
  accepted : {l : List Stat} → Tail l → Calls (on_line ∷ on_parse_ok ∷ l)

-- The counters while the last parsed line has not been counted further.
record IsOwed (c : Counters) : Type 0 where
  lines : c.total_lines % modulus ≡ (c.parsed_ok + c.parse_errors) % modulus
  parsed :
      c.parsed_ok % modulus
      ≡ (c.filtered + c.identity_errors + c.user_writes + c.event_writes + 1) % modulus
  dead : c.dead_letters % modulus ≡ (c.parse_errors + c.identity_errors) % modulus

Tail-IsBalanced : {l : List Stat} (c : Counters) → Tail l → IsOwed c → IsBalanced (count_stats l c)
unfolding count_stats
Tail-IsBalanced c dropped h = omega arith
Tail-IsBalanced c unknown h = omega arith
Tail-IsBalanced c user h = omega arith
Tail-IsBalanced c event h = omega arith
Tail-IsBalanced c (failing t) h = Tail-IsBalanced (count_stat on_filter_error c) t (omega arith)

Calls-IsBalanced :
    {l : List Stat} (c : Counters) → Calls l → IsBalanced c → IsBalanced (count_stats l c)
unfolding count_stats
Calls-IsBalanced c rejected h = omega arith
Calls-IsBalanced c (accepted t) h =
    Tail-IsBalanced (count_stat on_parse_ok (count_stat on_line c)) t (omega arith)

module _ (lang : ExprLang) (decode : String → Result String Fields) {Db : Type 0} (io : Driver Db)
    (error_text : Cause → String) where
  open lang use {Program}

  classify-Tail :
      (now : ℤ) (r : Record) (user_id : ℤ) (c : RecordCategory)
      → Tail (classify lang decode io error_text now r user_id c).1
  unfolding classify
  classify-Tail now r user_id category_user = user
  classify-Tail now r user_id category_event = event

  identified-Tail :
      (now : ℤ) (line : String) (r : Record) (answer : Result Failure ℤ)
      → Tail (identified lang decode io error_text now line r answer).1
  unfolding identified
  identified-Tail now line r (err e) = unknown
  identified-Tail now line r (ok user_id) = classify-Tail now r user_id (category r)

  failing-Tail :
      (b : Bool) {l : List Stat} → Tail l → Tail (filter_error lang decode io error_text b ++ l)
  failing-Tail true t = failing t
  failing-Tail false t = t

  screen-Tail :
      (now : ℤ) (tested flt : Option (Filter Program)) (line : String) (r : Record)
      (s : Resolver Db)
      → Tail (screen lang decode io error_text now tested flt line r s).0.1
  unfolding screen
  screen-Tail now tested flt line r s =
      let t = identified-Tail now line r (resolve io r.account_id r.distinct_id s).0 in
      let e = is_some (keep lang flt r.doc).1 in
      elim (Bool-cases (is_empty lang tested)) [
        | inl h ↦ rw h t
        | inr h ↦ elim (Bool-cases (keep lang flt r.doc).0) [
          | inl k ↦ rw (h, k) (failing-Tail e t)
          | inr k ↦ rw (h, k) (failing-Tail e dropped)
        ]
      ]

  parsed-Calls :
      (now : ℤ) (tested flt : Option (Filter Program)) (line : String)
      (answer : Result Talog.Error Record) (s : Resolver Db)
      → Calls (parsed lang decode io error_text now tested flt line answer s).0.1
  unfolding parsed
  parsed-Calls now tested flt line (err e) s = rejected
  parsed-Calls now tested flt line (ok r) s = accepted (screen-Tail now tested flt line r s)

  pub process-IsBalanced :
      (parsed_at written_at : ℤ) (tested flt : Option (Filter Program)) (line : String)
      (s : Resolver Db) (c : Counters)
      → IsBalanced c
      → IsBalanced (
          count_stats
            (process lang decode io error_text parsed_at written_at tested flt line s).0.1
            c)
  unfolding process
  process-IsBalanced parsed_at written_at tested flt line s c h =
      Calls-IsBalanced c
        (parsed-Calls written_at tested flt line (parse_line parsed_at decode line) s) h
