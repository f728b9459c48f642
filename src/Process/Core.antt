-- ===== src/Process/Core.antt =====
-- internal/process/core: `Processor.Process` on one line, and the counters. The calls of a
-- StatsCollector are returned as a list, in their order. The stages cannot panic in the model, so
-- the deferred recovery is not in it.
pub mod Accounting
pub mod Outcomes
use ta2mongo.Prelude.{
  ℕ, ◌+◌, ◌%◌, ◌^◌, String, Bool, true, false, Option, none, some, List, [], ◌∷◌, ◌++◌, Result, ok,
  err, is_some, if◌then◌else◌,
}
use ta2mongo.Prelude.Int.{ℤ}
use ta2mongo.Value.{Fields, int64, put}
use ta2mongo.Filter.{ExprLang, Filter, keep, is_empty}
use ta2mongo.Talog
use ta2mongo.Talog.{Record, RecordCategory, category, category_user, category_event, parse_line}
use ta2mongo.WriteModel.{Model, user_write_model, event_write_model, dead_letter_model}
use ta2mongo.Identity.Mapping.{Driver}
use ta2mongo.Identity.Resolver.{Failure, Resolver}
use ta2mongo.Identity.Resolve.{resolve}

pub data Kind : Type 0 where
  kind_event kind_user kind_filtered kind_parse_error kind_identity_error : Kind

-- The error that an outcome carries.
pub data Cause : Type 0 where
  parse_cause : Talog.Error → Cause
  identity_cause : Failure → Cause

-- core.Result
pub record Outcome : Type 0 where
  pub kind : Kind
  pub model : Option Model
  pub cause : Option Cause

-- The calls of a StatsCollector.
pub data Stat : Type 0 where
  on_line on_parse_ok on_parse_error on_identity_error on_user_write : Stat
  on_event_write on_dead_letter on_write_error on_filtered on_filter_error : Stat

module _ (lang : ExprLang) (decode : String → Result String Fields) {Db : Type 0} (io : Driver Db)
    (error_text : Cause → String) where
  open lang use {Program}

  -- The line's dead letter, and the end of `Process` on an error. `now` is the clock.
  unfoldable pub dead : ℤ → String → Kind → Cause → Outcome
  dead now line kind cause = record {
    kind = kind;
    model = some (dead_letter_model now line (some (error_text cause)));
    cause = some cause;
  }

  -- The write model of a record whose user is known.
  unfoldable pub classify : ℤ → Record → ℤ → RecordCategory → Outcome × List Stat
  classify now r user_id category_user = (
    record { kind = kind_user; model = some (user_write_model r.typ user_id r.doc); cause = none },
    on_user_write ∷ [],
  )
  classify now r user_id category_event = (
    record {
      kind = kind_event;
      model =
          some (event_write_model now r.typ r.uuid (some (put "#user_id" (int64 user_id) r.doc)));
      cause = none;
    },
    on_event_write ∷ [],
  )

  -- What follows the answer of the identity resolver.
  unfoldable pub identified : ℤ → String → Record → Result Failure ℤ → Outcome × List Stat
  identified now line r (err e) = (
    dead now line kind_identity_error (identity_cause e),
    on_identity_error ∷ on_dead_letter ∷ [],
  )
  identified now line r (ok user_id) = classify now r user_id (category r)

  abbrev pub filtered : Outcome
  filtered = record { kind = kind_filtered; model = none; cause = none }

  abbrev pub filter_error : Bool → List Stat
  filter_error true = on_filter_error ∷ []
  filter_error false = []

  -- The filter and what follows it. The holder is read twice, by `Empty` and by `Keep`, and its
  -- filter may be swapped in between.
  unfoldable pub screen :
      ℤ
      → Option (Filter Program)
      → Option (Filter Program)
      → String
      → Record
      → Resolver Db
      → (Outcome × List Stat) × Resolver Db
  screen now tested flt line r s =
      let (kept, e) = keep lang flt r.doc in
      let (answer, s') = resolve io r.account_id r.distinct_id s in
      let (outcome, stats) = identified now line r answer in
      if is_empty lang tested
      then ((outcome, stats), s')
      else if kept
      then ((outcome, filter_error (is_some e) ++ stats), s')
      else ((filtered, filter_error (is_some e) ++ on_filtered ∷ []), s)

  -- What follows the answer of the parser.
  unfoldable pub parsed :
      ℤ
      → Option (Filter Program)
      → Option (Filter Program)
      → String
      → Result Talog.Error Record
      → Resolver Db
      → (Outcome × List Stat) × Resolver Db
  parsed now tested flt line (err e) s = (
    (
      dead now line kind_parse_error (parse_cause e),
      on_line ∷ on_parse_error ∷ on_dead_letter ∷ [],
    ),
    s,
  )
  parsed now tested flt line (ok r) s =
      let ((outcome, stats), s') = screen now tested flt line r s in
      ((outcome, on_line ∷ on_parse_ok ∷ stats), s')

  -- `parsed_at` and `written_at` are the two readings of the clock.
  unfoldable pub process :
      ℤ
      → ℤ
      → Option (Filter Program)
      → Option (Filter Program)
      → String
      → Resolver Db
      → (Outcome × List Stat) × Resolver Db
  unfolding parsed
  process parsed_at written_at tested flt line s =
      parsed written_at tested flt line (parse_line parsed_at decode line) s

-- core.Counters: int64 counters as bit patterns, so that an addition wraps.
pub record Counters : Type 0 where
  pub total_lines : ℕ
  pub parsed_ok : ℕ
  pub parse_errors : ℕ
  pub identity_errors : ℕ
  pub user_writes : ℕ
  pub event_writes : ℕ
  pub dead_letters : ℕ
  pub write_errors : ℕ
  pub filtered : ℕ
  pub filter_errors : ℕ

abbrev pub bump : ℕ → ℕ
bump n = (n + 1) % 2 ^ 64

abbrev pub zeros : Counters
zeros = record {
  total_lines = 0;
  parsed_ok = 0;
  parse_errors = 0;
  identity_errors = 0;
  user_writes = 0;
  event_writes = 0;
  dead_letters = 0;
  write_errors = 0;
  filtered = 0;
  filter_errors = 0;
}

-- The methods of Counters.
unfoldable pub count_stat : Stat → Counters → Counters
count_stat on_line c = record c { total_lines = bump c.total_lines }
count_stat on_parse_ok c = record c { parsed_ok = bump c.parsed_ok }
count_stat on_parse_error c = record c { parse_errors = bump c.parse_errors }
count_stat on_identity_error c = record c { identity_errors = bump c.identity_errors }
count_stat on_user_write c = record c { user_writes = bump c.user_writes }
count_stat on_event_write c = record c { event_writes = bump c.event_writes }
count_stat on_dead_letter c = record c { dead_letters = bump c.dead_letters }
count_stat on_write_error c = record c { write_errors = bump c.write_errors }
count_stat on_filtered c = record c { filtered = bump c.filtered }
count_stat on_filter_error c = record c { filter_errors = bump c.filter_errors }

unfoldable pub count_stats : List Stat → Counters → Counters
unfolding count_stat
count_stats [] c = c
count_stats (s ∷ stats) c = count_stats stats (count_stat s c)
