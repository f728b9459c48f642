-- ===== src/Process/Core/Outcomes.antt =====
-- Which lines are dropped, and that every other line has a model to write.
use ta2mongo.Prelude.{
  String, ◌≡◌, ◌↔◌, refl, false, Option, none, Result, ok, err, Bool-cases, inl, inr, arith,
}
use ta2mongo.Prelude.Int.{ℤ}
use ta2mongo.Value.{Fields}
use ta2mongo.Filter.{ExprLang, Filter, keep, is_empty}
use ta2mongo.Talog
use ta2mongo.Talog.{Record, RecordCategory, category, category_user, category_event, parse_line}
use ta2mongo.Identity.Mapping.{Driver}
use ta2mongo.Identity.Resolver.{Failure, Resolver}
use ta2mongo.Identity.Resolve.{resolve}
use ta2mongo.Process.Core.{
  Kind, kind_filtered, kind_parse_error, kind_identity_error, Cause, Outcome, dead, classify,
  identified, screen, parsed, process,
}

-- A result that is not filtered and has a model.
IsKept : Outcome → Type 0
IsKept o = (¬ (o.kind ≡ kind_filtered)) × (¬ (o.model ≡ none))

module _ (lang : ExprLang) (decode : String → Result String Fields) {Db : Type 0} (io : Driver Db)
    (error_text : Cause → String) where
  open lang use {Program}

  -- The filter rejects a record.
  pub IsRejected : Option (Filter Program) → Option (Filter Program) → Record → Type 0
  IsRejected tested flt r = (is_empty lang tested ≡ false) × ((keep lang flt r.doc).0 ≡ false)

  classify-IsKept :
      (now : ℤ) (r : Record) (user_id : ℤ) (c : RecordCategory)
      → IsKept (classify lang decode io error_text now r user_id c).0
  unfolding classify IsKept
  classify-IsKept now r user_id category_user = ((λ h. ground arith), (λ h. ground arith))
  classify-IsKept now r user_id category_event = ((λ h. ground arith), (λ h. ground arith))

  dead-IsKept :
      (now : ℤ) (line : String) (kind : Kind) (cause : Cause)
      → (¬ (kind ≡ kind_filtered))
      → IsKept (dead lang decode io error_text now line kind cause)
  unfolding dead IsKept
  dead-IsKept now line kind cause h = (h, (λ e. ground arith))

  identified-IsKept :
      (now : ℤ) (line : String) (r : Record) (answer : Result Failure ℤ)
      → IsKept (identified lang decode io error_text now line r answer).0
  unfolding identified
  identified-IsKept now line r (err e) = dead-IsKept now line kind_identity_error _ (ground arith)
  identified-IsKept now line r (ok user_id) = classify-IsKept now r user_id (category r)

  -- What a result says of a condition for it to be dropped.
  record Dropped (Condition : Type 0) (o : Outcome) : Type 0 where
    kind : (o.kind ≡ kind_filtered) ↔ Condition
    model : (o.model ≡ none) ↔ Condition

  IsKept-Dropped : {C : Type 0} {o : Outcome} → IsKept o → (¬ C) → Dropped C o
  unfolding IsKept
  IsKept-Dropped k n = record {
    kind = ((λ h. absurd (k.0 h)), (λ c. absurd (n c)));
    model = ((λ h. absurd (k.1 h)), (λ c. absurd (n c)));
  }

  screen-Dropped :
      (now : ℤ) (tested flt : Option (Filter Program)) (line : String) (r : Record)
      (s : Resolver Db)
      → Dropped
          (IsRejected tested flt r)
          (screen lang decode io error_text now tested flt line r s).0.0
  unfolding screen
  screen-Dropped now tested flt line r s =
      let kept = identified-IsKept now line r (resolve io r.account_id r.distinct_id s).0 in
      elim (Bool-cases (is_empty lang tested)) [
        | inl h ↦ unfold IsRejected in rw h (IsKept-Dropped kept (λ c. ground arith))
        | inr h ↦ elim (Bool-cases (keep lang flt r.doc).0) [
          | inl k ↦ unfold IsRejected in rw (h, k) (IsKept-Dropped kept (λ c. ground arith))
          | inr k ↦
              unfold IsRejected in
              rw (h, k)
                (record {
                  kind = ((λ e. (refl, refl)), (λ c. refl));
                  model = ((λ e. (refl, refl)), (λ c. refl));
                })
        ]
      ]

  -- The condition, on the parser's answer.
  IsRejectedLine :
      Option (Filter Program) → Option (Filter Program) → Result Talog.Error Record → Type 0
  IsRejectedLine tested flt answer = (r : Record) × (answer ≡ ok r) × IsRejected tested flt r

  parsed-Dropped :
      (now : ℤ) (tested flt : Option (Filter Program)) (line : String)
      (answer : Result Talog.Error Record) (s : Resolver Db)
      → Dropped
          (IsRejectedLine tested flt answer)
          (parsed lang decode io error_text now tested flt line answer s).0.0
  unfolding parsed IsRejectedLine
  parsed-Dropped now tested flt line (err e) s =
      IsKept-Dropped (dead-IsKept now line kind_parse_error _ (λ h. ground arith))
        (λ (r, h, k). ground arith)
  parsed-Dropped now tested flt line (ok r) s =
      let d = screen-Dropped now tested flt line r s in
      let back : IsRejectedLine tested flt (ok r) → IsRejected tested flt r =
        λ (r', e, h). let same : r ≡ r' = ground arith in rw same h in
      record {
        kind = ((λ h. (r, refl, d.kind.0 h)), (λ h. d.kind.1 (back h)));
        model = ((λ h. (r, refl, d.model.0 h)), (λ h. d.model.1 (back h)));
      }

  -- On any line and any state, the result is "filtered" exactly when the line parsed, the filter
  -- that was tested has a rule, and the filter that was then read does not keep the record's
  -- document; and exactly then there is nothing to write.
  pub process-dropped_iff :
      (parsed_at written_at : ℤ) (tested flt : Option (Filter Program)) (line : String)
      (s : Resolver Db)
      → let o = (process lang decode io error_text parsed_at written_at tested flt line s).0.0 in
        let dropped =
          (r : Record) × (parse_line parsed_at decode line ≡ ok r)
          × ((is_empty lang tested ≡ false) × ((keep lang flt r.doc).0 ≡ false)) in
        ((o.kind ≡ kind_filtered) ↔ dropped) × ((o.model ≡ none) ↔ dropped)
  unfolding process IsRejectedLine IsRejected
  process-dropped_iff parsed_at written_at tested flt line s =
      let d = parsed-Dropped written_at tested flt line (parse_line parsed_at decode line) s in
      (d.kind, d.model)
