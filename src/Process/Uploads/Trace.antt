-- ===== src/Process/Uploads/Trace.antt =====
-- The trace of a strategy's calls, newest first, and what it says of the models.
use ta2mongo.Prelude.{
  ℕ, suc, ◌+◌, ◌≡◌, refl, arith, ◌≤◌, ◌<◌, Option, none, some, List, [], ◌∷◌, ◌++◌, length, or_else,
}
use ta2mongo.WriteModel.{Model}
use ta2mongo.Store.{Target, user, event, dead_letter, WriteError}
use ta2mongo.Process.Core.{
  Kind, kind_event, kind_user, kind_filtered, kind_parse_error, kind_identity_error, Cause, Outcome,
}
use ta2mongo.Process.Uploads.{Stage, RunError, write_failed}

pub data Act : Type 0 where
  processed : Outcome → Act
  wrote : Target → List Model → Option WriteError → Act

-- A stage that records its calls.
abbrev pub traced : {W : Type 0} → Stage W → Stage (W × List Act)
traced stage = record {
  process_line = λ line (w, l).
      let (outcome, w') = stage.process_line line w in (outcome, (w', processed outcome ∷ l));
  write = λ target models (w, l).
      let (e, w') = stage.write target models w in (e, (w', wrote target models e ∷ l));
  note_write_error = λ (w, l). (stage.note_write_error w, l);
}

abbrev pub to_list : Option Model → List Model
to_list none = []
to_list (some m) = m ∷ []

-- The collection that an outcome's model is for.
abbrev pub target_of : Kind → Option Target
target_of kind_event = some event
target_of kind_user = some user
target_of kind_filtered = none
target_of kind_parse_error = some dead_letter
target_of kind_identity_error = some dead_letter

abbrev pub only : Target → Target → List Model → List Model
only user user l = l
only event event l = l
only dead_letter dead_letter l = l
only t u l = []

abbrev pub due_to : Target → Option Target → Option Model → List Model
due_to t none m = []
due_to t (some u) m = only t u (to_list m)

-- The models that the processed lines have for a collection, in order.
abbrev pub due : Target → List Act → List Model
due t [] = []
due t (processed o ∷ l) = due t l ++ due_to t (target_of o.kind) o.model
due t (wrote u models e ∷ l) = due t l

-- The models written to a collection, in order.
abbrev pub sent : Target → List Act → List Model
sent t [] = []
sent t (processed o ∷ l) = sent t l
sent t (wrote u models e ∷ l) = sent t l ++ only t u models

abbrev pub error_of : Target → Option WriteError → Option RunError
error_of t none = none
error_of t (some e) = some (write_failed t e)

-- The first error of a write.
abbrev pub first_error : List Act → Option RunError
first_error [] = none
first_error (processed o ∷ l) = first_error l
first_error (wrote t models e ∷ l) = or_else (first_error l) (error_of t e)

-- A write is of at least one model and at most `size`.
abbrev pub IsSized : ℕ → Act → Type 0
IsSized size (processed o) = Unit
IsSized size (wrote t models e) = (0 < length models) × (length models ≤ size)

-- How many lines were processed.
abbrev pub handled : List Act → ℕ
handled [] = 0
handled (processed o ∷ l) = suc (handled l)
handled (wrote t models e ∷ l) = handled l

pub length-to_list : (m : Option Model) → length (to_list m) ≤ 1
length-to_list none = omega arith
length-to_list (some m) = omega arith

abbrev pub outcome : Kind → Option Model → Option Cause → Outcome
outcome kind m c = record { kind = kind; model = m; cause = c }

pub add_zero : (n : ℕ) → n + 0 ≡ n
add_zero n = omega arith

pub zero_add : (n : ℕ) → 0 + n ≡ n
zero_add n = omega arith

pub add_suc : (n m : ℕ) → n + suc m ≡ suc n + m
add_suc n m = omega arith

pub only_nil : (u t : Target) → only u t [] ≡ []
only_nil user user = refl
only_nil user event = refl
only_nil user dead_letter = refl
only_nil event user = refl
only_nil event event = refl
only_nil event dead_letter = refl
only_nil dead_letter user = refl
only_nil dead_letter event = refl
only_nil dead_letter dead_letter = refl
