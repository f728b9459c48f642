-- ===== src/Talog/Laws.antt =====
-- Which payloads are accepted, and what every parsed record holds.
use Prim.Native.String.{len}
use ta2mongo.Prelude.{
  String, ◌≡◌, ◌≢◌, ◌↔◌, ◌⊎◌, inl, inr, true, false, none, some, List, [], ◌∷◌, arith, Result, ok,
  ltb, eq_iff, starts_with, Option-cases, Result-cases, Bool-cases,
}
use ta2mongo.Prelude.Int.{ℤ}
use ta2mongo.Value.{Fields, str, int64, get, get_or_null}
use ta2mongo.Value.Laws.{get-put}
use ta2mongo.Talog.{
  Record, Error, envelope_keys, is_user_type, is_event_type, to_string, has_ta_keys, is_blank,
  validate_by_type, new_record, build_record, nested, try_parse_envelope, parse_line,
}

-- The text of a field, "" where there is none.
abbrev pub text_at : String → Fields → String
text_at k payload = to_string (get_or_null k payload)

-- What the ThinkingData rules ask of a payload.
pub record IsAccepted (payload : Fields) : Type 0 where
  pub typed : text_at "#type" payload ≢ ""
  pub identified : text_at "#uuid" payload ≢ ""
  pub timed : text_at "#time" payload ≢ ""
  pub owned : (text_at "#account_id" payload ≢ "") ⊎ (text_at "#distinct_id" payload ≢ "")
  pub known :
      (is_user_type (text_at "#type" payload) ≡ true)
      ⊎ ((is_event_type (text_at "#type" payload) ≡ true) × (text_at "#event_name" payload ≢ ""))

pub record IsWellFormed (now : ℤ) (r : Record) : Type 0 where
  pub typed : r.typ ≢ ""
  pub identified : r.uuid ≢ ""
  pub owned : (r.account_id ≢ "") ⊎ (r.distinct_id ≢ "")
  pub known : (is_user_type r.typ ≡ true) ⊎ (is_event_type r.typ ≡ true)
  pub uuid_stored : get "#uuid" r.doc ≡ some (str r.uuid)
  pub time_stored : (t : String) × (t ≢ "") × (get "#time" r.doc ≡ some (str t))
  pub stamped : get "_ts" r.doc ≡ some (int64 now)

not_blank : (s : String) → (is_blank s ≡ false) ↔ (s ≢ "")
not_blank s = ground (arith, eq_iff s "")

-- The five facts behind `IsAccepted`, as the code tests them.
abbrev Passes : String → String → String → String → String → Fields → Type 0
Passes typ uuid time_val account_id distinct_id payload =
    (is_blank typ ≡ false)
    × (is_blank uuid ≡ false)
    × (is_blank time_val ≡ false)
    × ((is_blank account_id ≡ false) ⊎ (is_blank distinct_id ≡ false))
    × ((is_user_type typ ≡ true)
        ⊎ ((is_event_type typ ≡ true) × (is_blank (text_at "#event_name" payload) ≡ false)))

validate-none_iff :
    (typ time_val account_id distinct_id : String) (payload : Fields)
    → (validate_by_type typ time_val account_id distinct_id payload ≡ none) ↔ (
        (is_blank time_val ≡ false)
        × ((is_blank account_id ≡ false) ⊎ (is_blank distinct_id ≡ false))
        × ((is_user_type typ ≡ true)
            ⊎ ((is_event_type typ ≡ true) × (is_blank (text_at "#event_name" payload) ≡ false))))
validate-none_iff typ time_val account_id distinct_id payload =
    unfold validate_by_type in ground arith

IsAccepted-iff :
    (payload : Fields)
    → Passes
        (text_at "#type" payload)
        (text_at "#uuid" payload)
        (text_at "#time" payload)
        (text_at "#account_id" payload)
        (text_at "#distinct_id" payload)
        payload
      ↔ IsAccepted payload
IsAccepted-iff payload = (
  (λ (a, b, c, d, e). record {
    typed = (not_blank _).0 a;
    identified = (not_blank _).0 b;
    timed = (not_blank _).0 c;
    owned = elim d [ inl x ↦ inl ((not_blank _).0 x) | inr y ↦ inr ((not_blank _).0 y) ];
    known = elim e [ inl x ↦ inl x | inr y ↦ inr (y.0, (not_blank _).0 y.1) ];
  }),
  (λ h. (
    (not_blank _).1 h.typed,
    (not_blank _).1 h.identified,
    (not_blank _).1 h.timed,
    elim h.owned [ inl x ↦ inl ((not_blank _).1 x) | inr y ↦ inr ((not_blank _).1 y) ],
    elim h.known [ inl x ↦ inl x | inr y ↦ inr (y.0, (not_blank _).1 y.1) ],
  )),
)

module _ (now : ℤ) where
  abbrev made : Fields → Record
  made payload =
      new_record now (text_at "#type" payload) (text_at "#uuid" payload) (text_at "#time" payload)
        (text_at "#account_id" payload) (text_at "#distinct_id" payload) payload

  abbrev Checks : Fields → Type 0
  Checks payload =
      Passes (text_at "#type" payload) (text_at "#uuid" payload) (text_at "#time" payload)
        (text_at "#account_id" payload) (text_at "#distinct_id" payload) payload

  build_record_of_Checks :
      (payload : Fields) → Checks payload → build_record now payload ≡ ok (made payload)
  build_record_of_Checks payload (a, b, c, d, e) =
      unfold build_record in rw (a, b, (validate-none_iff _ _ _ _ payload).1 (c, d, e))

  build_record_ok :
      (payload : Fields) (r : Record)
      → build_record now payload ≡ ok r
      → Checks payload × (r ≡ made payload)
  build_record_ok payload r h =
      unfold build_record in
      ground (
        arith,
        validate-none_iff (text_at "#type" payload) (text_at "#time" payload)
            (text_at "#account_id" payload) (text_at "#distinct_id" payload) payload,
      )

  -- A payload yields a record exactly when it meets the rules of its type.
  pub build_record-ok_iff :
      (payload : Fields) → ((r : Record) × (build_record now payload ≡ ok r)) ↔ IsAccepted payload
  build_record-ok_iff payload = (
    (λ (r, h). (IsAccepted-iff payload).0 (build_record_ok payload r h).0),
    (λ a. (made payload, build_record_of_Checks payload ((IsAccepted-iff payload).1 a))),
  )

  made-IsWellFormed : (payload : Fields) → IsAccepted payload → IsWellFormed now (made payload)
  unfolding new_record
  made-IsWellFormed payload a = record {
    typed = a.typed;
    identified = a.identified;
    owned = a.owned;
    known = elim a.known [ inl x ↦ inl x | inr y ↦ inr y.0 ];
    uuid_stored = simp get-put;
    time_stored = (text_at "#time" payload, a.timed, simp get-put);
    stamped = simp get-put;
  }

  build_record-IsWellFormed :
      (payload : Fields) (r : Record) → build_record now payload ≡ ok r → IsWellFormed now r
  build_record-IsWellFormed payload r h =
      let (accepted, same) = build_record_ok payload r h in
      rw same (made-IsWellFormed payload ((IsAccepted-iff payload).0 accepted))

  module _ (decode : String → Result String Fields) where
    try_parse_envelope_payload :
        (keys : List String) (obj : Fields) (result : Result Error Record)
        → try_parse_envelope now decode keys obj ≡ some result
        → (payload : Fields) × (result ≡ build_record now payload)
    unfolding try_parse_envelope
    try_parse_envelope_payload [] obj result h = cc
    try_parse_envelope_payload (key ∷ keys) obj result h =
        let later = try_parse_envelope_payload keys obj result in
        elim (Option-cases (nested now decode (get_or_null key obj))) [
          | inl e ↦ later (ground arith)
          | inr (inner, e) ↦ (inner, ground arith)
        ]

    parse_line_payload :
        (line : String) (r : Record)
        → parse_line now decode line ≡ ok r
        → (payload : Fields) × (build_record now payload ≡ ok r)
    unfolding parse_line
    parse_line_payload line r h = elim (Result-cases (decode line)) [
      | inr (e, failed) ↦ absurd (ground arith)
      | inl (obj, read) ↦ elim (Bool-cases (has_ta_keys obj)) [
        | inl direct ↦ (obj, ground arith)
        | inr wrapped ↦ elim (Option-cases (try_parse_envelope now decode envelope_keys obj)) [
          | inl none_found ↦ absurd (ground arith)
          | inr (result, found) ↦
              let (payload, same) = try_parse_envelope_payload envelope_keys obj result found in
              (payload, ground arith)
        ]
      ]
    ]

    -- Every record that a line yields, directly or through an envelope, has a type, a uuid and at
    -- least one of the two user identifiers, is a user_* or a track* record, and its document holds
    -- the record's uuid, a time that is not empty, and the ingestion timestamp.
    pub parse_line-IsWellFormed :
        (line : String) (r : Record) → parse_line now decode line ≡ ok r → IsWellFormed now r
    parse_line-IsWellFormed line r h =
        let (payload, built) = parse_line_payload line r h in
        build_record-IsWellFormed payload r built

    -- A payload that is wrapped as text in the first envelope key of an object without keys of its
    -- own yields what the payload itself yields.
    pub parse_line-envelope :
        (line wrapped : String) (payload obj : Fields)
        → decode line ≡ ok payload
        → has_ta_keys payload ≡ true
        → (ltb (len line) 2 ≡ false) × (starts_with line "{" ≡ true)
        → decode wrapped ≡ ok obj
        → has_ta_keys obj ≡ false
        → get "msg" obj ≡ some (str line)
        → parse_line now decode wrapped ≡ parse_line now decode line
    unfolding parse_line try_parse_envelope nested
    parse_line-envelope line wrapped payload obj d k (l, s) w n g = ground arith
