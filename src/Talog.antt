-- ===== src/Talog.antt =====
-- internal/parser/talog: record.go and parser.go. A log line becomes a validated record, or an
-- error. Laws says which payloads are accepted, and what the record of an accepted one holds.
pub mod Flatten
pub mod Laws
mod Tests
use Prim.Native.String.{len}
use ta2mongo.Prelude.{
  String, Bool, true, false, not, ◌&&◌, ◌||◌, Option, none, some, List, [], ◌∷◌, Result, ok, err,
  ltb, ◌==◌, starts_with, if◌then◌else◌,
}
use ta2mongo.Prelude.Int.{ℤ}
use ta2mongo.Value.{
  Value, Fields, end, object, str, int64, get, has, get_or_null, put, put_all, delete,
}

abbrev pub envelope_keys : List String
envelope_keys = "msg" ∷ "message" ∷ "log" ∷ []

pub record Record : Type 0 where
  pub typ : String
  pub uuid : String
  pub account_id : String
  pub distinct_id : String
  pub doc : Fields

pub data RecordCategory : Type 0 where
  category_user category_event : RecordCategory

pub data Error : Type 0 where
  invalid_json : String → Error
  not_ta_payload missing_type_or_uuid : Error
  user_without_time user_without_identity : Error
  event_without_time event_without_name event_without_identity : Error
  unsupported_type : String → Error

unfoldable pub is_user_type : String → Bool
is_user_type typ = starts_with typ "user_"

unfoldable pub is_event_type : String → Bool
is_event_type typ = starts_with typ "track"

unfoldable pub category : Record → RecordCategory
unfolding is_user_type
category r = if is_user_type r.typ then category_user else category_event

-- `toString`: "" for nil and for anything that is no string
unfoldable pub to_string : Value → String
to_string (str s) = s
to_string v = ""

unfoldable pub has_ta_keys : Fields → Bool
unfolding has
has_ta_keys obj = has "#time" obj || has "#type" obj || has "#event_name" obj

abbrev pub is_blank : String → Bool
is_blank s = s == ""

-- `nil` is `none`.
unfoldable pub validate_by_type : String → String → String → String → Fields → Option Error
unfolding is_user_type is_event_type to_string get_or_null
validate_by_type typ time_val account_id distinct_id payload =
    let has_identity = not (is_blank account_id) || not (is_blank distinct_id) in
    if is_user_type typ
    then if is_blank time_val
      then some user_without_time
      else if not has_identity
      then some user_without_identity
      else none
    else if is_event_type typ
    then if is_blank time_val
      then some event_without_time
      else if is_blank (to_string (get_or_null "#event_name" payload))
      then some event_without_name
      else if not has_identity
      then some event_without_identity
      else none
    else some (unsupported_type typ)

-- The promoted properties, where `properties` is a JSON object.
unfoldable pub promote : Value → Fields → Fields
promote (object props) doc = delete "properties" (put_all doc props)
promote v doc = doc

unfoldable pub flatten_payload : Fields → Fields
unfolding promote get_or_null
flatten_payload payload = promote (get_or_null "properties" payload) (put_all end payload)

-- `now` is what time.Now().UnixNano() answers.
module _ (now : ℤ) where
  -- The record that `buildRecord` returns for a payload with these five fields.
  unfoldable pub new_record : String → String → String → String → String → Fields → Record
  unfolding flatten_payload
  new_record typ uuid time_val account_id distinct_id payload = record {
    typ = typ;
    uuid = uuid;
    account_id = account_id;
    distinct_id = distinct_id;
    doc =
        put "_ts" (int64 now)
          (put "#uuid" (str uuid) (put "#time" (str time_val) (flatten_payload payload)));
  }

  unfoldable pub build_record : Fields → Result Error Record
  unfolding to_string get_or_null new_record
  build_record payload =
      let typ = to_string (get_or_null "#type" payload) in
      let uuid = to_string (get_or_null "#uuid" payload) in
      let time_val = to_string (get_or_null "#time" payload) in
      let account_id = to_string (get_or_null "#account_id" payload) in
      let distinct_id = to_string (get_or_null "#distinct_id" payload) in
      if is_blank typ || is_blank uuid
      then err missing_type_or_uuid
      else elim (validate_by_type typ time_val account_id distinct_id payload) [
        | some e ↦ err e
        | none ↦ ok (new_record typ uuid time_val account_id distinct_id payload)
      ]

  -- `decode` is json.Unmarshal into a map: JSON `null` leaves the map empty.
  module _ (decode : String → Result String Fields) where
    -- One key of the loop of `tryParseEnvelope`: the payload, if the field nests one.
    unfoldable pub nested : Value → Option Fields
    unfolding has_ta_keys
    nested (str s) = if ltb (len s) 2 || not (starts_with s "{") then none else elim (decode s) [
      | err e ↦ none
      | ok inner ↦ if has_ta_keys inner then some inner else none
    ]
    nested v = none

    -- `nil, nil` is `none`.
    unfoldable pub try_parse_envelope : List String → Fields → Option (Result Error Record)
    unfolding get_or_null
    try_parse_envelope [] obj = none
    try_parse_envelope (key ∷ keys) obj = elim (nested (get_or_null key obj)) [
      | some inner ↦ some (build_record inner)
      | none ↦ try_parse_envelope keys obj
    ]

    unfoldable pub parse_line : String → Result Error Record
    parse_line line = elim (decode line) [
      | err e ↦ err (invalid_json e)
      | ok obj ↦
          if has_ta_keys obj
          then build_record obj
          else elim (try_parse_envelope envelope_keys obj) [
            | some result ↦ result
            | none ↦ err not_ta_payload
          ]
    ]
