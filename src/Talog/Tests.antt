-- ===== src/Talog/Tests.antt =====
-- Runs of the parser, and its theorems at concrete inputs.
use ta2mongo.Prelude.{String, ◌≡◌, ◌↔◌, refl, Result, ok, err, ◌==◌, if◌then◌else◌}
use ta2mongo.Prelude.Int.{ℤ, pos}
use ta2mongo.Value.{Fields, end, field, object, str, int64, get, get_or_null, put, put_all, delete}
use ta2mongo.Talog.{
  Record, unsupported_type, has_ta_keys, validate_by_type, flatten_payload, build_record, nested,
  try_parse_envelope, parse_line,
}
use ta2mongo.Talog.Flatten.{flat_get, get-flatten_payload}
use ta2mongo.Talog.Laws.{IsAccepted, IsWellFormed, build_record-ok_iff, parse_line-IsWellFormed}

parser : Unit {0}
unfolding parse_line try_parse_envelope nested has_ta_keys build_record validate_by_type
parser = tt

abbrev now : ℤ
now = pos 17

abbrev props : Fields
props = field "level" (str "9") (field "#type" (str "track") end)

abbrev payload : Fields
payload = field "#type" (str "user_set") (
    field "#uuid" (str "u1") (
      field "#time" (str "t")
        (field "#account_id" (str "a") (field "properties" (object props) end))))

abbrev decode : String → Result String Fields
decode line =
    if line == "{a}"
    then ok payload
    else if line == "{b}"
    then ok (field "msg" (str "{a}") end)
    else if line == "{c}"
    then ok (put "#type" (str "login") payload)
    else err "bad"

abbrev parsed : Record
parsed = record {
  typ = "user_set";
  uuid = "u1";
  account_id = "a";
  distinct_id = "";
  doc = field "#type" (str "track") (
      field "#uuid" (str "u1") (
        field "#time" (str "t")
          (field "#account_id" (str "a") (field "level" (str "9") (field "_ts" (int64 now) end)))));
}

parse_line_runs :
    (parse_line now decode "{b}" ≡ ok parsed)
    × (parse_line now decode "{c}" ≡ err (unsupported_type "login"))
unfolding parser put delete put_all
parse_line_runs = (refl, refl)

get-flatten_payload_example :
    get "#type" (flatten_payload payload) ≡ flat_get (object props) "#type" payload
unfolding get_or_null
get-flatten_payload_example =
    get-flatten_payload payload "#type" (unfold get in (refl, (refl, (refl, (refl, (refl, tt))))))
      (unfold get in (refl, (refl, tt)))

build_record-ok_iff_example :
    ((r : Record) × (build_record now payload ≡ ok r)) ↔ IsAccepted payload
build_record-ok_iff_example = build_record-ok_iff now payload

parse_line-IsWellFormed_example : IsWellFormed now parsed
unfolding parser put delete put_all
parse_line-IsWellFormed_example = parse_line-IsWellFormed now decode "{b}" parsed refl
