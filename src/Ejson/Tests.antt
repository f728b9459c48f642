-- ===== src/Ejson/Tests.antt =====
-- A run against a driver in memory, and the theorem about requests at a concrete one.
use ta2mongo.Prelude.{ℕ, suc, ◌≡◌, refl, String, true, false, Option, none, some, [], ok, err}
use ta2mongo.Prelude.Int.{pos}
use ta2mongo.Value.{end, str, is_empty}
use ta2mongo.Ejson.{Request, Driver, Resource, empty_response, execute, unknown_action}
use ta2mongo.Ejson.Shell.{Reads}

-- The state is the number of writes.
abbrev counted : Driver String String ℕ
counted = record {
  find_one = λ target filter options n. (err "no documents", n);
  find = λ target filter options n. (ok "cursor", n);
  insert_one = λ target doc n. (ok (str "id"), suc n);
  update_one = λ target filter update upsert n.
      (ok (record { matched = pos 1; modified = pos 1; upserted = none }), suc n);
  delete_one = λ target filter n. (ok (pos 1), suc n);
  aggregate = λ target stages n. (ok "cursor", suc n);
  all = λ cursor n. (ok [], n);
  is_no_documents = λ e. true;
}

abbrev connection : Option Resource
connection = some (record { has_client = true; db_name = some "tango" })

abbrev request : String → Option Request
request action = some (record {
  action = action;
  database = "";
  collection = "users";
  filter = none;
  projection = none;
  sort = end;
  limit = pos 0;
  skip = pos 5;
  document = none;
  update = none;
  pipeline = none;
  upsert = false;
})

find_one_runs : execute counted connection (request "findOne") 4 ≡ (ok empty_response, 4)
unfolding execute is_empty
find_one_runs = refl

delete_runs :
    execute counted connection (request "deleteOne") 4
    ≡ (ok (record empty_response { deleted_count = some (pos 1) }), 5)
unfolding execute is_empty
delete_runs = refl

unknown_runs : execute counted connection (request "drop") 4 ≡ (err (unknown_action "drop"), 4)
unfolding execute is_empty
unknown_runs = refl

abbrev counted_reads : Reads counted (λ (n : ℕ). n)
counted_reads = record {
  find_one_reads = λ target filter options n. refl;
  find_reads = λ target filter options n. refl;
  all_reads = λ cursor n. refl;
}
