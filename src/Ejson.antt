-- ===== src/Ejson.antt =====
-- internal/dao/ejson/ejson.go: a request in extended JSON is checked and passed on to the MongoDB
-- driver, whose calls are a parameter.
pub mod Shell
mod Tests
use ta2mongo.Prelude.{
  ℕ, String, Bool, true, false, ◌&&◌, ◌||◌, Option, none, some, List, [], ◌∷◌, Result, ok, err,
  ◌==◌, if◌then◌else◌,
}
use ta2mongo.Prelude.Int.{ℤ, pos, ltb_ℤ}
use ta2mongo.Value.{Value, Fields, end, is_empty}

-- A map, an array or a document that is nil is none; a sort order keeps its keys in order.
pub record Request : Type 0 where
  pub action : String
  pub database : String
  pub collection : String
  pub filter : Option Fields
  pub projection : Option Fields
  pub sort : Fields
  pub limit : ℤ
  pub skip : ℤ
  pub document : Option Fields
  pub update : Option Fields
  pub pipeline : Option (List Value)
  pub upsert : Bool

-- A field that is left out is none.
pub record Response : Type 0 where
  pub document : Option Fields
  pub documents : Option (List Fields)
  pub inserted_id : Option Value
  pub matched_count : Option ℤ
  pub modified_count : Option ℤ
  pub upserted_id : Option Value
  pub deleted_count : Option ℤ

abbrev pub empty_response : Response
empty_response = record {
  document = none;
  documents = none;
  inserted_id = none;
  matched_count = none;
  modified_count = none;
  upserted_id = none;
  deleted_count = none;
}

-- The options that are set; FindOne has no limit.
pub record Options : Type 0 where
  pub projection : Option Fields
  pub sort : Option Fields
  pub limit : Option ℤ
  pub skip : Option ℤ

pub record Updated : Type 0 where
  pub matched : ℤ
  pub modified : ℤ
  pub upserted : Option Value

-- The database and the collection that a call is made on.
pub record Target : Type 0 where
  pub database : String
  pub collection : String

-- The driver over a server's state; a cursor is read to its end by `all`.
pub record Driver (E Cursor W : Type 0) : Type 0 where
  pub find_one : Target → Fields → Options → W → Result E Fields × W
  pub find : Target → Fields → Options → W → Result E Cursor × W
  pub insert_one : Target → Fields → W → Result E Value × W
  pub update_one : Target → Fields → Fields → Bool → W → Result E Updated × W
  pub delete_one : Target → Fields → W → Result E ℤ × W
  pub aggregate : Target → List Value → W → Result E Cursor × W
  pub all : Cursor → W → Result E (List Fields) × W
  pub is_no_documents : E → Bool

-- The resource: its client, and its default database's name, if it has them.
pub record Resource : Type 0 where
  pub has_client : Bool
  pub db_name : Option String

pub data EjsonError (E : Type 0) : Type 0 where
  nil_request : EjsonError E
  action_required : EjsonError E
  unknown_action : String → EjsonError E
  collection_required : EjsonError E
  database_required : EjsonError E
  no_connection : EjsonError E
  document_required : EjsonError E
  update_required : EjsonError E
  from_driver : E → EjsonError E

unfoldable pub is_action : String → Bool
is_action a =
    a == "findOne"
    || (a == "find"
        || (a == "insertOne" || (a == "updateOne" || (a == "deleteOne" || a == "aggregate"))))

abbrev pub filter_or_empty : Option Fields → Fields
filter_or_empty none = end
filter_or_empty (some f) = f

abbrev pub sort_option : Fields → Option Fields
sort_option s = if is_empty s then none else some s

abbrev pub positive : ℤ → Option ℤ
positive n = if ltb_ℤ (pos 0) n then some n else none

-- dbName
abbrev pub name_or_empty : Option String → String
name_or_empty none = ""
name_or_empty (some name) = name

abbrev pub resource_name : Option Resource → String
resource_name none = ""
resource_name (some r) = name_or_empty r.db_name

unfoldable pub database_name : Option Resource → Request → String
database_name res req = if req.database == "" then resource_name res else req.database

abbrev pub is_connected : Option Resource → Bool
is_connected none = false
is_connected (some r) = r.has_client

-- The checks of `Execute` before any call: the target, or the error.
unfoldable pub check :
    {E : Type 0} → Option Resource → Option Request → Result (EjsonError E) (Request × Target)
unfolding is_action database_name
check res none = err nil_request
check res (some req) =
    let db = database_name res req in
    if req.action == ""
    then err action_required
    else if is_action req.action
    then (if req.collection == ""
        then err collection_required
        else if db == ""
        then err database_required
        else if is_connected res
        then ok (req, record { database = db; collection = req.collection })
        else err no_connection)
    else err (unknown_action req.action)

module _ {E Cursor W : Type 0} (driver : Driver E Cursor W) where
  abbrev pub Outcome : Type 0
  Outcome = Result (EjsonError E) Response × W

  abbrev pub found_one : Result E Fields × W → Outcome
  found_one (ok doc, w) = (ok (record empty_response { document = some doc }), w)
  found_one (err e, w) =
      (if driver.is_no_documents e then ok empty_response else err (from_driver e), w)

  unfoldable pub find_one : Target → Request → W → Outcome
  find_one target req w = found_one (
      driver.find_one target (filter_or_empty req.filter)
        (record {
          projection = req.projection;
          sort = sort_option req.sort;
          limit = none;
          skip = positive req.skip;
        })
        w)

  abbrev pub drained : Result E (List Fields) × W → Outcome
  drained (ok docs, w) = (ok (record empty_response { documents = some docs }), w)
  drained (err e, w) = (err (from_driver e), w)

  abbrev pub drain : Result E Cursor × W → Outcome
  drain (ok cursor, w) = drained (driver.all cursor w)
  drain (err e, w) = (err (from_driver e), w)

  unfoldable pub find : Target → Request → W → Outcome
  find target req w = drain (
      driver.find target (filter_or_empty req.filter)
        (record {
          projection = req.projection;
          sort = sort_option req.sort;
          limit = positive req.limit;
          skip = positive req.skip;
        })
        w)

  abbrev pub inserted : Result E Value × W → Outcome
  inserted (ok id, w) = (ok (record empty_response { inserted_id = some id }), w)
  inserted (err e, w) = (err (from_driver e), w)

  unfoldable pub insert_one : Target → Request → W → Outcome
  insert_one target req w = elim req.document [
    | none ↦ (err document_required, w)
    | some doc ↦ inserted (driver.insert_one target doc w)
  ]

  abbrev pub updated : Result E Updated × W → Outcome
  updated (ok u, w) = (
    ok (record empty_response {
      matched_count = some u.matched;
      modified_count = some u.modified;
      upserted_id = u.upserted;
    }),
    w,
  )
  updated (err e, w) = (err (from_driver e), w)

  unfoldable pub update_one : Target → Request → W → Outcome
  update_one target req w = elim req.update [
    | none ↦ (err update_required, w)
    | some update ↦
        updated (driver.update_one target (filter_or_empty req.filter) update req.upsert w)
  ]

  abbrev pub deleted : Result E ℤ × W → Outcome
  deleted (ok n, w) = (ok (record empty_response { deleted_count = some n }), w)
  deleted (err e, w) = (err (from_driver e), w)

  unfoldable pub delete_one : Target → Request → W → Outcome
  delete_one target req w = deleted (driver.delete_one target (filter_or_empty req.filter) w)

  abbrev pub pipeline_or_empty : Option (List Value) → List Value
  pipeline_or_empty none = []
  pipeline_or_empty (some stages) = stages

  unfoldable pub aggregate : Target → Request → W → Outcome
  aggregate target req w = drain (driver.aggregate target (pipeline_or_empty req.pipeline) w)

  -- The second switch.
  unfoldable pub perform : Request → Target → W → Outcome
  unfolding find_one find insert_one update_one delete_one aggregate
  perform req target w =
      if req.action == "findOne"
      then find_one target req w
      else if req.action == "find"
      then find target req w
      else if req.action == "insertOne"
      then insert_one target req w
      else if req.action == "updateOne"
      then update_one target req w
      else if req.action == "deleteOne"
      then delete_one target req w
      else aggregate target req w

  abbrev pub if_checked : Result (EjsonError E) (Request × Target) → W → Outcome
  if_checked (err e) w = (err e, w)
  if_checked (ok (req, target)) w = perform req target w

  unfoldable pub execute : Option Resource → Option Request → W → Outcome
  unfolding check perform
  execute res req w = if_checked (check res req) w
