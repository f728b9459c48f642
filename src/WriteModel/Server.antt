-- ===== src/WriteModel/Server.antt =====
-- A server that does what MongoDB documents of a guarded $set, and what such writes leave.
use ta2mongo.Prelude.{String, ◌≡◌, ◌⊎◌, inl, inr, true, false, Option, none, some, arith, or_else}
use ta2mongo.Prelude.Int.{ℤ, ◌≤ℤ◌, ◌<ℤ◌}
use ta2mongo.Value.{Value, Fields, end, field, bool, int64, bson_map, bson_array, item, nil, get}
use ta2mongo.WriteModel.{Model, update_one, one}

-- MongoDB's answer to a write, seen at the one document that a unique key can have: the document
-- before and after it. A guarded upsert that does not match fails to insert (E11000), which the
-- store takes for a skip.
pub record Server : Type 0 where
  pub write : Model → Option Fields → Option Fields
  pub overlay : Fields → Fields → Fields
  pub inserted : String → Value → Fields → Fields

-- {key: id, $or: [{_ts: {$exists: false}}, {_ts: {$lte: ts}}]}: no date, or one up to `ts`.
abbrev pub dated_filter : String → Value → Value → Fields
dated_filter key id ts = field key id (
    field "$or"
      (bson_array (
        item (bson_map (field "_ts" (bson_map (field "$exists" (bool false) end)) end))
          (item (bson_map (field "_ts" (bson_map (field "$lte" ts end)) end)) nil)))
      end)

abbrev pub set_model : String → Value → Value → Fields → Model
set_model key id ts fields = update_one (dated_filter key id ts) (one "$set" (bson_map fields)) true

-- The documented behaviour of $set, $exists, $lte, $or and upsert on which the models rely.
pub record Documented (s : Server) (key : String) : Type 0 where
  pub get-overlay :
      (k : String) (fields d : Fields)
      → get k (s.overlay fields d) ≡ or_else (get k fields) (get k d)
  pub get-inserted :
      (k : String) (id : Value) (fields : Fields)
      → get k (s.inserted key id fields) ≡ or_else (get k fields) (get k (one key id))
  pub upserts :
      (id : Value) (ts : ℤ) (fields : Fields)
      → s.write (set_model key id (int64 ts) fields) none ≡ some (s.inserted key id fields)
  pub matches_undated :
      (id : Value) (ts : ℤ) (fields d : Fields)
      → get "_ts" d ≡ none
      → s.write (set_model key id (int64 ts) fields) (some d) ≡ some (s.overlay fields d)
  pub matches :
      (id : Value) (ts t : ℤ) (fields d : Fields)
      → get "_ts" d ≡ some (int64 t)
      → t ≤ℤ ts
      → s.write (set_model key id (int64 ts) fields) (some d) ≡ some (s.overlay fields d)
  pub skips :
      (id : Value) (ts t : ℤ) (fields d : Fields)
      → get "_ts" d ≡ some (int64 t)
      → ts <ℤ t
      → s.write (set_model key id (int64 ts) fields) (some d) ≡ some d

-- The stored document is dated before `ts`, or there is none.
abbrev pub IsOlder : ℤ → Option Fields → Type 0
IsOlder ts none = Unit
IsOlder ts (some d) = (get "_ts" d ≡ none) ⊎ ((t : ℤ) × (get "_ts" d ≡ some (int64 t)) × (t <ℤ ts))

-- The stored document is dated `ts` and has each of the fields.
abbrev pub Holds : ℤ → Fields → Option Fields → Type 0
Holds ts fields state =
    (d : Fields) × (state ≡ some d)
    × (get "_ts" d ≡ some (int64 ts))
    × ((k : String) (v : Value) → get k fields ≡ some v → get k d ≡ some v)

abbrev pub Dated : ℤ → Fields → Type 0
Dated ts fields = get "_ts" fields ≡ some (int64 ts)

pub le_or_lt : (a b : ℤ) → (a ≤ℤ b) ⊎ (b <ℤ a)
le_or_lt a b = omega arith

module _ (s : Server) (key : String) (law : Documented s key) (id : Value) where
  abbrev pub write_set : Option Fields → ℤ → Fields → Option Fields
  write_set state ts fields = s.write (set_model key id (int64 ts) fields) state

  pub IsOlder-write_set :
      (n ts : ℤ) (fields : Fields) (state : Option Fields)
      → Dated ts fields
      → ts <ℤ n
      → IsOlder n state
      → IsOlder n (write_set state ts fields)
  IsOlder-write_set n ts fields none dated lt old =
      rw (law.upserts id ts fields) (inr (ts, rw law.get-inserted (rw dated), lt))
  IsOlder-write_set n ts fields (some d) dated lt (inl undated) =
      rw (law.matches_undated id ts fields d undated) (inr (ts, rw law.get-overlay (rw dated), lt))
  IsOlder-write_set n ts fields (some d) dated lt (inr (t, at, older)) = elim (le_or_lt t ts) [
    | inl le ↦ rw (law.matches id ts t fields d at le) (inr (ts, rw law.get-overlay (rw dated), lt))
    | inr gt ↦ rw (law.skips id ts t fields d at gt) (inr (t, at, older))
  ]

  pub Holds-write_newest :
      (ts : ℤ) (fields : Fields) (state : Option Fields)
      → Dated ts fields
      → IsOlder ts state
      → Holds ts fields (write_set state ts fields)
  Holds-write_newest ts fields none dated old = (
    s.inserted key id fields,
    law.upserts id ts fields,
    rw law.get-inserted (rw dated),
    λ k v h. rw law.get-inserted (rw h),
  )
  Holds-write_newest ts fields (some d) dated (inl undated) = (
    s.overlay fields d,
    law.matches_undated id ts fields d undated,
    rw law.get-overlay (rw dated),
    λ k v h. rw law.get-overlay (rw h),
  )
  Holds-write_newest ts fields (some d) dated (inr (t, at, older)) = (
    s.overlay fields d,
    law.matches id ts t fields d at (omega arith),
    rw law.get-overlay (rw dated),
    λ k v h. rw law.get-overlay (rw h),
  )

  pub Holds-write_older :
      (n ts : ℤ) (newest fields : Fields) (state : Option Fields)
      → ts <ℤ n
      → Holds n newest state
      → Holds n newest (write_set state ts fields)
  Holds-write_older n ts newest fields state lt (d, same, dated, kept) =
      (d, rw same (law.skips id ts n fields d dated lt), dated, kept)
