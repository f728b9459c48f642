-- ===== src/Value.antt =====
-- The values that Go code holds in an `any` here: what encoding/json and the BSON driver decode,
-- and what the write models are built of. A Go map is the list of its entries in some order of
-- iteration; `IsMap` says that no key stands twice.
pub mod Laws
use ta2mongo.Prelude.{
  ℕ, String, ◌≡◌, Bool, true, false, Option, none, some, List, is_some, ◌==◌, if◌then◌else◌,
}
use ta2mongo.Prelude.Int.{ℤ}

mutual
  pub data Value : Type 0 where
    null : Value
    bool : Bool → Value
    int int32 int64 : ℤ → Value
    -- the bits of the float
    float64 : ℕ → Value
    str : String → Value
    -- []string
    strings : List String → Value
    -- []any and bson.A, which a type switch tells apart
    array bson_array : Items → Value
    -- map[string]any, bson.M and bson.D
    object bson_map bson_doc : Fields → Value

  pub data Items : Type 0 where
    nil : Items
    item : Value → Items → Items

  pub data Fields : Type 0 where
    end : Fields
    field : String → Value → Fields → Fields

-- v, ok := m[k]
unfoldable pub get : String → Fields → Option Value
get k end = none
get k (field j v m) = if j == k then some v else get k m

unfoldable pub has : String → Fields → Bool
unfolding get
has k m = is_some (get k m)

-- m[k], with nil for a missing key
unfoldable pub get_or_null : String → Fields → Value
unfolding get
get_or_null k m = elim (get k m) [ none ↦ null | some v ↦ v ]

-- m[k] = v
unfoldable pub put : String → Value → Fields → Fields
put k v end = field k v end
put k v (field j w m) = if j == k then field j v m else field j w (put k v m)

-- delete(m, k)
unfoldable pub delete : String → Fields → Fields
delete k end = end
delete k (field j w m) = let rest = delete k m in if j == k then rest else field j w rest

-- for k, v := range src { dst[k] = v }
unfoldable pub put_all : Fields → Fields → Fields
unfolding put
put_all dst end = dst
put_all dst (field k v src) = put_all (put k v dst) src

unfoldable pub is_empty : Fields → Bool
is_empty end = true
is_empty (field k v m) = false

abbrev pub IsMap : Fields → Type 0
IsMap end = Unit
IsMap (field k v m) = (get k m ≡ none) × IsMap m
