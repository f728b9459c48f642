-- ===== src/Cfgsync/Document.antt =====
-- fetch.go, filter.go and registry.go: what is read of a configuration document.
use ta2mongo.Prelude.{
  ℕ, suc, String, Bool, ◌||◌, Option, none, some, List, [], ◌∷◌, Result, ok, err, ◌==◌,
}
use ta2mongo.Prelude.Int.{ℤ}
use ta2mongo.Value.{
  Value, null, int, int32, int64, float64, str, strings, array, bson_array, object, bson_map,
  bson_doc, Items, nil, item, Fields, end, get_or_null, put_all,
}

-- reservedFields
abbrev pub is_reserved : String → Bool
is_reserved key = key == "_id" || key == "version"

abbrev pub subtree_filter : String
subtree_filter = "filter"

-- `docVersion`; `truncate` is Go's conversion of a float64, by its bits, to an int64.
unfoldable pub version_of : (ℕ → ℤ) → Value → Option ℤ
version_of truncate (int64 v) = some v
version_of truncate (int32 v) = some v
version_of truncate (int v) = some v
version_of truncate (float64 v) = some (truncate v)
version_of truncate v = none

unfoldable pub doc_version : (ℕ → ℤ) → Fields → Option ℤ
unfolding get_or_null version_of
doc_version truncate doc = version_of truncate (get_or_null "version" doc)

-- The errors of `toStringSlice`.
pub data SliceError : Type 0 where
  not_a_string : ℕ → Value → SliceError
  not_an_array : Value → SliceError

-- The loop over an array, from index `i`.
unfoldable pub string_items : ℕ → Items → Result SliceError (List String)
string_items i nil = ok []
string_items i (item (str s) items) = elim (string_items (suc i) items) [
  | ok out ↦ ok (s ∷ out)
  | err e ↦ err e
]
string_items i (item v items) = err (not_a_string i v)

unfoldable pub to_string_slice : Value → Result SliceError (List String)
unfolding string_items
to_string_slice null = ok []
to_string_slice (strings a) = ok a
to_string_slice (bson_array a) = string_items 0 a
to_string_slice (array a) = string_items 0 a
to_string_slice v = err (not_an_array v)

-- `asSubDocument`; none for its error.
unfoldable pub as_sub_document : Value → Option Fields
unfolding put_all
as_sub_document (bson_map m) = some m
as_sub_document (bson_doc d) = some (put_all end d)
as_sub_document (object m) = some m
as_sub_document v = none
