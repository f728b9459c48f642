-- ===== src/Talog/Flatten.antt =====
-- What `flattenPayload` puts at the root of a document.
use ta2mongo.Prelude.{String, ◌≡◌, Option, none, arith, or_else, ◌==◌, if◌then◌else◌}
use ta2mongo.Value.{Value, Fields, end, object, get, get_or_null, put_all, IsMap}
use ta2mongo.Value.Laws.{get-put_all, get-delete}
use ta2mongo.Talog.{promote, flatten_payload}

-- The value that a flattened document holds, given the field `properties` of the payload.
abbrev pub flat_get : Value → String → Fields → Option Value
flat_get (object props) j payload =
    if "properties" == j then none else or_else (get j props) (get j payload)
flat_get v j payload = get j payload

abbrev pub IsMapValue : Value → Type 0
IsMapValue (object props) = IsMap props
IsMapValue v = Unit

-- Every field of a payload is looked up at the root, a field of `properties` first; `properties`
-- itself is gone exactly when it was an object.
pub get-flatten_payload :
    (payload : Fields) (j : String)
    → IsMap payload
    → IsMapValue (get_or_null "properties" payload)
    → get j (flatten_payload payload) ≡ flat_get (get_or_null "properties" payload) j payload
unfolding flatten_payload
get-flatten_payload payload j h k = go (get_or_null "properties" payload) k
  where
    copied : get j (put_all end payload) ≡ get j payload
    copied = unfold get in ground (arith, get-put_all j end payload h)

    go : (v : Value) → IsMapValue v → get j (promote v (put_all end payload)) ≡ flat_get v j payload
    go (object props) k = ground (
      arith,
      copied,
      get-delete "properties" j (put_all (put_all end payload) props),
      get-put_all j (put_all end payload) props k,
    )
    go v k = copied
