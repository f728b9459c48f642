-- ===== src/Value/Laws.antt =====
-- What a lookup gives after each operation on a map.
use ta2mongo.Prelude.{String, ◌≡◌, refl, none, some, arith, or_else, ◌==◌, eq_iff, if◌then◌else◌}
use ta2mongo.Value.{Value, Fields, end, field, get, put, delete, put_all, IsMap}

pub get-put :
    (k j : String) (v : Value) (m : Fields)
    → get j (put k v m) ≡ (if k == j then some v else get j m)
unfolding get put
get-put k j v end = refl
get-put k j v (field i w m) = ground (arith, get-put k j v m, eq_iff k j, eq_iff i k, eq_iff i j)

pub get-delete :
    (k j : String) (m : Fields) → get j (delete k m) ≡ (if k == j then none else get j m)
unfolding get delete
get-delete k j end = ground arith
get-delete k j (field i w m) = ground (arith, get-delete k j m, eq_iff k j, eq_iff i k, eq_iff i j)

-- Copying a map over another: the copied entries win.
pub get-put_all :
    (j : String) (dst src : Fields)
    → IsMap src
    → get j (put_all dst src) ≡ or_else (get j src) (get j dst)
unfolding get put_all
get-put_all j dst end h = refl
get-put_all j dst (field k v src) h =
    ground (arith, get-put_all j (put k v dst) src h.1, get-put k j v dst, eq_iff k j, h.0)

pub ruleset map_laws = (get-put, get-delete)

pub put-IsMap : (k : String) (v : Value) (m : Fields) → IsMap m → IsMap (put k v m)
unfolding get put
put-IsMap k v end h = (refl, tt)
put-IsMap k v (field j w m) h =
    ground (arith, put-IsMap k v m h.1, get-put k j v m, eq_iff k j, eq_iff j k)

pub put_all-IsMap : (dst src : Fields) → IsMap dst → IsMap (put_all dst src)
unfolding put_all
put_all-IsMap dst end h = h
put_all-IsMap dst (field k v src) h = put_all-IsMap (put k v dst) src (put-IsMap k v dst h)

pub delete-IsMap : (k : String) (m : Fields) → IsMap m → IsMap (delete k m)
unfolding delete
delete-IsMap k end h = tt
delete-IsMap k (field j w m) h = ground (arith, delete-IsMap k m h.1, get-delete k j m, eq_iff k j)
