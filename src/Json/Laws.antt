-- ===== src/Json/Laws.antt =====
-- Dict lookup after a write, and the truth value of a dict that was written to.
use unith_task.Prelude.{String, true, ◌≡◌, refl, some, arith, str_eq, str_eq_iff, if◌then◌else◌}
use unith_task.Json.{Value, Fields, empty, field, object, get, put, is_truthy}

-- A written key reads back, every other key is as it was.
pub get-put :
    (k j : String) (v : Value) (d : Fields)
    → get j (put k v d) ≡ (if str_eq k j then some v else get j d)
unfolding get put
get-put k j v empty = refl
get-put k j v (field i w d) =
    ground (arith, get-put k j v d, str_eq_iff k j, str_eq_iff i k, str_eq_iff i j)

pub is_truthy-put : (k : String) (v : Value) (d : Fields) → is_truthy (object (put k v d)) ≡ true
unfolding put is_truthy
is_truthy-put k v empty = refl
is_truthy-put k v (field j w d) = ground arith
