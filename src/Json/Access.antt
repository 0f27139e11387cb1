-- ===== src/Json/Access.antt =====
-- Reading a field after writing one.
use minireplayer.Prelude.{String, ◌≡◌, true, arith, if◌then◌else◌, ◌==◌, string_eq}
use minireplayer.Json.{Value, Fields, end, field, get, has, put}

pub get-put :
    (j k : String) (v : Value) (d : Fields) → get j (put k v d) ≡ (if j == k then v else get j d)
unfolding get put
get-put j k v end = ground arith
get-put j k v (field i w d) =
    ground
      (arith, string_eq.beq_iff k i, string_eq.beq_iff j i, string_eq.beq_iff j k, get-put j k v d)

pub has-put :
    (j k : String) (v : Value) (d : Fields) → has j (put k v d) ≡ (if j == k then true else has j d)
unfolding has put
has-put j k v end = ground arith
has-put j k v (field i w d) =
    ground
      (arith, string_eq.beq_iff k i, string_eq.beq_iff j i, string_eq.beq_iff j k, has-put j k v d)
