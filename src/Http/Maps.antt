-- ===== src/Http/Maps.antt =====
-- Association lists: what a lookup finds after a store.
use goichi.Http
use goichi.Prelude.{suc, ◌≤◌, length, ◌≡◌, refl, List, [], ◌∷◌, none, some, if◌then◌else◌, arith}
use goichi.Prelude.Text.{Bytes, bytes_eq, bytes_eq_iff}
use goichi.Http.{lookup, insert, erase}

pub lookup-insert :
    {V : Type 0} (k j : Bytes) (v : V) (m : List (Bytes × V))
    → lookup j (insert k v m) ≡ (if bytes_eq k j then some v else lookup j m)
unfolding lookup insert
lookup-insert k j v [] = refl
lookup-insert k j v ((i, w) ∷ m) =
    ground (arith, bytes_eq_iff k j, bytes_eq_iff i k, bytes_eq_iff i j, lookup-insert k j v m)

pub lookup-erase :
    {V : Type 0} (k j : Bytes) (m : List (Bytes × V))
    → lookup j (erase k m) ≡ (if bytes_eq k j then none else lookup j m)
unfolding lookup erase
lookup-erase k j [] = ground arith
lookup-erase k j ((i, w) ∷ m) =
    ground (arith, bytes_eq_iff k j, bytes_eq_iff i k, bytes_eq_iff i j, lookup-erase k j m)

pub length-insert :
    {V : Type 0} (k : Bytes) (v : V) (m : List (Bytes × V))
    → length (Http.insert k v m) ≤ suc (length m)
unfolding Http.insert
length-insert k v [] = omega arith
length-insert k v ((j, w) ∷ m) = ground (arith, length-insert k v m)

pub length-erase : {V : Type 0} (k : Bytes) (m : List (Bytes × V)) → length (erase k m) ≤ length m
unfolding erase
length-erase k [] = omega arith
length-erase k ((j, w) ∷ m) = ground (arith, length-erase k m)
