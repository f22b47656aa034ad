-- ===== src/Vector/Tests.antt =====
-- Examples for src/common/vector.h: two pointers in a vector that has room for three or is full.
use zeroserv.Prelude.{◌≡◌, refl, [], ◌∷◌, arith, ok, elem, ltb, fault, out_of_bounds}
use zeroserv.Vector.{Vector, vector_insert, Memory, vector_grow, grown, new_capacity, vector_remove}
use zeroserv.Vector.Grow.{IsValid, contents, vector_insert-append}
use zeroserv.Vector.Search.{Removed, vector_remove-Removed, vector_remove_full}

abbrev roomy : Vector
roomy = record { words = 7 ∷ 9 ∷ 5 ∷ []; growth_num = 2; growth_den = 1; size = 2; capacity = 3 }

abbrev full : Vector
full = record { words = 7 ∷ 9 ∷ []; growth_num = 5; growth_den = 4; size = 2; capacity = 2 }

roomy-IsValid : IsValid roomy
roomy-IsValid = omega arith

full-IsValid : IsValid full
full-IsValid = omega arith

abbrev mem : Memory
mem = record { gives = λ n. ltb n 1000; junk = λ i. 0 }

insert_grows :
    vector_insert mem full 8
    ≡ ok (record { words = 7 ∷ 9 ∷ 8 ∷ []; growth_num = 5; growth_den = 4; size = 3; capacity = 3 })
unfolding vector_insert vector_grow grown new_capacity
insert_grows = refl

vector_insert-append_example :
    (w : Vector) × (vector_insert mem full 8 ≡ ok w)
    × IsValid w
    × (w.size ≡ 3)
    × (w.capacity ≡ 3)
    × (contents w ≡ 7 ∷ 9 ∷ 8 ∷ [])
unfolding new_capacity
vector_insert-append_example = vector_insert-append mem 8 full-IsValid refl

vector_remove-Removed_example :
    (w : Vector) × (vector_remove roomy 7 ≡ ok (0, w)) × Removed roomy 7 w
unfolding elem
vector_remove-Removed_example = vector_remove-Removed 7 roomy-IsValid (omega arith)

vector_remove_full_example : vector_remove full 9 ≡ fault out_of_bounds
unfolding elem
vector_remove_full_example = vector_remove_full 9 full-IsValid refl refl
