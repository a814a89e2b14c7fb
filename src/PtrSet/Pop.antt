-- ===== src/PtrSet/Pop.antt =====
-- ptrset_pop reads the cell behind the last pointer.
use timestone.Base.{
  ℕ, suc, zero, ◌+◌, ◌^◌, ◌<◌, ◌≡◌, refl, ap, none, List, [], ◌∷◌, get_elem?, length, set, arith,
}
use timestone.PtrSet.{PtrSet, cells_of, ptrset_push, ptrset_pop, Alloc}
use timestone.PtrSet.Push.{IsValid}

get_elem?-set_next : (xs : List ℕ) (n v : ℕ) → get_elem? (set xs n v) (suc n) ≡ get_elem? xs (suc n)
get_elem?-set_next [] n v = refl
get_elem?-set_next (x ∷ xs) zero v = refl
get_elem?-set_next (x ∷ xs) (suc n) v = get_elem?-set_next xs n v

get_elem?-end : (xs : List ℕ) → get_elem? xs (length xs) ≡ none
get_elem?-end [] = refl
get_elem?-end (x ∷ xs) = get_elem?-end xs

-- What a pop returns right after a push into an array with room does not depend on the pointer that
-- was pushed: it is what the cell behind that pointer held before the push.
pub ptrset_pop-ptrset_push :
    (alloc : Alloc) (s : PtrSet) (p : ℕ)
    → IsValid s
    → s.num_ptrs < s.num_max_ptrs
    → s.num_max_ptrs < 2 ^ 32
    → (ptrset_pop (ptrset_push alloc s p).0).1 ≡ get_elem? (cells_of s) (s.num_ptrs + 1)
unfolding ptrset_pop ptrset_push
ptrset_pop-ptrset_push alloc s p v room word =
    ground (arith, get_elem?-set_next (cells_of s) s.num_ptrs p, index)
  where
    index : get_elem? (cells_of s) (s.num_ptrs + 1) ≡ get_elem? (cells_of s) (suc s.num_ptrs)
    index = ap (get_elem? (cells_of s)) (omega arith)

-- A pop from a set whose array is full reads outside the array.
pub ptrset_pop_outside :
    (s : PtrSet)
    → IsValid s
    → 0 < s.num_ptrs
    → s.num_ptrs ≡ s.num_max_ptrs
    → (ptrset_pop s).1 ≡ none
unfolding ptrset_pop
ptrset_pop_outside s v pos full =
    ground (arith, get_elem?-end (cells_of s), v, ap (get_elem? (cells_of s)) at_end)
  where
    at_end : s.num_ptrs ≡ length (cells_of s)
    at_end = omega (arith, v)
