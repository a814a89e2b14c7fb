-- ===== src/Tests/Pointers.antt =====
-- A pointer set of two cells.
use timestone.Base.{
  ℕ, zero, suc, ◌+◌, ◌≡◌, refl, ap, some, [], ◌∷◌, arith, get_elem?, length, replicate,
}
use timestone.PtrSet.{PtrSet, Alloc, cells_of, ptrset_push, ptrset_pop}
use timestone.PtrSet.Push.{IsValid}
use timestone.PtrSet.Pop.{ptrset_pop-ptrset_push}

abbrev zeroed : Alloc
zeroed n = some (replicate n 0)

length-replicate : (n : ℕ) → length {A = ℕ} (replicate n 0) ≡ n
length-replicate zero = refl
length-replicate (suc n) = ap suc (length-replicate n)

abbrev one_pointer : PtrSet
one_pointer = record { num_ptrs = 1; num_max_ptrs = 2; ptrs = some (11 ∷ 0 ∷ []) }

one_pointer-IsValid : IsValid one_pointer
one_pointer-IsValid = record { fits = omega arith; size = refl }

ptrset_pop-ptrset_push_example :
    (ptrset_pop (ptrset_push zeroed one_pointer 33).0).1
    ≡ get_elem? (cells_of one_pointer) (one_pointer.num_ptrs + 1)
ptrset_pop-ptrset_push_example =
    ptrset_pop-ptrset_push zeroed one_pointer 33 one_pointer-IsValid (omega arith) (omega arith)
