-- ===== src/PtrSet.antt =====
-- The pointer sets of lib/util.h: a growing array of pointers.
-- `ptrs` is the allocated array, as long as `num_max_ptrs`; what an allocation puts into fresh cells
-- is a parameter, since malloc and realloc leave it open, and so is whether an allocation succeeds.
-- A pointer is a number, 0 for NULL.
pub mod Push
pub mod Pop
use timestone.Base.{
  ℕ, zero, suc, ◌+◌, ◌-◌, ◌*◌, ◌≤◌, ◌<◌, ◌≡◌, Bool, true, false, Option, none, some, List, [], ◌∷◌,
  ◌++◌, length, set, get_elem?, take, ltb, leb, ◌==◌, if◌then◌else◌, add_u32, sub_u32,
}
use timestone.Config.{init_ptr_set_size}

-- ts_ptr_set_t; no array is NULL
pub record PtrSet : Type 0 where
  pub num_ptrs : ℕ
  pub num_max_ptrs : ℕ
  pub ptrs : Option (List ℕ)

-- What port_alloc and port_realloc do: `none` for NULL, or the cells behind the old ones.
abbrev pub Alloc : Type 0
Alloc = ℕ → Option (List ℕ)

abbrev pub enomem : ℕ
enomem = 12

unfoldable pub ptrset_init : Alloc → PtrSet → PtrSet × ℕ
ptrset_init alloc s = elim (alloc init_ptr_set_size) [
  | none ↦ (record { num_ptrs = 0; num_max_ptrs = init_ptr_set_size; ptrs = none }, enomem)
  | some cells ↦ (record { num_ptrs = 0; num_max_ptrs = init_ptr_set_size; ptrs = some cells }, 0)
]

unfoldable pub ptrset_deinit : PtrSet → PtrSet
ptrset_deinit s = record s { ptrs = none }

abbrev pub cells_of : PtrSet → List ℕ
cells_of s = elim (s.ptrs) [ none ↦ [] | some cells ↦ cells ]

-- A failed realloc leaves the array and the count.
unfoldable pub ptrset_expand : Alloc → PtrSet → PtrSet × ℕ
ptrset_expand alloc s = elim (alloc init_ptr_set_size) [
  | none ↦ (s, enomem)
  | some fresh ↦ (
    record s {
      num_max_ptrs = add_u32 s.num_max_ptrs init_ptr_set_size;
      ptrs = some (cells_of s ++ fresh);
    },
    0,
  )
]

-- `for (i = 0; i < num_ptrs; ++i) if (ptrs[i] == p_act) return 1;`
unfoldable pub member_from : List ℕ → ℕ → ℕ → Bool
member_from [] num p = false
member_from (x ∷ xs) zero p = false
member_from (x ∷ xs) (suc num) p = let rest = member_from xs num p in if x == p then true else rest

unfoldable pub ptrset_is_member : PtrSet → ℕ → Bool
unfolding member_from
ptrset_is_member s p = member_from (cells_of s) s.num_ptrs p

unfoldable pub ptrset_reset : PtrSet → PtrSet
ptrset_reset s = record s { num_ptrs = 0 }

-- `ptrs[num_ptrs++] = p`
unfoldable pub put_ptr : PtrSet → ℕ → PtrSet
put_ptr s p = record s {
  num_ptrs = add_u32 s.num_ptrs 1;
  ptrs = some (set (cells_of s) s.num_ptrs p);
}

unfoldable pub ptrset_push : Alloc → PtrSet → ℕ → PtrSet × ℕ
unfolding put_ptr ptrset_expand
ptrset_push alloc s p =
    if leb s.num_max_ptrs s.num_ptrs
    then (let (s', ret) = ptrset_expand alloc s in
        if ret == 0 then (put_ptr s' p, 0) else (s', ret))
    else (put_ptr s p, 0)

-- `return ptrs[num_ptrs--]`; the inner `none` is a read outside the array. The result of an empty
-- set is NULL.
unfoldable pub ptrset_pop : PtrSet → PtrSet × Option ℕ
ptrset_pop s =
    if ltb 0 s.num_ptrs
    then (record s { num_ptrs = sub_u32 s.num_ptrs 1 }, get_elem? (cells_of s) s.num_ptrs)
    else (s, some 0)
