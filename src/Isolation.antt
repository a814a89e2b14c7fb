-- ===== src/Isolation.antt =====
-- lib/isolation.h, as it is compiled with the two levels that are stronger than snapshot isolation: the
-- read set of a transaction and its validation. A pointer is a word in the read set: `addr` is the
-- address of an object, and `obj_at` the object at an address.
pub mod Validate
use timestone.Base.{
  ℕ, zero, suc, ◌+◌, Bool, true, false, not, ◌&&◌, Option, none, some, List, [], ◌∷◌, ltb, ◌==◌,
  if◌then◌else◌, get_elem?,
}
use timestone.PtrSet.{
  PtrSet, Alloc, cells_of, ptrset_init, ptrset_deinit, ptrset_reset, ptrset_push,
}
use timestone.Memory.{Memory, Obj, get_act_vhdr}
use timestone.Ckptlog.{ptr_of}

-- the levels of include/timestone.h, and the one of a thread without a transaction
pub data Level : Type 0 where
  invalid snapshot serializability linearizability : Level

-- ts_isolation_info_t
pub record Isolation : Type 0 where
  pub level : Level
  pub stale_read_occured : Bool
  pub read_set : PtrSet

unfoldable pub isolation_reset : Isolation → Level → Isolation
unfolding ptrset_reset
isolation_reset isolation level = record {
  level = level;
  stale_read_occured = false;
  read_set = ptrset_reset isolation.read_set;
}

unfoldable pub isolation_init : Alloc → Isolation → Isolation × ℕ
unfolding ptrset_init isolation_reset
isolation_init alloc isolation =
    let (s, rc) = ptrset_init alloc isolation.read_set in
    (isolation_reset (record isolation { read_set = s }) invalid, rc)

unfoldable pub isolation_deinit : Isolation → Isolation
unfolding ptrset_deinit isolation_reset
isolation_deinit isolation =
    let i = isolation_reset isolation invalid in record i { read_set = ptrset_deinit i.read_set }

abbrev pub is_linearizable : Level → Bool
is_linearizable linearizability = true
is_linearizable _ = false

abbrev pub stale_read_occurred : Isolation → Bool
stale_read_occurred isolation = isolation.stale_read_occured && is_linearizable isolation.level

-- the three words of a read
abbrev pub push_read : Alloc → Isolation → ℕ → ℕ → ℕ → Isolation
push_read alloc isolation v latest p_copy =
    let s1 = (ptrset_push alloc isolation.read_set v).0 in
    let s2 = (ptrset_push alloc s1 latest).0 in
    record isolation { read_set = (ptrset_push alloc s2 p_copy).0 }

unfoldable pub read_set_add : Alloc → Isolation → ℕ → ℕ → ℕ → Isolation
read_set_add alloc isolation v latest p_copy = elim isolation.level [
  | linearizability ↦
      if not (stale_read_occurred isolation) && not (latest == 0) && not (latest == p_copy)
      then record isolation { stale_read_occured = true }
      else push_read alloc isolation v latest p_copy
  | serializability ↦ push_read alloc isolation v latest p_copy
  | _ ↦ isolation
]

-- No newer version was added to the object of a read.
unfoldable pub is_latest : (ℕ → Obj) → Memory → ℕ → ℕ → ℕ → Bool
unfolding get_act_vhdr
is_latest obj_at m zero latest p_copy = elim (get_act_vhdr m (obj_at p_copy)) [
  | none ↦ true
  | some w ↦ ptr_of (m.vhdr w).p_copy == 0
]
is_latest obj_at m (suc v) latest p_copy = ptr_of (m.vhdr (suc v)).p_copy == latest

-- three words of the array from index `i` on
abbrev pub fetch : List ℕ → ℕ → Option (ℕ × ℕ × ℕ)
fetch cells i = elim (get_elem? cells i) [
  | none ↦ none
  | some v ↦ elim (get_elem? cells (i + 1)) [
    | none ↦ none
    | some latest ↦ elim (get_elem? cells (i + 1 + 1)) [
      | none ↦ none
      | some p_copy ↦ some (v, latest, p_copy)
    ]
  ]
]

-- The loop of `validate_read_set`, on fuel. `none` is a loop that would go on, or a read outside the array.
unfoldable pub validate_from : ℕ → (ℕ → Obj) → Memory → List ℕ → ℕ → ℕ → Option Bool
unfolding is_latest
validate_from zero obj_at m cells num i = none
validate_from (suc fuel) obj_at m cells num i = elim (ltb i num) [
  | false ↦ some true
  | true ↦ elim (fetch cells i) [
    | none ↦ none
    | some (v, latest, p_copy) ↦ elim (is_latest obj_at m v latest p_copy) [
      | false ↦ some false
      | true ↦ validate_from fuel obj_at m cells num (i + 1 + 1 + 1)
    ]
  ]
]

-- The level of no transaction is not expected, and fails.
unfoldable pub validate_read_set : ℕ → (ℕ → Obj) → Memory → Isolation → Option Bool
unfolding validate_from
validate_read_set fuel obj_at m isolation =
    let all =
      validate_from fuel obj_at m (cells_of isolation.read_set) isolation.read_set.num_ptrs 0 in
    elim isolation.level [
      | linearizability ↦ if stale_read_occurred isolation then some false else all
      | serializability ↦ all
      | snapshot ↦ some true
      | invalid ↦ some false
    ]
