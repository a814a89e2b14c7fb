-- ===== src/Objects.antt =====
-- lib/timestone.c: actual objects and arrays of them. An actual object is named by its address; `headers`
-- is the size of ts_act_hdr_struct_t.
pub mod Arrays
use timestone.Base.{
  ltb, u32, ◌%◌, add_u64, sub_u64, ℕ, zero, ◌+◌, ◌-◌, ◌*◌, ◌^◌, Option, none, some, List, [], ◌==◌,
  if◌then◌else◌, update,
}
use mathlib.Core.Option
use timestone.Memory.{Memory, Obj, Act, set_act}

abbrev pub invalid_gen_id : ℕ
invalid_gen_id = 2 ^ 64 - 2

-- `address` is what the allocator gives, 0 for NULL; the bytes of the object are the allocator's.
unfoldable pub ts_alloc : ℕ → Memory → ℕ → Memory × Option ℕ
ts_alloc address m size = if address == 0 then (m, none) else (
  set_act m address (record {
    p_act_vhdr = none;
    gen_id = invalid_gen_id;
    index = 0;
    obj_size = u32 size;
    obj = (m.act address).obj;
  }),
  some address,
)

unfoldable pub ts_update_index : Memory → ℕ → ℕ → Memory
ts_update_index m a index = set_act m a (record (m.act a) { index = index })

unfoldable pub ts_get_index : Memory → ℕ → ℕ
ts_get_index m a = (m.act a).index

-- The actual object that is meant: a copy's is its original master. A pointer into the checkpoint log is
-- not expected here.
abbrev pub actual_of : Memory → Obj → Option ℕ
actual_of m (Obj.act a) = some a
actual_of m (Obj.cpy c) = some (m.vhdr (m.chs c).p_act_vhdr).np_org_act
actual_of m (Obj.ckpt e) = none

-- An unsigned int that is converted to int, and then to a size_t: a value of 2 ^ 31 or more comes out
-- with its sign, as a number of 64 bits.
abbrev pub size_of_int : ℕ → ℕ
size_of_int n = if ltb n (2 ^ 31) then n else n + (2 ^ 64 - 2 ^ 32)

-- `(sizeof(ts_act_hdr_struct_t) + size) * index`, with `size` and `index` ints
abbrev pub stride : ℕ → ℕ → ℕ → ℕ
stride headers size index = (headers + size_of_int size) % 2 ^ 64 * size_of_int index % 2 ^ 64

-- the first element of the array that the actual object `a` is in
abbrev pub base_of : ℕ → Memory → ℕ → ℕ
base_of headers m a =
    if (m.act a).index == 0
    then a
    else sub_u64 a (stride headers (m.act a).obj_size (m.act a).index)

unfoldable pub ts_get_base_addr : ℕ → Memory → Obj → Option ℕ
ts_get_base_addr headers m o = Option.map (base_of headers m) (actual_of m o)

unfoldable pub ts_get_offset : ℕ → Memory → Obj → ℕ → Option ℕ
ts_get_offset headers m o index =
    Option.map (λ base. add_u64 base (stride headers (m.act base).obj_size index))
      (ts_get_base_addr headers m o)
