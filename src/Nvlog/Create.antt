-- ===== src/Nvlog/Create.antt =====
-- lib/nvlog.c: the stores of the logs in non-volatile memory, which the root object of the heap links
-- together, and the mutex over them. A store is named by its address, 0 is NULL; the allocator is a
-- parameter that gives the result of each call.
pub mod Linked
pub mod Destroyed
pub mod Created
use timestone.Base.{
  ℕ, zero, suc, ◌+◌, ◌-◌, Bool, true, false, not, ◌&&◌, List, [], ◌∷◌, ◌++◌, ◌==◌, if◌then◌else◌,
  u32, sub_u32, align_ptr_to_cacheline, update,
}
use Prim.Native.Nat.{bit_and}
use timestone.Nvlog.{Store}

-- ts_nvlog_store_t with its link, its buffer and the allocation that the buffer is cut from
pub record Node : Type 0 where
  pub log : Store
  pub next : ℕ
  pub buffer : ℕ
  pub allocation : ℕ

-- The root object's list, every store, whether this thread holds the mutex, how many allocations were
-- made, and what was freed.
pub record Heap : Type 0 where
  pub root_next : ℕ
  pub node : ℕ → Node
  pub locked : Bool
  pub allocs : ℕ
  pub freed : List ℕ

-- The end of a call. `deadlock` waits for the mutex that the thread itself holds.
pub data Call (A : Type 0) : Type 0 where
  ends : A → Call A
  deadlock out_of_fuel : Call A

abbrev pub unlock : Heap → Heap
unlock r = record r { locked = false }

unfoldable pub is_power_of_2 : ℕ → Bool
is_power_of_2 n = let x = u32 n in not (x == 0) && (bit_and x (sub_u32 x 1) == 0)

abbrev pub set_link : Heap → ℕ → ℕ → Heap
set_link r p n = record r { node = update r.node p (record (r.node p) { next = n }) }

-- A store that was taken off the list is freed, with its buffer.
abbrev pub free_store : Heap → ℕ → Heap
free_store r s = record r { freed = r.freed ++ (r.node s).allocation ∷ s ∷ [] }

-- The search for a store behind the first, on fuel; a store that is not in the list is not freed.
unfoldable pub unlink_from : ℕ → Heap → ℕ → ℕ → ℕ → Call Heap
unlink_from zero r s temp current = out_of_fuel
unlink_from (suc fuel) r s temp current =
    let rest = unlink_from fuel r s current (r.node current).next in
    if current == s
    then ends (free_store (set_link r temp (r.node current).next) current)
    else if current == 0
    then ends r
    else rest

-- between the lock and the unlock
unfoldable pub unlink_store : ℕ → Heap → ℕ → Call Heap
unfolding unlink_from
unlink_store fuel r s =
    if r.root_next == 0
    then ends r
    else if r.root_next == s
    then ends (free_store (record r { root_next = (r.node s).next }) s)
    else unlink_from fuel r s r.root_next (r.node r.root_next).next

unfoldable pub nvlog_store_destroy : ℕ → Heap → ℕ → Call Heap
unfolding unlink_store
nvlog_store_destroy fuel r s =
    if s == 0
    then ends r
    else if r.locked
    then deadlock
    else elim (unlink_store fuel (record r { locked = true }) s) [
      | ends r' ↦ ends (unlock r')
      | deadlock ↦ deadlock
      | out_of_fuel ↦ out_of_fuel
    ]

-- `err_out`
unfoldable pub clean_up : ℕ → Heap → ℕ → Call (Heap × ℕ)
unfolding nvlog_store_destroy
clean_up fuel r s = elim (nvlog_store_destroy fuel r s) [
  | ends r' ↦ ends (r', 0)
  | deadlock ↦ deadlock
  | out_of_fuel ↦ out_of_fuel
]

-- The fields of a new store, with its buffer.
abbrev pub init_store : Heap → ℕ → ℕ → ℕ → ℕ → ℕ → Heap
init_store r s allocation size type status = record r {
  node = update r.node s (record (r.node s) {
    log = record { head_cnt = 0; tail_cnt = 0; log_size = size; type = type; status = status };
    buffer = align_ptr_to_cacheline allocation;
    allocation = allocation;
  });
}

-- A new store goes to the front of the list, before its buffer is there.
abbrev pub link_store : Heap → ℕ → Heap
link_store r s = record (set_link r s r.root_next) { root_next = s }

unfoldable pub nvlog_store_create : ℕ → (ℕ → ℕ) → Heap → ℕ → ℕ → ℕ → Call (Heap × ℕ)
unfolding is_power_of_2 clean_up
nvlog_store_create fuel alloc r size type status =
    let s = alloc r.allocs in
    let r1 = record r { locked = true; allocs = r.allocs + 1 } in
    let allocation = alloc r1.allocs in
    let r2 = record (link_store r1 s) { allocs = r1.allocs + 1 } in
    if not (is_power_of_2 size)
    then clean_up fuel r 0
    else if r.locked
    then deadlock
    else if s == 0
    then clean_up fuel r1 0
    else if allocation == 0
    then clean_up fuel r2 s
    else ends (unlock (init_store r2 s allocation size type status), s)
