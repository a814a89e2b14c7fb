-- ===== src/Lock.antt =====
-- _ts_try_lock of lib/timestone.c, as it is compiled without nested locking and without the two
-- stronger isolation levels: a transaction takes the lock of an object and gets a copy of it.
-- What other threads do between two steps of the lock is a function on memory.
pub mod Guard
pub mod Race
use timestone.Base.{ℕ, Bool, true, false, Option, none, some, List, take, ◌==◌, ◌&&◌, if◌then◌else◌}
use timestone.Clock.{gte_clock}
use timestone.Memory.{
  Memory, Obj, Vhdr, Act, Chs, get_act_vhdr, new_vhdr, set_vhdr, set_chs, set_act,
}
use timestone.Version.{clock_of}
use timestone.Tvlog.{Tvlog, Sizes, tvlog_append_begin, tvlog_append_end}

-- what ts_thread_struct_t has for a transaction that writes
pub record Writer : Type 0 where
  pub tvlog : Tvlog
  pub local_clk : ℕ
  pub is_write_detected : Bool

abbrev pub same_pointer : Option ℕ → Option ℕ → Bool
same_pointer none none = true
same_pointer (some p) (some q) = p == q
same_pointer _ _ = false

abbrev pub set_p_lock : Memory → ℕ → Option ℕ → Memory
set_p_lock m v p = set_vhdr m v (record (m.vhdr v) { p_lock = p })

-- The compare-and-swap of `p_lock` and what follows it.
unfoldable pub cas_lock : (Memory → Memory) → Memory → ℕ → Option ℕ → ℕ → Memory × Bool
cas_lock after m v p_old_copy p_new_copy =
    let m1 = after (set_p_lock m v (some p_new_copy)) in
    if same_pointer (m.vhdr v).p_lock none
    then (if same_pointer (m1.vhdr v).p_copy p_old_copy
        then (m1, true)
        else (set_p_lock m1 v none, false))
    else (m, false)

-- `before` is what other threads do ahead of the compare-and-swap, `after` what they do behind it.
unfoldable pub try_lock_obj :
    (Memory → Memory) → (Memory → Memory) → Memory → ℕ → Option ℕ → ℕ → Memory × Bool
unfolding cas_lock
try_lock_obj before after m v p_old_copy p_new_copy =
    if same_pointer (m.vhdr v).p_lock none && same_pointer (m.vhdr v).p_copy p_old_copy
    then cas_lock after (before m) v p_old_copy p_new_copy
    else (m, false)

-- The volatile header of an actual object, allocated if it has none: `fresh` is what the allocation
-- gives. That another thread installs one first takes that thread's step.
unfoldable pub try_alloc_act_vhdr : Option ℕ → ℕ → Memory → ℕ → Memory × Bool
try_alloc_act_vhdr fresh gen_id m a = elim ((m.act a).p_act_vhdr) [
  | some v ↦ (m, false)
  | none ↦ elim fresh [
    | none ↦ (m, false)
    | some v ↦ (
      set_act (set_vhdr m v (new_vhdr a)) a
          (record (m.act a) { p_act_vhdr = some v; gen_id = gen_id }),
      true,
    )
  ]
]

-- The guards ahead of the log's space: the object is not locked, and its newest version is older
-- than the transaction. `none` is the wait for a commit that is not public.
unfoldable pub may_lock : Memory → ℕ → ℕ → Option Bool
may_lock m v local_clk = elim ((m.vhdr v).p_lock) [
  | some l ↦ some false
  | none ↦ elim ((m.vhdr v).p_copy) [
    | none ↦ some true
    | some c ↦ elim (clock_of m c local_clk) [
      | none ↦ none
      | some t ↦ some (if gte_clock t local_clk then false else true)
    ]
  ]
]

abbrev pub bytes_of : Memory → Obj → List ℕ
bytes_of m (Obj.act a) = (m.act a).obj
bytes_of m (Obj.cpy c) = (m.chs c).obj
bytes_of m (Obj.ckpt e) = (m.ckpt e).obj

-- the two `memcpy`: from the older copy, or from the current master
abbrev pub copied : Memory → ℕ → Option ℕ → ℕ → List ℕ
copied m v none size = take size (bytes_of m (m.vhdr v).np_cur_act)
copied m v (some c) size = take size (bytes_of m (Obj.cpy c))

-- the steps behind a lock that was taken
unfoldable pub end_lock : Memory → Writer → Tvlog → ℕ → Option ℕ → ℕ → ℕ → Bool → Memory × Writer
unfolding tvlog_append_end
end_lock m self t1 v p_old_copy c size bogus_allocated =
    let m1 = set_chs m c (record (m.chs c) { obj = copied m v p_old_copy size }) in
    elim t1.cur_wrt_set [
      | none ↦ (m1, self)
      | some ws ↦
          let (m2, t2) = tvlog_append_end m1 t1 ws c bogus_allocated in
          (m2, record self { tvlog = t2; is_write_detected = true })
    ]

-- The lock of the object with header `v`: memory, the thread, and the copy that `*pp_obj` becomes. A
-- failure keeps what `tvlog_append_begin` did, since `tvlog_append_abort` does nothing.
unfoldable pub lock_vhdr :
    Sizes
    → (Memory → Memory)
    → (Memory → Memory)
    → Memory
    → Writer
    → ℕ
    → ℕ
    → Memory × Writer × Option ℕ
unfolding tvlog_append_begin try_lock_obj end_lock
lock_vhdr sz before after m self v size =
    let (m1, t1, c, b) = tvlog_append_begin sz m self.tvlog v size in
    let (m2, ret) = try_lock_obj before after m1 v (m.vhdr v).p_copy c in
    if ret
    then (let (m3, self') = end_lock m2 self t1 v (m.vhdr v).p_copy c size b in (m3, self', some c))
    else (m2, record self { tvlog = t1 }, none)

-- The volatile header of the object: its own, or one that is allocated now. An object that has none
-- is an actual one, as a copy and a checkpointed object have their header's address in memory.
unfoldable pub find_vhdr : Option ℕ → ℕ → Memory → Obj → Memory × Option ℕ
unfolding get_act_vhdr try_alloc_act_vhdr
find_vhdr fresh gen_id m obj = elim (get_act_vhdr m obj) [
  | some v ↦ (m, some v)
  | none ↦ elim obj [
    | Obj.act a ↦
        let (m1, ret) = try_alloc_act_vhdr fresh gen_id m a in
        (m1, if ret then (m1.act a).p_act_vhdr else none)
    | _ ↦ (m, none)
  ]
]

-- The guards and the lock. The result is `none` while they wait for a commit.
unfoldable pub guard_lock :
    Sizes
    → (Memory → Memory)
    → (Memory → Memory)
    → Memory
    → Writer
    → ℕ
    → ℕ
    → Option (Memory × Writer × Option ℕ)
unfolding may_lock lock_vhdr
guard_lock sz before after m self v size = elim (may_lock m v self.local_clk) [
  | none ↦ none
  | some ok ↦ some (if ok then lock_vhdr sz before after m self v size else (m, self, none))
]

unfoldable pub ts_try_lock :
    Sizes
    → (Memory → Memory)
    → (Memory → Memory)
    → Option ℕ
    → ℕ
    → Memory
    → Writer
    → Obj
    → ℕ
    → Option (Memory × Writer × Option ℕ)
unfolding find_vhdr guard_lock
ts_try_lock sz before after fresh gen_id m self obj size =
    let (m1, r) = find_vhdr fresh gen_id m obj in
    elim r [ none ↦ some (m1, self, none) | some v ↦ guard_lock sz before after m1 self v size ]

unfoldable pub ts_try_lock_const :
    Sizes
    → (Memory → Memory)
    → (Memory → Memory)
    → Option ℕ
    → ℕ
    → Memory
    → Writer
    → Obj
    → Option (Memory × Writer × Option ℕ)
unfolding ts_try_lock
ts_try_lock_const sz before after fresh gen_id m self obj =
    ts_try_lock sz before after fresh gen_id m self obj 0
