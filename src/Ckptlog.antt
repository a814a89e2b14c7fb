-- ===== src/Ckptlog.antt =====
-- lib/ckptlog.c: the log of checkpointed masters. Its entries are those of the non-volatile log; what
-- stands behind an entry's header is in memory, at the address `base` plus the entry's offset, and so
-- is the entry's write clock, which is read through the entry only.
pub mod Free
pub mod Slots
pub mod Boundary
pub mod Writeback
pub mod Kept
pub mod Passed
use timestone.Base.{
  ℕ, zero, suc, ◌+◌, ◌-◌, ◌^◌, Bool, true, false, not, ◌&&◌, Option, none, some, List, [], ◌∷◌,
  ◌++◌, ltb, ◌==◌, if◌then◌else◌, u32, update, set, get_elem?, take, drop,
}
use timestone.Config.{
  ObjType, free, max_version, ckptlog_high_mark, ckptlog_low_mark, reclaim_ckptlog_best_effort,
  reclaim_ckptlog_writeback, reclaim_ckptlog_writeback_all,
}
use timestone.Clock.{lt_clock, gt_clock}
use timestone.PtrSet.{PtrSet, Alloc, cells_of, ptrset_push}
use timestone.Nvlog.{
  Nvlog, nvlog_used, nvlog_enq, nvlog_enq_persist, nvlog_peek_head, nvlog_deq, nvlog_deq_persist,
}
use timestone.Memory.{
  Memory, Obj, CkptEntry, Chs, get_act_vhdr, set_vhdr, set_act, set_ckpt, same_obj,
}
use timestone.Qp.{SysClks}

abbrev pub Log : Type 0
Log = Nvlog (Unit {0})

-- ts_ckptlog_t: the log, with what it shares with its thread. `clks` is the thread's copy of the clocks.
pub record Ckptlog : Type 0 where
  pub log : Log
  pub base : ℕ
  pub free_set : PtrSet
  pub need_reclaim : ℕ
  pub clks : SysClks

abbrev pub is_free : ObjType → Bool
is_free free = true
is_free _ = false

-- A tombstone's bytes stay what they were.
abbrev pub new_entry : Memory → ℕ → ℕ → ℕ → Chs → CkptEntry
new_entry m e wrt_clk ckpt_s_clk chs = record {
  wrt_clk = wrt_clk;
  ckpt_s_clk = ckpt_s_clk;
  np_org_act = (m.vhdr chs.p_act_vhdr).np_org_act;
  tombstone = is_free chs.type;
  obj_size = chs.obj_size;
  obj = if is_free chs.type then (m.ckpt e).obj else chs.obj;
}

-- The stores of `_ckptlog_enq` into the entry at `e`, and the new master of the object.
unfoldable pub init_ckpt_entry : Memory → ℕ → ℕ → ℕ → ℕ → Memory
init_ckpt_entry m e wrt_clk ckpt_s_clk c =
    let v = (m.chs c).p_act_vhdr in
    let m1 = set_ckpt m e (new_entry m e wrt_clk ckpt_s_clk (m.chs c)) in
    set_vhdr m1 v (record (m.vhdr v) { np_cur_act = Obj.ckpt e })

-- `headers` is the size of ts_ckpt_entry_hdr_t and ts_obj_hdr_t. The result is the entry's address, or
-- none where the log has no space, which the code does not expect.
unfoldable pub ckptlog_enq : ℕ → Ckptlog → Memory → ℕ → ℕ → ℕ → Ckptlog × Memory × Option ℕ
unfolding init_ckpt_entry
ckptlog_enq headers k m wrt_clk ckpt_s_clk c =
    let (l, r) = nvlog_enq k.log (u32 (headers + (m.chs c).obj_size)) in
    elim r [
      | none ↦ (record k { log = l }, m, none)
      | some i ↦ (
        record k { log = l },
        init_ckpt_entry m (k.base + i) wrt_clk ckpt_s_clk c,
        some (k.base + i),
      )
    ]

-- The request that is made, if one is.
unfoldable pub ckptlog_try_request_reclaim_if_needed : Log → Option ℕ
ckptlog_try_request_reclaim_if_needed l =
    if ltb ckptlog_low_mark (nvlog_used l)
    then some (
        if ltb ckptlog_high_mark (nvlog_used l)
        then reclaim_ckptlog_writeback
        else reclaim_ckptlog_best_effort)
    else none

unfoldable pub ckptlog_enq_persist : Ckptlog → Ckptlog × Option ℕ
unfolding nvlog_enq_persist ckptlog_try_request_reclaim_if_needed
ckptlog_enq_persist k =
    let l = (nvlog_enq_persist k.log).0 in
    (record k { log = l }, ckptlog_try_request_reclaim_if_needed l)

-- What the loop of `ckptlog_cleanup` changes: the array, `first`, and the headers that it frees, each
-- with its object's original master, in order.
pub record Cleanup : Type 0 where
  pub cells : List ℕ
  pub first : ℕ
  pub freed : List ℕ

-- The body of the loop for the header that is read from the array.
abbrev pub cleanup_one : Memory → ℕ → Cleanup → ℕ → Cleanup
cleanup_one m until_clk s v =
    if lt_clock (m.vhdr v).tombstone_clk until_clk
    then record s { freed = s.freed ++ (v ∷ []) }
    else record s { cells = set s.cells s.first v; first = s.first + 1 }

-- The loop from index `i` on, with `n` pointers left; a read outside the array ends it.
unfoldable pub cleanup_from : ℕ → Memory → ℕ → ℕ → Cleanup → Cleanup
cleanup_from zero m until_clk i s = s
cleanup_from (suc n) m until_clk i s = elim (get_elem? s.cells i) [
  | none ↦ s
  | some v ↦ cleanup_from n m until_clk (i + 1) (cleanup_one m until_clk s v)
]

-- The set, and the headers that are freed.
unfoldable pub ckptlog_cleanup : Memory → PtrSet → ℕ → PtrSet × List ℕ
unfolding cleanup_from
ckptlog_cleanup m free_set until_clk = elim (free_set.ptrs) [
  | none ↦ (free_set, [])
  | some cells ↦
      let r =
        cleanup_from free_set.num_ptrs m until_clk 0
          (record { cells = cells; first = 0; freed = [] }) in
      (record free_set { num_ptrs = r.first; ptrs = some r.cells }, r.freed)
]

-- a pointer as a number, 0 for NULL
abbrev pub ptr_of : Option ℕ → ℕ
ptr_of none = 0
ptr_of (some v) = v

abbrev pub push_tombstone : Alloc → Memory → CkptEntry → PtrSet → PtrSet
push_tombstone alloc m e free_set =
    if e.tombstone
    then (ptrset_push alloc free_set (ptr_of (get_act_vhdr m (Obj.act e.np_org_act)))).0
    else free_set

-- The first loop of `ckptlog_reclaim_x`, on fuel: the log, the free set, and the entry at which it
-- stops. `none` is a loop that would go on.
unfoldable pub reclaim_entries :
    ℕ → Alloc → Memory → ℕ → ℕ → Log → PtrSet → Option (Log × PtrSet × Option ℕ)
reclaim_entries zero alloc m base prev l free_set = none
reclaim_entries (suc fuel) alloc m base prev l free_set =
    let (l', r) = nvlog_peek_head l in
    elim r [
      | none ↦ some (l', free_set, none)
      | some i ↦
          let rest =
            reclaim_entries fuel alloc m base prev (nvlog_deq l').0
              (push_tombstone alloc m (m.ckpt (base + i)) free_set) in
          if l'.head_cnt == prev then some (l', free_set, some i) else rest
    ]

-- `memcpy_to_nvm` of `n` bytes over the front of an object
abbrev pub overwrite : ℕ → List ℕ → List ℕ → List ℕ
overwrite n from to = take n from ++ drop n to

-- The checkpointed master at `e` goes back to the original master of the header `v`.
unfoldable pub write_back : Memory → ℕ → ℕ → Memory
write_back m v e =
    let a = (m.vhdr v).np_org_act in
    let m1 =
      set_act m a
        (record (m.act a) { obj = overwrite (m.ckpt e).obj_size (m.ckpt e).obj (m.act a).obj }) in
    set_vhdr m1 v (record (m.vhdr v) { np_cur_act = Obj.act a })

-- what the second loop does with an entry: stop in front of it, or go on with this memory
pub data Visit : Type 0 where
  stop : Visit
  pass : Memory → Visit

unfoldable pub visit_entry : ℕ → ℕ → Memory → ℕ → ℕ → ℕ → Visit
unfolding write_back
visit_entry watermark used m v e limit =
    if gt_clock (m.ckpt e).ckpt_s_clk limit
    then stop
    else if same_obj (m.vhdr v).np_cur_act (Obj.ckpt e) && not (m.ckpt e).tombstone
    then (if ltb used watermark then stop else pass (write_back m v e))
    else pass m

-- The second loop, on fuel. `none` is a loop that would go on, or an entry whose object has no
-- volatile header, which the code does not expect.
unfoldable pub writeback_entries : ℕ → ℕ → ℕ → ℕ → Memory → Log → Option (Log × Memory)
writeback_entries zero watermark limit base m l = none
writeback_entries (suc fuel) watermark limit base m l =
    let (l', r) = nvlog_peek_head l in
    elim r [
      | none ↦ some (l', m)
      | some i ↦ elim (get_act_vhdr m (Obj.act (m.ckpt (base + i)).np_org_act)) [
        | none ↦ none
        | some v ↦ elim (visit_entry watermark (nvlog_used l') m v (base + i) limit) [
          | stop ↦ some (l', m)
          | pass m' ↦ writeback_entries fuel watermark limit base m' (nvlog_deq l').0
        ]
      ]
    ]

-- `__min_ckpt_reclaimed`, from the entry at which the first loop stops
abbrev pub note_reclaimed : Memory → ℕ → Option ℕ → SysClks → SysClks
note_reclaimed m base none clks = clks
note_reclaimed m base (some i) clks = record clks {
  min_ckpt_reclaimed = (m.ckpt (base + i)).ckpt_s_clk;
}

-- What follows the loops: `l1` is the log behind the first, `l2` the one behind the second.
abbrev pub end_ckpt_reclaim : ℕ → Log → Log → Log
end_ckpt_reclaim old_head_cnt l1 l2 =
    let l = record l2 { prev_head_cnt = l2.head_cnt; head_cnt = l1.head_cnt } in
    record (if l1.head_cnt == old_head_cnt then l else nvlog_deq_persist l) { reclaim_lock = 0 }

-- `none` as for the loops; the last result is 0 where nothing is done.
unfoldable pub ckptlog_reclaim_x : ℕ → Alloc → Memory → Ckptlog → ℕ → Option (Memory × Ckptlog × ℕ)
unfolding reclaim_entries writeback_entries
ckptlog_reclaim_x fuel alloc m k watermark =
    if (k.need_reclaim == 0)
    then some (m, k, 0)
    else if not (k.log.reclaim_lock == 0)
    then some (m, k, 0)
    else elim (reclaim_entries fuel alloc m k.base k.log.prev_head_cnt
        (record (k.log) { reclaim_lock = 1 }) k.free_set) [
          | none ↦ none
          | some (l1, free_set, at) ↦
              elim (writeback_entries fuel watermark k.clks.qp2 k.base m l1) [
                | none ↦ none
                | some (l2, m') ↦ some (
                  m',
                  record k {
                    log = end_ckpt_reclaim k.log.head_cnt l1 l2;
                    free_set = free_set;
                    need_reclaim = 0;
                    clks = note_reclaimed m k.base at k.clks;
                  },
                  1,
                )
              ]
        ]

unfoldable pub ckptlog_reclaim : ℕ → Alloc → Memory → Ckptlog → Option (Memory × Ckptlog × ℕ)
unfolding ckptlog_reclaim_x
ckptlog_reclaim fuel alloc m k =
    if k.need_reclaim == reclaim_ckptlog_best_effort
    then ckptlog_reclaim_x fuel alloc m k (k.log.log_size + 1)
    else if k.need_reclaim == reclaim_ckptlog_writeback
    then ckptlog_reclaim_x fuel alloc m k ckptlog_low_mark
    else if k.need_reclaim == reclaim_ckptlog_writeback_all
    then ckptlog_reclaim_x fuel alloc m k 0
    else some (m, k, 0)
