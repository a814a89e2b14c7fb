-- ===== src/Tvlog.antt =====
-- lib/tvlog.c: the transient version log of a thread. The address of the header at a position of the
-- log is `base` plus its index in the ring. The functions that walk a write set change memory only;
-- `TS_TVLOG_SIZE` is the constant of Config.
pub mod WriteSet
pub mod Layout
pub mod Commit
pub mod Abort
pub mod Publish
pub mod Wait
pub mod Alloc
pub mod Borderline
pub mod Reclaim
use timestone.Base.{
  ℕ, zero, suc, ◌+◌, ◌-◌, ◌%◌, ◌^◌, Bool, true, false, not, ◌&&◌, Option, none, some, List, [], ◌∷◌,
  ltb, leb, ◌==◌, if◌then◌else◌, add_u32, sub_u32, u16, add_u64, sub_u64, align_uint_to_cacheline,
  update,
}
use timestone.Config.{
  ObjType, actual, wrt_set, copy, free, nvlog_entry, bogus, max_version, min_version, tvlog_size,
  tvlog_high_mark, tvlog_low_mark, reclaim_tvlog_ckpt, reclaim_tvlog_best_effort,
}
use timestone.Clock.{lt_clock, gte_clock}
use timestone.PtrSet.{PtrSet, ptrset_is_member, ptrset_reset}
use timestone.Memory.{
  Memory, Obj, Chs, Vhdr, WrtSet, Status, status_none, detached, get_entry_size, set_vhdr, set_chs,
  set_ws,
}

-- ts_tvlog_t, with the thread that it belongs to, and the thread's request that it points to
pub record Tvlog : Type 0 where
  pub base : ℕ
  pub head_cnt : ℕ
  pub tail_cnt : ℕ
  pub prev_head_cnt : ℕ
  pub reclaim_lock : ℕ
  pub need_reclaim : ℕ
  pub cur_wrt_set : Option ℕ
  pub thread : ℕ

abbrev pub tvlog_index : ℕ → ℕ
tvlog_index cnt = cnt % tvlog_size

abbrev pub tvlog_at : Tvlog → ℕ → ℕ
tvlog_at log cnt = log.base + tvlog_index cnt

unfoldable pub tvlog_used : Tvlog → ℕ
tvlog_used log = sub_u64 log.tail_cnt log.head_cnt

-- sizeof(ts_cpy_hdr_struct_t), sizeof(ts_wrt_set_t), sizeof(ts_wrt_set_struct_t)
pub record Sizes : Type 0 where
  pub cpy_hdr_struct : ℕ
  pub wrt_set : ℕ
  pub wrt_set_struct : ℕ

unfoldable pub add_extra_padding : Sizes → Tvlog → ℕ → ℕ → Bool → ℕ
add_extra_padding sz tvlog size extra_size bogus_added =
    let extra = align_uint_to_cacheline (add_u32 extra_size sz.cpy_hdr_struct) in
    if not bogus_added
      && ltb (tvlog_index (tvlog.tail_cnt + add_u32 size extra)) (tvlog_index tvlog.tail_cnt)
    then tvlog_size - tvlog_index (tvlog.tail_cnt + size)
    else 0

-- a header that `memset` has cleared
abbrev pub zero_chs : Chs
zero_chs = record {
  p_ws = 0;
  wrt_clk = 0;
  wrt_clk_next = 0;
  wrt_clk_prev = 0;
  p_copy = none;
  p_act_vhdr = 0;
  obj_size = 0;
  padding_size = 0;
  type = actual;
  status = status_none;
  obj = [];
}

-- A bogus object up to the end of the ring, where the entry would wrap around. The size that its
-- header records is an `unsigned short`.
abbrev pub skip_end : Memory → Tvlog → Memory × Tvlog
skip_end m tvlog =
    let size = tvlog_size - tvlog_index tvlog.tail_cnt in
    (
      set_chs m (tvlog_at tvlog tvlog.tail_cnt)
          (record zero_chs { padding_size = u16 size; type = bogus }),
      record tvlog { tail_cnt = add_u64 tvlog.tail_cnt size },
    )

-- The header at the tail.
abbrev pub place_chs : Sizes → Memory → Tvlog → ℕ → ℕ → Bool → Memory × Tvlog × ℕ × Bool
place_chs sz m tvlog obj_size entry_size bogus_added =
    let c = tvlog_at tvlog tvlog.tail_cnt in
    let total =
      add_u32 entry_size (add_extra_padding sz tvlog entry_size sz.wrt_set_struct bogus_added) in
    (
      set_chs m c (record zero_chs {
        wrt_clk = max_version;
        obj_size = obj_size;
        padding_size = u16 (sub_u32 total obj_size);
      }),
      tvlog,
      c,
      bogus_added,
    )

abbrev pub wraps_around : Tvlog → ℕ → Bool
wraps_around tvlog size = ltb (tvlog_index (tvlog.tail_cnt + size)) (tvlog_index tvlog.tail_cnt)

unfoldable pub tvlog_alloc : Sizes → Memory → Tvlog → ℕ → Bool → Memory × Tvlog × ℕ × Bool
unfolding add_extra_padding
tvlog_alloc sz m tvlog obj_size bogus_added =
    let entry_size = align_uint_to_cacheline (add_u32 obj_size sz.cpy_hdr_struct) in
    if wraps_around tvlog entry_size
    then place_chs sz (skip_end m tvlog).0 (skip_end m tvlog).1 obj_size entry_size true
    else place_chs sz m tvlog obj_size entry_size bogus_added

-- A write set is named by the address of the header that it stands behind.
unfoldable pub add_wrt_set : Sizes → Memory → Tvlog → Memory × Tvlog × ℕ × Bool
unfolding tvlog_alloc
add_wrt_set sz m tvlog =
    let (m1, t1, c, b) = tvlog_alloc sz m tvlog sz.wrt_set false in
    let m2 = set_chs m1 c (record (m1.chs c) { p_ws = c; type = wrt_set }) in
    let ws : WrtSet = record {
      wrt_clk = max_version;
      pending_wrt_clk = max_version;
      num_objs = 0;
      start_tail_cnt = t1.tail_cnt;
      thread = tvlog.thread;
    } in
    (
      set_ws m2 c ws,
      record t1 {
        cur_wrt_set = some c;
        tail_cnt = add_u64 t1.tail_cnt (get_entry_size (m1.chs c));
      },
      c,
      b,
    )

-- The last part of `tvlog_append_begin`, in the write set `ws`.
unfoldable pub append_to : Sizes → Memory → Tvlog → ℕ → ℕ → ℕ → Bool → Memory × Tvlog × ℕ × Bool
unfolding tvlog_alloc
append_to sz m tvlog ws v obj_size bogus_added =
    let (m1, t1, c, b) = tvlog_alloc sz m tvlog obj_size bogus_added in
    (set_chs m1 c (record (m1.chs c) { p_ws = ws; p_act_vhdr = v; type = copy }), t1, c, b)

-- An object for the volatile header `v`: memory, the log, the new header, and whether a bogus
-- object was added.
unfoldable pub tvlog_append_begin : Sizes → Memory → Tvlog → ℕ → ℕ → Memory × Tvlog × ℕ × Bool
unfolding append_to add_wrt_set
tvlog_append_begin sz m tvlog v obj_size = elim tvlog.cur_wrt_set [
  | some ws ↦ append_to sz m tvlog ws v obj_size false
  | none ↦ let (m1, t1, ws, b) = add_wrt_set sz m tvlog in append_to sz m1 t1 ws v obj_size b
]

abbrev pub more_objs : Memory → ℕ → ℕ → Memory
more_objs m ws n = set_ws m ws (record (m.ws ws) { num_objs = add_u32 (m.ws ws).num_objs n })

unfoldable pub tvlog_append_end : Memory → Tvlog → ℕ → ℕ → Bool → Memory × Tvlog
tvlog_append_end m tvlog ws c bogus_allocated = (
  more_objs m ws (if bogus_allocated then 2 else 1),
  record tvlog { tail_cnt = add_u64 tvlog.tail_cnt (get_entry_size (m.chs c)) },
)
