-- ===== src/Tvlog/WriteSet.antt =====
-- lib/tvlog.c: commit, abort and detachment of the objects of a write set. A loop over a write set
-- goes from header to header by their sizes.
use timestone.Base.{
  ℕ, zero, suc, Bool, false, ◌&&◌, Option, none, some, ltb, ◌==◌, if◌then◌else◌, add_u64, sub_u32,
}
use timestone.Config.{
  copy, free, bogus, max_version, min_version, tvlog_high_mark, tvlog_low_mark, reclaim_tvlog_ckpt,
  reclaim_tvlog_best_effort,
}
use timestone.Clock.{new_clock}
use timestone.PtrSet.{PtrSet, ptrset_is_member, ptrset_reset}
use timestone.Memory.{Memory, detached, get_entry_size, set_vhdr, set_chs, set_ws}
use timestone.Oplog.{Oplog, OpInfo, oplog_enq, oplog_try_request_ckpt_if_needed}
use timestone.Nvlog.{nvlog_enq_persist}
use timestone.Tvlog.{Tvlog, tvlog_at, tvlog_used}

abbrev pub ws_iter_begin : Memory → ℕ → ℕ
ws_iter_begin m ws = add_u64 (m.ws ws).start_tail_cnt (get_entry_size (m.chs ws))

-- `ws_for_each`: the state of the loop is memory and `S`; `n` objects are left.
unfoldable pub ws_for_each :
    {S : Type 0} → Tvlog → (Memory × S → ℕ → Memory × S) → ℕ → Memory × S → ℕ → Memory × S
ws_for_each tvlog body zero s cnt = s
ws_for_each tvlog body (suc n) s cnt =
    let s' = body s (tvlog_at tvlog cnt) in
    ws_for_each tvlog body n s' (add_u64 cnt (get_entry_size (s'.0.chs (tvlog_at tvlog cnt))))

-- `get_raw_wrt_clk` of the older copy, or MIN_VERSION without one
abbrev pub next_clk : Memory → Option ℕ → ℕ
next_clk m none = min_version
next_clk m (some q) = (m.chs q).wrt_clk

-- The copy `c` becomes the newest version of its object. That the compare-and-swap fails, and the
-- loop goes round, takes another thread's step.
unfoldable pub push_version : Memory → ℕ → Memory
push_version m c =
    let v = (m.chs c).p_act_vhdr in
    let p_old_copy = (m.vhdr v).p_copy in
    let m1 = set_chs m c (record (m.chs c) {
      wrt_clk_prev = max_version;
      p_copy = p_old_copy;
      wrt_clk_next = next_clk m p_old_copy;
    }) in
    set_vhdr m1 v (record (m.vhdr v) { p_copy = some c })

-- The body of the loop of `ws_move_lock_to_copy`; the second part of the state is `num_free`.
unfoldable pub move_lock_to_copy : PtrSet → Memory × ℕ → ℕ → Memory × ℕ
move_lock_to_copy free_set (m, num_free) c = elim ((m.chs c).type) [
  | bogus ↦ (m, num_free)
  | _ ↦
      if ltb 0 num_free && ptrset_is_member free_set (m.vhdr (m.chs c).p_act_vhdr).np_org_act
      then (set_chs m c (record (m.chs c) { type = free }), sub_u32 num_free 1)
      else if (m.chs c).obj_size == 0
      then (m, num_free)
      else (push_version m c, num_free)
]

unfoldable pub ws_move_lock_to_copy : Tvlog → PtrSet → Memory → ℕ → Memory
unfolding ws_for_each move_lock_to_copy
ws_move_lock_to_copy tvlog free_set m ws =
    (ws_for_each tvlog (move_lock_to_copy free_set) (m.ws ws).num_objs (m, free_set.num_ptrs)
      (ws_iter_begin m ws)).0

-- Two equal pointers, one of them not NULL.
abbrev pub points_to : Option ℕ → ℕ → Bool
points_to none c = false
points_to (some q) c = q == c

-- The compare-and-swap of `p_lock` from the copy `c` to NULL; a lock that another copy holds stays.
abbrev pub unlock : Memory → ℕ → Memory
unlock m c =
    let v = (m.chs c).p_act_vhdr in
    if points_to (m.vhdr v).p_lock c then set_vhdr m v (record (m.vhdr v) { p_lock = none }) else m

abbrev pub mark_old : Memory → Option ℕ → ℕ → Memory
mark_old m none wrt_clk = m
mark_old m (some q) wrt_clk = set_chs m q (record (m.chs q) { wrt_clk_prev = wrt_clk })

-- The body of the loop of `ws_unlock_commit`.
unfoldable pub unlock_commit : ℕ → Memory → ℕ → Memory
unlock_commit wrt_clk m c = elim ((m.chs c).type) [
  | copy ↦
      mark_old (unlock (set_chs m c (record (m.chs c) { wrt_clk = wrt_clk })) c) (m.chs c).p_copy
        wrt_clk
  | free ↦ set_chs m c (record (m.chs c) { wrt_clk = wrt_clk; p_copy = none })
  | _ ↦ m
]

-- A loop whose state is memory alone.
abbrev pub on_memory : (Memory → ℕ → Memory) → Memory × Unit {0} → ℕ → Memory × Unit {0}
on_memory body (m, u) c = (body m c, u)

unfoldable pub ws_unlock_commit : Tvlog → Memory → ℕ → Memory
unfolding ws_for_each unlock_commit
ws_unlock_commit tvlog m ws =
    (ws_for_each tvlog (on_memory (unlock_commit (m.ws ws).wrt_clk)) (m.ws ws).num_objs (m, tt)
      (ws_iter_begin m ws)).0

-- The body of the loop of `ws_unlock_abort`.
unfoldable pub unlock_abort : Memory → ℕ → Memory
unlock_abort m c = elim ((m.chs c).type) [ copy ↦ unlock m c | free ↦ unlock m c | _ ↦ m ]

unfoldable pub ws_unlock_abort : Tvlog → Memory → ℕ → Memory
unfolding ws_for_each unlock_abort
ws_unlock_abort tvlog m ws =
    (ws_for_each tvlog (on_memory unlock_abort) (m.ws ws).num_objs (m, tt) (ws_iter_begin m ws)).0

-- What a commit changes, and the request for a reclamation that it makes.
pub record Committed : Type 0 where
  pub memory : Memory
  pub tvlog : Tvlog
  pub oplog : Oplog
  pub free_set : PtrSet
  pub request : Option ℕ

unfoldable pub tvlog_try_request_reclaim_if_needed : Tvlog → Option ℕ
unfolding tvlog_used
tvlog_try_request_reclaim_if_needed tvlog =
    if ltb tvlog_low_mark (tvlog_used tvlog)
    then some (
        if ltb tvlog_high_mark (tvlog_used tvlog)
        then reclaim_tvlog_ckpt
        else reclaim_tvlog_best_effort)
    else none

-- The steps of `tvlog_commit` from the new write clock on.
unfoldable pub publish :
    ℕ → ℕ → Memory → Tvlog → Oplog → PtrSet → ℕ → OpInfo → ℕ → ℕ → Option Committed
unfolding ws_unlock_commit oplog_enq nvlog_enq_persist oplog_try_request_ckpt_if_needed
    tvlog_try_request_reclaim_if_needed ptrset_reset
publish fuel last_ckpt m tvlog oplog free_set local_clk info ws clk =
    let m1 = set_ws m ws (record (m.ws ws) { pending_wrt_clk = clk }) in
    let op1 = (nvlog_enq_persist (oplog_enq oplog local_clk clk info).0).0 in
    let m2 = set_ws m1 ws (record (m1.ws ws) { wrt_clk = clk }) in
    let m3 = ws_unlock_commit tvlog m2 ws in
    elim (oplog_try_request_ckpt_if_needed fuel op1 last_ckpt) [
      | none ↦ none
      | some (op2, requested) ↦ some (record {
        memory = m3;
        tvlog = record tvlog { cur_wrt_set = none };
        oplog = op2;
        free_set = ptrset_reset free_set;
        request =
            if requested
            then some reclaim_tvlog_ckpt
            else tvlog_try_request_reclaim_if_needed tvlog;
      })
    ]

-- `tvlog_commit` of the write set `ws`, with the clock's readings and with fuel for the wait on the
-- clock and for the reclamation of the operation log.
unfoldable pub tvlog_commit :
    (ℕ → ℕ) → ℕ → ℕ → Memory → Tvlog → Oplog → PtrSet → ℕ → OpInfo → ℕ → Option Committed
unfolding ws_move_lock_to_copy publish
tvlog_commit tsc fuel last_ckpt m tvlog oplog free_set local_clk info ws =
    elim (new_clock tsc fuel 0 local_clk) [
      | none ↦ none
      | some clk ↦
          publish fuel last_ckpt (ws_move_lock_to_copy tvlog free_set m ws) tvlog oplog free_set
            local_clk info ws clk
    ]

unfoldable pub tvlog_abort : Memory → Tvlog → PtrSet → ℕ → Memory × Tvlog × PtrSet
unfolding ws_unlock_abort ptrset_reset
tvlog_abort m tvlog free_set ws =
    let m1 = ws_unlock_abort tvlog m ws in
    (
      m1,
      record tvlog { tail_cnt = (m1.ws ws).start_tail_cnt; cur_wrt_set = none },
      ptrset_reset free_set,
    )

unfoldable pub is_copy_latest : Memory → ℕ → Bool
is_copy_latest m c = points_to (m.vhdr (m.chs c).p_act_vhdr).p_copy c

unfoldable pub try_detach_obj : Memory → ℕ → Memory
try_detach_obj m c =
    let m1 = set_chs m c (record (m.chs c) { status = detached }) in
    let v = (m.chs c).p_act_vhdr in
    if points_to (m.vhdr v).p_copy c
    then set_vhdr m1 v (record (m.vhdr v) { p_copy = none })
    else m1
