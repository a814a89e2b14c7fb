-- ===== src/Tvlog/Reclaim.antt =====
-- lib/tvlog.c: the reclamation of a transient version log. The clocks are those of the thread, which
-- its checkpoint log has too. The assertions and the poisoning of debug builds are left out.
pub mod Walk
pub mod Loop
pub mod Logged
pub mod Steps
pub mod Bodies
pub mod Growing
pub mod Persisted
pub mod Passed
use timestone.Base.{
  ℕ, zero, suc, ◌+◌, Bool, true, false, not, ◌&&◌, ◌||◌, Option, none, some, ltb, ◌==◌,
  if◌then◌else◌, add_u64,
}
use timestone.Config.{
  copy, free, bogus, max_version, tvlog_low_mark, reclaim_tvlog_ckpt, reclaim_tvlog_best_effort,
}
use timestone.Clock.{gte_clock}
use timestone.PtrSet.{Alloc}
use timestone.Memory.{
  Memory, Obj, Status, status_none, tombstone_marked, detached, get_entry_size, set_vhdr, set_chs,
  set_ckpt, same_obj,
}
use timestone.Ckptlog.{Ckptlog, ckptlog_enq, ckptlog_enq_persist, ckptlog_reclaim}
use timestone.Tvlog.{Tvlog, tvlog_at, tvlog_used}
use timestone.Tvlog.WriteSet.{ws_iter_begin, try_detach_obj}
use timestone.Tvlog.Borderline.{is_at_borderline}

-- What the loops change; `dirty` is `is_ckptlog_dirty`.
pub record State : Type 0 where
  pub memory : Memory
  pub ckptlog : Ckptlog
  pub dirty : Bool

-- The end of a piece of the code. `no_space` is a checkpoint log that is full, `lost` a current master
-- that is no entry of it: the code expects neither. `out_of_fuel` is a loop that would go on.
pub data Outcome (A : Type 0) : Type 0 where
  returns : A → Outcome A
  no_space lost out_of_fuel : Outcome A

-- What the body of a loop over a write set does: it goes on to the next object, or jumps out.
pub data Turn : Type 0 where
  goes_on : State → Turn
  jumps : State → Turn

abbrev pub is_marked : Status → Bool
is_marked tombstone_marked = true
is_marked _ = false

abbrev pub is_detached : Status → Bool
is_detached detached = true
is_detached _ = false

-- an entry that `ckptlog_enq` has made, or not
abbrev pub enqueued : Ckptlog × Memory × Option ℕ → (Memory → Memory) → Outcome Turn
enqueued (k, m, none) f = no_space
enqueued (k, m, some e) f = returns (goes_on (record { memory = f m; ckptlog = k; dirty = true }))

abbrev pub mark_status : ℕ → Memory → Memory
mark_status c m = set_chs m c (record (m.chs c) { status = tombstone_marked })

-- The current master that a checkpoint made is marked as a tombstone.
abbrev pub mark_tombstone : Obj → State → ℕ → Outcome Turn
mark_tombstone (Obj.ckpt e) st c =
    let m = set_ckpt (st.memory) e (record (st.memory.ckpt e) { tombstone = true }) in
    returns (goes_on (record st { memory = mark_status c m }))
mark_tombstone _ st c = lost

-- the case TYPE_FREE of the first loop, for a header that has no mark
unfoldable pub free_object : ℕ → ℕ → ℕ → State → ℕ → Outcome Turn
unfolding ckptlog_enq
free_object headers wrt_clk ckpt_s_clk st c =
    let m = st.memory in
    let v = (m.chs c).p_act_vhdr in
    if same_obj (m.vhdr v).np_cur_act (Obj.act (m.vhdr v).np_org_act)
    then enqueued
        (ckptlog_enq headers st.ckptlog
          (set_vhdr m v (record (m.vhdr v) { tombstone_clk = ckpt_s_clk })) wrt_clk ckpt_s_clk c)
        (mark_status c)
    else mark_tombstone (m.vhdr v).np_cur_act st c

-- the body of the first loop
unfoldable pub reclaim_object : ℕ → ℕ → ℕ → ℕ → State → ℕ → Outcome Turn
unfolding free_object
reclaim_object headers mode wrt_clk ckpt_s_clk st c = elim ((st.memory.chs c).type) [
  | copy ↦
      if mode == reclaim_tvlog_best_effort && gte_clock (st.memory.chs c).wrt_clk_prev ckpt_s_clk
      then returns (jumps st)
      else returns (goes_on st)
  | free ↦
      if is_marked (st.memory.chs c).status
      then returns (goes_on st)
      else free_object headers wrt_clk ckpt_s_clk st c
  | _ ↦ returns (goes_on st)
]

-- the body of the second loop
unfoldable pub ckpt_object : ℕ → ℕ → ℕ → ℕ → ℕ → State → ℕ → Outcome Turn
unfolding is_at_borderline ckptlog_enq try_detach_obj
ckpt_object headers mode wrt_clk ckpt_s_clk last_ckpt_clk st c = elim ((st.memory.chs c).type) [
  | copy ↦
      if not (is_detached (st.memory.chs c).status)
        && is_at_borderline st.memory c ckpt_s_clk last_ckpt_clk
      then (if mode == reclaim_tvlog_ckpt
          then enqueued (ckptlog_enq headers st.ckptlog st.memory wrt_clk ckpt_s_clk c)
              (λ m. try_detach_obj m c)
          else returns (jumps st))
      else returns (goes_on st)
  | _ ↦ returns (goes_on st)
]

-- What a round over a write set ends with: it jumps out, or comes to the position behind the set.
pub data Round : Type 0 where
  stops : State → Round
  behind : State → ℕ → Round

-- `ws_for_each` around a body that may jump out: `n` objects are left.
unfoldable pub each_object : Tvlog → (State → ℕ → Outcome Turn) → ℕ → State → ℕ → Outcome Round
each_object tvlog body zero st cnt = returns (behind st cnt)
each_object tvlog body (suc n) st cnt = elim (body st (tvlog_at tvlog cnt)) [
  | returns t ↦ elim t [
    | jumps st' ↦ returns (stops st')
    | goes_on st' ↦
        each_object tvlog body n st'
          (add_u64 cnt (get_entry_size (st'.memory.chs (tvlog_at tvlog cnt))))
  ]
  | no_space ↦ no_space
  | lost ↦ lost
  | out_of_fuel ↦ out_of_fuel
]

-- A loop over the write sets from position `start` up to `tail`, with the test that ends it in front of
-- a set. The result is the state and the position where the loop ends.
unfoldable pub each_set :
    ℕ
    → Tvlog
    → (Memory → ℕ → Bool)
    → (Memory → ℕ → State → ℕ → Outcome Turn)
    → ℕ
    → State
    → ℕ
    → Outcome (State × ℕ)
unfolding each_object
each_set zero tvlog ends body tail st start = out_of_fuel
each_set (suc fuel) tvlog ends body tail st start =
    let ws = tvlog_at tvlog start in
    let m = st.memory in
    elim (ltb start tail && not (ends m start)) [
      | false ↦ returns (st, start)
      | true ↦ elim (each_object tvlog (body m ws) (m.ws ws).num_objs st (ws_iter_begin m ws)) [
        | returns r ↦ elim r [
          | stops st' ↦ returns (st', start)
          | behind st' cnt ↦ each_set fuel tvlog ends body tail st' cnt
        ]
        | no_space ↦ no_space
        | lost ↦ lost
        | out_of_fuel ↦ out_of_fuel
      ]
    ]

-- The test of the first loop: the boundary is reached, or the write set is not committed.
abbrev pub ends_reclaim : Tvlog → Memory → ℕ → Bool
ends_reclaim tvlog m start =
    (start == tvlog.prev_head_cnt) || ((m.ws (tvlog_at tvlog start)).wrt_clk == max_version)

-- The test of the second loop: the write set is not committed before the checkpoint's clock.
abbrev pub ends_ckpt : Tvlog → ℕ → Memory → ℕ → Bool
ends_ckpt tvlog ckpt_s_clk m start =
    gte_clock (m.ws (tvlog_at tvlog start)).wrt_clk ckpt_s_clk
    || ((m.ws (tvlog_at tvlog start)).wrt_clk == max_version)

abbrev pub reclaim_body : ℕ → ℕ → ℕ → Memory → ℕ → State → ℕ → Outcome Turn
reclaim_body headers mode ckpt_s_clk m ws = reclaim_object headers mode (m.ws ws).wrt_clk ckpt_s_clk

abbrev pub ckpt_body : ℕ → ℕ → ℕ → ℕ → Memory → ℕ → State → ℕ → Outcome Turn
ckpt_body headers mode ckpt_s_clk last_ckpt_clk m ws =
    ckpt_object headers mode (m.ws ws).wrt_clk ckpt_s_clk last_ckpt_clk

-- Both logs and memory, with the requests that are made of the two reclamations, and the result.
pub record Reclaimed : Type 0 where
  pub memory : Memory
  pub tvlog : Tvlog
  pub ckptlog : Ckptlog
  pub tvlog_request : Option ℕ
  pub ckptlog_request : Option ℕ
  pub ret : ℕ

abbrev pub unchanged : Memory → Tvlog → Ckptlog → Reclaimed
unchanged m tvlog k = record {
  memory = m;
  tvlog = tvlog;
  ckptlog = k;
  tvlog_request = none;
  ckptlog_request = none;
  ret = 0;
}

-- What follows the loops, which end at `new_head_cnt` and `start_cnt`.
unfoldable pub end_reclaim : Tvlog → ℕ → State → ℕ → ℕ → Reclaimed
unfolding ckptlog_enq_persist tvlog_used
end_reclaim tvlog mode st new_head_cnt start_cnt =
    let t = record tvlog { prev_head_cnt = start_cnt; head_cnt = new_head_cnt } in
    let (k, request) = if st.dirty then ckptlog_enq_persist st.ckptlog else (st.ckptlog, none) in
    record {
      memory = st.memory;
      tvlog = record t { need_reclaim = 0; reclaim_lock = 0 };
      ckptlog = k;
      tvlog_request =
          if (new_head_cnt == tvlog.head_cnt)
            && ltb tvlog_low_mark (tvlog_used t)
            && (mode == reclaim_tvlog_best_effort)
          then some reclaim_tvlog_ckpt
          else none;
      ckptlog_request = request;
      ret = 1;
    }

unfoldable pub tvlog_reclaim_x : ℕ → ℕ → Memory → Tvlog → Ckptlog → ℕ → Outcome Reclaimed
unfolding each_set reclaim_object ckpt_object end_reclaim
tvlog_reclaim_x fuel headers m tvlog k mode =
    let s = k.clks.qp0 in
    let st : State = record { memory = m; ckptlog = k; dirty = false } in
    if (tvlog.need_reclaim == 0) || not (tvlog.reclaim_lock == 0)
    then returns (unchanged m tvlog k)
    else elim (each_set fuel tvlog (ends_reclaim tvlog) (reclaim_body headers mode s) tvlog.tail_cnt
        st tvlog.head_cnt) [
          | returns (st1, new_head_cnt) ↦
              elim (each_set fuel tvlog (ends_ckpt tvlog s)
                (ckpt_body headers mode s k.clks.last_ckpt) tvlog.tail_cnt st1 new_head_cnt) [
                  | returns (st2, start_cnt) ↦
                      returns (end_reclaim tvlog mode st2 new_head_cnt start_cnt)
                  | no_space ↦ no_space
                  | lost ↦ lost
                  | out_of_fuel ↦ out_of_fuel
                ]
          | no_space ↦ no_space
          | lost ↦ lost
          | out_of_fuel ↦ out_of_fuel
        ]

unfoldable pub tvlog_reclaim : ℕ → ℕ → Memory → Tvlog → Ckptlog → Outcome Reclaimed
unfolding tvlog_reclaim_x
tvlog_reclaim fuel headers m tvlog k =
    if tvlog.need_reclaim == reclaim_tvlog_best_effort
    then tvlog_reclaim_x fuel headers m tvlog k reclaim_tvlog_best_effort
    else if tvlog.need_reclaim == reclaim_tvlog_ckpt
    then tvlog_reclaim_x fuel headers m tvlog k reclaim_tvlog_ckpt
    else returns (unchanged m tvlog k)

-- The checkpoint log is reclaimed behind the version log, which may have asked for it.
unfoldable pub reclaim_ckptlog : ℕ → Alloc → Reclaimed → ℕ → Outcome Reclaimed
unfolding ckptlog_reclaim
reclaim_ckptlog fuel alloc r reclaim_cnt =
    if r.ckptlog.need_reclaim == 0
    then returns (record r { ret = reclaim_cnt })
    else elim (ckptlog_reclaim fuel alloc r.memory r.ckptlog) [
      | none ↦ out_of_fuel
      | some (m, k, ret) ↦ returns (record r { memory = m; ckptlog = k; ret = reclaim_cnt + 1 })
    ]

unfoldable pub reclaim_tvlog_ckptlog : ℕ → ℕ → Alloc → Memory → Tvlog → Ckptlog → Outcome Reclaimed
unfolding tvlog_reclaim reclaim_ckptlog
reclaim_tvlog_ckptlog fuel headers alloc m tvlog k =
    if tvlog.need_reclaim == 0
    then reclaim_ckptlog fuel alloc (unchanged m tvlog k) 0
    else elim (tvlog_reclaim fuel headers m tvlog k) [
      | returns r ↦ reclaim_ckptlog fuel alloc r 1
      | no_space ↦ no_space
      | lost ↦ lost
      | out_of_fuel ↦ out_of_fuel
    ]
