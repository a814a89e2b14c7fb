-- ===== src/Oplog.antt =====
-- lib/oplog.c: the log of operations that have committed since the last checkpoint.
pub mod Reclaim
use timestone.Base.{
  ℕ, zero, suc, ◌+◌, ◌-◌, ◌^◌, Bool, true, false, ◌&&◌, ◌||◌, Option, none, some, List, [], ◌∷◌,
  ltb, leb, ◌==◌, if◌then◌else◌, add_u32, update, take,
}
use timestone.Config.{oplog_high_mark, reclaim_tvlog_ckpt}
use timestone.Clock.{lt_clock}
use timestone.Nvlog.{
  Entry, Nvlog, nvlog_used, nvlog_enq, nvlog_enq_persist, nvlog_deq, nvlog_deq_persist,
  nvlog_peek_head,
}

-- ts_op_entry_hdr_t, with its operands as bytes
pub record Op : Type 0 where
  pub local_clk : ℕ
  pub op_type : ℕ
  pub opd : List ℕ

-- ts_op_info_t: what the transaction has recorded of its operation
pub record OpInfo : Type 0 where
  pub curr : ℕ
  pub op_type : ℕ
  pub opd : List ℕ

abbrev pub Oplog : Type 0
Oplog = Nvlog Op

-- sizeof(ts_op_entry_hdr_t)
abbrev pub op_entry_hdr_size : ℕ
op_entry_hdr_size = 16

-- the two modes of a reclamation
pub data Force : Type 0 where
  normal force : Force

abbrev pub is_force : Force → Bool
is_force normal = false
is_force force = true

-- the stores into the entry that was reserved
abbrev pub init_op_entry : Oplog → ℕ → ℕ → ℕ → OpInfo → Oplog
init_op_entry l i local_clk wrt_clk info = record l {
  buffer = update l.buffer i (record (l.buffer i) {
    wrt_clk = wrt_clk;
    obj = record { local_clk = local_clk; op_type = info.op_type; opd = take info.curr info.opd };
  });
}

-- NULL is `none`. The assertion in front, that the operands are fewer bytes than TS_MAX_OPERAND_SIZE, is
-- `opd_fits` of Transaction/Operands.
unfoldable pub oplog_enq : Oplog → ℕ → ℕ → OpInfo → Oplog × Option ℕ
oplog_enq oplog local_clk wrt_clk info =
    let (l, r) = nvlog_enq oplog (add_u32 op_entry_hdr_size info.curr) in
    elim r [ none ↦ (l, none) | some i ↦ (init_op_entry l i local_clk wrt_clk info, some i) ]

-- The loop that dequeues the entries older than the last checkpoint, on fuel: `none` is a loop that
-- would go on.
unfoldable pub reclaim_ops : ℕ → Oplog → ℕ → Force → Option Oplog
reclaim_ops zero l last_ckpt f = none
reclaim_ops (suc fuel) l last_ckpt f =
    let (l', r) = nvlog_peek_head l in
    elim r [
      | none ↦ some l'
      | some i ↦
          let rest = reclaim_ops fuel (nvlog_deq l').0 last_ckpt f in
          if lt_clock (l'.buffer i).wrt_clk last_ckpt || is_force f then rest else some l'
    ]

abbrev pub set_lock : Oplog → ℕ → Oplog
set_lock l v = record l { reclaim_lock = v }

-- What follows the loop: persist the head if it moved, and unlock.
abbrev pub end_reclaim : ℕ → Option Oplog → Option (Oplog × ℕ)
end_reclaim old_head_cnt none = none
end_reclaim old_head_cnt (some l) =
    some (set_lock (if l.head_cnt == old_head_cnt then l else nvlog_deq_persist l) 0, 1)

-- The result is 0 where another thread holds the lock. `last_ckpt` is the thread's copy of the last
-- checkpoint's clock.
unfoldable pub oplog_reclaim : ℕ → Oplog → ℕ → Force → Option (Oplog × ℕ)
oplog_reclaim fuel oplog last_ckpt f =
    if oplog.reclaim_lock == 0
    then end_reclaim oplog.head_cnt (reclaim_ops fuel (set_lock oplog 1) last_ckpt f)
    else some (oplog, 0)

-- The second result says whether a checkpoint has to be requested.
unfoldable pub oplog_try_request_ckpt_if_needed : ℕ → Oplog → ℕ → Option (Oplog × Bool)
oplog_try_request_ckpt_if_needed fuel oplog last_ckpt =
    if leb oplog_high_mark (nvlog_used oplog)
    then elim (oplog_reclaim fuel oplog last_ckpt normal) [
      | none ↦ none
      | some (l, ret) ↦ some (l, leb oplog_high_mark (nvlog_used l))
    ]
    else some (oplog, false)
