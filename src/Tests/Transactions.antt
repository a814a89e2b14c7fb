-- ===== src/Tests/Transactions.antt =====
-- The begin of a transaction that has to wait, and an operation that is recorded.
use timestone.Base.{
  true, ℕ, ◌+◌, ◌≤◌, ◌<◌, ◌≡◌, refl, Option, none, some, List, [], ◌∷◌, arith, update, ◌==◌,
  if◌then◌else◌, replicate,
}
use timestone.Config.{reclaim_tvlog_ckpt, tvlog_high_mark}
use timestone.Clock.{ordo_lt_clock}
use timestone.Qp.{SysClks, Reclaim}
use timestone.Memory.{Memory, get_entry_size, new_vhdr, detached}
use timestone.Nvlog.{nvlog_enq, make_entry_size, enq_fit, enq_entry}
use timestone.Oplog.{Oplog, oplog_enq}
use timestone.Tvlog.{tvlog_used}
use timestone.Tvlog.Reclaim.{
  Outcome, returns, Reclaimed, unchanged, tvlog_reclaim_x, tvlog_reclaim, reclaim_ckptlog,
  reclaim_tvlog_ckptlog,
}
use timestone.Tvlog.Wait.{Triggers, receive_tvlog, receive_ckptlog}
use timestone.Tvlog.Wait.Ends.{Counted, ended, asking}
use timestone.Transaction.{Thread}
use timestone.Transaction.Begin.{ts_begin, get_started, waiting_of, unasked, ts_begin-ended}
use timestone.Transaction.Operands.{
  opd_fits, ts_set_op, ts_alloc_operand, ts_memcpy_operand, memcpy_operands,
  oplog_enq-memcpy_operands,
}
use timestone.Tests.Reclamation.{the_copy, memory, tvlog, ckptlog, writer, oplog}

-- A thread whose version log is at its mark, with one write set in front of the old boundary, whose copy
-- is checkpointed; the trigger comes in round 1500.
abbrev full_memory : Memory
full_memory = record memory {
  vhdr = new_vhdr;
  chs = update memory.chs 128 (record the_copy { status = detached });
  ws = λ w. record (memory.ws w) { wrt_clk = if w == 0 then 10 else 2000000 };
}

abbrev reader : Thread
reader = record writer {
  tvlog = record tvlog { tail_cnt = 786560; prev_head_cnt = 256; need_reclaim = 0 };
}

abbrev sent : SysClks × Reclaim
sent = (ckptlog.clks, record { tvlog = reclaim_tvlog_ckpt; ckptlog = 0 })

abbrev trigger : Triggers
trigger t = if t == 1500 then some sent else none

abbrev reclaimed_of : Outcome Reclaimed → Reclaimed
reclaimed_of (returns r) = r
reclaimed_of _ = unchanged full_memory tvlog ckptlog

abbrev reclaimed : Reclaimed
reclaimed = reclaimed_of (
    reclaim_tvlog_ckptlog 2 64 (λ n. none) full_memory (receive_tvlog (some sent) reader.tvlog)
      (receive_ckptlog (some sent) ckptlog))

reclaim_run :
    reclaim_tvlog_ckptlog 2 64
      (λ n. none)
      full_memory
      (receive_tvlog (some sent) reader.tvlog)
      (receive_ckptlog (some sent) ckptlog)
    ≡ returns reclaimed
unfolding reclaim_tvlog_ckptlog tvlog_reclaim reclaim_ckptlog tvlog_reclaim_x ordo_lt_clock
    get_entry_size
reclaim_run = refl

low : tvlog_used reclaimed.tvlog ≡ 786304
unfolding reclaim_tvlog_ckptlog tvlog_reclaim reclaim_ckptlog tvlog_reclaim_x ordo_lt_clock
    get_entry_size tvlog_used
low = refl

high : tvlog_high_mark ≤ tvlog_used reader.tvlog
unfolding tvlog_used
high = omega arith

quiet : (t : ℕ) → t < 1500 → trigger t ≡ none
quiet t early = ground (arith, early)

ts_begin-ended_example :
    (k : ℕ) × Counted 0 0 k 1500
    × (ts_begin (λ t. 900000 + t) 2 64 (λ n. none) trigger 2000 2 full_memory reader
        ≡ returns (
            get_started
              (λ t. 900000 + t)
              reader
              (ended (asking (waiting_of (unasked full_memory reader))) reclaimed k 1500)))
ts_begin-ended_example =
    ts_begin-ended (λ t. 900000 + t) 2 64 (λ n. none) trigger 2000 0 full_memory reader sent
      reclaimed 1500 refl refl high quiet refl reclaim_run (λ e. ground (arith, e))
      (omega (arith, low)) (omega arith)

-- two operands, of two bytes and of one
abbrev recorder : Thread
recorder = record writer { op_info = record (writer.op_info) { opd = replicate 240 0 } }

abbrev operands : List (List ℕ)
operands = (1 ∷ 2 ∷ []) ∷ (3 ∷ []) ∷ []

abbrev enq_result : Oplog × Option ℕ
enq_result = oplog_enq oplog 20 30 (memcpy_operands (ts_set_op recorder 9) operands).op_info

enq_run : enq_result ≡ (enq_result.0, some 64)
unfolding oplog_enq nvlog_enq make_entry_size enq_fit enq_entry ts_set_op ts_memcpy_operand
    ts_alloc_operand
enq_run = refl

oplog_enq-memcpy_operands_example :
    (opd_fits (memcpy_operands (ts_set_op recorder 9) operands).op_info ≡ true)
    × ((enq_result.0.buffer 64).obj ≡ record { local_clk = 20; op_type = 9; opd = 1 ∷ 2 ∷ 3 ∷ [] })
oplog_enq-memcpy_operands_example =
    oplog_enq-memcpy_operands recorder 9 operands oplog enq_result.0 20 30 64 refl (omega arith)
      enq_run
