-- ===== src/Tests/Reclamation.antt =====
-- A version log of one committed write set, whose copy is the newest version of its object.
use timestone.Base.{
  inl, ℕ, ◌+◌, ◌≡◌, ◌↔◌, refl, true, false, Option, none, some, [], ◌∷◌, arith, update,
}
use timestone.Config.{copy, wrt_set, max_version, reclaim_tvlog_ckpt}
use timestone.Clock.{ordo_lt_clock, lt_clock, get_wrt_clk}
use timestone.PtrSet.{PtrSet}
use timestone.Oplog.{Op, Oplog}
use timestone.Transaction.{Thread, Boundary, ts_abort}
use timestone.Transaction.Abort.{Clean, ts_abort-Clean}
use timestone.Nvlog.Append.{Holds}
use timestone.Memory.{Memory, Obj, Chs, get_entry_size, new_vhdr}
use timestone.Nvlog.{Entry, nvlog_enq, make_entry_size, enq_fit, enq_entry}
use timestone.Ckptlog.{Ckptlog, ckptlog_enq}
use timestone.Tvlog.{Tvlog, zero_chs}
use timestone.Tvlog.WriteSet.{try_detach_obj}
use timestone.Tvlog.Layout.{IsWriteSet}
use timestone.Version.{deref, clock_of}
use timestone.Version.Checkpoint.{bytes_read, ckptlog_enq-try_detach_obj-deref}
use timestone.Tvlog.Borderline.{is_at_borderline, get_ckpt_chs}
use timestone.Tvlog.Borderline.Agree.{is_at_borderline-get_ckpt_chs}
use timestone.Tvlog.Reclaim.{Outcome, returns, Reclaimed, tvlog_reclaim_x}

abbrev ws_header : Chs
ws_header = record zero_chs { obj_size = 40; padding_size = 88; type = wrt_set }

abbrev pub the_copy : Chs
the_copy = record zero_chs {
  wrt_clk = 10;
  wrt_clk_prev = max_version;
  p_act_vhdr = 7;
  obj_size = 2;
  padding_size = 126;
  type = copy;
  obj = 3 ∷ 4 ∷ [];
}

abbrev pub memory : Memory
memory = record {
  act = λ a. record { p_act_vhdr = some a; gen_id = 0; index = 0; obj_size = 2; obj = 1 ∷ 2 ∷ [] };
  vhdr = update new_vhdr 7 (record (new_vhdr 7) { p_copy = some 128 });
  chs = update (update (λ c. zero_chs) 0 ws_header) 128 the_copy;
  ws = λ w. record {
    wrt_clk = 10;
    pending_wrt_clk = 10;
    num_objs = 1;
    start_tail_cnt = 0;
    thread = 0;
  };
  ckpt = λ e. record {
    wrt_clk = 0;
    ckpt_s_clk = 0;
    np_org_act = 0;
    tombstone = false;
    obj_size = 0;
    obj = [];
  };
}

abbrev pub tvlog : Tvlog
tvlog = record {
  base = 0;
  head_cnt = 0;
  tail_cnt = 256;
  prev_head_cnt = 0;
  reclaim_lock = 0;
  need_reclaim = reclaim_tvlog_ckpt;
  cur_wrt_set = none;
  thread = 0;
}

abbrev pub ckptlog : Ckptlog
ckptlog = record {
  log = record {
    head_cnt = 0;
    tail_cnt = 0;
    prev_head_cnt = 0;
    reclaim_lock = 0;
    nvlog_store = record { head_cnt = 0; tail_cnt = 0; log_size = 4096; type = 0; status = 0 };
    buffer = λ i. record { wrt_clk = 0; size = 0; type = copy; obj = tt };
    log_size = 4096;
    type = 0;
    status = 0;
  };
  base = 10000;
  free_set = record { num_ptrs = 0; num_max_ptrs = 0; ptrs = none };
  need_reclaim = 0;
  clks = record { qp0 = 900000; qp1 = 0; qp2 = 0; last_ckpt = 0; min_ckpt_reclaimed = 0 };
}

is_at_borderline-get_ckpt_chs_example :
    (is_at_borderline memory 128 900000 0 ≡ true)
    ↔ (get_ckpt_chs 1 memory 128 900000 0 ≡ some (some 128))
unfolding ordo_lt_clock
is_at_borderline-get_ckpt_chs_example =
    is_at_borderline-get_ckpt_chs memory 900000 0 1 128 [] [] (refl, refl, tt) (refl, tt)
      ((λ bad. omega (arith, bad)), tt) refl (omega arith)

-- The reclamation returns, with the copy in the checkpoint log and the boundary at the tail.
abbrev prev_head_of : Outcome Reclaimed → ℕ
prev_head_of (returns r) = r.tvlog.prev_head_cnt + r.ckptlog.log.tail_cnt
prev_head_of _ = 0

reclaims_one :
    prev_head_of (tvlog_reclaim_x 2 64 memory tvlog ckptlog reclaim_tvlog_ckpt) ≡ 256 + 128
unfolding tvlog_reclaim_x ordo_lt_clock get_entry_size nvlog_enq make_entry_size enq_fit enq_entry
reclaims_one = refl

abbrev enq_result : Ckptlog × Memory × Option ℕ
enq_result = ckptlog_enq 64 ckptlog memory 10 900000 128

enq_result_lem : enq_result ≡ (enq_result.0, enq_result.1, some 10000)
unfolding ckptlog_enq nvlog_enq make_entry_size enq_fit enq_entry
enq_result_lem = refl

clock_of_copy : clock_of memory 128 950000 ≡ some 10
unfolding get_wrt_clk
clock_of_copy = refl

clock_lem : lt_clock 10 950000 ≡ true
unfolding ordo_lt_clock
clock_lem = refl

ckptlog_enq-try_detach_obj-deref_example :
    bytes_read
      (try_detach_obj enq_result.1 128)
      (deref 0 (try_detach_obj enq_result.1 128) 0 950000 (some (Obj.act 7)))
    ≡ bytes_read memory (deref 1 memory 0 950000 (some (Obj.act 7)))
ckptlog_enq-try_detach_obj-deref_example =
    ckptlog_enq-try_detach_obj-deref 64 0 0 950000 10 ckptlog enq_result.0 memory enq_result.1 10
      900000 128 10000 7 enq_result_lem refl refl refl clock_of_copy clock_lem

-- A transaction that has a write set, in a thread with an operation from before the last checkpoint.
abbrev old_op : Entry Op
old_op = record {
  wrt_clk = 5;
  size = 64;
  type = copy;
  obj = record { local_clk = 3; op_type = 1; opd = [] };
}

abbrev pub oplog : Oplog
oplog = record {
  head_cnt = 0;
  tail_cnt = 64;
  prev_head_cnt = 0;
  reclaim_lock = 0;
  nvlog_store = record { head_cnt = 0; tail_cnt = 64; log_size = 256; type = 1; status = 0 };
  buffer = λ i. old_op;
  log_size = 256;
  type = 1;
  status = 0;
}

oplog-Holds : Holds oplog (old_op ∷ [])
oplog-Holds = record {
  nonempty = omega arith;
  small = omega arith;
  chain = (refl, record { positive = omega arith; inside = omega arith; filler = λ e. cc }, refl);
}

abbrev no_ptrs : PtrSet
no_ptrs = record { num_ptrs = 0; num_max_ptrs = 0; ptrs = none }

abbrev pub writer : Thread
writer = record {
  in_recovery_mode = false;
  is_write_detected = true;
  tx_alloc_set = no_ptrs;
  tx_free_set = no_ptrs;
  op_info = record { curr = 0; op_type = 1; opd = [] };
  run_cnt = 7;
  local_clk = 20;
  tvlog = record tvlog { cur_wrt_set = some 0; need_reclaim = 0 };
  oplog = oplog;
  ckptlog = ckptlog;
}

abbrev held_memory : Memory
held_memory = record memory {
  vhdr = update memory.vhdr 7 (record (memory.vhdr 7) { p_lock = some 128 });
}

held-IsWriteSet : IsWriteSet writer.tvlog held_memory 0 (128 ∷ [])
unfolding get_entry_size
held-IsWriteSet = record { objects = (refl, refl); count = refl }

ts_abort-Clean_example :
    (b : Boundary) × (ts_abort 2 64 (λ n. none) held_memory writer ≡ returns b)
    × Clean held_memory writer 0 (128 ∷ []) (old_op ∷ []) b
ts_abort-Clean_example =
    ts_abort-Clean 2 64 (λ n. none) held_memory writer 0 (128 ∷ []) (old_op ∷ []) held-IsWriteSet
      ((λ e. inl refl), tt) refl refl refl refl oplog-Holds (omega arith) (omega arith) refl
