-- ===== src/Tests/Threads.antt =====
-- Threads with transactions, a quiescent period, and the region of the logs.
use timestone.Base.{ℕ, ◌+◌, ◌*◌, ◌≤◌, ◌≡◌, refl, some, [], ◌∷◌, arith, true, ltb, if◌then◌else◌}
use timestone.Clock.{correct_qp_clock, ordo_lt_clock}
use timestone.Qp.{
  SysClks, Reclaim, Thread, QpThread, History, init_thread, qp_init, wait_thread, qp_wait,
  qp_detect, advance_qp_clock,
}
use timestone.Qp.Grace.{Monotone, EndsBy, AllQuiet, qp_detect-AllQuiet, qp_wait-ends}
use timestone.Region.{Region, port_alloc_tvlog_mem, port_free_tvlog_mem}
use timestone.Region.Alloc.{Allocated, taken, port_alloc_tvlog_mem-Allocated}
use timestone.Region.Free.{slot_addr, port_free_tvlog_mem-later_word}

abbrev clks_from : ℕ → SysClks
clks_from c = record { qp0 = 40; qp1 = 30; qp2 = 20; last_ckpt = 10; min_ckpt_reclaimed = c }

abbrev no_request : Reclaim
no_request = record { tvlog = 0; ckptlog = 0 }

abbrev thread_of : ℕ → Thread
thread_of i = record {
  tid = i;
  need_wait = 0;
  saved_run_cnt = 0;
  clks = clks_from 7;
  reclaim = no_request;
}

abbrev qp_thread : QpThread
qp_thread = record { clks = clks_from 9; stop_requested = true; reclaim = no_request }

-- Every transaction runs until time 3.
abbrev history : History
history i t = record { run_cnt = if ltb t 3 then 1 else 2; local_clk = 5 }

history-Monotone : Monotone history
history-Monotone i s t le = ground (arith, le)

history-EndsBy : EndsBy history 0 3
history-EndsBy i u late odd = ground (arith, late)

detect_run :
    qp_detect 5 history 50 0 qp_thread (thread_of 0 ∷ thread_of 1 ∷ [])
    ≡ some (record qp_thread { clks = advance_qp_clock (clks_from 9) (correct_qp_clock 50) }, 3)
unfolding qp_detect qp_wait qp_init init_thread wait_thread advance_qp_clock ordo_lt_clock
detect_run = refl

qp_detect-AllQuiet_example :
    (0 ≤ 3)
    × AllQuiet history 50 0 3 (thread_of 0 ∷ thread_of 1 ∷ [])
    × ((advance_qp_clock (clks_from 9) (correct_qp_clock 50)).qp0 ≡ correct_qp_clock 50)
    × ((advance_qp_clock (clks_from 9) (correct_qp_clock 50)).qp1 ≡ qp_thread.clks.qp0)
    × ((advance_qp_clock (clks_from 9) (correct_qp_clock 50)).qp2 ≡ qp_thread.clks.qp1)
qp_detect-AllQuiet_example =
    qp_detect-AllQuiet 5 history 50 0 qp_thread (thread_of 0 ∷ thread_of 1 ∷ []) history-Monotone
      {qp' = record qp_thread { clks = advance_qp_clock (clks_from 9) (correct_qp_clock 50) }}
      {u = 3} detect_run

qp_wait-ends_example :
    (u : ℕ) × (qp_wait 5 history 50 (qp_init history 0 (thread_of 0 ∷ thread_of 1 ∷ [])) 0 ≡ some u)
qp_wait-ends_example =
    qp_wait-ends 5 history 50 0 3 (thread_of 0 ∷ thread_of 1 ∷ []) 0 history-EndsBy (omega arith)
      (omega arith)

-- 128 slots, of which those below 66 are taken
abbrev region : Region
region = record {
  start_addr = 4096;
  size = 1048576;
  num = 128;
  bitmap = λ i. λ j. ltb (i * 64 + j) 66;
}

port_alloc_tvlog_mem-Allocated_example :
    Allocated region (port_alloc_tvlog_mem region).0 (port_alloc_tvlog_mem region).1
port_alloc_tvlog_mem-Allocated_example = port_alloc_tvlog_mem-Allocated region

port_free_tvlog_mem-later_word_example :
    taken (port_free_tvlog_mem region (slot_addr region 65)) 65 ≡ taken region 65
port_free_tvlog_mem-later_word_example =
    port_free_tvlog_mem-later_word region 65 (omega arith) (omega arith) (omega arith)
