-- ===== src/Tests/Rounds.antt =====
-- The end of a commit, a round of the detecting thread, an array of objects, and the opening of a heap.
use timestone.Base.{
  ◌<◌, inl, ℕ, zero, suc, ◌≡◌, ◌≢◌, refl, Bool, true, false, none, some, List, [], ◌∷◌, arith, ◌==◌,
  ltb, if◌then◌else◌,
}
use timestone.Config.{copy, max_version, reclaim_tvlog_ckpt}
use timestone.Clock.{correct_qp_clock, ordo_lt_clock}
use timestone.Memory.{get_entry_size, Memory, Obj, new_vhdr}
use timestone.Tvlog.{Tvlog, zero_chs}
use timestone.Tvlog.WriteSet.{ws_unlock_commit}
use timestone.Tvlog.Layout.{IsWriteSet}
use timestone.Tvlog.Abort.{Spared}
use timestone.Tvlog.Publish.{AllPublic, SameHeader, ws_unlock_commit-AllPublic}
use timestone.Qp.{
  SysClks, Thread, QpThread, History, init_thread, qp_init, wait_thread, qp_wait, qp_detect,
  advance_qp_clock,
}
use timestone.Qp.Main.{Env, RoundEnd, qp_round}
use timestone.Qp.Main.Order.{AllDone, Rounded, qp_round-Rounded}
use timestone.Objects.{ts_get_base_addr, ts_get_offset, ts_get_index}
use timestone.Objects.Arrays.{element, IsArray, ts_get_offset-element}
use timestone.Nvm.{Root, nvpool_magic, nvm_init_heap}
use timestone.Nvm.Crash.{before_barrier, Empty, nvm_init_heap-Empty}

-- Elements of 64 bytes from address 64 on; the copy at 64 is of object 7, with the clock pending.
abbrev memory : Memory
memory = record {
  act = λ a. record {
    p_act_vhdr = none;
    gen_id = 0;
    index = if a == 64 then 0 else if a == 128 then 1 else 2;
    obj_size = 32;
    obj = [];
  };
  vhdr = λ v. record (new_vhdr 128) { p_lock = some 64 };
  chs = λ c. record zero_chs {
    type = copy;
    p_act_vhdr = 7;
    wrt_clk = max_version;
    obj_size = 32;
    padding_size = 32;
  };
  ws = λ w. record {
    wrt_clk = 5;
    pending_wrt_clk = 5;
    num_objs = 1;
    start_tail_cnt = 0;
    thread = 0;
  };
  ckpt = λ e. record {
    wrt_clk = 0;
    ckpt_s_clk = 0;
    np_org_act = 0;
    tombstone = false;
    obj_size = 32;
    obj = [];
  };
}

abbrev ring : Tvlog
ring = record {
  base = 0;
  head_cnt = 0;
  tail_cnt = 128;
  prev_head_cnt = 0;
  reclaim_lock = 0;
  need_reclaim = 0;
  cur_wrt_set = some 0;
  thread = 0;
}

ring-IsWriteSet : IsWriteSet ring memory 0 (64 ∷ [])
unfolding get_entry_size
ring-IsWriteSet = record { objects = (refl, refl); count = refl }

ws_unlock_commit-AllPublic_example :
    AllPublic 5 memory (ws_unlock_commit ring memory 0) (64 ∷ [])
    × Spared memory (ws_unlock_commit ring memory 0) (64 ∷ [])
    × ((d : ℕ) → SameHeader memory (ws_unlock_commit ring memory 0) d)
ws_unlock_commit-AllPublic_example =
    ws_unlock_commit-AllPublic ring memory 0 (64 ∷ []) ring-IsWriteSet ((λ e. inl refl), tt)

abbrev qp_clks : SysClks
qp_clks = record { qp0 = 40; qp1 = 30; qp2 = 20; last_ckpt = 10; min_ckpt_reclaimed = 9 }

abbrev qp_thread : QpThread
qp_thread = record {
  clks = qp_clks;
  stop_requested = true;
  reclaim = record { tvlog = reclaim_tvlog_ckpt; ckptlog = 0 };
}

abbrev running : Thread
running = record {
  tid = 1;
  need_wait = 0;
  saved_run_cnt = 0;
  clks = qp_clks;
  reclaim = record { tvlog = 0; ckptlog = 0 };
}

-- The transaction runs until time 3.
abbrev history : History
history i t = record { run_cnt = if ltb t 3 then 1 else 2; local_clk = 5 }

abbrev finish_all : List Thread → List Thread
finish_all [] = []
finish_all (th ∷ ths) = record th { reclaim = record { tvlog = 0; ckptlog = 0 } } ∷ finish_all ths

finish_all-AllDone : (ths : List Thread) → AllDone (finish_all ths)
finish_all-AllDone [] = tt
finish_all-AllDone (th ∷ ths) = (refl, finish_all-AllDone ths)

abbrev env : Env
env = record { history = history; qp0_clk = 5000; start = 0; work = finish_all }

detected :
    qp_detect 5 history 5000 0 qp_thread (running ∷ [])
    ≡ some (record qp_thread { clks = advance_qp_clock qp_clks (correct_qp_clock 5000) }, 3)
unfolding qp_detect qp_wait qp_init init_thread wait_thread advance_qp_clock ordo_lt_clock
detected = refl

qp_round-Rounded_example :
    (r : RoundEnd) × (qp_round 5 env qp_thread (running ∷ []) ≡ some r)
    × Rounded true (advance_qp_clock qp_clks (correct_qp_clock 5000)) r
qp_round-Rounded_example =
    qp_round-Rounded 5 env qp_thread (running ∷ [])
      {qp1 = record qp_thread { clks = advance_qp_clock qp_clks (correct_qp_clock 5000) }} {t = 3}
      (record { second = omega arith; first = omega arith; checkpoint = omega arith }) (omega arith)
      (omega arith) detected finish_all-AllDone

element_index : (i : ℕ) → i < 3 → (memory.act (element 32 32 64 i)).index ≡ i
element_index zero inside = refl
element_index (suc zero) inside = refl
element_index (suc (suc zero)) inside = refl
element_index (suc (suc (suc i))) inside = omega (arith, inside)

elements : IsArray 32 memory 64 32 3
elements = record {
  sizes = omega arith;
  few = omega arith;
  ends = λ i inside. omega (arith, inside);
  index = element_index;
  obj_size = λ i inside. refl;
}

-- from the copy of element 1 to element 2
ts_get_offset-element_example :
    (ts_get_base_addr 32 memory (Obj.cpy 64) ≡ some 64)
    × (ts_get_offset 32 memory (Obj.cpy 64) 2 ≡ some 192)
    × (ts_get_index memory 192 ≡ 2)
ts_get_offset-element_example =
    ts_get_offset-element 32 memory 64 32 3 1 2 (Obj.cpy 64) elements (omega arith) (omega arith)
      refl

-- a heap that another version has left, and a crash before the first barrier
abbrev old_root : Root
old_root = record { magic = 1; gen_id = 7; next = 1000; last_ckpt_clk = 5 }

abbrev torn_root : Root
torn_root = record { magic = 1; gen_id = 7; next = 0; last_ckpt_clk = 5 }

bad_magic : 1 ≢ nvpool_magic
bad_magic e = ground (arith, e)

nvm_init_heap-Empty_example :
    (root : Root) × (need_recovery : Bool) × (nvm_init_heap (some torn_root) false false
      ≡ some (root, need_recovery))
    × Empty root
nvm_init_heap-Empty_example =
    nvm_init_heap-Empty old_root torn_root false false bad_magic (before_barrier false true false)
