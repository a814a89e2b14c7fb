-- ===== src/Tests/Zombies.antt =====
-- One live thread, at 30, and two zombies: 20, which was given up, and 10.
use timestone.Base.{ℕ, ◌≡◌, ◌≢◌, refl, true, false, none, some, [], ◌∷◌, arith, update, ◌⊎◌, inr}
use timestone.Config.{copy}
use timestone.PtrSet.{Alloc}
use timestone.Nvlog.Create.{
  Heap, Node, ends, nvlog_store_create, nvlog_store_destroy, deadlock, is_power_of_2,
}
use timestone.Nvlog.Create.Linked.{none_left, and_one, Stores}
use timestone.Nvlog.Create.Created.{
  Created, nvlog_store_create-Created, nvlog_store_create_no_memory,
}
use timestone.Nvlog.Create.Destroyed.{Destroyed, nvlog_store_destroy-Destroyed}
use timestone.Memory.{Memory, new_vhdr}
use timestone.Qp.{SysClks}
use timestone.Tvlog.{zero_chs, tvlog_used}
use timestone.Links.{Links, ts_list_rotate_left}
use timestone.Links.Chains.{◌∈◌, Link, stop, step}
use timestone.Links.Rings.{IsRing, ts_list_rotate_left-IsRing}
use timestone.Threads.{World, ThreadList, deregister_thread, zombinize_thread}
use timestone.Threads.Moves.{Lists, deregister_thread-zombinize_thread}
use timestone.Zombies.{
  State, Remains, LiveStatus, live_zombie, dead_zombie, qp_reap_zombie_threads, ts_thread_free,
}
use timestone.Zombies.Walk.{nobody_waits}
use timestone.Zombies.Returns.{HeapOk}
use timestone.Zombies.Reap.{qp_reap_zombie_threads-Reaped}
use timestone.Zombies.Dangling.{ts_thread_free_linked}

-- The nodes 1 and 2 are the heads of the live threads and of the zombies.
abbrev links : Links
links = record {
  next = update (update (update (update (λ q. 1) 1 30) 2 20) 20 10) 10 2;
  prev = update (update (update (update (λ q. 1) 1 30) 2 10) 20 2) 10 20;
}

Link-1 : Link links 1 30
Link-1 = record { onward = refl; back = refl }

Link-30 : Link links 30 1
Link-30 = record { onward = refl; back = refl }

Link-2 : Link links 2 20
Link-2 = record { onward = refl; back = refl }

Link-20 : Link links 20 10
Link-20 = record { onward = refl; back = refl }

Link-10 : Link links 10 2
Link-10 = record { onward = refl; back = refl }

live_ring : IsRing links 1 (30 ∷ [])
live_ring = record { chain = step Link-1 (stop Link-30); distinct = (refl, (refl, tt)) }

zombie_ring : IsRing links 2 (20 ∷ 10 ∷ [])
zombie_ring = record {
  chain = step Link-2 (step Link-20 (stop Link-10));
  distinct = (refl, (refl, (refl, tt)));
}

ts_list_rotate_left-IsRing_example : IsRing (ts_list_rotate_left links 2) 2 (10 ∷ 20 ∷ [])
ts_list_rotate_left-IsRing_example = ts_list_rotate_left-IsRing zombie_ring

abbrev list_at : ℕ → ℕ → ThreadList
list_at head num = record { head = head; locked = false; thread_wait = 0; cur_tid = 3; num = num }

abbrev world : World
world = record {
  threads = record { links = links; tid = λ q. 0 };
  live = list_at 1 1;
  zombies = list_at 2 2;
}

world-Lists : Lists world (30 ∷ []) (20 ∷ 10 ∷ [])
world-Lists = record {
  live = record {
    ring = live_ring;
    num = refl;
    unlocked = refl;
    nobody_waits = refl;
    few = omega arith;
  };
  zombies = record {
    ring = zombie_ring;
    num = refl;
    unlocked = refl;
    nobody_waits = refl;
    few = omega arith;
  };
  apart = λ q m. ground arith;
}

deregister_thread-zombinize_thread_example :
    Lists (zombinize_thread true (deregister_thread false world 30) 30) [] (30 ∷ 20 ∷ 10 ∷ [])
deregister_thread-zombinize_thread_example =
    deregister_thread-zombinize_thread false true world [] 30 [] (20 ∷ 10 ∷ []) world-Lists
      (omega arith)

-- Two stores, at 100 and 200.
abbrev node_at : ℕ → ℕ → Node
node_at next allocation = record {
  log = record { head_cnt = 0; tail_cnt = 0; log_size = 4096; type = 1; status = 0 };
  next = next;
  buffer = allocation;
  allocation = allocation;
}

abbrev heap : Heap
heap = record {
  root_next = 100;
  node = update (update (λ q. node_at 0 0) 100 (node_at 200 1000)) 200 (node_at 0 2000);
  locked = false;
  allocs = 0;
  freed = [];
}

heap-Stores : Stores heap (100 ∷ 200 ∷ [])
heap-Stores = record {
  linked = and_one (omega arith) (and_one (omega arith) none_left);
  distinct = (refl, (refl, tt));
}

nvlog_store_destroy-Destroyed_example :
    (r' : Heap) × (nvlog_store_destroy 3 heap 200 ≡ ends r')
    × Destroyed heap r' (100 ∷ []) (2000 ∷ 200 ∷ [])
nvlog_store_destroy-Destroyed_example =
    nvlog_store_destroy-Destroyed 3 heap (100 ∷ []) 200 [] heap-Stores (omega arith) refl
      (omega arith)

-- The allocator gives 300, and then 5000.
abbrev two_allocations : ℕ → ℕ
two_allocations = update (λ k. 0) 0 300

abbrev all_allocations : ℕ → ℕ
all_allocations = update two_allocations 1 5000

power_lem : is_power_of_2 4096 ≡ true
unfolding is_power_of_2
power_lem = refl

nvlog_store_create-Created_example :
    (r' : Heap) × (nvlog_store_create 3 all_allocations heap 4096 1 0 ≡ ends (r', 300))
    × Created heap r' (100 ∷ 200 ∷ []) 300 5000 4096 1 0
nvlog_store_create-Created_example =
    nvlog_store_create-Created 3 all_allocations heap (100 ∷ 200 ∷ []) 4096 1 0 heap-Stores
      power_lem refl (omega arith) refl (omega arith) (omega arith)

-- The second allocation fails.
nvlog_store_create_no_memory_example :
    ((two_allocations 0 ≡ 0)
      × (nvlog_store_create 3 two_allocations heap 4096 1 0
          ≡ ends (record heap { locked = true; allocs = 1 }, 0)))
    ⊎ ((two_allocations 0 ≢ 0) × (nvlog_store_create 3 two_allocations heap 4096 1 0 ≡ deadlock))
nvlog_store_create_no_memory_example =
    nvlog_store_create_no_memory 3 two_allocations heap 4096 1 0 power_lem refl (inr refl)

abbrev clks : SysClks
clks = record { qp0 = 9; qp1 = 8; qp2 = 7; last_ckpt = 6; min_ckpt_reclaimed = 5 }

abbrev empty_logs : LiveStatus → ℕ → Remains
empty_logs status store = record {
  tvlog = record {
    base = 0;
    head_cnt = 512;
    tail_cnt = 512;
    prev_head_cnt = 0;
    reclaim_lock = 0;
    need_reclaim = 0;
    cur_wrt_set = none;
    thread = 0;
  };
  buffer = some 8192;
  ckptlog = record {
    log = record {
      head_cnt = 64;
      tail_cnt = 64;
      prev_head_cnt = 0;
      reclaim_lock = 0;
      nvlog_store = record { head_cnt = 64; tail_cnt = 64; log_size = 4096; type = 2; status = 0 };
      buffer = λ i. record { wrt_clk = 0; size = 0; type = copy; obj = tt };
      log_size = 4096;
      type = 2;
      status = 0;
    };
    base = 10000;
    free_set = record { num_ptrs = 0; num_max_ptrs = 0; ptrs = none };
    need_reclaim = 0;
    clks = clks;
  };
  ckptlog_store = store;
  oplog_store = 0;
  live_status = status;
}

abbrev memory : Memory
memory = record {
  act = λ a. record { p_act_vhdr = none; gen_id = 0; index = 0; obj_size = 0; obj = [] };
  vhdr = new_vhdr;
  chs = λ c. zero_chs;
  ws = λ w. record {
    wrt_clk = 0;
    pending_wrt_clk = 0;
    num_objs = 0;
    start_tail_cnt = 0;
    thread = 0;
  };
  ckpt = λ e. record {
    wrt_clk = 0;
    ckpt_s_clk = 0;
    np_org_act = 0;
    tombstone = false;
    obj_size = 0;
    obj = [];
  };
}

abbrev state : State
state = record {
  memory = memory;
  heap = heap;
  region = record { start_addr = 4096; size = 1024; num = 128; bitmap = λ i. λ j. true };
  world = world;
  remains = update (λ q. empty_logs live_zombie 100) 20 (empty_logs dead_zombie 200);
  freed = [];
  freed_headers = [];
}

heap-HeapOk : HeapOk 9 heap
heap-HeapOk = record {
  ss = 100 ∷ 200 ∷ [];
  stores = heap-Stores;
  free = refl;
  enough = omega arith;
}

abbrev no_alloc : Alloc
no_alloc n = none

qp_reap_zombie_threads-Reaped_example :
    (s' : State) × (qp_reap_zombie_threads nobody_waits clks 9 64 no_alloc 3 state ≡ some s')
    × Lists s'.world (30 ∷ []) (10 ∷ [])
    × (s'.freed ≡ 20 ∷ [])
unfolding tvlog_used
qp_reap_zombie_threads-Reaped_example =
    qp_reap_zombie_threads-Reaped clks 9 64 no_alloc 3 state (30 ∷ []) (20 ∷ 10 ∷ []) world-Lists
      (refl, (refl, tt)) heap-HeapOk (omega arith)

ts_thread_free_linked_example :
    (s' : State) × (ts_thread_free 9 state 10 ≡ some s')
    × (10 ∈ s'.freed)
    × Lists s'.world (30 ∷ []) (20 ∷ 10 ∷ [])
unfolding tvlog_used
ts_thread_free_linked_example =
    ts_thread_free_linked 9 state 10 (30 ∷ []) (20 ∷ 10 ∷ []) world-Lists refl refl heap-HeapOk
