-- ===== src/Zombies.antt =====
-- lib/qp.c and lib/timestone.c: what becomes of a thread that ends, and the pass of the detecting
-- thread over the zombies. `none` is a call that does not come back: a mutex that the thread holds
-- itself, a full checkpoint log, a lost master, or a loop that runs out of fuel.

pub mod Bury
pub mod Walk
pub mod Returns
pub mod Reap
pub mod Dangling
use timestone.Base.{
  ℕ, zero, suc, ◌+◌, Bool, true, false, not, ◌&&◌, ◌||◌, Option, none, some, List, [], ◌∷◌, ◌++◌,
  ◌==◌, if◌then◌else◌, update,
}
use timestone.Config.{max_version, reclaim_tvlog_ckpt, reclaim_ckptlog_writeback_all}
use timestone.PtrSet.{Alloc}
use timestone.Region.{Region, port_free_tvlog_mem}
use timestone.Nvlog.{nvlog_used}
use timestone.Nvlog.Create.{Heap, ends, deadlock, out_of_fuel, nvlog_store_destroy}
use timestone.Memory.{Memory}
use timestone.Qp.{SysClks}
use timestone.Ckptlog.{Ckptlog, ckptlog_cleanup, ckptlog_reclaim}
use timestone.Tvlog.{Tvlog, tvlog_used}
use timestone.Tvlog.Reclaim.{Reclaimed, unchanged, tvlog_reclaim}
use timestone.Tvlog.Reclaim
use timestone.Threads.{
  World, thread_list_lock_force, thread_list_unlock, thread_list_del_unsafe, deregister_thread,
  zombinize_thread,
}

pub data LiveStatus : Type 0 where
  live live_zombie dead_zombie : LiveStatus

-- What a thread that ends still has: its logs, the memory of its version log and the stores of the
-- other two, each until it is destroyed (0 is NULL), and its status.
pub record Remains : Type 0 where
  pub tvlog : Tvlog
  pub buffer : Option ℕ
  pub ckptlog : Ckptlog
  pub ckptlog_store : ℕ
  pub oplog_store : ℕ
  pub live_status : LiveStatus

-- The lists, the remains of each thread, and what was freed: threads, and headers with their masters.
pub record State : Type 0 where
  pub memory : Memory
  pub heap : Heap
  pub region : Region
  pub world : World
  pub remains : ℕ → Remains
  pub freed : List ℕ
  pub freed_headers : List ℕ

abbrev pub set_remains : State → ℕ → Remains → State
set_remains s self z = record s { remains = update s.remains self z }

abbrev pub logs_empty : Remains → Bool
logs_empty z = (tvlog_used z.tvlog == 0) && (nvlog_used z.ckptlog.log == 0)

-- `nvlog_destroy`: the stores with the log's store taken off.
unfoldable pub nvlog_destroy : ℕ → Heap → ℕ → Option Heap
nvlog_destroy fuel heap store =
    if store == 0 then some heap else elim (nvlog_store_destroy fuel heap store) [
      | ends heap' ↦ some heap'
      | deadlock ↦ none
      | out_of_fuel ↦ none
    ]

unfoldable pub tvlog_destroy : Region → Option ℕ → Region
tvlog_destroy region none = region
tvlog_destroy region (some p) = port_free_tvlog_mem region p

-- `tvtlog_destroy`, `ckptlog_destroy` and `oplog_destroy` of one thread
unfoldable pub destroy_logs : ℕ → State → ℕ → Option State
destroy_logs fuel s self =
    let z = s.remains self in
    let (free_set, headers) = ckptlog_cleanup s.memory z.ckptlog.free_set max_version in
    elim (nvlog_destroy fuel s.heap z.ckptlog_store) [
      | none ↦ none
      | some heap1 ↦ elim (nvlog_destroy fuel heap1 z.oplog_store) [
        | none ↦ none
        | some heap2 ↦ some (record s {
          heap = heap2;
          region = tvlog_destroy s.region z.buffer;
          freed_headers = s.freed_headers ++ headers;
          remains = update s.remains self (record z {
            buffer = none;
            ckptlog = record (z.ckptlog) { free_set = free_set };
            ckptlog_store = 0;
            oplog_store = 0;
          });
        })
      ]
    ]

-- The thread is freed only when its logs are empty.
unfoldable pub ts_thread_free : ℕ → State → ℕ → Option State
unfolding destroy_logs
ts_thread_free fuel s self =
    let s1 = set_remains s self (record (s.remains self) { live_status = dead_zombie }) in
    if logs_empty (s.remains self)
    then elim (destroy_logs fuel s1 self) [
      | none ↦ none
      | some s2 ↦ some (record s2 { freed = s2.freed ++ self ∷ [] })
    ]
    else some s1

-- The end of `ts_thread_finish`, behind the reclamations, and with no other thread at the lists' locks.
unfoldable pub leave_lists : ℕ → State → ℕ → Option State
unfolding destroy_logs
leave_lists fuel s self =
    let s1 = record s { world = deregister_thread false s.world self } in
    let z = s.remains self in
    if logs_empty z
    then destroy_logs fuel s1 self
    else some (record s1 {
      remains = update s1.remains self (record z { live_status = live_zombie });
      world = zombinize_thread false s1.world self;
    })

-- The enforced reclamations of one zombie, with the clocks of the detecting thread.
unfoldable pub reclaim_tvlog : ℕ → ℕ → Memory → Remains → Option (Memory × Remains)
unfolding tvlog_reclaim tvlog_used
reclaim_tvlog fuel headers m z =
    if tvlog_used z.tvlog == 0
    then some (m, z)
    else elim (tvlog_reclaim fuel headers m (record (z.tvlog) { need_reclaim = reclaim_tvlog_ckpt })
        z.ckptlog) [
          | Reclaim.returns r ↦ some (r.memory, record z { tvlog = r.tvlog; ckptlog = r.ckptlog })
          | Reclaim.no_space ↦ none
          | Reclaim.lost ↦ none
          | Reclaim.out_of_fuel ↦ none
        ]

unfoldable pub reclaim_ckptlog : ℕ → Alloc → Memory → Remains → Option (Memory × Remains)
unfolding ckptlog_reclaim
reclaim_ckptlog fuel alloc m z =
    if nvlog_used z.ckptlog.log == 0
    then some (m, z)
    else elim (ckptlog_reclaim fuel alloc m
        (record (z.ckptlog) { need_reclaim = reclaim_ckptlog_writeback_all })) [
          | none ↦ none
          | some (m', k, ret) ↦ some (m', record z { ckptlog = k })
        ]

abbrev pub is_dead : LiveStatus → Bool
is_dead dead_zombie = true
is_dead _ = false

-- What the pass does with a thread whose logs are empty, and with another.
unfoldable pub bury : ℕ → State → ℕ → Option State
unfolding thread_list_del_unsafe
bury fuel s self =
    if logs_empty (s.remains self)
    then elim (destroy_logs fuel s self) [
      | none ↦ none
      | some s1 ↦
          let (ts, tl) = thread_list_del_unsafe s1.world.threads s1.world.zombies self in
          if is_dead ((s1.remains self).live_status)
          then ts_thread_free fuel
              (record s1 { world = record (s1.world) { threads = ts; zombies = tl } }) self
          else some s1
    ]
    else some s

-- The body of the loop of `qp_reap_zombie_threads`.
unfoldable pub reap_visit : SysClks → ℕ → ℕ → Alloc → State → ℕ → Option State
unfolding reclaim_tvlog reclaim_ckptlog bury
reap_visit clks fuel headers alloc s self =
    let z = s.remains self in
    elim (reclaim_tvlog fuel headers s.memory
      (record z { ckptlog = record (z.ckptlog) { clks = clks } })) [
        | none ↦ none
        | some (m1, z1) ↦ elim (reclaim_ckptlog fuel alloc m1 z1) [
          | none ↦ none
          | some (m2, z2) ↦ bury fuel (record (set_remains s self z2) { memory = m2 }) self
        ]
      ]

-- `thread_list_for_each_safe`: the next node is read before the body runs. `waiting k` says whether
-- another thread waits for the list at the `k`-th visit; the walk then starts over with the lock taken
-- anew.
unfoldable pub reap_from :
    (ℕ → Bool) → SysClks → ℕ → ℕ → Alloc → ℕ → ℕ → State → ℕ → ℕ → Option State
unfolding reap_visit
reap_from waiting clks fuel headers alloc zero k s pos n = none
reap_from waiting clks fuel headers alloc (suc rounds) k s pos n =
    if pos == s.world.zombies.head then some s else elim (waiting k) [
      | true ↦
          let first = s.world.threads.links.next s.world.zombies.head in
          reap_from waiting clks fuel headers alloc rounds (k + 1) s first
            (s.world.threads.links.next first)
      | false ↦ elim (reap_visit clks fuel headers alloc s pos) [
        | none ↦ none
        | some s' ↦
            reap_from waiting clks fuel headers alloc rounds (k + 1) s' n
              (s'.world.threads.links.next n)
      ]
    ]

unfoldable pub qp_reap_zombie_threads :
    (ℕ → Bool) → SysClks → ℕ → ℕ → Alloc → ℕ → State → Option State
unfolding reap_from
qp_reap_zombie_threads waiting clks fuel headers alloc rounds s =
    let first = s.world.threads.links.next s.world.zombies.head in
    reap_from waiting clks fuel headers alloc rounds 0 s first (s.world.threads.links.next first)
