-- ===== src/Threads.antt =====
-- lib/qp.c: the lists of live and zombie threads. A thread is named by the address of its link. A
-- function that takes a list's lock is told whether the first try failed, and goes on once it has it.
pub mod Members
pub mod Moves
use timestone.Base.{
  ℕ, zero, suc, ◌+◌, Bool, true, false, not, ◌==◌, if◌then◌else◌, update, add_u32, sub_u32,
}
use timestone.Links.{
  Links, set_next, set_prev, init_ts_list, ts_list_add, ts_list_del, ts_list_empty,
  ts_list_rotate_left,
}

-- ts_thread_list_t, with the address of its head
pub record ThreadList : Type 0 where
  pub head : ℕ
  pub locked : Bool
  pub thread_wait : ℕ
  pub cur_tid : ℕ
  pub num : ℕ

-- The links and the numbers of all threads, and one list.
pub record Threads : Type 0 where
  pub links : Links
  pub tid : ℕ → ℕ

abbrev pub thread_list_has_waiter : ThreadList → Bool
thread_list_has_waiter tl = not (tl.thread_wait == 0)

unfoldable pub init_thread_list : Threads → ThreadList → Threads × ThreadList
unfolding init_ts_list
init_thread_list ts tl = (
  record ts { links = init_ts_list ts.links tl.head },
  record tl { locked = false; cur_tid = 0; num = 0 },
)

-- With the lock taken. The wait flag is turned on if the first try for the lock failed.
unfoldable pub thread_list_lock_force : Bool → ThreadList → ThreadList
thread_list_lock_force contended tl = record tl {
  locked = true;
  thread_wait =
      if contended then (if tl.thread_wait == 0 then 1 else tl.thread_wait) else tl.thread_wait;
}

unfoldable pub thread_list_unlock : ThreadList → ThreadList
thread_list_unlock tl = record tl {
  locked = false;
  thread_wait = if tl.thread_wait == 0 then tl.thread_wait else 0;
}

unfoldable pub thread_list_add : Bool → Threads → ThreadList → ℕ → Threads × ThreadList
unfolding thread_list_lock_force thread_list_unlock ts_list_add
thread_list_add contended ts tl self =
    let l = thread_list_lock_force contended tl in
    (
      record { links = ts_list_add ts.links self l.head; tid = update ts.tid self l.cur_tid },
      thread_list_unlock (record l { cur_tid = add_u32 l.cur_tid 1; num = add_u32 l.num 1 }),
    )

unfoldable pub thread_list_del_unsafe : Threads → ThreadList → ℕ → Threads × ThreadList
unfolding ts_list_del
thread_list_del_unsafe ts tl self =
    let s = ts_list_del ts.links self in
    (
      record ts { links = set_prev (set_next s self 0) self 0 },
      record tl { num = sub_u32 tl.num 1 },
    )

unfoldable pub thread_list_del : Bool → Threads → ThreadList → ℕ → Threads × ThreadList
unfolding thread_list_lock_force thread_list_unlock thread_list_del_unsafe
thread_list_del contended ts tl self =
    let (ts', l) = thread_list_del_unsafe ts (thread_list_lock_force contended tl) self in
    (ts', thread_list_unlock l)

unfoldable pub thread_list_rotate_left_unsafe : Threads → ThreadList → Threads
unfolding ts_list_rotate_left
thread_list_rotate_left_unsafe ts tl = record ts { links = ts_list_rotate_left ts.links tl.head }

unfoldable pub thread_list_empty : Bool → Threads → ThreadList → ThreadList × Bool
unfolding thread_list_lock_force thread_list_unlock ts_list_empty
thread_list_empty contended ts tl =
    (thread_list_unlock (thread_list_lock_force contended tl), ts_list_empty ts.links tl.head)

-- g_live_threads and g_zombie_threads
pub record World : Type 0 where
  pub threads : Threads
  pub live : ThreadList
  pub zombies : ThreadList

unfoldable pub register_thread : Bool → World → ℕ → World
unfolding thread_list_add
register_thread contended w self =
    let (ts, l) = thread_list_add contended w.threads w.live self in
    record w { threads = ts; live = l }

unfoldable pub deregister_thread : Bool → World → ℕ → World
unfolding thread_list_del
deregister_thread contended w self =
    let (ts, l) = thread_list_del contended w.threads w.live self in
    record w { threads = ts; live = l }

unfoldable pub zombinize_thread : Bool → World → ℕ → World
unfolding thread_list_add
zombinize_thread contended w self =
    let (ts, l) = thread_list_add contended w.threads w.zombies self in
    record w { threads = ts; zombies = l }
