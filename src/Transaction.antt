-- ===== src/Transaction.antt =====
-- lib/timestone.c: the end of a transaction, by commit or abort, and what it frees. The compiled
-- isolation level is the snapshot, for which no read set is validated. A thread's requests for the
-- reclamation of its two logs are fields of the logs; the requests that it makes are results.
pub mod Abort
pub mod Begin
pub mod Operands
use timestone.Base.{
  ℕ, zero, suc, ◌+◌, Bool, true, false, ◌&&◌, Option, none, some, List, [], ◌∷◌, ◌++◌, ◌==◌,
  if◌then◌else◌, add_u32,
}
use timestone.PtrSet.{PtrSet, Alloc, ptrset_push, ptrset_pop}
use timestone.Memory.{Memory, Obj, get_org_act_obj}
use timestone.Oplog.{Oplog, OpInfo, normal, oplog_reclaim}
use timestone.Ckptlog.{Ckptlog, ckptlog_reclaim}
use timestone.Tvlog.{Tvlog}
use timestone.Tvlog.WriteSet.{Committed, tvlog_commit, tvlog_abort}
use timestone.Tvlog.Wait.{request_of}
use timestone.Tvlog.Reclaim.{
  Outcome, returns, no_space, lost, out_of_fuel, Reclaimed, unchanged, tvlog_reclaim,
}

-- ts_thread_struct_t, as far as a transaction uses it
pub record Thread : Type 0 where
  pub in_recovery_mode : Bool
  pub is_write_detected : Bool
  pub tx_alloc_set : PtrSet
  pub tx_free_set : PtrSet
  pub op_info : OpInfo
  pub run_cnt : ℕ
  pub local_clk : ℕ
  pub tvlog : Tvlog
  pub oplog : Oplog
  pub ckptlog : Ckptlog

-- Memory, the thread, the requests it has made of the detecting thread, in order, and the result.
pub record Boundary : Type 0 where
  pub memory : Memory
  pub self : Thread
  pub requests : List ℕ
  pub ret : ℕ

-- The object that is freed goes to the set of the transaction; `none` is NULL. The call
-- without a thread, which frees at once, is left out.
unfoldable pub ts_free : Alloc → Memory → Thread → Option Obj → Thread
unfolding get_org_act_obj
ts_free alloc m self none = self
ts_free alloc m self (some o) = elim (get_org_act_obj m o) [
  | Obj.act a ↦ record self { tx_free_set = (ptrset_push alloc self.tx_free_set a).0 }
  | _ ↦ self
]

-- What the reclamation of the version log leaves for the one of the checkpoint log.
unfoldable pub then_ckptlog : ℕ → Alloc → Thread → Reclaimed → Outcome Boundary
unfolding ckptlog_reclaim
then_ckptlog fuel alloc self r =
    let reqs = request_of r.tvlog_request ++ request_of r.ckptlog_request in
    if r.ckptlog.need_reclaim == 0
    then returns (record {
      memory = r.memory;
      self = record self { tvlog = r.tvlog; ckptlog = r.ckptlog };
      requests = reqs;
      ret = 0;
    })
    else elim (ckptlog_reclaim fuel alloc r.memory r.ckptlog) [
      | none ↦ out_of_fuel
      | some (m, k, ret) ↦ returns (record {
        memory = m;
        self = record self { tvlog = r.tvlog; ckptlog = k };
        requests = reqs;
        ret = 0;
      })
    ]

unfoldable pub try_reclaim_logs : ℕ → ℕ → Alloc → Memory → Thread → Outcome Boundary
unfolding tvlog_reclaim then_ckptlog
try_reclaim_logs fuel headers alloc m self =
    if self.tvlog.need_reclaim == 0
    then then_ckptlog fuel alloc self (unchanged m self.tvlog self.ckptlog)
    else elim (tvlog_reclaim fuel headers m self.tvlog self.ckptlog) [
      | returns r ↦ then_ckptlog fuel alloc self r
      | no_space ↦ no_space
      | lost ↦ lost
      | out_of_fuel ↦ out_of_fuel
    ]

-- The pointers that a loop pops up to NULL, on fuel. A read outside the array ends it, where the code
-- goes on with what stands there.
unfoldable pub pop_all : ℕ → PtrSet → PtrSet × List ℕ
pop_all zero s = (s, [])
pop_all (suc fuel) s =
    let (s', p) = ptrset_pop s in
    elim p [
      | none ↦ (s', [])
      | some zero ↦ (s', [])
      | some (suc a) ↦ let (s2, ps) = pop_all fuel s' in (s2, suc a ∷ ps)
    ]

-- the loop of `flush_new_act` and of `free_new_act`
abbrev pub empty_alloc_set : Thread → Thread
empty_alloc_set self = record self {
  tx_alloc_set = (pop_all (self.tx_alloc_set.num_ptrs + 1) self.tx_alloc_set).0;
}

abbrev pub more_requests : List ℕ → ℕ → Outcome Boundary → Outcome Boundary
more_requests reqs ret (returns b) = returns (record b { requests = reqs ++ b.requests; ret = ret })
more_requests reqs ret no_space = no_space
more_requests reqs ret lost = lost
more_requests reqs ret out_of_fuel = out_of_fuel

-- `run_cnt` is even outside a transaction.
abbrev pub leave : Thread → Thread
leave self = record self { run_cnt = add_u32 self.run_cnt 1 }

-- The write set of the transaction is thrown away, if there is one.
unfoldable pub abort_write_set : Memory → Thread → Memory × Thread
unfolding tvlog_abort
abort_write_set m self = elim self.tvlog.cur_wrt_set [
  | none ↦ (m, self)
  | some ws ↦
      let (m1, t, free_set) = tvlog_abort m self.tvlog self.tx_free_set ws in
      (m1, record self { tvlog = t; tx_free_set = free_set; is_write_detected = false })
]

-- The operation log is reclaimed behind the others.
unfoldable pub then_oplog : ℕ → Outcome Boundary → Outcome Boundary
unfolding oplog_reclaim
then_oplog fuel (returns b) =
    elim (oplog_reclaim fuel b.self.oplog b.self.ckptlog.clks.last_ckpt normal) [
      | none ↦ out_of_fuel
      | some (l, ret) ↦ returns (record b { self = record b.self { oplog = l } })
    ]
then_oplog fuel no_space = no_space
then_oplog fuel lost = lost
then_oplog fuel out_of_fuel = out_of_fuel

unfoldable pub ts_abort : ℕ → ℕ → Alloc → Memory → Thread → Outcome Boundary
unfolding abort_write_set try_reclaim_logs then_oplog
ts_abort fuel headers alloc m self =
    let (m1, t) = abort_write_set m (leave self) in
    then_oplog fuel (try_reclaim_logs fuel headers alloc m1 (empty_alloc_set t))

-- The commit of a transaction that has written: `lost` is a writer without a write set, which the code
-- does not expect.
unfoldable pub commit_write_set : (ℕ → ℕ) → ℕ → Memory → Thread → Outcome Boundary
unfolding tvlog_commit
commit_write_set tsc fuel m self =
    if self.is_write_detected
    then elim self.tvlog.cur_wrt_set [
      | none ↦ lost
      | some ws ↦
          elim (tvlog_commit tsc fuel self.ckptlog.clks.last_ckpt m self.tvlog self.oplog
            self.tx_free_set self.local_clk self.op_info ws) [
              | none ↦ out_of_fuel
              | some c ↦ returns (record {
                memory = c.memory;
                self = record self {
                  tvlog = c.tvlog;
                  oplog = c.oplog;
                  tx_free_set = c.free_set;
                  is_write_detected = false;
                };
                requests = request_of c.request;
                ret = 1;
              })
            ]
    ]
    else returns (record { memory = m; self = self; requests = []; ret = 1 })

unfoldable pub ts_end : (ℕ → ℕ) → ℕ → ℕ → Alloc → Memory → Thread → Outcome Boundary
unfolding commit_write_set try_reclaim_logs
ts_end tsc fuel headers alloc m self =
    if self.in_recovery_mode
    then returns (record { memory = m; self = self; requests = []; ret = 1 })
    else elim (commit_write_set tsc fuel m self) [
      | returns b ↦
          more_requests b.requests 1
            (try_reclaim_logs fuel headers alloc b.memory (empty_alloc_set (leave b.self)))
      | no_space ↦ no_space
      | lost ↦ lost
      | out_of_fuel ↦ out_of_fuel
    ]
