-- ===== src/Transaction/Abort.antt =====
-- ts_abort leaves no trace of the transaction.
use timestone.Base.{
  ℕ, ◌%◌, ◌^◌, ◌<◌, ◌≡◌, refl, ap, ◌∙◌, false, none, some, List, [], length, arith,
}
use timestone.PtrSet.{Alloc}
use timestone.Nvlog.{Entry}
use timestone.Nvlog.Layout.{entries}
use timestone.Nvlog.Append.{Holds}
use timestone.Memory.{Memory}
use timestone.Oplog.{Op, Oplog, normal, oplog_reclaim}
use timestone.Oplog.Reclaim.{kept, oplog_reclaim-kept}
use timestone.Tvlog.WriteSet.{tvlog_abort}
use timestone.Tvlog.Layout.{IsWriteSet}
use timestone.Tvlog.Abort.{AllHeld, AllUnlocked, Spared, tvlog_abort-AllUnlocked}
use timestone.Tvlog.Reclaim.{returns}
use timestone.Transaction.{
  Thread, Boundary, ts_abort, leave, abort_write_set, empty_alloc_set, try_reclaim_logs,
  then_ckptlog, then_oplog,
}

-- Without a request the logs are left alone.
no_request :
    (fuel headers : ℕ) (alloc : Alloc) (m : Memory) (self : Thread)
    → self.tvlog.need_reclaim ≡ 0
    → self.ckptlog.need_reclaim ≡ 0
    → try_reclaim_logs fuel headers alloc m self
      ≡ returns (record { memory = m; self = self; requests = []; ret = 0 })
unfolding try_reclaim_logs then_ckptlog
no_request fuel headers alloc m self e f = rw (e, f) refl

then_oplog_lem :
    (fuel : ℕ) (b : Boundary) (l : Oplog) (ret : ℕ)
    → oplog_reclaim fuel b.self.oplog b.self.ckptlog.clks.last_ckpt normal ≡ some (l, ret)
    → then_oplog fuel (returns b) ≡ returns (record b { self = record b.self { oplog = l } })
unfolding then_oplog
then_oplog_lem fuel b l ret e = rw (e, then_oplog) refl

-- the thread behind the abort of its write set
abbrev aborted : Memory → Thread → ℕ → Memory × Thread
aborted m self ws =
    let (m1, t, free_set) = tvlog_abort m self.tvlog self.tx_free_set ws in
    (m1, record self { tvlog = t; tx_free_set = free_set; is_write_detected = false })

abort_write_set_lem :
    (m : Memory) (self : Thread) (ws : ℕ)
    → self.tvlog.cur_wrt_set ≡ some ws
    → abort_write_set m self ≡ aborted m self ws
unfolding abort_write_set
abort_write_set_lem m self ws e = rw e refl

-- Nothing is left of the transaction of the write set `ws`, of the objects `cs`, in memory `m`.
pub record Clean (m : Memory) (self : Thread) (ws : ℕ) (cs : List ℕ) (es : List (Entry Op))
    (b : Boundary) : Type 0 where
  pub unlocked : AllUnlocked m.chs b.memory cs
  pub spared : Spared m b.memory cs
  pub copies : b.memory.chs ≡ m.chs
  pub outside : b.self.run_cnt % 2 ≡ 0
  pub no_write_set : b.self.tvlog.cur_wrt_set ≡ none
  pub tail : b.self.tvlog.tail_cnt ≡ (m.ws ws).start_tail_cnt
  pub no_frees : b.self.tx_free_set.num_ptrs ≡ 0
  pub no_writer : b.self.is_write_detected ≡ false
  pub operations :
      (es' : List (Entry Op)) × Holds b.self.oplog es'
      × (entries es' ≡ kept self.ckptlog.clks.last_ckpt normal (entries es))

-- An abort of a transaction with a write set of the objects `cs`, whose locks no other copy holds, where
-- no reclamation is asked for, the operation log is not being reclaimed, and the fuel is more than the
-- log has entries, returns. It leaves every object of the write set unlocked, every lock that another
-- copy holds, and the copies as they were; the thread outside a transaction, without a write set or
-- pointers to free, the tail of the version log where the write set began, and in the operation log
-- the operations from the first on that is not older than the last checkpoint.
pub ts_abort-Clean :
    (fuel headers : ℕ) (alloc : Alloc) (m : Memory) (self : Thread) (ws : ℕ) (cs : List ℕ)
    (es : List (Entry Op))
    → IsWriteSet self.tvlog m ws cs
    → AllHeld m.chs m cs
    → self.tvlog.cur_wrt_set ≡ some ws
    → self.run_cnt % 2 ≡ 1
    → self.tvlog.need_reclaim ≡ 0
    → self.ckptlog.need_reclaim ≡ 0
    → Holds self.oplog es
    → self.oplog.tail_cnt < 2 ^ 64
    → length (entries es) < fuel
    → self.oplog.reclaim_lock ≡ 0
    → (b : Boundary) × (ts_abort fuel headers alloc m self ≡ returns b) × Clean m self ws cs es b
unfolding ts_abort tvlog_abort
ts_abort-Clean fuel headers alloc m self ws cs es objects held set odd quiet quiet' holds low enough
      unlocked =
    let t = aborted m (leave self) ws in
    let b0 : Boundary = record {
      memory = t.0;
      self = empty_alloc_set t.1;
      requests = [];
      ret = 0;
    } in
    let done = tvlog_abort-AllUnlocked m self.tvlog self.tx_free_set ws cs objects held in
    let ops =
      oplog_reclaim-kept fuel self.oplog es self.ckptlog.clks.last_ckpt normal holds low enough
        unlocked in
    let b : Boundary = record b0 { self = record b0.self { oplog = ops.0 } } in
    (
      b,
      ap (λ x. then_oplog fuel (try_reclaim_logs fuel headers alloc x.0 (empty_alloc_set x.1)))
            (abort_write_set_lem m (leave self) ws set)
          ∙ ap (then_oplog fuel)
              (no_request fuel headers alloc t.0 (empty_alloc_set t.1) quiet quiet')
          ∙ then_oplog_lem fuel b0 ops.0 1 ops.2,
      record {
        unlocked = done.0;
        spared = done.1;
        copies = done.2;
        outside = omega (arith, odd);
        no_write_set = done.5;
        tail = done.4;
        no_frees = done.6;
        no_writer = refl;
        operations = (ops.1, ops.3, ops.4);
      },
    )
