-- ===== src/Transaction/Begin.antt =====
-- lib/timestone.c: the begin of a transaction. The isolation level that is compiled keeps nothing in the
-- thread but its number, which is left out. `clock` is the clock by time.
use timestone.Base.{
  ℕ, suc, ◌≤◌, ◌<◌, ◌≡◌, ◌≢◌, refl, true, false, none, some, [], ◌==◌, arith, add_u32,
}
use timestone.Config.{tvlog_high_mark}
use timestone.PtrSet.{Alloc}
use timestone.Qp
use timestone.Memory.{Memory}
use timestone.Tvlog.{tvlog_used}
use timestone.Tvlog.Reclaim.{
  Outcome, returns, no_space, lost, out_of_fuel, Reclaimed, reclaim_tvlog_ckptlog,
}
use timestone.Tvlog.Wait.{
  Triggers, Waiting, receive_tvlog, receive_ckptlog, is_high, wait_while,
  tvlog_reclaim_below_high_watermark,
}
use timestone.Tvlog.Wait.Ends.{
  Counted, ended, asking, wait_while-ended, reclaim_tvlog_ckptlog-counts,
}
use timestone.Transaction.{Thread, Boundary, then_ckptlog, try_reclaim_logs}

abbrev pub waiting_of : Boundary → Waiting
waiting_of b = record {
  memory = b.memory;
  tvlog = b.self.tvlog;
  ckptlog = b.self.ckptlog;
  requests = b.requests;
  time = 0;
}

-- `run_cnt` is odd inside a transaction.
abbrev pub get_started : (ℕ → ℕ) → Thread → Waiting → Boundary
get_started clock self w = record {
  memory = w.memory;
  self = record self {
    tvlog = w.tvlog;
    ckptlog = w.ckptlog;
    run_cnt = add_u32 self.run_cnt 1;
    local_clk = clock w.time;
  };
  requests = w.requests;
  ret = 0;
}

unfoldable pub ts_begin :
    (ℕ → ℕ) → ℕ → ℕ → Alloc → Triggers → ℕ → ℕ → Memory → Thread → Outcome Boundary
ts_begin clock fuel headers alloc trigger rounds n m self =
    elim (try_reclaim_logs fuel headers alloc m self) [
      | returns b ↦
          elim (tvlog_reclaim_below_high_watermark fuel headers alloc trigger rounds n
            (waiting_of b)) [
              | returns w ↦ returns (get_started clock b.self w)
              | no_space ↦ no_space
              | lost ↦ lost
              | out_of_fuel ↦ out_of_fuel
            ]
      | no_space ↦ no_space
      | lost ↦ lost
      | out_of_fuel ↦ out_of_fuel
    ]

-- a thread with nothing to reclaim
abbrev pub unasked : Memory → Thread → Boundary
unasked m self = record { memory = m; self = self; requests = []; ret = 0 }

try_reclaim_logs-unasked :
    (fuel headers : ℕ) (alloc : Alloc) (m : Memory) (self : Thread)
    → self.tvlog.need_reclaim ≡ 0
    → self.ckptlog.need_reclaim ≡ 0
    → try_reclaim_logs fuel headers alloc m self ≡ returns (unasked m self)
unfolding try_reclaim_logs then_ckptlog
try_reclaim_logs-unasked fuel headers alloc m self t k =
    let zt : (self.tvlog.need_reclaim == 0) ≡ true = ground (arith, t) in
    let zk : (self.ckptlog.need_reclaim == 0) ≡ true = ground (arith, k) in rw (zt, zk) refl

ts_begin-waited :
    (clock : ℕ → ℕ) (fuel headers : ℕ) (alloc : Alloc) (trigger : Triggers) (rounds n : ℕ)
    (m : Memory) (self : Thread) (w : Waiting)
    → self.tvlog.need_reclaim ≡ 0
    → self.ckptlog.need_reclaim ≡ 0
    → wait_while fuel headers alloc trigger is_high rounds n (waiting_of (unasked m self))
      ≡ returns w
    → ts_begin clock fuel headers alloc trigger rounds n m self ≡ returns (get_started clock self w)
unfolding ts_begin tvlog_reclaim_below_high_watermark
ts_begin-waited clock fuel headers alloc trigger rounds n m self w t k waited =
    rw
      (
        try_reclaim_logs-unasked fuel headers alloc m self t k,
        ts_begin,
        tvlog_reclaim_below_high_watermark,
        waited,
      )
      refl

-- A thread without a request, whose version log is at or above its mark, begins a transaction as soon as
-- the detecting thread has written a trigger into it, at time `stop`, if the reclamation that it
-- asks for leaves the log below the mark. Until then it asks for a checkpoint at the start and once
-- in every 1000 rounds. It begins with the logs as that reclamation leaves them, the next count of
-- runs, and the clock of the time after it.
pub ts_begin-ended :
    (clock : ℕ → ℕ) (fuel headers : ℕ) (alloc : Alloc) (trigger : Triggers) (rounds n : ℕ)
    (m : Memory) (self : Thread) (got : Qp.SysClks × Qp.Reclaim) (r : Reclaimed) (stop : ℕ)
    → self.tvlog.need_reclaim ≡ 0
    → self.ckptlog.need_reclaim ≡ 0
    → tvlog_high_mark ≤ tvlog_used self.tvlog
    → ((t : ℕ) → t < stop → trigger t ≡ none)
    → trigger stop ≡ some got
    → reclaim_tvlog_ckptlog fuel headers alloc m
        (receive_tvlog (some got) self.tvlog)
        (receive_ckptlog (some got) self.ckptlog)
      ≡ returns r
    → got.1.tvlog ≢ 0
    → tvlog_used r.tvlog < tvlog_high_mark
    → stop < rounds
    → (k : ℕ) × Counted 0 0 k stop
      × (ts_begin clock fuel headers alloc trigger rounds (suc (suc n)) m self
          ≡ returns
              (get_started clock self (ended (asking (waiting_of (unasked m self))) r k stop)))
ts_begin-ended clock fuel headers alloc trigger rounds n m self got r stop t k high quiet now
      reclaims asked low enough =
    let some_done =
      reclaim_tvlog_ckptlog-counts fuel headers alloc m (receive_tvlog (some got) self.tvlog)
        (receive_ckptlog (some got) self.ckptlog) r asked reclaims in
    let before : is_high self.tvlog ≡ true = ground (arith, high) in
    let after : is_high r.tvlog ≡ false = ground (arith, low) in
    let (k', counted, ends) =
      wait_while-ended fuel headers alloc trigger got r stop now some_done is_high rounds n
        (waiting_of (unasked m self)) t k (λ u late under. quiet u under) reclaims (omega arith)
        (omega (arith, enough)) before after in
    let begins = ended (asking (waiting_of (unasked m self))) r k' stop in
    (
      k',
      counted,
      ts_begin-waited clock fuel headers alloc trigger rounds (suc (suc n)) m self begins t k ends,
    )
