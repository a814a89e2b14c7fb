-- ===== src/Qp.antt =====
-- lib/qp.c: the thread that detects quiescent periods and drives the reclamation of the logs.
-- The list of live threads is a list; what a thread's counters show at a time is a parameter, since
-- the other threads run on meanwhile.
pub mod Grace
pub mod Requests
pub mod Main
use timestone.Base.{
  ℕ, zero, suc, ◌+◌, ◌*◌, ◌%◌, Bool, true, false, not, ◌&&◌, ◌||◌, Option, none, some, List, [],
  ◌∷◌, map, ltb, ◌==◌, if◌then◌else◌,
}
use timestone.Config.{reclaim_tvlog_ckpt, reclaim_ckptlog_writeback_all, max_version, min_version}
use timestone.Clock.{gte_clock, correct_qp_clock}

-- ts_sys_clks_t
pub record SysClks : Type 0 where
  pub qp0 : ℕ
  pub qp1 : ℕ
  pub qp2 : ℕ
  pub last_ckpt : ℕ
  pub min_ckpt_reclaimed : ℕ

-- ts_reclaim_t: the union's `requested` covers both bytes.
pub record Reclaim : Type 0 where
  pub tvlog : ℕ
  pub ckptlog : ℕ

abbrev pub requested : Reclaim → ℕ
requested r = r.tvlog + 256 * r.ckptlog

-- what ts_thread_struct_t has for the detection and the reclamation
pub record Thread : Type 0 where
  pub tid : ℕ
  pub need_wait : ℕ
  pub saved_run_cnt : ℕ
  pub clks : SysClks
  pub reclaim : Reclaim

-- ts_qp_thread_t
pub record QpThread : Type 0 where
  pub clks : SysClks
  pub stop_requested : Bool
  pub reclaim : Reclaim

-- the run counter and the local clock of a thread, as the detecting thread reads them
pub record Counters : Type 0 where
  pub run_cnt : ℕ
  pub local_clk : ℕ

-- by thread and time
abbrev pub History : Type 0
History = ℕ → ℕ → Counters

unfoldable pub advance_qp_clock : SysClks → ℕ → SysClks
advance_qp_clock c qp0_clk = record c { qp2 = c.qp1; qp1 = c.qp0; qp0 = qp0_clk }

-- `thread->qp_info` of one thread, read at time `t`
unfoldable pub init_thread : History → ℕ → Thread → Thread
init_thread h t th = record th {
  saved_run_cnt = (h th.tid t).run_cnt;
  need_wait = (h th.tid t).run_cnt % 2;
}

unfoldable pub qp_init : History → ℕ → List Thread → List Thread
unfolding init_thread
qp_init h t threads = map (init_thread h t) threads

-- The thread passed a quiescent period, or runs on a newer view than `qp_clk`.
abbrev pub has_passed : History → ℕ → Thread → ℕ → Bool
has_passed h qp_clk th t =
    not ((h th.tid t).run_cnt == th.saved_run_cnt) || gte_clock (h th.tid t).local_clk qp_clk

-- `while (1)` of one thread, from time `t`, with a bound on the rounds: the time at which it ends.
-- That it clears `need_wait` matters only to a pass that starts over for a waiting thread.
unfoldable pub wait_thread : ℕ → History → ℕ → Thread → ℕ → Option ℕ
wait_thread zero h qp_clk th t = none
wait_thread (suc fuel) h qp_clk th t =
    let rest = wait_thread fuel h qp_clk th (t + 1) in
    if has_passed h qp_clk th t then some t else rest

unfoldable pub qp_wait : ℕ → History → ℕ → List Thread → ℕ → Option ℕ
unfolding wait_thread
qp_wait fuel h qp_clk [] t = some t
qp_wait fuel h qp_clk (th ∷ ths) t =
    if th.need_wait == 0
    then qp_wait fuel h qp_clk ths t
    else elim (wait_thread fuel h qp_clk th t) [
      | none ↦ none
      | some t' ↦ qp_wait fuel h qp_clk ths t'
    ]

-- The waits of a detection that starts at time `t` with the clock `qp0_clk`, and the clocks after it.
unfoldable pub qp_detect : ℕ → History → ℕ → ℕ → QpThread → List Thread → Option (QpThread × ℕ)
unfolding qp_init qp_wait advance_qp_clock
qp_detect fuel h qp0_clk t qp threads = elim (qp_wait fuel h qp0_clk (qp_init h t threads) t) [
  | none ↦ none
  | some t' ↦ some (record qp { clks = advance_qp_clock qp.clks (correct_qp_clock qp0_clk) }, t')
]

-- `_request_reclaim` where no other request comes between its read and its compare-and-swap: the new
-- request, and whether it was placed.
unfoldable pub request_reclaim : ℕ → ℕ → ℕ × Bool
request_reclaim old_req new_req = if ltb old_req new_req then (new_req, true) else (old_req, false)

unfoldable pub request_tvlog_reclaim : QpThread → ℕ → QpThread × Bool
unfolding request_reclaim
request_tvlog_reclaim qp new_req =
    let (req, placed) = request_reclaim qp.reclaim.tvlog new_req in
    (record qp { reclaim = record (qp.reclaim) { tvlog = req } }, placed)

unfoldable pub request_ckptlog_reclaim : QpThread → ℕ → QpThread × Bool
unfolding request_reclaim
request_ckptlog_reclaim qp new_req =
    let (req, placed) = request_reclaim qp.reclaim.ckptlog new_req in
    (record qp { reclaim = record (qp.reclaim) { ckptlog = req } }, placed)

-- One pass over the threads: `none` is the retry, as a thread has not finished its reclamation.
unfoldable pub barrier_from : List Thread → ℕ → Option ℕ
barrier_from [] m = some m
barrier_from (th ∷ ths) m =
    let rest =
      barrier_from ths
        (if ltb th.clks.min_ckpt_reclaimed m then th.clks.min_ckpt_reclaimed else m) in
    if requested th.reclaim == 0 then rest else none

unfoldable pub qp_reclaim_barrier : QpThread → List Thread → Option QpThread
unfolding barrier_from
qp_reclaim_barrier qp threads = elim (barrier_from threads qp.clks.min_ckpt_reclaimed) [
  | none ↦ none
  | some m ↦ some (record qp { clks = record (qp.clks) { min_ckpt_reclaimed = m } })
]

-- What the trigger gives one thread: the clocks of the detecting thread, and the requests.
unfoldable pub propagate : SysClks → Reclaim → Thread → Thread
propagate clks reclaim th = record th { clks = clks; reclaim = reclaim }

unfoldable pub qp_trigger_reclaim : QpThread → List Thread → Reclaim → List Thread
unfolding propagate
qp_trigger_reclaim qp threads reclaim = map (propagate qp.clks reclaim) threads

-- The loop body of `__qp_thread_main` behind the detection, up to the trigger: the requests of a
-- stop, and the swap that takes them. `none` is `continue`.
unfoldable pub take_requests : QpThread → Option (QpThread × Reclaim)
unfolding request_tvlog_reclaim request_ckptlog_reclaim
take_requests qp =
    let qp' =
      if qp.stop_requested
      then (request_ckptlog_reclaim (request_tvlog_reclaim qp reclaim_tvlog_ckpt).0
          reclaim_ckptlog_writeback_all).0
      else qp in
    if requested qp'.reclaim == 0
    then none
    else some (record qp' { reclaim = record { tvlog = 0; ckptlog = 0 } }, qp'.reclaim)

-- The end of the body, behind the barrier: a checkpoint makes its clock the last one. The second
-- result is what is persisted as the last checkpoint's clock, the third `need_free`.
unfoldable pub end_round : QpThread → Reclaim → QpThread × Option ℕ × ℕ
end_round qp reclaim =
    if reclaim.tvlog == reclaim_tvlog_ckpt
    then (
      record qp { clks = record (qp.clks) { last_ckpt = qp.clks.qp0 } },
      some qp.clks.qp0,
      reclaim.ckptlog,
    )
    else (qp, none, reclaim.ckptlog)
