-- ===== src/Qp/Main.antt =====
-- lib/qp.c: the main loop of the detecting thread. A round detects a quiescent period, takes the requests,
-- hands them to the live threads, waits for them and notes the checkpoint.
pub mod Order
use timestone.Base.{
  ℕ, zero, suc, ◌+◌, ◌≤◌, ◌≡◌, ◌⊎◌, inl, inr, refl, sym, ap, ◌∙◌, Bool, true, false, ◌&&◌, Option,
  none, some, List, [], ◌∷◌, ltb, ◌==◌, if◌then◌else◌, arith, Bool-cases, Option-cases,
}
use timestone.Config.{max_version, min_version, reclaim_tvlog_ckpt}
use timestone.Clock.{correct_qp_clock}
use timestone.Ckptlog.{Ckptlog, ckptlog_cleanup}
use timestone.Memory.{Memory}
use timestone.Threads.{World, thread_list_empty}
use timestone.Qp.{
  SysClks, Reclaim, Thread, QpThread, History, requested, qp_init, qp_wait, advance_qp_clock,
  qp_detect, take_requests, request_tvlog_reclaim, request_ckptlog_reclaim, qp_trigger_reclaim,
  barrier_from, qp_reclaim_barrier, end_round,
}

-- the thread before it runs
unfoldable pub init_qp_thread : QpThread
init_qp_thread = record {
  clks = record {
    qp0 = 0;
    qp1 = 0;
    qp2 = 0;
    last_ckpt = min_version;
    min_ckpt_reclaimed = max_version;
  };
  stop_requested = false;
  reclaim = record { tvlog = 0; ckptlog = 0 };
}

-- The loop ends when it is asked to and no thread is left in either list.
unfoldable pub should_stop : QpThread → World → Bool
unfolding thread_list_empty
should_stop qp w =
    qp.stop_requested
    && (thread_list_empty false w.threads w.zombies).1
    && (thread_list_empty false w.threads w.live).1

-- The headers that one thread's checkpoint log has no more use for, and the set that is left.
unfoldable pub cleanup_thread : Memory → QpThread → Ckptlog → Ckptlog × List ℕ
unfolding ckptlog_cleanup
cleanup_thread m qp k =
    let (free_set, headers) =
      ckptlog_cleanup m k.free_set (correct_qp_clock qp.clks.min_ckpt_reclaimed) in
    (record k { free_set = free_set }, headers)

-- What happens beside a round: the other threads' counters by the time, the clock at which the detection
-- starts, and what has been made of the requests by the time the barrier is tried, by the live
-- threads and by the detecting thread itself, which reaps zombies and helps.
pub record Env : Type 0 where
  pub history : History
  pub qp0_clk : ℕ
  pub start : ℕ
  pub work : List Thread → List Thread

-- What a round ends with: the clock that is made durable as the last checkpoint's, and whether headers
-- are to be freed in the next round.
pub record RoundEnd : Type 0 where
  pub qp : QpThread
  pub threads : List Thread
  pub persisted : Option ℕ
  pub need_free : ℕ

-- From the barrier on, at a time when it is tried: `none` is the barrier's retry.
unfoldable pub finish_round : QpThread → Reclaim → List Thread → Option RoundEnd
finish_round qp reclaim threads = elim (qp_reclaim_barrier qp threads) [
  | none ↦ none
  | some qp' ↦
      let (qp2, persisted, need_free) = end_round qp' reclaim in
      some (record { qp = qp2; threads = threads; persisted = persisted; need_free = need_free })
]

-- One round of the loop. The freeing of headers behind the detection, where the last round has asked
-- for it, is `cleanup_thread` for each live thread, and touches the checkpoint logs only.
unfoldable pub qp_round : ℕ → Env → QpThread → List Thread → Option RoundEnd
qp_round fuel env qp threads = elim (qp_detect fuel env.history env.qp0_clk env.start qp threads) [
  | none ↦ none
  | some (qp1, t) ↦ elim (take_requests qp1) [
    | none ↦ some (record { qp = qp1; threads = threads; persisted = none; need_free = 0 })
    | some (qp2, reclaim) ↦
        finish_round qp2 reclaim (env.work (qp_trigger_reclaim qp2 threads reclaim))
  ]
]
