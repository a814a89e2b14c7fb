-- ===== src/Qp/Requests.antt =====
-- The requests to reclaim, and what the barrier finds of the threads.
use timestone.Base.{
  ℕ, ◌≤◌, ◌<◌, ◌≡◌, ◌↔◌, ◌⊎◌, inl, inr, refl, ap, true, false, none, some, List, [], ◌∷◌, ◌==◌,
  arith, Bool-cases, ltb-cases, Option-cases,
}
use timestone.Config.{reclaim_tvlog_ckpt, reclaim_ckptlog_writeback_all}
use timestone.Qp.{
  Thread, QpThread, Reclaim, requested, request_reclaim, request_tvlog_reclaim,
  request_ckptlog_reclaim, barrier_from, qp_reclaim_barrier, take_requests,
}

-- No thread is reclaiming, and none has a smaller `min_ckpt_reclaimed` than `m`.
pub data Reclaimed (m : ℕ) : List Thread → Type 0 where
  none_left : Reclaimed m []
  and_one :
      {th : Thread} {ths : List Thread}
      → requested th.reclaim ≡ 0
      → m ≤ th.clks.min_ckpt_reclaimed
      → Reclaimed m ths
      → Reclaimed m (th ∷ ths)

barrier_from-Reclaimed :
    (threads : List Thread) (m : ℕ) {r : ℕ}
    → barrier_from threads m ≡ some r
    → (r ≤ m) × Reclaimed r threads
unfolding barrier_from
barrier_from-Reclaimed [] m {r} e = let same : m ≡ r = cc in (omega (arith, same), none_left)
barrier_from-Reclaimed (th ∷ ths) m {r} e = elim (Bool-cases (requested th.reclaim == 0)) [
  | inr busy ↦ let bad : none ≡ some r = rw busy at e in cc
  | inl free ↦ elim (ltb-cases th.clks.min_ckpt_reclaimed m) [
    | inl less ↦
        let next =
          barrier_from-Reclaimed ths th.clks.min_ckpt_reclaimed {r = r} (rw (free, less.0) at e) in
        (omega (arith, next.0, less.1), and_one (ground (arith, free)) next.0 next.1)
    | inr more ↦
        let next = barrier_from-Reclaimed ths m {r = r} (rw (free, more.0) at e) in
        (next.0, and_one (ground (arith, free)) (omega (arith, next.0, more.1)) next.1)
  ]
]

-- The barrier is passed only when no thread has a request left, and the clock up to which the
-- original masters may be freed is then at most each thread's, and not above what it was.
pub qp_reclaim_barrier-Reclaimed :
    (qp : QpThread) (threads : List Thread) {qp' : QpThread}
    → qp_reclaim_barrier qp threads ≡ some qp'
    → (qp'.clks.min_ckpt_reclaimed ≤ qp.clks.min_ckpt_reclaimed)
      × Reclaimed qp'.clks.min_ckpt_reclaimed threads
unfolding qp_reclaim_barrier
qp_reclaim_barrier-Reclaimed qp threads {qp'} e =
    elim (Option-cases (barrier_from threads qp.clks.min_ckpt_reclaimed)) [
      | inl busy ↦ let bad : none ≡ some qp' = rw (busy, qp_reclaim_barrier) at e in cc
      | inr (m, found) ↦
          let next : QpThread = record qp { clks = record (qp.clks) { min_ckpt_reclaimed = m } } in
          let reached : some next ≡ some qp' = rw (found, qp_reclaim_barrier) at e in
          let same : next ≡ qp' = cc in
          let bound = barrier_from-Reclaimed threads qp.clks.min_ckpt_reclaimed {r = m} found in
          let clk : m ≡ qp'.clks.min_ckpt_reclaimed = ap (λ q. q.clks.min_ckpt_reclaimed) same in
          rw clk at bound
    ]

-- A request is placed exactly when it is stronger than the one that stands, and the one that stands
-- afterwards is the stronger of the two.
pub request_reclaim_lem :
    (old_req new_req : ℕ)
    → (old_req ≤ (request_reclaim old_req new_req).0)
      × (new_req ≤ (request_reclaim old_req new_req).0)
      × (((request_reclaim old_req new_req).1 ≡ true) ↔ (old_req < new_req))
      × (((request_reclaim old_req new_req).0 ≡ old_req)
          ⊎ ((request_reclaim old_req new_req).0 ≡ new_req))
unfolding request_reclaim
request_reclaim_lem old_req new_req = ground arith

-- When the library stops, the loop has work: it takes requests for a checkpoint, or more, of the
-- volatile logs and a write-back of the whole checkpoint logs, and leaves none behind.
pub take_requests-stop :
    (qp : QpThread)
    → qp.stop_requested ≡ true
    → (r : QpThread × Reclaim) × (take_requests qp ≡ some r)
      × (reclaim_tvlog_ckpt ≤ r.1.tvlog)
      × (reclaim_ckptlog_writeback_all ≤ r.1.ckptlog)
      × (requested r.0.reclaim ≡ 0)
unfolding take_requests request_tvlog_reclaim request_ckptlog_reclaim
take_requests-stop qp stop =
    let a = request_reclaim_lem qp.reclaim.tvlog reclaim_tvlog_ckpt in
    let b = request_reclaim_lem qp.reclaim.ckptlog reclaim_ckptlog_writeback_all in
    let taken : Reclaim = record {
      tvlog = (request_reclaim qp.reclaim.tvlog reclaim_tvlog_ckpt).0;
      ckptlog = (request_reclaim qp.reclaim.ckptlog reclaim_ckptlog_writeback_all).0;
    } in
    let some_work : requested taken == 0 ≡ false = ground (arith, a.1, b.1) in
    (
      (record qp { reclaim = record { tvlog = 0; ckptlog = 0 } }, taken),
      rw (stop, some_work),
      a.1,
      b.1,
      refl,
    )
