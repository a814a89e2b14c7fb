-- ===== src/Qp/Main/Order.antt =====
-- The clocks of the detecting thread over its rounds.
use timestone.Base.{
  ℕ, ◌||◌, Bool, false, ◌≤◌, ◌≡◌, ◌⊎◌, inl, inr, refl, sym, ◌∙◌, true, false, none, some, List, [],
  ◌∷◌, ltb, ◌==◌, if◌then◌else◌, arith, Bool-cases, Option-cases,
}
use mathlib.Core.Path.{subst}
use timestone.Config.{reclaim_tvlog_ckpt}
use timestone.Clock.{correct_qp_clock}
use timestone.Qp.{
  SysClks, Reclaim, Thread, QpThread, requested, advance_qp_clock, qp_detect, take_requests,
  request_tvlog_reclaim, request_ckptlog_reclaim, request_reclaim, qp_trigger_reclaim, barrier_from,
  qp_reclaim_barrier, end_round,
}
use timestone.Qp.Main.{Env, RoundEnd, finish_round, qp_round}

-- The clocks of the last quiescent periods and of the last checkpoint are in order.
pub record InOrder (c : SysClks) : Type 0 where
  pub second : c.qp2 ≤ c.qp1
  pub first : c.qp1 ≤ c.qp0
  pub checkpoint : c.last_ckpt ≤ c.qp0

-- Every thread has finished its reclamations.
abbrev pub AllDone : List Thread → Type 0
AllDone [] = Unit {0}
AllDone (th ∷ ths) = (requested th.reclaim ≡ 0) × AllDone ths

barrier_from-AllDone :
    (threads : List Thread) (m : ℕ) → AllDone threads → (r : ℕ) × (barrier_from threads m ≡ some r)
unfolding barrier_from
barrier_from-AllDone [] m h = (m, refl)
barrier_from-AllDone (th ∷ ths) m h =
    let free : (requested th.reclaim == 0) ≡ true = ground (arith, h.0) in
    let next = if ltb th.clks.min_ckpt_reclaimed m then th.clks.min_ckpt_reclaimed else m in
    let (r, e) = barrier_from-AllDone ths next h.1 in (r, rw free e)

qp_detect-clks :
    (fuel : ℕ) (env : Env) (qp : QpThread) (threads : List Thread) {qp1 : QpThread} {t : ℕ}
    → qp_detect fuel env.history env.qp0_clk env.start qp threads ≡ some (qp1, t)
    → qp1.clks ≡ advance_qp_clock qp.clks (correct_qp_clock env.qp0_clk)
unfolding qp_detect
qp_detect-clks fuel env qp threads e = ground (arith, e)

-- A checkpoint is asked for, by a request or as a stop is.
abbrev pub wants_ckpt : QpThread → Bool
wants_ckpt qp = qp.stop_requested || (qp.reclaim.tvlog == reclaim_tvlog_ckpt)

-- The requests that are taken are for a checkpoint exactly if one is asked for.
take_requests-ckpt :
    (qp : QpThread) {qp' : QpThread} {reclaim : Reclaim}
    → qp.reclaim.tvlog ≤ reclaim_tvlog_ckpt
    → take_requests qp ≡ some (qp', reclaim)
    → (reclaim.tvlog == reclaim_tvlog_ckpt) ≡ wants_ckpt qp
unfolding take_requests request_tvlog_reclaim request_ckptlog_reclaim request_reclaim
take_requests-ckpt qp small e = ground (arith, e, small)

take_requests-none : (qp : QpThread) → take_requests qp ≡ none → wants_ckpt qp ≡ false
unfolding take_requests request_tvlog_reclaim request_ckptlog_reclaim request_reclaim
take_requests-none qp e = ground (arith, e)

take_requests-clks :
    (qp : QpThread) {qp' : QpThread} {reclaim : Reclaim}
    → take_requests qp ≡ some (qp', reclaim)
    → qp'.clks ≡ qp.clks
unfolding take_requests
take_requests-clks qp e = ground (arith, e)

-- The last checkpoint's clock moves to the round's clock if a checkpoint is wanted, and only then; what is
-- made durable is that clock.
pub record Rounded (wanted : Bool) (c : SysClks) (r : RoundEnd) : Type 0 where
  pub order : InOrder r.qp.clks
  pub first : r.qp.clks.qp0 ≡ c.qp0
  pub moved :
      ((wanted ≡ false) × (r.persisted ≡ none) × (r.qp.clks.last_ckpt ≡ c.last_ckpt))
      ⊎ ((wanted ≡ true) × (r.persisted ≡ some c.qp0) × (r.qp.clks.last_ckpt ≡ c.qp0))

-- behind the barrier, which has found the clock `m`
abbrev passed : QpThread → ℕ → QpThread
passed qp m = record qp { clks = record (qp.clks) { min_ckpt_reclaimed = m } }

module _ (qp : QpThread) (reclaim : Reclaim) (threads : List Thread) {m : ℕ}
    (e : barrier_from threads qp.clks.min_ckpt_reclaimed ≡ some m) where
  finish_ckpt :
      reclaim.tvlog == reclaim_tvlog_ckpt ≡ true
      → finish_round qp reclaim threads
        ≡ some (record {
          qp = record qp { clks = record (passed qp m).clks { last_ckpt = qp.clks.qp0 } };
          threads = threads;
          persisted = some qp.clks.qp0;
          need_free = reclaim.ckptlog;
        })
  unfolding finish_round qp_reclaim_barrier end_round
  finish_ckpt ckpt = rw (e, finish_round, qp_reclaim_barrier, ckpt) refl

  finish_other :
      reclaim.tvlog == reclaim_tvlog_ckpt ≡ false
      → finish_round qp reclaim threads
        ≡ some (record {
          qp = passed qp m;
          threads = threads;
          persisted = none;
          need_free = reclaim.ckptlog;
        })
  unfolding finish_round qp_reclaim_barrier end_round
  finish_other other = rw (e, finish_round, qp_reclaim_barrier, other) refl

finish_round-Rounded :
    (qp : QpThread) (reclaim : Reclaim) (threads : List Thread)
    → InOrder qp.clks
    → AllDone threads
    → (r : RoundEnd) × (finish_round qp reclaim threads ≡ some r)
      × Rounded (reclaim.tvlog == reclaim_tvlog_ckpt) qp.clks r
finish_round-Rounded qp reclaim threads o done =
    let (m, e) = barrier_from-AllDone threads qp.clks.min_ckpt_reclaimed done in
    elim (Bool-cases (reclaim.tvlog == reclaim_tvlog_ckpt)) [
      | inl ckpt ↦ (
        record {
          qp = record qp { clks = record (passed qp m).clks { last_ckpt = qp.clks.qp0 } };
          threads = threads;
          persisted = some qp.clks.qp0;
          need_free = reclaim.ckptlog;
        },
        finish_ckpt qp reclaim threads e ckpt,
        record {
          order = record { second = o.second; first = o.first; checkpoint = omega arith };
          first = refl;
          moved = inr (ckpt, refl, refl);
        },
      )
      | inr other ↦ (
        record {
          qp = passed qp m;
          threads = threads;
          persisted = none;
          need_free = reclaim.ckptlog;
        },
        finish_other qp reclaim threads e other,
        record {
          order = record { second = o.second; first = o.first; checkpoint = o.checkpoint };
          first = refl;
          moved = inl (other, refl, refl);
        },
      )
    ]

advance-InOrder :
    (c : SysClks) (clk : ℕ) → InOrder c → c.qp0 ≤ clk → InOrder (advance_qp_clock c clk)
unfolding advance_qp_clock
advance-InOrder c clk o later = record {
  second = o.first;
  first = later;
  checkpoint = omega (arith, o.checkpoint, later);
}

round_idle :
    (fuel : ℕ) (env : Env) (qp : QpThread) (threads : List Thread) {qp1 : QpThread} {t : ℕ}
    → qp_detect fuel env.history env.qp0_clk env.start qp threads ≡ some (qp1, t)
    → take_requests qp1 ≡ none
    → qp_round fuel env qp threads
      ≡ some (record { qp = qp1; threads = threads; persisted = none; need_free = 0 })
unfolding qp_round
round_idle fuel env qp threads e f = rw (e, qp_round, f) refl

round_busy :
    (fuel : ℕ) (env : Env) (qp : QpThread) (threads : List Thread) {qp1 qp2 : QpThread} {t : ℕ}
    {reclaim : Reclaim}
    → qp_detect fuel env.history env.qp0_clk env.start qp threads ≡ some (qp1, t)
    → take_requests qp1 ≡ some (qp2, reclaim)
    → qp_round fuel env qp threads
      ≡ finish_round qp2 reclaim (env.work (qp_trigger_reclaim qp2 threads reclaim))
unfolding qp_round
round_busy fuel env qp threads e f = rw (e, qp_round, f) refl

qp_detect-wants :
    (fuel : ℕ) (env : Env) (qp : QpThread) (threads : List Thread) {qp1 : QpThread} {t : ℕ}
    → qp_detect fuel env.history env.qp0_clk env.start qp threads ≡ some (qp1, t)
    → (qp1.stop_requested ≡ qp.stop_requested) × (qp1.reclaim.tvlog ≡ qp.reclaim.tvlog)
unfolding qp_detect
qp_detect-wants fuel env qp threads e = (ground (arith, e), ground (arith, e))

-- A round in which the detection ends and all reclamations are finished by the time of the barrier. Its
-- clock becomes the newest quiescent period's, and the clocks stay in order. If a request or a stop
-- wants a checkpoint, the round's clock is made durable and becomes the last checkpoint's; if not,
-- nothing is made durable and the last checkpoint's clock stays.
pub qp_round-Rounded :
    (fuel : ℕ) (env : Env) (qp : QpThread) (threads : List Thread) {qp1 : QpThread} {t : ℕ}
    → InOrder qp.clks
    → qp.clks.qp0 ≤ correct_qp_clock env.qp0_clk
    → qp.reclaim.tvlog ≤ reclaim_tvlog_ckpt
    → qp_detect fuel env.history env.qp0_clk env.start qp threads ≡ some (qp1, t)
    → ((ths : List Thread) → AllDone (env.work ths))
    → (r : RoundEnd) × (qp_round fuel env qp threads ≡ some r)
      × Rounded (wants_ckpt qp) (advance_qp_clock qp.clks (correct_qp_clock env.qp0_clk)) r
qp_round-Rounded fuel env qp threads {qp1} o later code e finished =
    let clks = qp_detect-clks fuel env qp threads e in
    let (stop, req) = qp_detect-wants fuel env qp threads e in
    let wants : wants_ckpt qp1 ≡ wants_ckpt qp = rw (stop, req) refl in
    let o1 : InOrder qp1.clks =
      subst InOrder (sym clks) (advance-InOrder qp.clks (correct_qp_clock env.qp0_clk) o later) in
    elim (Option-cases (take_requests qp1)) [
      | inl none_left ↦
          let r : RoundEnd = record {
            qp = qp1;
            threads = threads;
            persisted = none;
            need_free = 0;
          } in
          let no_ckpt = sym wants ∙ take_requests-none qp1 none_left in
          (
            r,
            round_idle fuel env qp threads e none_left,
            subst (λ c. Rounded (wants_ckpt qp) c r) clks
                (record { order = o1; first = refl; moved = inl (no_ckpt, refl, refl) }),
          )
      | inr ((qp2, reclaim), taken) ↦
          let same = take_requests-clks qp1 taken in
          let (r, f, done) =
            finish_round-Rounded qp2 reclaim (env.work (qp_trigger_reclaim qp2 threads reclaim))
              (subst InOrder (sym same) o1) (finished (qp_trigger_reclaim qp2 threads reclaim)) in
          let ckpt = take_requests-ckpt qp1 (omega (arith, code, req)) taken ∙ wants in
          (
            r,
            round_busy fuel env qp threads e taken ∙ f,
            subst
                (λ (w : Bool).
                  Rounded w (advance_qp_clock qp.clks (correct_qp_clock env.qp0_clk)) r)
                ckpt
                (subst (λ c. Rounded (reclaim.tvlog == reclaim_tvlog_ckpt) c r) (same ∙ clks) done),
          )
    ]
