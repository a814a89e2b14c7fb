-- ===== src/Qp/Grace.antt =====
-- A quiescent period: every transaction that ran when the detection began has ended, or its view is
-- not older than the detection.
use native.Mathlib.Nat.{mod-lt}
use timestone.Base.{
  ℕ, zero, suc, ◌+◌, ◌%◌, ◌≤◌, ◌<◌, ◌≡◌, inl, inr, refl, sym, ap, true, false, some, List, [], ◌∷◌,
  ◌==◌, arith, Bool-cases, ltb-cases, Option-cases,
}
use timestone.Clock.{gte_clock, correct_qp_clock}
use timestone.Qp.{
  Thread, History, init_thread, qp_init, has_passed, wait_thread, qp_wait, QpThread, qp_detect,
  advance_qp_clock,
}

-- The run counters never fall: a transaction's begin and end only increase its thread's.
abbrev pub Monotone : History → Type 0
Monotone h = (i s t : ℕ) → s ≤ t → (h i s).run_cnt ≤ (h i t).run_cnt

-- The transaction of thread `th` that ran at time `s` has ended at time `t`, or none ran, or the
-- thread's view was seen, by then, not to be older than `qp_clk`.
pub data Quiet (h : History) (qp_clk s t : ℕ) (th : Thread) : Type 0 where
  idle : (h th.tid s).run_cnt % 2 ≡ 0 → Quiet h qp_clk s t th
  ended :
      (k : ℕ) → s ≤ k → k ≤ t → (h th.tid s).run_cnt < (h th.tid k).run_cnt → Quiet h qp_clk s t th
  newer :
      (k : ℕ)
      → s ≤ k
      → k ≤ t
      → gte_clock (h th.tid k).local_clk qp_clk ≡ true
      → Quiet h qp_clk s t th

pub data AllQuiet (h : History) (qp_clk s t : ℕ) : List Thread → Type 0 where
  done : AllQuiet h qp_clk s t []
  each :
      {th : Thread} {ths : List Thread}
      → Quiet h qp_clk s t th
      → AllQuiet h qp_clk s t ths
      → AllQuiet h qp_clk s t (th ∷ ths)

-- The wait for one thread ends at a time at which it has passed.
wait_thread-passed :
    (fuel : ℕ) (h : History) (qp_clk : ℕ) (th : Thread) (t : ℕ) {u : ℕ}
    → wait_thread fuel h qp_clk th t ≡ some u
    → (has_passed h qp_clk th u ≡ true) × (t ≤ u)
unfolding wait_thread
wait_thread-passed zero h qp_clk th t e = cc
wait_thread-passed (suc fuel) h qp_clk th t {u} e = elim (Bool-cases (has_passed h qp_clk th t)) [
  | inl now ↦
      let reached : some t ≡ some u = rw now at e in
      let same : t ≡ u = cc in (rw same at now, omega (arith, same))
  | inr later ↦
      let r = wait_thread-passed fuel h qp_clk th (t + 1) {u = u} (rw later at e) in
      (r.0, omega (arith, r.1))
]

-- A thread that has passed is behind a quiescent period.
Quiet-one :
    (h : History) (qp_clk s t u : ℕ) (th : Thread) (m : Monotone h) (st : s ≤ t) (tu : t ≤ u)
    → has_passed h qp_clk (init_thread h s th) t ≡ true
    → Quiet h qp_clk s u th
unfolding init_thread
Quiet-one h qp_clk s t u th m st tu e =
    elim (Bool-cases ((h th.tid t).run_cnt == (h th.tid s).run_cnt)) [
      | inl same ↦ newer t st tu (rw same at e)
      | inr moved ↦ let grown = m th.tid s t st in ended t st tu (ground (arith, grown, moved))
    ]

qp_wait-AllQuiet :
    (fuel : ℕ) (h : History) (qp_clk s : ℕ) (threads : List Thread) (t : ℕ) {u : ℕ} (m : Monotone h)
    → s ≤ t
    → qp_wait fuel h qp_clk (qp_init h s threads) t ≡ some u
    → (t ≤ u) × AllQuiet h qp_clk s u threads
unfolding qp_wait qp_init init_thread
qp_wait-AllQuiet fuel h qp_clk s [] t {u} m st e = (ground arith, done)
qp_wait-AllQuiet fuel h qp_clk s (th ∷ ths) t {u} m st e =
    elim (Bool-cases ((h th.tid s).run_cnt % 2 == 0)) [
      | inl off ↦
          let r = qp_wait-AllQuiet fuel h qp_clk s ths t {u = u} m st (rw off at e) in
          (r.0, each (idle (ground (arith, off))) r.1)
      | inr on ↦ elim (Option-cases (wait_thread fuel h qp_clk (init_thread h s th) t)) [
        | inl never ↦ cc
        | inr (k, stop) ↦
            let w = wait_thread-passed fuel h qp_clk (init_thread h s th) t {u = k} stop in
            let r =
              qp_wait-AllQuiet fuel h qp_clk s ths k {u = u} m (omega (arith, w.1, st))
                (rw (on, stop) at e) in
            (
              omega (arith, w.1, r.0),
              each (Quiet-one h qp_clk s k u th m (omega (arith, w.1, st)) r.0 w.0) r.1,
            )
      ]
    ]

-- A detection whose waits end, of the threads that were registered when it began, leaves every one
-- of them behind a quiescent period, and moves the clocks on by the detection's.
pub qp_detect-AllQuiet :
    (fuel : ℕ) (h : History) (qp0_clk s : ℕ) (qp : QpThread) (threads : List Thread)
    (m : Monotone h) {qp' : QpThread} {u : ℕ}
    → qp_detect fuel h qp0_clk s qp threads ≡ some (qp', u)
    → (s ≤ u)
      × AllQuiet h qp0_clk s u threads
      × (qp'.clks.qp0 ≡ correct_qp_clock qp0_clk)
      × (qp'.clks.qp1 ≡ qp.clks.qp0)
      × (qp'.clks.qp2 ≡ qp.clks.qp1)
unfolding qp_detect advance_qp_clock
qp_detect-AllQuiet fuel h qp0_clk s qp threads m {qp'} {u} e =
    elim (Option-cases (qp_wait fuel h qp0_clk (qp_init h s threads) s)) [
      | inl never ↦ cc
      | inr (k, stop) ↦
          let qp1 : QpThread = record qp {
            clks = advance_qp_clock qp.clks (correct_qp_clock qp0_clk);
          } in
          let at_k : QpThread × ℕ = (qp1, k) in
          let at_u : QpThread × ℕ = (qp', u) in
          let found : some at_k ≡ some at_u = rw (stop, qp_detect) at e in
          let both : at_k ≡ at_u = cc in
          let r = qp_wait-AllQuiet fuel h qp0_clk s threads s {u = k} m (omega arith) stop in
          let same : k ≡ u = ap (λ p. p.1) both in
          (
            omega (arith, r.0, same),
            rw same at r.1,
            sym (ap (λ p. p.0.clks.qp0) both),
            sym (ap (λ p. p.0.clks.qp1) both),
            sym (ap (λ p. p.0.clks.qp2) both),
          )
    ]

not-passed :
    (h : History) (qp_clk : ℕ) (th : Thread) (t last : ℕ)
    (passed : (u : ℕ) → last ≤ u → has_passed h qp_clk th u ≡ true)
    → has_passed h qp_clk th t ≡ false
    → t < last
not-passed h qp_clk th t last passed later = elim (ltb-cases t last) [
  | inl before ↦ before.1
  | inr after ↦ let now = passed t after.1 in cc
]

wait_thread-ends :
    (fuel : ℕ) (h : History) (qp_clk : ℕ) (th : Thread) (t last : ℕ)
    (passed : (u : ℕ) → last ≤ u → has_passed h qp_clk th u ≡ true)
    → 0 < fuel
    → last < t + fuel
    → (u : ℕ) × (wait_thread fuel h qp_clk th t ≡ some u)
unfolding wait_thread
wait_thread-ends zero h qp_clk th t last passed some_round enough = (t, ground (arith, some_round))
wait_thread-ends (suc fuel) h qp_clk th t last passed some_round enough =
    elim (Bool-cases (has_passed h qp_clk th t)) [
      | inl now ↦ (t, ground (arith, now))
      | inr later ↦
          let before = not-passed h qp_clk th t last passed later in
          let r =
            wait_thread-ends fuel h qp_clk th (t + 1) last passed (omega (arith, enough, before))
              (omega (arith, enough)) in
          (r.0, ground (arith, later, r.1))
    ]

-- Every transaction that runs at time `s` ends by the time `last`.
abbrev pub EndsBy : History → ℕ → ℕ → Type 0
EndsBy h s last = (i u : ℕ) → last ≤ u → (h i s).run_cnt % 2 ≡ 1 → (h i s).run_cnt < (h i u).run_cnt

EndsBy-passed :
    (h : History) (qp_clk s last : ℕ) (th : Thread) (ends : EndsBy h s last)
    → (h th.tid s).run_cnt % 2 == 0 ≡ false
    → (u : ℕ) → last ≤ u
    → has_passed h qp_clk (init_thread h s th) u ≡ true
unfolding init_thread
EndsBy-passed h qp_clk s last th ends on u late =
    let odd : (h th.tid s).run_cnt % 2 ≡ 1 =
      ground (arith, on, mod-lt (h th.tid s).run_cnt {m = 2}) in
    let grown = ends th.tid u late odd in
    let differ : (h th.tid u).run_cnt == (h th.tid s).run_cnt ≡ false = ground (arith, grown) in
    rw differ

-- When every transaction that runs as the detection begins ends by some time, the detection's waits
-- end, within as many rounds as lie between.
pub qp_wait-ends :
    (fuel : ℕ) (h : History) (qp_clk s last : ℕ) (threads : List Thread) (t : ℕ)
    (ends : EndsBy h s last)
    → 0 < fuel
    → last < t + fuel
    → (u : ℕ) × (qp_wait fuel h qp_clk (qp_init h s threads) t ≡ some u)
unfolding qp_wait qp_init init_thread
qp_wait-ends fuel h qp_clk s last [] t ends some_round enough = (t, refl)
qp_wait-ends fuel h qp_clk s last (th ∷ ths) t ends some_round enough =
    elim (Bool-cases ((h th.tid s).run_cnt % 2 == 0)) [
      | inl off ↦
          let r = qp_wait-ends fuel h qp_clk s last ths t ends some_round enough in
          (r.0, ground (arith, off, r.1))
      | inr on ↦
          let w =
            wait_thread-ends fuel h qp_clk (init_thread h s th) t last
              (EndsBy-passed h qp_clk s last th ends on) some_round enough in
          let r =
            qp_wait-ends fuel h qp_clk s last ths w.0 ends some_round (
              omega (arith, enough, wait_thread-passed fuel h qp_clk (init_thread h s th) t w.1)) in
          (r.0, rw (on, w.1) r.1)
    ]
