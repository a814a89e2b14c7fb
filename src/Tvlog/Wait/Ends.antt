-- ===== src/Tvlog/Wait/Ends.antt =====
-- The waits for the detecting thread end with the reclamation that its first trigger asks for.
use timestone.Base.{
  ℕ, zero, suc, ◌+◌, ◌*◌, ◌≤◌, ◌<◌, ◌≡◌, ◌≢◌, inl, inr, refl, sym, ap, ◌∙◌, Bool, true, false, none,
  some, List, [], ◌∷◌, ◌++◌, arith, ◌==◌, Bool-cases, replicate,
}
use mathlib.Core.List.{append_assoc, append-nil}
use timestone.Config.{reclaim_tvlog_ckpt}
use timestone.PtrSet.{Alloc}
use timestone.Qp
use timestone.Memory.{Memory}
use timestone.Ckptlog.{Ckptlog}
use timestone.Tvlog.{Tvlog}
use timestone.Tvlog.Reclaim.{
  Outcome, returns, no_space, lost, out_of_fuel, Reclaimed, reclaim_tvlog_ckptlog, reclaim_ckptlog,
  unchanged, tvlog_reclaim,
}
use timestone.Tvlog.Wait.{
  Triggers, Waiting, receive_tvlog, receive_ckptlog, request_of, ask_again, next_count, after_round,
  wait_reclaim, wait_while,
}

-- Without a request nothing is reclaimed.
reclaim_idle :
    (fuel headers : ℕ) (alloc : Alloc) (w : Waiting)
    → w.tvlog.need_reclaim ≡ 0
    → w.ckptlog.need_reclaim ≡ 0
    → reclaim_tvlog_ckptlog fuel headers alloc w.memory w.tvlog w.ckptlog
      ≡ returns (unchanged w.memory w.tvlog w.ckptlog)
unfolding reclaim_tvlog_ckptlog reclaim_ckptlog
reclaim_idle fuel headers alloc w t k =
    let zt : (w.tvlog.need_reclaim == 0) ≡ true = ground (arith, t) in
    let zk : (w.ckptlog.need_reclaim == 0) ≡ true = ground (arith, k) in rw (zt, zk) refl

reclaim_ckptlog-counts :
    (fuel : ℕ) (alloc : Alloc) (r : Reclaimed) (n : ℕ) {r' : Reclaimed}
    → n ≢ 0
    → reclaim_ckptlog fuel alloc r n ≡ returns r'
    → r'.ret ≢ 0
unfolding reclaim_ckptlog
reclaim_ckptlog-counts fuel alloc r n ne e = ground (arith, e, ne)

-- what the reclamation of the version log leaves for the one of the checkpoint log
abbrev behind_tvlog : ℕ → Alloc → Outcome Reclaimed → Outcome Reclaimed
behind_tvlog fuel alloc o = elim o [
  | returns r ↦ reclaim_ckptlog fuel alloc r 1
  | no_space ↦ no_space
  | lost ↦ lost
  | out_of_fuel ↦ out_of_fuel
]

behind_tvlog-counts :
    (fuel : ℕ) (alloc : Alloc) (o : Outcome Reclaimed) (r : Reclaimed)
    → behind_tvlog fuel alloc o ≡ returns r
    → r.ret ≢ 0
behind_tvlog-counts fuel alloc (returns r1) r e =
    reclaim_ckptlog-counts fuel alloc r1 1 (omega arith) e
behind_tvlog-counts fuel alloc no_space r e = cc
behind_tvlog-counts fuel alloc lost r e = cc
behind_tvlog-counts fuel alloc out_of_fuel r e = cc

-- A request for the version log makes the reclamation count.
pub reclaim_tvlog_ckptlog-counts :
    (fuel headers : ℕ) (alloc : Alloc) (m : Memory) (tvlog : Tvlog) (k : Ckptlog) (r : Reclaimed)
    → tvlog.need_reclaim ≢ 0
    → reclaim_tvlog_ckptlog fuel headers alloc m tvlog k ≡ returns r
    → r.ret ≢ 0
unfolding reclaim_tvlog_ckptlog
reclaim_tvlog_ckptlog-counts fuel headers alloc m tvlog k r asked e =
    let z : (tvlog.need_reclaim == 0) ≡ false = ground (arith, asked) in
    let reclaimed = tvlog_reclaim fuel headers m tvlog k in
    let step : reclaim_tvlog_ckptlog fuel headers alloc m tvlog k
        ≡ behind_tvlog fuel alloc reclaimed =
      rw z refl in
    behind_tvlog-counts fuel alloc reclaimed r (sym step ∙ e)

-- what a silent round leaves
abbrev silent : Waiting → ℕ → Waiting
silent w count = record w { requests = w.requests ++ ask_again count; time = w.time + 1 }

-- What the waiting thread has at the end of the round at time `stop`: it had made the requests `asked`
-- before, which are `k` further ones.
abbrev left_with : Reclaimed → ℕ → List ℕ → Waiting
left_with r stop asked = record {
  memory = r.memory;
  tvlog = r.tvlog;
  ckptlog = r.ckptlog;
  requests = asked ++ request_of r.tvlog_request ++ request_of r.ckptlog_request;
  time = stop + 1;
}

abbrev pub ended : Waiting → Reclaimed → ℕ → ℕ → Waiting
ended w r k stop = left_with r stop (w.requests ++ replicate k reclaim_tvlog_ckpt)

-- behind the request that a wait starts with
abbrev pub asking : Waiting → Waiting
asking w = record w { requests = w.requests ++ reclaim_tvlog_ckpt ∷ [] }

-- The counts of the round at time `stop`, from a round at time `now` with the count `count`
pub record Counted (now count k stop : ℕ) : Type 0 where
  pub left : ℕ
  pub few : left < 1000
  pub rounds : count + stop + 1 ≡ now + 1000 * k + left

after_round-ended :
    (w : Waiting) (r : Reclaimed) (count stop : ℕ)
    → count < 1000
    → w.time ≡ stop
    → (k : ℕ) × Counted w.time count k stop × (after_round w count r ≡ ended w r k stop)
after_round-ended w r count stop few at = elim (Bool-cases (count + 1 == 1000)) [
  | inl again ↦
      let last : count + 1 ≡ 1000 = ground (arith, again) in
      (
        1,
        record { left = 0; few = omega arith; rounds = omega (arith, last, at) },
        rw again (ap (λ t. ended w r 1 t) at),
      )
  | inr more ↦
      let early : count + 1 < 1000 = ground (arith, more, few) in
      (
        0,
        record { left = count + 1; few = early; rounds = omega (arith, at) },
        rw more (ap (λ t. ended w r 0 t) at),
      )
]

next_count_small : (count : ℕ) → count < 1000 → next_count count < 1000
next_count_small count few = ground (arith, few)

silent-ended :
    (w : Waiting) (r : Reclaimed) (count k stop : ℕ)
    → count < 1000
    → Counted (w.time + 1) (next_count count) k stop
    → (k' : ℕ) × Counted w.time count k' stop
      × (ended (silent w count) r k stop ≡ ended w r k' stop)
silent-ended w r count k stop few n =
    let asked = replicate k reclaim_tvlog_ckpt in
    let asked_more = append_assoc w.requests (reclaim_tvlog_ckpt ∷ []) asked in
    elim (Bool-cases (count + 1 == 1000)) [
      | inl again ↦
          let last : count + 1 ≡ 1000 = ground (arith, again) in
          let zeroed : next_count count ≡ 0 = rw again refl in
          (
            suc k,
            record { left = n.left; few = n.few; rounds = omega (arith, last, zeroed, n.rounds) },
            rw again (ap (left_with r stop) asked_more),
          )
      | inr more ↦
          let counted : next_count count ≡ count + 1 = rw more refl in
          (
            k,
            record { left = n.left; few = n.few; rounds = omega (arith, counted, n.rounds) },
            rw more (ap (λ l. left_with r stop (l ++ asked)) (append-nil w.requests)),
          )
    ]

module _ (fuel headers : ℕ) (alloc : Alloc) (trigger : Triggers) where
  wait_silent :
      (rounds count : ℕ) (w : Waiting)
      → w.tvlog.need_reclaim ≡ 0
      → w.ckptlog.need_reclaim ≡ 0
      → trigger w.time ≡ none
      → wait_reclaim fuel headers alloc trigger (suc rounds) count w
        ≡ wait_reclaim fuel headers alloc trigger rounds (next_count count) (silent w count)
  unfolding wait_reclaim
  wait_silent rounds count w t k quiet =
      let asked = w.requests ++ ask_again count in
      rw (quiet, wait_reclaim, reclaim_idle fuel headers alloc w t k)
        (ap
          (λ l.
            wait_reclaim fuel headers alloc trigger rounds (next_count count)
              (record w { requests = l; time = w.time + 1 }))
          (append-nil (asked ++ []) ∙ append-nil asked))

  module _ (got : Qp.SysClks × Qp.Reclaim) (r : Reclaimed) (stop : ℕ)
      (now : trigger stop ≡ some got) (some_done : r.ret ≢ 0) where
    wait_served :
        (rounds count : ℕ) (w : Waiting)
        → w.time ≡ stop
        → reclaim_tvlog_ckptlog fuel headers alloc w.memory
            (receive_tvlog (some got) w.tvlog)
            (receive_ckptlog (some got) w.ckptlog)
          ≡ returns r
        → wait_reclaim fuel headers alloc trigger (suc rounds) count w
          ≡ returns (after_round w count r)
    unfolding wait_reclaim
    wait_served rounds count w at reclaims =
        let here : trigger w.time ≡ some got = ap trigger at ∙ now in
        let z : (r.ret == 0) ≡ false = ground (arith, some_done) in
        rw (here, wait_reclaim, reclaims, z) refl

    -- The first request that reaches a waiting thread, at time `stop`, ends the wait, with what was
    -- reclaimed; until then the thread has asked again once in every 1000 rounds.
    pub wait_reclaim-ended :
        (rounds count : ℕ) (w : Waiting)
        → w.tvlog.need_reclaim ≡ 0
        → w.ckptlog.need_reclaim ≡ 0
        → ((t : ℕ) → w.time ≤ t → t < stop → trigger t ≡ none)
        → reclaim_tvlog_ckptlog fuel headers alloc w.memory
            (receive_tvlog (some got) w.tvlog)
            (receive_ckptlog (some got) w.ckptlog)
          ≡ returns r
        → w.time ≤ stop
        → stop < w.time + rounds
        → count < 1000
        → (k : ℕ) × Counted w.time count k stop
          × (wait_reclaim fuel headers alloc trigger rounds count w ≡ returns (ended w r k stop))
    wait_reclaim-ended zero count w t k quiet reclaims ahead enough few =
        absurd (omega (arith, ahead, enough))
    wait_reclaim-ended (suc rounds) count w t k quiet reclaims ahead enough few =
        elim (Bool-cases (w.time == stop)) [
          | inl e ↦
              let at : w.time ≡ stop = ground (arith, e) in
              let (n, counted, ends) = after_round-ended w r count stop few at in
              (n, counted, wait_served rounds count w at reclaims ∙ ap returns ends)
          | inr e ↦
              let before : w.time + 1 ≤ stop = ground (arith, e, ahead) in
              let (n, counted, ends) =
                wait_reclaim-ended rounds (next_count count) (silent w count) t k
                  (λ u after under. quiet u (omega (arith, after)) under) reclaims before
                  (omega (arith, enough)) (next_count_small count few) in
              let (n', counted', same) = silent-ended w r count n stop few counted in
              (
                n',
                counted',
                wait_silent rounds count w t k (quiet w.time (omega arith) (omega (arith, before)))
                    ∙ ends
                    ∙ ap returns same,
              )
        ]

    -- An outer loop that has something left, and for which that reclamation leaves nothing.
    pub wait_while-ended :
        (is_left : Tvlog → Bool) (rounds n : ℕ) (w : Waiting)
        → w.tvlog.need_reclaim ≡ 0
        → w.ckptlog.need_reclaim ≡ 0
        → ((t : ℕ) → w.time ≤ t → t < stop → trigger t ≡ none)
        → reclaim_tvlog_ckptlog fuel headers alloc w.memory
            (receive_tvlog (some got) w.tvlog)
            (receive_ckptlog (some got) w.ckptlog)
          ≡ returns r
        → w.time ≤ stop
        → stop < w.time + rounds
        → is_left w.tvlog ≡ true
        → is_left r.tvlog ≡ false
        → (k : ℕ) × Counted w.time 0 k stop
          × (wait_while fuel headers alloc trigger is_left rounds (suc (suc n)) w
              ≡ returns (ended (asking w) r k stop))
    unfolding wait_while
    wait_while-ended is_left rounds n w t k quiet reclaims ahead enough before after =
        let (k', counted, ends) =
          wait_reclaim-ended rounds 0 (asking w) t k quiet reclaims ahead enough (omega arith) in
        (k', counted, rw (before, wait_while, ends, after) refl)

  wait_while-idle :
      (is_left : Tvlog → Bool) (rounds n : ℕ) (w : Waiting)
      → is_left w.tvlog ≡ false
      → wait_while fuel headers alloc trigger is_left rounds (suc n) w ≡ returns w
  unfolding wait_while
  wait_while-idle is_left rounds n w done = rw (wait_while, done) refl
