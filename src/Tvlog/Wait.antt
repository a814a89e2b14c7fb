-- ===== src/Tvlog/Wait.antt =====
-- lib/tvlog.c: the two loops that wait for the detecting thread, `tvlog_flush` and
-- `tvlog_reclaim_below_high_watermark`. Each asks for a checkpoint, and again after every 1000 rounds.
pub mod Ends
use timestone.Base.{
  ℕ, zero, suc, ◌+◌, Bool, true, false, not, Option, none, some, List, [], ◌∷◌, ◌++◌, ◌==◌, ltb,
  if◌then◌else◌,
}
use timestone.Config.{reclaim_tvlog_ckpt, tvlog_high_mark}
use timestone.PtrSet.{Alloc}
use timestone.Qp
use timestone.Memory.{Memory}
use timestone.Ckptlog.{Ckptlog}
use timestone.Tvlog.{Tvlog, tvlog_used}
use timestone.Tvlog.Reclaim.{
  Outcome, returns, no_space, lost, out_of_fuel, Reclaimed, reclaim_tvlog_ckptlog,
}

-- By time, what the trigger of the detecting thread has written into the thread since the time before.
abbrev pub Triggers : Type 0
Triggers = ℕ → Option (Qp.SysClks × Qp.Reclaim)

-- The thread's logs, the requests it has made, and the time, which counts the rounds.
pub record Waiting : Type 0 where
  pub memory : Memory
  pub tvlog : Tvlog
  pub ckptlog : Ckptlog
  pub requests : List ℕ
  pub time : ℕ

abbrev pub receive_tvlog : Option (Qp.SysClks × Qp.Reclaim) → Tvlog → Tvlog
receive_tvlog none t = t
receive_tvlog (some (clks, reclaim)) t = record t { need_reclaim = reclaim.tvlog }

abbrev pub receive_ckptlog : Option (Qp.SysClks × Qp.Reclaim) → Ckptlog → Ckptlog
receive_ckptlog none k = k
receive_ckptlog (some (clks, reclaim)) k = record k { clks = clks; need_reclaim = reclaim.ckptlog }

abbrev pub request_of : Option ℕ → List ℕ
request_of none = []
request_of (some r) = r ∷ []

-- The request that a round makes, as it is the 1000th since the last.
abbrev pub ask_again : ℕ → List ℕ
ask_again count = if count + 1 == 1000 then reclaim_tvlog_ckpt ∷ [] else []

abbrev pub next_count : ℕ → ℕ
next_count count = if count + 1 == 1000 then 0 else count + 1

-- what a round leaves, from the result of its reclamations
abbrev pub after_round : Waiting → ℕ → Reclaimed → Waiting
after_round w count r = record {
  memory = r.memory;
  tvlog = r.tvlog;
  ckptlog = r.ckptlog;
  requests =
      (w.requests ++ ask_again count) ++ request_of r.tvlog_request ++ request_of r.ckptlog_request;
  time = w.time + 1;
}

abbrev pub is_high : Tvlog → Bool
is_high tvlog = not (ltb (tvlog_used tvlog) tvlog_high_mark)

abbrev pub is_nonempty : Tvlog → Bool
is_nonempty tvlog = not (tvlog.head_cnt == tvlog.tail_cnt)

module _ (fuel headers : ℕ) (alloc : Alloc) (trigger : Triggers) where
  -- The inner loop: until something was reclaimed.
  unfoldable pub wait_reclaim : ℕ → ℕ → Waiting → Outcome Waiting
  wait_reclaim zero count w = out_of_fuel
  wait_reclaim (suc rounds) count w =
      elim (reclaim_tvlog_ckptlog fuel headers alloc w.memory
        (receive_tvlog (trigger w.time) w.tvlog) (receive_ckptlog (trigger w.time) w.ckptlog)) [
          | returns r ↦ elim (r.ret == 0) [
            | true ↦ wait_reclaim rounds (next_count count) (after_round w count r)
            | false ↦ returns (after_round w count r)
          ]
          | no_space ↦ no_space
          | lost ↦ lost
          | out_of_fuel ↦ out_of_fuel
        ]

  -- The outer loop, while `is_left` holds of the log.
  unfoldable pub wait_while : (Tvlog → Bool) → ℕ → ℕ → Waiting → Outcome Waiting
  wait_while is_left rounds zero w = out_of_fuel
  wait_while is_left rounds (suc n) w = elim (is_left w.tvlog) [
    | false ↦ returns w
    | true ↦
        elim (wait_reclaim rounds 0
          (record w { requests = w.requests ++ reclaim_tvlog_ckpt ∷ [] })) [
            | returns w' ↦ wait_while is_left rounds n w'
            | no_space ↦ no_space
            | lost ↦ lost
            | out_of_fuel ↦ out_of_fuel
          ]
  ]

  unfoldable pub tvlog_reclaim_below_high_watermark : ℕ → ℕ → Waiting → Outcome Waiting
  tvlog_reclaim_below_high_watermark rounds n w = wait_while is_high rounds n w

  unfoldable pub tvlog_flush : ℕ → ℕ → Waiting → Outcome Waiting
  tvlog_flush rounds n w = wait_while is_nonempty rounds n w
