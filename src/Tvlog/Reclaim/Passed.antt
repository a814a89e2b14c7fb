-- ===== src/Tvlog/Reclaim/Passed.antt =====
-- What a reclamation of a version log frees and what it checkpoints.
use timestone.Base.{ℕ, ◌<◌, ◌≡◌, ◌⊎◌, true, false, List, ◌++◌, length}
use timestone.Config.{copy}
use timestone.Memory.{Memory}
use timestone.Ckptlog.{Ckptlog}
use timestone.Tvlog.{Tvlog}
use timestone.Tvlog.Reclaim.{
  State, Outcome, returns, no_space, lost, out_of_fuel, each_set, ends_reclaim, ends_ckpt,
  is_detached, reclaim_body, ckpt_body, Reclaimed, end_reclaim,
}
use timestone.Tvlog.Reclaim.Walk.{InLog, All, Sets}
use timestone.Tvlog.Reclaim.Loop.{PassedSet, Halted, LoopEnded}
use timestone.Tvlog.Reclaim.Steps.{Replaced, Needed, Checkpointed, Pending}
use timestone.Tvlog.Reclaim.Growing.{Growing, Full, Lost}
use timestone.Tvlog.Reclaim.Persisted.{Persisted}

-- The result of a reclamation of the log of the write sets at `starts`: the first of them are freed,
-- the next are checkpointed, and the others are left.
pub record Reclaims (m : Memory) (tvlog : Tvlog) (k : Ckptlog) (mode : ℕ) (starts : List ℕ)
    (r : Reclaimed) : Type 0 where
  pub freed : List ℕ
  pub checkpointed : List ℕ
  pub left : List ℕ
  pub split : starts ≡ freed ++ (checkpointed ++ left)
  pub head : Sets tvlog m r.tvlog.head_cnt (checkpointed ++ left)
  pub prev_head : Sets tvlog m r.tvlog.prev_head_cnt left
  pub tail : r.tvlog.tail_cnt ≡ tvlog.tail_cnt
  pub free_fine :
      All (PassedSet (Replaced mode k.clks.qp0) tvlog (ends_reclaim tvlog) m r.memory) freed
  pub free_halted :
      Halted (Needed mode k.clks.qp0) tvlog (ends_reclaim tvlog) m (checkpointed ++ left)
  pub ckpt_fine :
      All
        (PassedSet
          (Checkpointed k.clks.qp0 k.clks.last_ckpt)
          tvlog
          (ends_ckpt tvlog k.clks.qp0)
          m
          r.memory)
        checkpointed
  pub ckpt_halted :
      Halted (Pending mode k.clks.qp0 k.clks.last_ckpt) tvlog (ends_ckpt tvlog k.clks.qp0) m left
  pub newly :
      (c : ℕ)
      → (m.chs c).type ≡ copy
      → is_detached (r.memory.chs c).status ≡ true
      → (is_detached (m.chs c).status ≡ true) ⊎ InLog k.clks.qp0 r.memory c
  pub persisted : Persisted k r.ckptlog
  pub open_again : (r.tvlog.reclaim_lock ≡ 0) × (r.tvlog.need_reclaim ≡ 0)

abbrev pub OutcomeReclaims :
    (headers : ℕ) (m : Memory) (tvlog : Tvlog) (k : Ckptlog) (mode : ℕ) (starts : List ℕ)
    → Outcome Reclaimed
    → Type 0
OutcomeReclaims headers m tvlog k mode starts (returns r) = Reclaims m tvlog k mode starts r
OutcomeReclaims headers m tvlog k mode starts no_space = Full headers k
OutcomeReclaims headers m tvlog k mode starts lost = Lost k
OutcomeReclaims headers m tvlog k mode starts out_of_fuel = ⊥

module _ (fuel headers : ℕ) (tvlog : Tvlog) (m : Memory) (k : Ckptlog) (mode : ℕ) (starts : List ℕ)
    (log : Sets tvlog m tvlog.head_cnt starts) (enough : length starts < fuel) where
  abbrev s : ℕ
  s = k.clks.qp0

  abbrev last : ℕ
  last = k.clks.last_ckpt

  abbrev begin : State
  begin = record { memory = m; ckptlog = k; dirty = false }

  abbrev first_loop : Outcome (State × ℕ)
  first_loop =
      each_set fuel tvlog (ends_reclaim tvlog) (reclaim_body headers mode s) tvlog.tail_cnt begin
        tvlog.head_cnt

  abbrev second_loop : State → ℕ → Outcome (State × ℕ)
  second_loop st1 new_head =
      each_set fuel tvlog (ends_ckpt tvlog s) (ckpt_body headers mode s last) tvlog.tail_cnt st1
        new_head

  First : Outcome (State × ℕ) → Type 0
  First r = LoopEnded s (Replaced mode s) (Needed mode s) tvlog (ends_reclaim tvlog) m starts r

  Second : State → List ℕ → Outcome (State × ℕ) → Type 0
  Second st1 rest r =
      LoopEnded s (Checkpointed s last) (Pending mode s last) tvlog (ends_ckpt tvlog s) st1.memory
        rest r

  -- what follows the loops
  abbrev behind_second : State → ℕ → Outcome (State × ℕ) → Outcome Reclaimed
  behind_second st1 new_head r = elim r [
    | returns (st2, start_cnt) ↦ returns (end_reclaim tvlog mode st2 new_head start_cnt)
    | no_space ↦ no_space
    | lost ↦ lost
    | out_of_fuel ↦ out_of_fuel
  ]

  abbrev behind_first : Outcome (State × ℕ) → Outcome Reclaimed
  behind_first r = elim r [
    | returns (st1, new_head_cnt) ↦ behind_second st1 new_head_cnt (second_loop st1 new_head_cnt)
    | no_space ↦ no_space
    | lost ↦ lost
    | out_of_fuel ↦ out_of_fuel
  ]
