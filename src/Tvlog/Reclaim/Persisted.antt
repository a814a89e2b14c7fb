-- ===== src/Tvlog/Reclaim/Persisted.antt =====
-- The loops of a reclamation, around any body that only adds to the checkpoint log, and the durable end
-- of what they added.
use timestone.Base.{
  ℕ, zero, suc, ◌≡◌, ◌⊎◌, inl, inr, Bool, true, false, not, ◌&&◌, Bool-cases, ltb, arith, add_u64,
}
use timestone.Nvlog.{nvlog_index, nvlog_enq_persist}
use timestone.Memory.{Memory, get_entry_size}
use timestone.Ckptlog.{Ckptlog, Log, ckptlog_enq_persist}
use timestone.Tvlog.{Tvlog, tvlog_at}
use timestone.Tvlog.WriteSet.{ws_iter_begin}
use timestone.Tvlog.Reclaim.{
  State, Outcome, returns, no_space, lost, out_of_fuel, Turn, goes_on, jumps, Round, stops, behind,
  each_object, each_set, end_reclaim,
}
use timestone.Tvlog.Reclaim.Growing.{Growing, Ends, of_turn, of_round, of_set}

module _ (headers : ℕ) (k : Ckptlog) where
  module _ (tvlog : Tvlog) where
    -- the rest of a round, behind the body
    abbrev rest_of : (State → ℕ → Outcome Turn) → ℕ → ℕ → Outcome Turn → Outcome Round
    rest_of body n cnt r = elim r [
      | returns t ↦ elim t [
        | jumps st' ↦ returns (stops st')
        | goes_on st' ↦
            each_object tvlog body n st'
              (add_u64 cnt (get_entry_size (st'.memory.chs (tvlog_at tvlog cnt))))
      ]
      | no_space ↦ no_space
      | lost ↦ lost
      | out_of_fuel ↦ out_of_fuel
    ]

    module _ (body : State → ℕ → Outcome Turn)
        (step : (st : State) (c : ℕ) → Growing k st → Ends headers k of_turn (body st c)) where
      rest_of-Ends :
          (n cnt : ℕ) (r : Outcome Turn)
          → ((st : State) (x : ℕ)
              → Growing k st
              → Ends headers k of_round (each_object tvlog body n st x))
          → Ends headers k of_turn r
          → Ends headers k of_round (rest_of body n cnt r)
      rest_of-Ends n cnt (returns (goes_on st)) again g =
          again st (add_u64 cnt (get_entry_size (st.memory.chs (tvlog_at tvlog cnt)))) g
      rest_of-Ends n cnt (returns (jumps st)) again g = g
      rest_of-Ends n cnt no_space again g = g
      rest_of-Ends n cnt lost again g = g
      rest_of-Ends n cnt out_of_fuel again g = tt

      each_object-Ends :
          (n : ℕ) (st : State) (cnt : ℕ)
          → Growing k st
          → Ends headers k of_round (each_object tvlog body n st cnt)
      unfolding each_object
      each_object-Ends zero st cnt g = g
      each_object-Ends (suc n) st cnt g =
          rest_of-Ends n cnt (body st (tvlog_at tvlog cnt)) (each_object-Ends n)
            (step st (tvlog_at tvlog cnt) g)

    module _ (ends : Memory → ℕ → Bool) (body : Memory → ℕ → State → ℕ → Outcome Turn)
        (step : (m : Memory) (ws : ℕ) (st : State) (c : ℕ)
          → Growing k st
          → Ends headers k of_turn (body m ws st c))
        (tail : ℕ) where
      -- the rest of a turn of the loop, behind the round over a write set
      abbrev behind_round : ℕ → ℕ → Outcome Round → Outcome (State × ℕ)
      behind_round fuel start r = elim r [
        | returns w ↦ elim w [
          | stops st' ↦ returns (st', start)
          | behind st' cnt ↦ each_set fuel tvlog ends body tail st' cnt
        ]
        | no_space ↦ no_space
        | lost ↦ lost
        | out_of_fuel ↦ out_of_fuel
      ]

      behind_round-Ends :
          (fuel start : ℕ) (r : Outcome Round)
          → ((st : State) (x : ℕ)
              → Growing k st
              → Ends headers k of_set (each_set fuel tvlog ends body tail st x))
          → Ends headers k of_round r
          → Ends headers k of_set (behind_round fuel start r)
      behind_round-Ends fuel start (returns (stops st)) again g = g
      behind_round-Ends fuel start (returns (behind st cnt)) again g = again st cnt g
      behind_round-Ends fuel start no_space again g = g
      behind_round-Ends fuel start lost again g = g
      behind_round-Ends fuel start out_of_fuel again g = tt

      abbrev turn : ℕ → State → ℕ → Bool → Outcome (State × ℕ)
      turn fuel st start b = elim b [
        | false ↦ returns (st, start)
        | true ↦ behind_round fuel start (
            each_object tvlog (body st.memory (tvlog_at tvlog start))
              (st.memory.ws (tvlog_at tvlog start)).num_objs st
              (ws_iter_begin st.memory (tvlog_at tvlog start)))
      ]

      turn-Ends :
          (fuel : ℕ) (st : State) (start : ℕ) (b : Bool)
          → ((st' : State) (x : ℕ)
              → Growing k st'
              → Ends headers k of_set (each_set fuel tvlog ends body tail st' x))
          → Growing k st
          → Ends headers k of_set (turn fuel st start b)
      turn-Ends fuel st start false again g = g
      turn-Ends fuel st start true again g =
          let a = tvlog_at tvlog start in
          behind_round-Ends fuel start
            (each_object tvlog (body st.memory a) (st.memory.ws a).num_objs st
              (ws_iter_begin st.memory a))
            again
            (each_object-Ends (body st.memory a) (step st.memory a) (st.memory.ws a).num_objs st
              (ws_iter_begin st.memory a) g)

      pub each_set-Ends :
          (fuel : ℕ) (st : State) (start : ℕ)
          → Growing k st
          → Ends headers k of_set (each_set fuel tvlog ends body tail st start)
      unfolding each_set
      each_set-Ends zero st start g = tt
      each_set-Ends (suc fuel) st start g =
          turn-Ends fuel st start (ltb start tail && not (ends st.memory start))
            (each_set-Ends fuel) g

-- The end of a reclamation leaves the durable tail of the checkpoint log at its tail, unless the log is
-- as it was.
abbrev pub Persisted : Ckptlog → Ckptlog → Type 0
Persisted k k' =
    (k' ≡ k) ⊎ (nvlog_index k'.log k'.log.nvlog_store.tail_cnt ≡ nvlog_index k'.log k'.log.tail_cnt)

enq_persist-tails :
    (l : Log)
    → nvlog_index (nvlog_enq_persist l).0 (nvlog_enq_persist l).0.nvlog_store.tail_cnt
      ≡ nvlog_index (nvlog_enq_persist l).0 (nvlog_enq_persist l).0.tail_cnt
unfolding nvlog_enq_persist
enq_persist-tails l = ground arith

pub end_reclaim-Persisted :
    (tvlog : Tvlog) (mode : ℕ) (k : Ckptlog) (st : State) (new_head start : ℕ)
    → Growing k st
    → Persisted k (end_reclaim tvlog mode st new_head start).ckptlog
unfolding end_reclaim ckptlog_enq_persist
end_reclaim-Persisted tvlog mode k st new_head start g = elim (Bool-cases st.dirty) [
  | inl dirty ↦ rw dirty (inr (enq_persist-tails st.ckptlog.log))
  | inr clean ↦ rw clean (inl (g.clean clean))
]
