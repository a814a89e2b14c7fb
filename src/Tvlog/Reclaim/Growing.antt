-- ===== src/Tvlog/Reclaim/Growing.antt =====
-- What the loops of a reclamation do to the checkpoint log, and where they give up.
use mathlib.Core.Path.{subst}
use timestone.Base.{
  ℕ, ◌+◌, ◌≡◌, ◌≢◌, inl, inr, refl, sym, ◌∙◌, Bool, true, false, not, ◌&&◌, ◌==◌, Option, none,
  some, Option-cases, if◌then◌else◌, arith, u32,
}
use timestone.Config.{
  ObjType, actual, wrt_set, copy, free, nvlog_entry, bogus, reclaim_tvlog_ckpt,
  reclaim_tvlog_best_effort,
}
use timestone.Clock.{gte_clock}
use timestone.Nvlog.{nvlog_enq, enq_fit, enq_bogus, enq_entry}
use timestone.Memory.{Memory, Obj, same_obj, set_vhdr}
use timestone.Ckptlog.{Ckptlog, Log, ckptlog_enq, init_ckpt_entry}
use timestone.Tvlog.WriteSet.{try_detach_obj}
use timestone.Tvlog.Borderline.{is_at_borderline}
use timestone.Tvlog.Reclaim.{
  State, Outcome, returns, no_space, lost, out_of_fuel, Turn, goes_on, jumps, Round, stops, behind,
  is_marked, is_detached, enqueued, mark_status, mark_tombstone, free_object, reclaim_object,
  ckpt_object,
}

-- The states of the loops from checkpoint log `k` on: the log only gets new entries at its tail, and as
-- long as nothing is dirty it is as it was.
pub record Growing (k : Ckptlog) (st : State) : Type 0 where
  pub head : st.ckptlog.log.head_cnt ≡ k.log.head_cnt
  pub size : st.ckptlog.log.log_size ≡ k.log.log_size
  pub clean : st.dirty ≡ false → st.ckptlog ≡ k

-- A state in which the checkpoint log has no room for the entry of an object.
pub record Full (headers : ℕ) (k : Ckptlog) : Type 0 where
  pub state : State
  pub header : ℕ
  pub growing : Growing k state
  pub no_room :
      (nvlog_enq state.ckptlog.log (u32 (headers + (state.memory.chs header).obj_size))).1 ≡ none

-- A state with an object to be freed, whose current master is neither the original one nor an entry.
pub record Lost (k : Ckptlog) : Type 0 where
  pub state : State
  pub header : ℕ
  pub growing : Growing k state
  pub is_free : (state.memory.chs header).type ≡ free
  pub nowhere :
      (e : ℕ) → (state.memory.vhdr (state.memory.chs header).p_act_vhdr).np_cur_act ≢ Obj.ckpt e
  pub away :
      same_obj
        (state.memory.vhdr (state.memory.chs header).p_act_vhdr).np_cur_act
        (Obj.act (state.memory.vhdr (state.memory.chs header).p_act_vhdr).np_org_act)
      ≡ false

abbrev pub of_turn : Turn → State
of_turn (goes_on st) = st
of_turn (jumps st) = st

abbrev pub of_round : Round → State
of_round (stops st) = st
of_round (behind st cnt) = st

abbrev pub of_set : State × ℕ → State
of_set r = r.0

module _ (headers : ℕ) (k : Ckptlog) where
  -- The end of a piece of the loops, from which `state_of` takes the state.
  abbrev pub Ends : {A : Type 0} → (A → State) → Outcome A → Type 0
  Ends state_of (returns r) = Growing k (state_of r)
  Ends state_of no_space = Full headers k
  Ends state_of lost = Lost k
  Ends state_of out_of_fuel = Unit {0}

  -- A new entry leaves the head and the size of the log.
  enq-Grows :
      (l : Log) (n : ℕ)
      → ((nvlog_enq l n).0.head_cnt ≡ l.head_cnt) × ((nvlog_enq l n).0.log_size ≡ l.log_size)
  unfolding nvlog_enq enq_fit enq_bogus enq_entry
  enq-Grows l n = (ground arith, ground arith)

  -- what `ckptlog_enq` returns behind `nvlog_enq`
  abbrev enq_end : Ckptlog → Memory → Log → ℕ → ℕ → ℕ → Option ℕ → Ckptlog × Memory × Option ℕ
  enq_end j m l wrt_clk s c o = elim o [
    | none ↦ (record j { log = l }, m, none)
    | some i ↦ (record j { log = l }, init_ckpt_entry m (j.base + i) wrt_clk s c, some (j.base + i))
  ]

  enqueued-Ends :
      (st : State) (m : Memory) (wrt_clk s c : ℕ) (f : Memory → Memory)
      → Growing k st
      → m.chs ≡ st.memory.chs
      → Ends of_turn (enqueued (ckptlog_enq headers st.ckptlog m wrt_clk s c) f)
  unfolding ckptlog_enq
  enqueued-Ends st m wrt_clk s c f grown same =
      let n = u32 (headers + (m.chs c).obj_size) in
      let r = nvlog_enq st.ckptlog.log n in
      elim (Option-cases r.1) [
        | inl full ↦
            subst
              (λ (o : Option ℕ). Ends of_turn (enqueued (enq_end st.ckptlog m r.0 wrt_clk s c o) f))
              (sym full)
              (record {
                state = st;
                header = c;
                growing = grown;
                no_room =
                    subst
                      (λ g. (nvlog_enq st.ckptlog.log (u32 (headers + (g c).obj_size))).1 ≡ none)
                      same full;
              })
        | inr (i, at) ↦
            subst
              (λ (o : Option ℕ). Ends of_turn (enqueued (enq_end st.ckptlog m r.0 wrt_clk s c o) f))
              (sym at)
              (record {
                head = (enq-Grows st.ckptlog.log n).0 ∙ grown.head;
                size = (enq-Grows st.ckptlog.log n).1 ∙ grown.size;
                clean = λ bad. absurd (cc);
              })
      ]

  if-Ends :
      {A : Type 0} (state_of : A → State) (b : Bool) (x y : Outcome A)
      → (b ≡ true → Ends state_of x)
      → (b ≡ false → Ends state_of y)
      → Ends state_of (if b then x else y)
  if-Ends state_of true x y f g = f refl
  if-Ends state_of false x y f g = g refl

  tombstone-Ends :
      (st : State) (c : ℕ) (o : Obj)
      → Growing k st
      → (st.memory.chs c).type ≡ free
      → (st.memory.vhdr (st.memory.chs c).p_act_vhdr).np_cur_act ≡ o
      → same_obj o (Obj.act (st.memory.vhdr (st.memory.chs c).p_act_vhdr).np_org_act) ≡ false
      → Ends of_turn (mark_tombstone o st c)
  tombstone-Ends st c (Obj.ckpt e) g is_free at away = record {
    head = g.head;
    size = g.size;
    clean = g.clean;
  }
  tombstone-Ends st c (Obj.act a) g is_free at away = record {
    state = st;
    header = c;
    growing = g;
    is_free = is_free;
    nowhere = λ e bad. let wrong = sym at ∙ bad in cc;
    away = rw at away;
  }
  tombstone-Ends st c (Obj.cpy a) g is_free at away = record {
    state = st;
    header = c;
    growing = g;
    is_free = is_free;
    nowhere = λ e bad. let wrong = sym at ∙ bad in cc;
    away = rw at away;
  }

  free_object-Ends :
      (wrt_clk s : ℕ) (st : State) (c : ℕ)
      → Growing k st
      → (st.memory.chs c).type ≡ free
      → Ends of_turn (free_object headers wrt_clk s st c)
  unfolding free_object
  free_object-Ends wrt_clk s st c g is_free =
      let m = st.memory in
      let v = (m.chs c).p_act_vhdr in
      if-Ends of_turn (same_obj (m.vhdr v).np_cur_act (Obj.act (m.vhdr v).np_org_act)) _ _
        (λ home.
          enqueued-Ends st (set_vhdr m v (record (m.vhdr v) { tombstone_clk = s })) wrt_clk s c
            (mark_status c) g refl)
        (λ away. tombstone-Ends st c (m.vhdr v).np_cur_act g is_free refl away)

  -- the body of the first loop, for the type of the object
  abbrev reclaim_type : ℕ → ℕ → ℕ → State → ℕ → ObjType → Outcome Turn
  reclaim_type mode wrt_clk s st c t = elim t [
    | copy ↦
        if mode == reclaim_tvlog_best_effort && gte_clock (st.memory.chs c).wrt_clk_prev s
        then returns (jumps st)
        else returns (goes_on st)
    | free ↦
        if is_marked (st.memory.chs c).status
        then returns (goes_on st)
        else free_object headers wrt_clk s st c
    | _ ↦ returns (goes_on st)
  ]

  reclaim_type-Ends :
      (mode wrt_clk s : ℕ) (st : State) (c : ℕ) (t : ObjType)
      → Growing k st
      → (st.memory.chs c).type ≡ t
      → Ends of_turn (reclaim_type mode wrt_clk s st c t)
  reclaim_type-Ends mode wrt_clk s st c copy g e =
      if-Ends of_turn
        (mode == reclaim_tvlog_best_effort && gte_clock (st.memory.chs c).wrt_clk_prev s)
        (returns (jumps st)) (returns (goes_on st)) (λ t. g) (λ t. g)
  reclaim_type-Ends mode wrt_clk s st c free g e =
      if-Ends of_turn (is_marked (st.memory.chs c).status) (returns (goes_on st))
        (free_object headers wrt_clk s st c) (λ t. g) (λ t. free_object-Ends wrt_clk s st c g e)
  reclaim_type-Ends mode wrt_clk s st c actual g e = g
  reclaim_type-Ends mode wrt_clk s st c wrt_set g e = g
  reclaim_type-Ends mode wrt_clk s st c nvlog_entry g e = g
  reclaim_type-Ends mode wrt_clk s st c bogus g e = g

  pub reclaim_object-Ends :
      (mode wrt_clk s : ℕ) (st : State) (c : ℕ)
      → Growing k st
      → Ends of_turn (reclaim_object headers mode wrt_clk s st c)
  unfolding reclaim_object
  reclaim_object-Ends mode wrt_clk s st c g =
      reclaim_type-Ends mode wrt_clk s st c (st.memory.chs c).type g refl

  -- the body of the second loop
  abbrev ckpt_type : ℕ → ℕ → ℕ → ℕ → State → ℕ → ObjType → Outcome Turn
  ckpt_type mode wrt_clk s last st c t = elim t [
    | copy ↦
        if not (is_detached (st.memory.chs c).status) && is_at_borderline st.memory c s last
        then (if mode == reclaim_tvlog_ckpt
            then enqueued (ckptlog_enq headers st.ckptlog st.memory wrt_clk s c)
                (λ m. try_detach_obj m c)
            else returns (jumps st))
        else returns (goes_on st)
    | _ ↦ returns (goes_on st)
  ]

  ckpt_type-Ends :
      (mode wrt_clk s last : ℕ) (st : State) (c : ℕ) (t : ObjType)
      → Growing k st
      → Ends of_turn (ckpt_type mode wrt_clk s last st c t)
  ckpt_type-Ends mode wrt_clk s last st c copy g =
      let enq =
        enqueued (ckptlog_enq headers st.ckptlog st.memory wrt_clk s c) (λ m. try_detach_obj m c) in
      if-Ends of_turn
        (not (is_detached (st.memory.chs c).status) && is_at_borderline st.memory c s last)
        (if mode == reclaim_tvlog_ckpt then enq else returns (jumps st)) (returns (goes_on st))
        (λ here.
          if-Ends of_turn (mode == reclaim_tvlog_ckpt) enq (returns (jumps st))
            (λ ckpt. enqueued-Ends st st.memory wrt_clk s c (λ m. try_detach_obj m c) g refl)
            (λ t. g))
        (λ t. g)
  ckpt_type-Ends mode wrt_clk s last st c free g = g
  ckpt_type-Ends mode wrt_clk s last st c actual g = g
  ckpt_type-Ends mode wrt_clk s last st c wrt_set g = g
  ckpt_type-Ends mode wrt_clk s last st c nvlog_entry g = g
  ckpt_type-Ends mode wrt_clk s last st c bogus g = g

  pub ckpt_object-Ends :
      (mode wrt_clk s last : ℕ) (st : State) (c : ℕ)
      → Growing k st
      → Ends of_turn (ckpt_object headers mode wrt_clk s last st c)
  unfolding ckpt_object
  ckpt_object-Ends mode wrt_clk s last st c g =
      ckpt_type-Ends mode wrt_clk s last st c (st.memory.chs c).type g
