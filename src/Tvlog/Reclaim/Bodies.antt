-- ===== src/Tvlog/Reclaim/Bodies.antt =====
-- Each body of the two loops keeps the shape of the log, and does with a copy what its loop needs.
use mathlib.Core.Path.{subst}
use timestone.Base.{
  ℕ, ◌≡◌, ◌≢◌, inl, inr, refl, sym, ap, ◌∙◌, Bool, true, not, ◌&&◌, ◌==◌, Bool-cases, if◌then◌else◌,
  arith,
}
use timestone.Config.{
  ObjType, actual, wrt_set, copy, free, nvlog_entry, bogus, reclaim_tvlog_ckpt,
  reclaim_tvlog_best_effort,
}
use timestone.Clock.{lt_clock, gte_clock}
use timestone.Memory.{Memory, Obj, same_obj, set_vhdr, set_ckpt}
use timestone.Ckptlog.{ckptlog_enq}
use timestone.Tvlog.WriteSet.{try_detach_obj}
use timestone.Tvlog.Borderline.{is_at_borderline}
use timestone.Tvlog.Reclaim.{
  State, Outcome, returns, Turn, goes_on, jumps, is_marked, is_detached, enqueued, mark_status,
  mark_tombstone, free_object, reclaim_object, ckpt_object,
}
use timestone.Tvlog.Reclaim.Logged.{stamp-kept, set_vhdr-Logs}
use timestone.Tvlog.Reclaim.Walk.{Shape, Shape-refl, Shape-trans, Stepped}
use timestone.Tvlog.Reclaim.Steps.{
  enqueued-Stepped, mark_status-Shape, try_detach-Shape, try_detach_status, Shape-same, Replaced,
  Needed, Checkpointed, Pending,
}

module _ (headers mode wrt_clk s : ℕ) (st : State) (c : ℕ) where
  abbrev m0 : Memory
  m0 = st.memory

  Done : Outcome Turn → Type 0
  Done r = Stepped s (Replaced mode s) (Needed mode s) m0 c r

  -- An object that is no copy can always be passed.
  not_copy :
      (m : Memory) (t : ObjType)
      → (m0.chs c).type ≡ t
      → (t ≢ copy)
      → (t ≡ free → is_marked (m.chs c).status ≡ true)
      → Shape s m0 m
      → Shape s m0 m × Replaced mode s m c
  not_copy m t e apart marked h = (
    h,
    (
      λ is_copy best. absurd (apart (sym e ∙ (sym (h.type c) ∙ is_copy))),
      λ is_free. marked (sym e ∙ (sym (h.type c) ∙ is_free)),
    ),
  )

  mark_status-is_marked : (m : Memory) → is_marked ((mark_status c m).chs c).status ≡ true
  mark_status-is_marked m = ground arith

  copy_free : (m0.chs c).type ≡ copy → (m0.chs c).type ≡ free → is_marked (m0.chs c).status ≡ true
  copy_free e f = let bad = sym e ∙ f in cc

  mark_tombstone-Stepped : (o : Obj) → (m0.chs c).type ≡ free → Done (mark_tombstone o st c)
  unfolding Done
  mark_tombstone-Stepped (Obj.act a) e = tt
  mark_tombstone-Stepped (Obj.cpy a) e = tt
  mark_tombstone-Stepped (Obj.ckpt a) e =
      let m = set_ckpt m0 a (record (m0.ckpt a) { tombstone = true }) in
      not_copy (mark_status c m) free e (λ bad. cc) (λ same. mark_status-is_marked m)
        (mark_status-Shape s m0 m c e refl refl (λ v.
          stamp-kept s m0 a (record (m0.ckpt a) { tombstone = true }) (m0.vhdr v).np_cur_act
            (λ old. old)))

  free_object-Stepped : (m0.chs c).type ≡ free → Done (free_object headers wrt_clk s st c)
  unfolding free_object Done
  free_object-Stepped e =
      let v = (m0.chs c).p_act_vhdr in
      let m = set_vhdr m0 v (record (m0.vhdr v) { tombstone_clk = s }) in
      elim (Bool-cases (same_obj (m0.vhdr v).np_cur_act (Obj.act (m0.vhdr v).np_org_act))) [
        | inl home ↦
            subst
              (λ (b : Bool). Stepped s (Replaced mode s) (Needed mode s) m0 c (
                if b
                then enqueued (ckptlog_enq headers st.ckptlog m wrt_clk s c) (mark_status c)
                else mark_tombstone (m0.vhdr v).np_cur_act st c))
              (sym home)
              (enqueued-Stepped (Replaced mode s) (Needed mode s) headers st.ckptlog m m0 wrt_clk s
                c (mark_status c)
                (λ m' f g logs in_log.
                  not_copy (mark_status c m') free e (λ bad. cc) (λ same. mark_status-is_marked m')
                    (mark_status-Shape s m0 m' c e f g logs))
                refl refl (set_vhdr-Logs s m0 v (record (m0.vhdr v) { tombstone_clk = s }) refl))
        | inr away ↦
            subst
              (λ (b : Bool). Stepped s (Replaced mode s) (Needed mode s) m0 c (
                if b
                then enqueued (ckptlog_enq headers st.ckptlog m wrt_clk s c) (mark_status c)
                else mark_tombstone (m0.vhdr v).np_cur_act st c))
              (sym away) (mark_tombstone-Stepped (m0.vhdr v).np_cur_act e)
      ]

  -- the body of the first loop, for the type of the object
  abbrev of_type : ObjType → Outcome Turn
  of_type t = elim t [
    | copy ↦
        if mode == reclaim_tvlog_best_effort && gte_clock (m0.chs c).wrt_clk_prev s
        then returns (jumps st)
        else returns (goes_on st)
    | free ↦
        if is_marked (m0.chs c).status
        then returns (goes_on st)
        else free_object headers wrt_clk s st c
    | _ ↦ returns (goes_on st)
  ]

  of_type-Done : (t : ObjType) → (m0.chs c).type ≡ t → Done (of_type t)
  unfolding Done
  of_type-Done copy e = elim (Bool-cases (mode == reclaim_tvlog_best_effort)) [
    | inr other ↦
        rw other
          (Shape-refl s m0, ((λ is_copy best. let bad = sym other ∙ best in cc), copy_free e))
    | inl best ↦ elim (Bool-cases (lt_clock (m0.chs c).wrt_clk_prev s)) [
      | inl old ↦ rw (best, old) (Shape-refl s m0, ((λ is_copy b. old), copy_free e))
      | inr young ↦ rw (best, young) (Shape-refl s m0, (e, best, young))
    ]
  ]
  of_type-Done free e = elim (Bool-cases (is_marked (m0.chs c).status)) [
    | inl marked ↦ rw marked (not_copy m0 free e (λ bad. cc) (λ same. marked) (Shape-refl s m0))
    | inr fresh ↦ rw fresh (free_object-Stepped e)
  ]
  of_type-Done actual e = not_copy m0 actual e (λ bad. cc) (λ bad. absurd cc) (Shape-refl s m0)
  of_type-Done wrt_set e = not_copy m0 wrt_set e (λ bad. cc) (λ bad. absurd cc) (Shape-refl s m0)
  of_type-Done nvlog_entry e =
      not_copy m0 nvlog_entry e (λ bad. cc) (λ bad. absurd cc) (Shape-refl s m0)
  of_type-Done bogus e = not_copy m0 bogus e (λ bad. cc) (λ bad. absurd cc) (Shape-refl s m0)

  pub reclaim_object-Stepped :
      Stepped s
        (Replaced mode s)
        (Needed mode s)
        st.memory
        c
        (reclaim_object headers mode wrt_clk s st c)
  unfolding reclaim_object Done
  reclaim_object-Stepped = of_type-Done (m0.chs c).type refl

module _ (headers mode wrt_clk s last : ℕ) (st : State) (c : ℕ) where
  abbrev m1 : Memory
  m1 = st.memory

  Fine : Outcome Turn → Type 0
  Fine r = Stepped s (Checkpointed s last) (Pending mode s last) m1 c r

  other_type :
      (t : ObjType) → (m1.chs c).type ≡ t → (t ≢ copy) → Shape s m1 m1 × Checkpointed s last m1 c
  other_type t e apart = (Shape-refl s m1, λ is_copy here. absurd (apart (sym e ∙ is_copy)))

  -- the copy at the borderline
  abbrev at_borderline : Outcome Turn
  at_borderline =
      if mode == reclaim_tvlog_ckpt
      then enqueued (ckptlog_enq headers st.ckptlog m1 wrt_clk s c) (λ m. try_detach_obj m c)
      else returns (jumps st)

  detached_lem : (m : Memory) → Checkpointed s last (try_detach_obj m c) c
  detached_lem m = λ is_copy here. ap is_detached (try_detach_status m c)

  at_borderline-Fine :
      (m1.chs c).type ≡ copy → is_at_borderline m1 c s last ≡ true → Fine at_borderline
  unfolding Fine
  at_borderline-Fine e here = elim (Bool-cases (mode == reclaim_tvlog_ckpt)) [
    | inl ckpt ↦
        subst
          (λ (b : Bool). Stepped s (Checkpointed s last) (Pending mode s last) m1 c (
            if b
            then enqueued (ckptlog_enq headers st.ckptlog m1 wrt_clk s c) (λ m. try_detach_obj m c)
            else returns (jumps st)))
          (sym ckpt)
          (enqueued-Stepped (Checkpointed s last) (Pending mode s last) headers st.ckptlog m1 m1
            wrt_clk s c (λ m. try_detach_obj m c)
            (λ m' f g logs in_log. (
              Shape-trans s m1 m' (try_detach_obj m' c) (Shape-same s m1 m' f g logs)
                  (try_detach-Shape s m' c (ap (λ h. (h c).type) f ∙ e) in_log),
              detached_lem m',
            ))
            refl refl (λ v h. h))
    | inr best ↦ rw best (Shape-refl s m1, (e, here, best))
  ]

  abbrev ckpt_of_type : ObjType → Outcome Turn
  ckpt_of_type t = elim t [
    | copy ↦
        if not (is_detached (m1.chs c).status) && is_at_borderline m1 c s last
        then at_borderline
        else returns (goes_on st)
    | _ ↦ returns (goes_on st)
  ]

  ckpt_of_type-Fine : (t : ObjType) → (m1.chs c).type ≡ t → Fine (ckpt_of_type t)
  unfolding Fine
  ckpt_of_type-Fine copy e = elim (Bool-cases (is_detached (m1.chs c).status)) [
    | inl gone ↦ rw gone (Shape-refl s m1, λ is_copy here. gone)
    | inr there ↦ elim (Bool-cases (is_at_borderline m1 c s last)) [
      | inl here ↦ rw (there, here) (at_borderline-Fine e here)
      | inr apart ↦
          rw (there, apart) (Shape-refl s m1, λ is_copy here. let bad = sym apart ∙ here in cc)
    ]
  ]
  ckpt_of_type-Fine free e = other_type free e (λ bad. cc)
  ckpt_of_type-Fine actual e = other_type actual e (λ bad. cc)
  ckpt_of_type-Fine wrt_set e = other_type wrt_set e (λ bad. cc)
  ckpt_of_type-Fine nvlog_entry e = other_type nvlog_entry e (λ bad. cc)
  ckpt_of_type-Fine bogus e = other_type bogus e (λ bad. cc)

  pub ckpt_object-Stepped :
      Stepped s
        (Checkpointed s last)
        (Pending mode s last)
        st.memory
        c
        (ckpt_object headers mode wrt_clk s last st c)
  unfolding ckpt_object Fine
  ckpt_object-Stepped = ckpt_of_type-Fine (m1.chs c).type refl
