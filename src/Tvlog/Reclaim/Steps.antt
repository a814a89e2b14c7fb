-- ===== src/Tvlog/Reclaim/Steps.antt =====
-- What the bodies of the two loops do with one object.
use timestone.Base.{
  ℕ, u32, ◌+◌, ◌≡◌, inl, inr, refl, sym, ap, ◌∙◌, true, false, ◌==◌, arith, Bool-cases, update,
  Option, none, some, Option-cases,
}
use timestone.Config.{copy, free, reclaim_tvlog_ckpt, reclaim_tvlog_best_effort}
use timestone.Clock.{lt_clock}
use timestone.Nvlog.{nvlog_enq}
use timestone.Ckptlog.Writeback.{same_or_other}
use timestone.Memory.{
  Memory, Obj, Chs, Status, tombstone_marked, detached, get_entry_size, set_vhdr, set_chs,
}
use mathlib.Core.Path.{subst}
use timestone.Ckptlog.{Log, Ckptlog, ckptlog_enq, init_ckpt_entry}
use timestone.Tvlog.WriteSet.{try_detach_obj, points_to}
use timestone.Tvlog.Borderline.{is_at_borderline}
use timestone.Tvlog.Reclaim.{is_marked, is_detached, enqueued, mark_status}
use timestone.Tvlog.Reclaim.Logged.{Logs, set_vhdr-Logs, init-InLog, init-Logs}
use timestone.Tvlog.Reclaim.Walk.{Stamped, InLog, Shape, Shape-trans, Stepped, Lasting}

pub Shape-same :
    (s : ℕ) (m m' : Memory) → m'.chs ≡ m.chs → m'.ws ≡ m.ws → Logs s m m' → Shape s m m'
Shape-same s m m' e f logs = record {
  ws = f;
  size = λ c. ap (λ g. get_entry_size (g c)) e;
  type = λ c. ap (λ g. (g c).type) e;
  clk = λ c. ap (λ g. (g c).wrt_clk) e;
  prev = λ c. ap (λ g. (g c).wrt_clk_prev) e;
  vhdr = λ c. ap (λ g. (g c).p_act_vhdr) e;
  stays = λ c is_copy done. ap (λ g. is_detached (g c).status) e ∙ done;
  marks = λ c is_free done. ap (λ g. is_marked (g c).status) e ∙ done;
  logged = logs;
  newly = λ c is_copy done. inl (sym (ap (λ g. is_detached (g c).status) e) ∙ done);
}

-- A stamp does not depend on the headers of the version log.
chs-Stamped :
    (s : ℕ) (m : Memory) (chs : ℕ → Chs) (o : Obj)
    → Stamped s m o
    → Stamped s (record m { chs = chs }) o
chs-Stamped s m chs (Obj.act a) h = h
chs-Stamped s m chs (Obj.cpy a) h = h
chs-Stamped s m chs (Obj.ckpt a) h = h

pub Borderline-Shape :
    (m m' : Memory) (c s last : ℕ)
    → {k : ℕ} → Shape k m m'
    → is_at_borderline m' c s last ≡ is_at_borderline m c s last
unfolding is_at_borderline
Borderline-Shape m m' c s last {k} h = rw (h.clk c, h.prev c) refl

-- what `ckptlog_enq` returns behind `nvlog_enq`
abbrev enq_result : Ckptlog → Memory → Log → ℕ → ℕ → ℕ → Option ℕ → Ckptlog × Memory × Option ℕ
enq_result k m l wrt_clk s c o = elim o [
  | none ↦ (record k { log = l }, m, none)
  | some i ↦ (record k { log = l }, init_ckpt_entry m (k.base + i) wrt_clk s c, some (k.base + i))
]

-- A new entry does not change a header of the version log.
pub enqueued-Stepped :
    (P Q : Memory → ℕ → Type 0) (headers : ℕ) (k : Ckptlog) (m m0 : Memory) (wrt_clk s c : ℕ)
    (f : Memory → Memory)
    → ((m' : Memory)
        → m'.chs ≡ m0.chs
        → m'.ws ≡ m0.ws
        → Logs s m0 m'
        → InLog s m' c
        → Shape s m0 (f m') × P (f m') c)
    → m.chs ≡ m0.chs
    → m.ws ≡ m0.ws
    → Logs s m0 m
    → Stepped s P Q m0 c (enqueued (ckptlog_enq headers k m wrt_clk s c) f)
unfolding ckptlog_enq init_ckpt_entry
enqueued-Stepped P Q headers k m m0 wrt_clk s c f after e g logs =
    let r = nvlog_enq k.log (u32 (headers + (m.chs c).obj_size)) in
    elim (Option-cases r.1) [
      | inl full ↦
          subst
            (λ (o : Option ℕ). Stepped s P Q m0 c (enqueued (enq_result k m r.0 wrt_clk s c o) f))
            (sym full) tt
      | inr (i, at) ↦
          subst
            (λ (o : Option ℕ). Stepped s P Q m0 c (enqueued (enq_result k m r.0 wrt_clk s c o) f))
            (sym at)
            (after (init_ckpt_entry m (k.base + i) wrt_clk s c) e g
              (λ v h. init-Logs s m (k.base + i) wrt_clk c v (logs v h))
              (init-InLog s m (k.base + i) wrt_clk c))
    ]

status-Shape :
    (s : ℕ) (m : Memory) (c : ℕ) (x : Status)
    → ((m.chs c).type ≡ copy → (is_detached x ≡ true) × InLog s m c)
    → ((m.chs c).type ≡ free → is_marked x ≡ true)
    → Shape s m (set_chs m c (record (m.chs c) { status = x }))
unfolding get_entry_size
status-Shape s m c x h k = record {
  ws = refl;
  size = λ d. ground arith;
  type = λ d. ground arith;
  clk = λ d. ground arith;
  prev = λ d. ground arith;
  vhdr = λ d. ground arith;
  stays = λ d is_copy done. elim (same_or_other c d) [
    | inl same ↦
        let there : ((set_chs m c (record (m.chs c) { status = x })).chs d).status ≡ x =
          ground (arith, same) in
        ap is_detached there ∙ (h (ap (λ k. (m.chs k).type) same ∙ is_copy)).0
    | inr other ↦ ground (arith, other)
  ];
  marks = λ d is_free done. elim (same_or_other c d) [
    | inl same ↦
        let there : ((set_chs m c (record (m.chs c) { status = x })).chs d).status ≡ x =
          ground (arith, same) in
        ap is_marked there ∙ k (ap (λ i. (m.chs i).type) same ∙ is_free)
    | inr other ↦ ground (arith, other)
  ];
  logged = λ v here.
      chs-Stamped s m (update m.chs c (record (m.chs c) { status = x })) (m.vhdr v).np_cur_act here;
  newly = λ d is_copy done. elim (same_or_other c d) [
    | inl same ↦
        let there : ((set_chs m c (record (m.chs c) { status = x })).chs d).p_act_vhdr
            ≡ (m.chs c).p_act_vhdr =
          ground (arith, same) in
        inr (
          subst
            (λ (v : ℕ).
              Stamped s (set_chs m c (record (m.chs c) { status = x })) (m.vhdr v).np_cur_act)
            (sym there)
            (chs-Stamped s m (update m.chs c (record (m.chs c) { status = x }))
              (m.vhdr (m.chs c).p_act_vhdr).np_cur_act
              (h (ap (λ k. (m.chs k).type) same ∙ is_copy)).1))
    | inr other ↦
        let there : ((set_chs m c (record (m.chs c) { status = x })).chs d).status
            ≡ (m.chs d).status =
          ground (arith, other) in
        inl (sym (ap is_detached there) ∙ done)
  ];
}

pub mark_status-Shape :
    (s : ℕ) (m m' : Memory) (c : ℕ)
    → (m.chs c).type ≡ free
    → m'.chs ≡ m.chs
    → m'.ws ≡ m.ws
    → Logs s m m'
    → Shape s m (mark_status c m')
mark_status-Shape s m m' c is_free e f logs =
    Shape-trans s m m' (mark_status c m') (Shape-same s m m' e f logs) (
      status-Shape s m' c tombstone_marked
        (λ is_copy. let bad = sym (ap (λ g. (g c).type) e ∙ is_free) ∙ is_copy in cc)
        (λ same. refl))

-- A copy that is detached has to be in the log.
pub try_detach-Shape :
    (s : ℕ) (m : Memory) (c : ℕ)
    → (m.chs c).type ≡ copy
    → InLog s m c
    → Shape s m (try_detach_obj m c)
unfolding try_detach_obj
try_detach-Shape s m c is_copy in_log =
    let m1 = set_chs m c (record (m.chs c) { status = detached }) in
    let v = (m.chs c).p_act_vhdr in
    let shape =
      status-Shape s m c detached (λ same. (refl, in_log))
        (λ is_free. let bad = sym is_copy ∙ is_free in cc) in
    elim (Bool-cases (points_to (m.vhdr v).p_copy c)) [
      | inl latest ↦
          let m2 = set_vhdr m1 v (record (m.vhdr v) { p_copy = none }) in
          rw latest (
            Shape-trans s m m1 m2 shape (
              Shape-same s m1 m2 refl refl
                (set_vhdr-Logs s m1 v (record (m.vhdr v) { p_copy = none }) refl)))
      | inr other ↦ rw other shape
    ]

pub try_detach_status : (m : Memory) (c : ℕ) → ((try_detach_obj m c).chs c).status ≡ detached
unfolding try_detach_obj
try_detach_status m c = ground arith

-- of the first loop: a copy that is passed in the best effort was overwritten before the clock, and an
-- object that is to be freed is marked
abbrev pub Replaced : ℕ → ℕ → Memory → ℕ → Type 0
Replaced mode s m c =
    ((m.chs c).type ≡ copy
      → (mode == reclaim_tvlog_best_effort) ≡ true
      → lt_clock (m.chs c).wrt_clk_prev s ≡ true)
    × ((m.chs c).type ≡ free → is_marked (m.chs c).status ≡ true)

-- a copy that a reader may still need
abbrev pub Needed : ℕ → ℕ → Memory → ℕ → Type 0
Needed mode s m c =
    ((m.chs c).type ≡ copy)
    × ((mode == reclaim_tvlog_best_effort) ≡ true)
    × (lt_clock (m.chs c).wrt_clk_prev s ≡ false)

-- of the second loop: a copy at the borderline is in the checkpoint log, and detached
abbrev pub Checkpointed : ℕ → ℕ → Memory → ℕ → Type 0
Checkpointed s last m c =
    (m.chs c).type ≡ copy → is_at_borderline m c s last ≡ true → is_detached (m.chs c).status ≡ true

-- a copy that only a checkpoint can take
abbrev pub Pending : ℕ → ℕ → ℕ → Memory → ℕ → Type 0
Pending mode s last m c =
    ((m.chs c).type ≡ copy)
    × (is_at_borderline m c s last ≡ true)
    × ((mode == reclaim_tvlog_ckpt) ≡ false)

pub reclaim-Lasting : (mode s : ℕ) → Lasting s (Replaced mode s) (Needed mode s)
reclaim-Lasting mode s = record {
  lasts = λ m m' c h old. (
    λ is_copy best. rw (h.prev c) (old.0 (sym (h.type c) ∙ is_copy) best),
    λ is_free. let was = sym (h.type c) ∙ is_free in h.marks c was (old.1 was),
  );
  was = λ m m' c h needed. (sym (h.type c) ∙ needed.0, needed.1, rw (h.prev c) at needed.2);
}

pub ckpt-Lasting : (mode s last : ℕ) → Lasting s (Checkpointed s last) (Pending mode s last)
ckpt-Lasting mode s last = record {
  lasts = λ m m' c h old is_copy here.
      let was_copy = sym (h.type c) ∙ is_copy in
      h.stays c was_copy (old was_copy (sym (Borderline-Shape m m' c s last h) ∙ here));
  was = λ m m' c h p. (sym (h.type c) ∙ p.0, sym (Borderline-Shape m m' c s last h) ∙ p.1, p.2);
}
