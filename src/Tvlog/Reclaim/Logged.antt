-- ===== src/Tvlog/Reclaim/Logged.antt =====
-- The entries that a checkpoint puts into the checkpoint log, and the stores that leave them.
use timestone.Base.{ℕ, ◌≡◌, inl, inr, refl, sym, ap, ◌∙◌, arith}
use timestone.Ckptlog.Writeback.{same_or_other}
use timestone.Memory.{Memory, Obj, Vhdr, CkptEntry, set_vhdr, set_ckpt}
use mathlib.Core.Path.{subst}
use timestone.Ckptlog.{init_ckpt_entry, new_entry}
use timestone.Tvlog.Reclaim.Walk.{Stamped, InLog}

-- `Stamped` of the master of a header, from one memory to another.
abbrev pub Logs : ℕ → Memory → Memory → Type 0
Logs s m m' = (v : ℕ) → Stamped s m (m.vhdr v).np_cur_act → Stamped s m' (m'.vhdr v).np_cur_act

-- A store into an entry with the stamp leaves every stamp.
pub stamp-kept :
    (s : ℕ) (m : Memory) (d : ℕ) (x : CkptEntry) (o : Obj)
    → ((m.ckpt d).ckpt_s_clk ≡ s → x.ckpt_s_clk ≡ s)
    → Stamped s m o
    → Stamped s (set_ckpt m d x) o
stamp-kept s m d x (Obj.act a) stamp h = absurd h
stamp-kept s m d x (Obj.cpy a) stamp h = absurd h
stamp-kept s m d x (Obj.ckpt e) stamp h = elim (same_or_other d e) [
  | inl same ↦
      let there : ((set_ckpt m d x).ckpt e).ckpt_s_clk ≡ x.ckpt_s_clk = ground (arith, same) in
      there ∙ stamp (ap (λ k. (m.ckpt k).ckpt_s_clk) same ∙ h)
  | inr other ↦
      let there : ((set_ckpt m d x).ckpt e).ckpt_s_clk ≡ (m.ckpt e).ckpt_s_clk =
        ground (arith, other) in
      there ∙ h
]

-- A header that keeps the current master keeps what is in the log.
pub set_vhdr-Logs :
    (s : ℕ) (m : Memory) (v : ℕ) (x : Vhdr)
    → x.np_cur_act ≡ (m.vhdr v).np_cur_act
    → Logs s m (set_vhdr m v x)
set_vhdr-Logs s m v x same w h = elim (same_or_other v w) [
  | inl here ↦
      let there : ((set_vhdr m v x).vhdr w).np_cur_act ≡ x.np_cur_act = ground (arith, here) in
      subst (λ (o : Obj). Stamped s (set_vhdr m v x) o)
        (sym (there ∙ same ∙ ap (λ k. (m.vhdr k).np_cur_act) here)) (again (m.vhdr w).np_cur_act h)
  | inr other ↦
      let there : ((set_vhdr m v x).vhdr w).np_cur_act ≡ (m.vhdr w).np_cur_act =
        ground (arith, other) in
      subst (λ (o : Obj). Stamped s (set_vhdr m v x) o) (sym there) (again (m.vhdr w).np_cur_act h)
]
  where
    again : (o : Obj) → Stamped s m o → Stamped s (set_vhdr m v x) o
    again (Obj.act a) k = k
    again (Obj.cpy a) k = k
    again (Obj.ckpt a) k = k

-- A new entry has the stamp, and is the master of its object.
module _ (s : ℕ) (m : Memory) (e wrt_clk c : ℕ) where
  abbrev entered : Memory
  entered = set_ckpt m e (new_entry m e wrt_clk s (m.chs c))

  abbrev v_of : ℕ
  v_of = (m.chs c).p_act_vhdr

  pub init-InLog : InLog s (init_ckpt_entry m e wrt_clk s c) c
  unfolding init_ckpt_entry
  init-InLog =
      let there : ((init_ckpt_entry m e wrt_clk s c).vhdr v_of).np_cur_act ≡ Obj.ckpt e =
        ground arith in
      let stamp : ((init_ckpt_entry m e wrt_clk s c).ckpt e).ckpt_s_clk ≡ s = ground arith in
      subst (λ (o : Obj). Stamped s (init_ckpt_entry m e wrt_clk s c) o) (sym there) stamp

  pub init-Logs : Logs s m (init_ckpt_entry m e wrt_clk s c)
  unfolding init_ckpt_entry
  init-Logs v h = elim (same_or_other v_of v) [
    | inl here ↦
        subst
          (λ (k : ℕ).
            Stamped s (init_ckpt_entry m e wrt_clk s c)
              ((init_ckpt_entry m e wrt_clk s c).vhdr k).np_cur_act)
          here init-InLog
    | inr other ↦
        let there : ((init_ckpt_entry m e wrt_clk s c).vhdr v).np_cur_act ≡ (m.vhdr v).np_cur_act =
          ground (arith, other) in
        subst (λ (o : Obj). Stamped s (init_ckpt_entry m e wrt_clk s c) o) (sym there)
          (moved (m.vhdr v).np_cur_act (
            stamp-kept s m e (new_entry m e wrt_clk s (m.chs c)) (m.vhdr v).np_cur_act (λ old. refl)
              h))
  ]
    where
      moved : (o : Obj) → Stamped s entered o → Stamped s (init_ckpt_entry m e wrt_clk s c) o
      moved (Obj.act a) k = k
      moved (Obj.cpy a) k = k
      moved (Obj.ckpt a) k = k
