-- ===== src/Version/Checkpoint.antt =====
-- A checkpoint of the newest copy of an object takes the copy out of its version chain. A reader that
-- saw the copy then reads the same bytes from the checkpoint log.
use timestone.Base.{
  ℕ, suc, ◌≡◌, refl, sym, ap, ◌∙◌, true, Option, none, some, List, take, arith, u32, ◌+◌,
}
use mathlib.Core.Path.{subst}
use timestone.Config.{copy}
use timestone.Clock.{lt_clock}
use timestone.Memory.{Memory, Obj, get_act_vhdr}
use timestone.Nvlog.{nvlog_enq}
use timestone.Ckptlog.{Log, Ckptlog, ckptlog_enq, init_ckpt_entry}
use timestone.Ckptlog.Writeback.{master_bytes}
use timestone.Tvlog.WriteSet.{try_detach_obj}
use timestone.Version.{Deref, deref, deref_vhdr, found, end_walk, walk_chain, clock_of}

-- The bytes that a reader finds behind a dereferenced pointer.
abbrev pub bytes_read : Memory → Deref → Option (List ℕ)
bytes_read m (Deref.view w) = some (master_bytes m w.version)
bytes_read m (Deref.already o) = some (master_bytes m o)
bytes_read m _ = none

module _ (m : Memory) (fuel last local : ℕ) where
  deref_header :
      (a v : ℕ)
      → (m.act a).p_act_vhdr ≡ some v
      → deref fuel m last local (some (Obj.act a)) ≡ deref_vhdr fuel m last local v
  unfolding deref get_act_vhdr
  deref_header a v h = rw (h, deref, get_act_vhdr) refl

  no_copy :
      (v : ℕ)
      → (m.vhdr v).p_copy ≡ none
      → deref_vhdr fuel m last local v
        ≡ Deref.view
            (record { p_act_vhdr = some v; p_latest = none; version = (m.vhdr v).np_cur_act })
  no_copy v h = rw (h, deref_vhdr) refl

walk_first :
    (m : Memory) (fuel last local c t : ℕ)
    → clock_of m c local ≡ some t
    → lt_clock t local ≡ true
    → walk_chain (suc fuel) m last local c ≡ found c
unfolding walk_chain
walk_first m fuel last local c t clk early = ground arith

first_copy :
    (m : Memory) (fuel last local v c t : ℕ)
    → (m.vhdr v).p_copy ≡ some c
    → clock_of m c local ≡ some t
    → lt_clock t local ≡ true
    → deref_vhdr (suc fuel) m last local v
      ≡ Deref.view (record { p_act_vhdr = some v; p_latest = some c; version = Obj.cpy c })
first_copy m fuel last local v c t h clk early =
    rw (h, deref_vhdr) (ap (end_walk m v (some c)) (walk_first m fuel last local c t clk early))

module _ (m : Memory) (wrt_clk s c e a : ℕ) (is_copy : (m.chs c).type ≡ copy)
    (latest : (m.vhdr (m.chs c).p_act_vhdr).p_copy ≡ some c)
    (header : (m.act a).p_act_vhdr ≡ some (m.chs c).p_act_vhdr) where
  abbrev v : ℕ
  v = (m.chs c).p_act_vhdr

  abbrev m2 : Memory
  m2 = try_detach_obj (init_ckpt_entry m e wrt_clk s c) c

  detached_copy : (m2.vhdr v).p_copy ≡ none
  unfolding try_detach_obj init_ckpt_entry
  detached_copy = ground (arith, latest)

  new_master : (m2.vhdr v).np_cur_act ≡ Obj.ckpt e
  unfolding try_detach_obj init_ckpt_entry
  new_master = ground (arith, latest)

  same_header : (m2.act a).p_act_vhdr ≡ some v
  unfolding try_detach_obj init_ckpt_entry
  same_header = ground (arith, latest, header)

  new_size : (m2.ckpt e).obj_size ≡ (m.chs c).obj_size
  unfolding try_detach_obj init_ckpt_entry
  new_size = ground (arith, latest)

  new_obj : (m2.ckpt e).obj ≡ (m.chs c).obj
  unfolding try_detach_obj init_ckpt_entry
  new_obj = rw (latest, is_copy) (ground arith)

  same_bytes : master_bytes m2 (Obj.ckpt e) ≡ master_bytes m (Obj.cpy c)
  same_bytes = ap (λ n. take n (m2.ckpt e).obj) new_size ∙ ap (take (m.chs c).obj_size) new_obj

-- what `ckptlog_enq` returns behind `nvlog_enq`
abbrev enq_result : Ckptlog → Memory → Log → ℕ → ℕ → ℕ → Option ℕ → Ckptlog × Memory × Option ℕ
enq_result k m l wrt_clk s c o = elim o [
  | none ↦ (record k { log = l }, m, none)
  | some i ↦ (record k { log = l }, init_ckpt_entry m (k.base + i) wrt_clk s c, some (k.base + i))
]

result_stores :
    (k k' : Ckptlog) (m m' : Memory) (l : Log) (wrt_clk s c e : ℕ) (o : Option ℕ)
    → enq_result k m l wrt_clk s c o ≡ (k', m', some e)
    → m' ≡ init_ckpt_entry m e wrt_clk s c
result_stores k k' m m' l wrt_clk s c e none at = let bad : none ≡ some e = ap (λ x. x.2) at in cc
result_stores k k' m m' l wrt_clk s c e (some i) at =
    let there : some (k.base + i) ≡ some e = ap (λ x. x.2) at in
    let same : k.base + i ≡ e = cc in
    sym (ap (λ x. x.1) at) ∙ ap (λ x. init_ckpt_entry m x wrt_clk s c) same

-- An entry that is made is written as `init_ckpt_entry` says.
enq_stores :
    (headers : ℕ) (k k' : Ckptlog) (m m' : Memory) (wrt_clk s c e : ℕ)
    → ckptlog_enq headers k m wrt_clk s c ≡ (k', m', some e)
    → m' ≡ init_ckpt_entry m e wrt_clk s c
unfolding ckptlog_enq
enq_stores headers k k' m m' wrt_clk s c e at =
    let r = nvlog_enq k.log (u32 (headers + (m.chs c).obj_size)) in
    result_stores k k' m m' r.0 wrt_clk s c e r.1 at

-- A checkpoint of the newest copy of an object, where the checkpoint log has space for it: a reader
-- whose snapshot sees the copy reads, before the copy is detached and after, the same bytes, first from
-- the version log and then from the checkpoint log.
pub ckptlog_enq-try_detach_obj-deref :
    (headers fuel last local t : ℕ) (k k' : Ckptlog) (m m' : Memory) (wrt_clk s c e a : ℕ)
    → ckptlog_enq headers k m wrt_clk s c ≡ (k', m', some e)
    → (m.chs c).type ≡ copy
    → (m.vhdr (m.chs c).p_act_vhdr).p_copy ≡ some c
    → (m.act a).p_act_vhdr ≡ some (m.chs c).p_act_vhdr
    → clock_of m c local ≡ some t
    → lt_clock t local ≡ true
    → bytes_read
        (try_detach_obj m' c)
        (deref fuel (try_detach_obj m' c) last local (some (Obj.act a)))
      ≡ bytes_read m (deref (suc fuel) m last local (some (Obj.act a)))
ckptlog_enq-try_detach_obj-deref headers fuel last local t k k' m m' wrt_clk s c e a at is_copy
      latest header clk early =
    let v = (m.chs c).p_act_vhdr in
    let stored : m' ≡ init_ckpt_entry m e wrt_clk s c =
      enq_stores headers k k' m m' wrt_clk s c e at in
    let m2 = try_detach_obj (init_ckpt_entry m e wrt_clk s c) c in
    subst
      (λ (x : Memory).
        bytes_read (try_detach_obj x c)
          (deref fuel (try_detach_obj x c) last local (some (Obj.act a)))
        ≡ bytes_read m (deref (suc fuel) m last local (some (Obj.act a))))
      (sym stored)
      (ap (bytes_read m2) (
          deref_header m2 fuel last local a v (same_header m wrt_clk s c e a is_copy latest header)
          ∙ no_copy m2 fuel last local v (detached_copy m wrt_clk s c e a is_copy latest header))
        ∙ ap (λ o. some (master_bytes m2 o)) (new_master m wrt_clk s c e a is_copy latest header)
        ∙ ap some (same_bytes m wrt_clk s c e a is_copy latest header)
        ∙ sym (
            ap (bytes_read m) (
              deref_header m (suc fuel) last local a v header
              ∙ first_copy m fuel last local v c t latest clk early)))
