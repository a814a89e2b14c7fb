-- ===== src/Ckptlog/Writeback.antt =====
-- What writing back checkpointed masters does to the objects that readers see.
use timestone.Base.{
  ℕ, zero, suc, ◌≤◌, ◌≡◌, ◌≢◌, ◌⊎◌, inl, inr, refl, sym, ap, ◌∙◌, true, some, List, [], ◌∷◌, ◌++◌,
  length, take, drop, ◌==◌, arith, Bool-cases,
}
use timestone.Memory.{Memory, Obj, same_obj}
use timestone.Ckptlog.{overwrite, write_back}

-- The bytes of an object that a reader of its current master sees, in memory `m`.
abbrev pub master_bytes : Memory → Obj → List ℕ
master_bytes m (Obj.act a) = take (m.act a).obj_size (m.act a).obj
master_bytes m (Obj.cpy c) = take (m.chs c).obj_size (m.chs c).obj
master_bytes m (Obj.ckpt e) = take (m.ckpt e).obj_size (m.ckpt e).obj

abbrev pub master : Memory → ℕ → List ℕ
master m v = master_bytes m (m.vhdr v).np_cur_act

-- Every volatile header has an original master of its own; the current master is the original one, or
-- a checkpointed one of the same size, of which all the bytes are there, and which leads back to the header.
pub record Masters (m : Memory) : Type 0 where
  pub own : (v w : ℕ) → (m.vhdr v).np_org_act ≡ (m.vhdr w).np_org_act → v ≡ w
  pub home : (v a : ℕ) → (m.vhdr v).np_cur_act ≡ Obj.act a → a ≡ (m.vhdr v).np_org_act
  pub sizes :
      (v e : ℕ)
      → (m.vhdr v).np_cur_act ≡ Obj.ckpt e
      → (m.ckpt e).obj_size ≡ (m.act (m.vhdr v).np_org_act).obj_size
  pub header :
      (v e : ℕ)
      → (m.vhdr v).np_cur_act ≡ Obj.ckpt e
      → (m.act (m.ckpt e).np_org_act).p_act_vhdr ≡ some v
  pub whole :
      (v e : ℕ) → (m.vhdr v).np_cur_act ≡ Obj.ckpt e → (m.ckpt e).obj_size ≤ length (m.ckpt e).obj

take-front :
    (n : ℕ) (from rest : List ℕ) → n ≤ length from → take n (take n from ++ rest) ≡ take n from
take-front zero from rest h = refl
take-front (suc n) [] rest h = absurd (omega (arith, h))
take-front (suc n) (x ∷ xs) rest h = ap (λ l. x ∷ l) (take-front n xs rest (omega (arith, h)))

pub same_obj_lem : (o : Obj) (e : ℕ) → same_obj o (Obj.ckpt e) ≡ true → o ≡ Obj.ckpt e
same_obj_lem (Obj.act a) e h = cc
same_obj_lem (Obj.cpy c) e h = cc
same_obj_lem (Obj.ckpt d) e h = ground (arith, h)

module _ (m : Memory) (v e : ℕ) where
  abbrev home_of : ℕ
  home_of = (m.vhdr v).np_org_act

  abbrev written : Memory
  written = write_back m v e

  org_kept : (w : ℕ) → (written.vhdr w).np_org_act ≡ (m.vhdr w).np_org_act
  unfolding write_back
  org_kept w = ground arith

  cur_self : (written.vhdr v).np_cur_act ≡ Obj.act home_of
  unfolding write_back
  cur_self = ground arith

  pub cur_other : (w : ℕ) → v ≢ w → (written.vhdr w).np_cur_act ≡ (m.vhdr w).np_cur_act
  unfolding write_back
  cur_other w differ = ground arith

  size_kept : (b : ℕ) → (written.act b).obj_size ≡ (m.act b).obj_size
  unfolding write_back
  size_kept b = ground arith

  pub header_kept : (b : ℕ) → (written.act b).p_act_vhdr ≡ (m.act b).p_act_vhdr
  unfolding write_back
  header_kept b = ground arith

  act_self :
      (written.act home_of).obj ≡ overwrite (m.ckpt e).obj_size (m.ckpt e).obj (m.act home_of).obj
  unfolding write_back
  act_self = ground arith

  act_other : (b : ℕ) → home_of ≢ b → (written.act b).obj ≡ (m.act b).obj
  unfolding write_back
  act_other b differ = ground arith

  ckpt_kept : written.ckpt ≡ m.ckpt
  unfolding write_back
  ckpt_kept = refl

  chs_kept : written.chs ≡ m.chs
  unfolding write_back
  chs_kept = refl

  at_self : (w : ℕ) (o : Obj) → v ≡ w → (written.vhdr w).np_cur_act ≡ o → Obj.act home_of ≡ o
  at_self w o same at = sym cur_self ∙ (ap (λ x. (written.vhdr x).np_cur_act) same ∙ at)

  at_home :
      (w a : ℕ) → v ≡ w → (written.vhdr w).np_cur_act ≡ Obj.act a → a ≡ (written.vhdr w).np_org_act
  at_home w a same at =
      let there : Obj.act home_of ≡ Obj.act a = at_self w (Obj.act a) same at in
      let back : home_of ≡ a = cc in
      sym back ∙ (ap (λ x. (m.vhdr x).np_org_act) same ∙ sym (org_kept w))

  pub not_ckpt : {A : Type 0} (w d : ℕ) → v ≡ w → (written.vhdr w).np_cur_act ≡ Obj.ckpt d → A
  not_ckpt w d same at =
      let there : Obj.act home_of ≡ Obj.ckpt d = at_self w (Obj.ckpt d) same at in cc

pub same_or_other : (v w : ℕ) → (v ≡ w) ⊎ (v ≢ w)
same_or_other v w = elim (Bool-cases (v == w)) [
  | inl here ↦ inl (ground (arith, here))
  | inr other ↦ inr (ground (arith, other))
]

module _ (m : Memory) (v e : ℕ) (fine : Masters m)
    (current : (m.vhdr v).np_cur_act ≡ Obj.ckpt e) where
  pub written-Masters : Masters (write_back m v e)
  unfolding write_back
  written-Masters = record {
    own = λ x y same. fine.own x y (sym (org_kept m v e x) ∙ same ∙ org_kept m v e y);
    home = λ w a at. elim (same_or_other v w) [
      | inl here ↦ at_home m v e w a here at
      | inr other ↦ fine.home w a (sym (cur_other m v e w other) ∙ at) ∙ sym (org_kept m v e w)
    ];
    sizes = λ w d at. elim (same_or_other v w) [
      | inl here ↦ not_ckpt m v e w d here at
      | inr other ↦
          fine.sizes w d (sym (cur_other m v e w other) ∙ at)
          ∙ (sym (size_kept m v e (m.vhdr w).np_org_act)
              ∙ ap (λ a. ((write_back m v e).act a).obj_size) (sym (org_kept m v e w)))
    ];
    header = λ w d at. elim (same_or_other v w) [
      | inl here ↦ not_ckpt m v e w d here at
      | inr other ↦
          header_kept m v e (m.ckpt d).np_org_act
          ∙ fine.header w d (sym (cur_other m v e w other) ∙ at)
    ];
    whole = λ w d at. elim (same_or_other v w) [
      | inl here ↦ not_ckpt m v e w d here at
      | inr other ↦ fine.whole w d (sym (cur_other m v e w other) ∙ at)
    ];
  }

  -- The header's own master is the checkpointed one, which is where it was.
  master_self : master (write_back m v e) v ≡ master m v
  master_self =
      let w : Memory = write_back m v e in
      let a : ℕ = (m.vhdr v).np_org_act in
      let n : ℕ = (m.ckpt e).obj_size in
      ap (master_bytes w) (cur_self m v e)
      ∙ ap (λ k. take k (w.act a).obj) (size_kept m v e a ∙ sym (fine.sizes v e current))
      ∙ ap (take n) (act_self m v e)
      ∙ take-front n (m.ckpt e).obj (drop n (m.act a).obj) (fine.whole v e current)
      ∙ ap (master_bytes m) (sym current)

  other_bytes :
      (w : ℕ) (o : Obj)
      → v ≢ w
      → (m.vhdr w).np_cur_act ≡ o
      → master_bytes (write_back m v e) o ≡ master_bytes m o
  other_bytes w (Obj.act a) differ at =
      let apart : (m.vhdr v).np_org_act ≢ a =
        λ same. differ (fine.own v w (same ∙ fine.home w a at)) in
      ap (λ k. take k ((write_back m v e).act a).obj) (size_kept m v e a)
      ∙ ap (take (m.act a).obj_size) (act_other m v e a apart)
  other_bytes w (Obj.cpy c) differ at = ap (λ f. take (f c).obj_size (f c).obj) (chs_kept m v e)
  other_bytes w (Obj.ckpt d) differ at = ap (λ f. take (f d).obj_size (f d).obj) (ckpt_kept m v e)

  pub write_back-master : (w : ℕ) → master (write_back m v e) w ≡ master m w
  write_back-master w = elim (same_or_other v w) [
    | inl here ↦
        ap (λ x. master (write_back m v e) x) (sym here) ∙ master_self ∙ ap (λ x. master m x) here
    | inr other ↦
        ap (master_bytes (write_back m v e)) (cur_other m v e w other)
        ∙ other_bytes w (m.vhdr w).np_cur_act other refl
  ]
