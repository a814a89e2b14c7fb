-- ===== src/Ckptlog/Kept.antt =====
-- What a visit of an entry does, and what any number of write-backs keeps.
use timestone.Base.{
  ℕ, ◌+◌, ◌%◌, ◌<◌, ◌≡◌, ◌≢◌, inl, inr, refl, sym, ◌∙◌, true, false, some, [], ◌∷◌, arith,
  Bool-cases, ltb,
}
use timestone.Clock.{gt_clock}
use timestone.Nvlog.{is_bogus}
use timestone.Memory.{Memory, Obj, same_obj}
use timestone.Ckptlog.{write_back, Visit, stop, pass, visit_entry}
use timestone.Ckptlog.Slots.{Slots}
use timestone.Ckptlog.Writeback.{
  Masters, master, same_obj_lem, not_ckpt, cur_other, same_or_other, written-Masters,
  write_back-master,
}

-- The entry at `a` is no object's current master, unless it is a tombstone.
abbrev pub NotCurrent : Memory → ℕ → Type 0
NotCurrent m a = (w : ℕ) → (m.vhdr w).np_cur_act ≡ Obj.ckpt a → (m.ckpt a).tombstone ≡ true

-- None of the entries of the slots from position `cnt` on is a current master. `n` is the log's size.
abbrev pub Away : Memory → ℕ → ℕ → ℕ → Slots → Type 0
Away m base n cnt [] = Unit {0}
Away m base n cnt (e ∷ es) =
    (is_bogus e.type ≡ false → NotCurrent m (base + cnt % n)) × Away m base n (cnt + e.size) es

-- Every object of an entry has a volatile header.
abbrev pub Headed : Memory → ℕ → ℕ → Type 0
Headed m base n =
    (i : ℕ) → i < n → (v : ℕ) × ((m.act (m.ckpt (base + i)).np_org_act).p_act_vhdr ≡ some v)

-- What any number of write-backs keeps: the bytes of every current master, the entries, and no
-- entry becomes a current master.
pub record Kept (m m' : Memory) : Type 0 where
  pub fine : Masters m'
  pub same : (w : ℕ) → master m' w ≡ master m w
  pub fewer : (w d : ℕ) → (m'.vhdr w).np_cur_act ≡ Obj.ckpt d → (m.vhdr w).np_cur_act ≡ Obj.ckpt d
  pub stays : m'.ckpt ≡ m.ckpt

pub Kept-refl : (m : Memory) → Masters m → Kept m m
Kept-refl m fine = record { fine = fine; same = λ w. refl; fewer = λ w d at. at; stays = refl }

pub Kept-trans : (m m1 m2 : Memory) → Kept m m1 → Kept m1 m2 → Kept m m2
Kept-trans m m1 m2 a b = record {
  fine = b.fine;
  same = λ w. b.same w ∙ a.same w;
  fewer = λ w d at. a.fewer w d (b.fewer w d at);
  stays = b.stays ∙ a.stays;
}

pub write_back_fewer :
    (m : Memory) (v e w d : ℕ)
    → ((write_back m v e).vhdr w).np_cur_act ≡ Obj.ckpt d
    → (v ≢ w) × ((m.vhdr w).np_cur_act ≡ Obj.ckpt d)
write_back_fewer m v e w d at = elim (same_or_other v w) [
  | inl here ↦ not_ckpt m v e w d here at
  | inr other ↦ (other, sym (cur_other m v e w other) ∙ at)
]

write_back_stays : (m : Memory) (v e : ℕ) → (write_back m v e).ckpt ≡ m.ckpt
unfolding write_back
write_back_stays m v e = refl

pub write_back-Kept :
    (m : Memory) (v e : ℕ)
    → Masters m
    → (m.vhdr v).np_cur_act ≡ Obj.ckpt e
    → Kept m (write_back m v e)
write_back-Kept m v e fine current = record {
  fine = written-Masters m v e fine current;
  same = write_back-master m v e fine current;
  fewer = λ w d at. (write_back_fewer m v e w d at).1;
  stays = write_back_stays m v e;
}

-- The memory that the visit of an entry leaves.
pub data Visited (m : Memory) (v e : ℕ) (r : Visit) : Type 0 where
  stopped : r ≡ stop → Visited m v e r
  skipped :
      r ≡ pass m
      → ((m.vhdr v).np_cur_act ≡ Obj.ckpt e → (m.ckpt e).tombstone ≡ true)
      → Visited m v e r
  wrote : r ≡ pass (write_back m v e) → (m.vhdr v).np_cur_act ≡ Obj.ckpt e → Visited m v e r

same_obj_self : (o : Obj) (e : ℕ) → o ≡ Obj.ckpt e → same_obj o (Obj.ckpt e) ≡ true
same_obj_self o e at = rw at (ground arith)

module _ (watermark used limit : ℕ) (m : Memory) (v e : ℕ) where
  pub visit-Visited : Visited m v e (visit_entry watermark used m v e limit)
  unfolding visit_entry
  visit-Visited = elim (Bool-cases (gt_clock (m.ckpt e).ckpt_s_clk limit)) [
    | inl late ↦ rw late (stopped refl)
    | inr early ↦ elim (Bool-cases (same_obj (m.vhdr v).np_cur_act (Obj.ckpt e))) [
      | inr apart ↦
          rw (early, apart)
            (skipped refl (λ at. let bad = same_obj_self (m.vhdr v).np_cur_act e at in cc))
      | inl same ↦ elim (Bool-cases (m.ckpt e).tombstone) [
        | inl dead ↦ rw (early, same, dead) (skipped refl (λ at. dead))
        | inr live ↦ elim (Bool-cases (ltb used watermark)) [
          | inl enough ↦ rw (early, same, live, enough) (stopped refl)
          | inr more ↦
              rw (early, same, live, more) (wrote refl (same_obj_lem (m.vhdr v).np_cur_act e same))
        ]
      ]
    ]
  ]
