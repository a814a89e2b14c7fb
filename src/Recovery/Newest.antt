-- ===== src/Recovery/Newest.antt =====
-- What the reconstruction of a volatile header does for every object: the header leads to the newest of
-- the entries that were seen.
use timestone.Base.{
  ℕ, ◌+◌, ◌<◌, ◌≡◌, ◌≢◌, refl, sym, ap, ◌∙◌, inl, inr, true, false, Option, none, some, List, [],
  ◌∷◌, ltb, ◌==◌, if◌then◌else◌, arith, Bool-cases,
}
use mathlib.Core.Path.{subst}
use timestone.Memory.{Obj, CkptEntry, set_vhdr, set_act}
use timestone.Recovery.{
  Rebuilt, is_stale, reconstruct_volatile_header, update_header, vhdr_of_entry,
}

abbrev pub Entries : Type 0
Entries = ℕ → CkptEntry

-- The newest entry of every object so far, and after one more.
abbrev pub newer : Entries → Option ℕ → ℕ → ℕ
newer ckpt none e = e
newer ckpt (some d) e = if ltb (ckpt d).wrt_clk (ckpt e).wrt_clk then e else d

abbrev pub note : Entries → (ℕ → Option ℕ) → ℕ → ℕ → Option ℕ
note ckpt best e a = if a == (ckpt e).np_org_act then some (newer ckpt (best a) e) else best a

abbrev pub notes : Entries → (ℕ → Option ℕ) → List ℕ → ℕ → Option ℕ
notes ckpt best [] = best
notes ckpt best (e ∷ es) = notes ckpt (note ckpt best e) es

-- The volatile header of object `a` is one of those allocated; its current master is the entry `d`, and
-- the object that it gives as the original is an entry of `a`.
pub record HeaderOf (alloc : ℕ → ℕ) (gen_id : ℕ) (r : Rebuilt) (a d : ℕ) : Type 0 where
  pub k : ℕ
  pub allocated : k < r.allocated
  pub header : (r.memory.act a).p_act_vhdr ≡ some (alloc k)
  pub generation : (r.memory.act a).gen_id ≡ gen_id
  pub current : (r.memory.vhdr (alloc k)).np_cur_act ≡ Obj.ckpt d
  pub owner : (r.memory.ckpt (r.memory.vhdr (alloc k)).np_org_act).np_org_act ≡ a

abbrev pub Leads : (ℕ → ℕ) → ℕ → Rebuilt → ℕ → Option ℕ → Type 0
Leads alloc gen_id r a none = is_stale (r.memory.act a) gen_id ≡ true
Leads alloc gen_id r a (some d) = HeaderOf alloc gen_id r a d

-- Every object's header leads to its newest entry, and an object without an entry has none of this
-- generation.
pub record Recovered (alloc : ℕ → ℕ) (gen_id : ℕ) (ckpt : Entries) (r : Rebuilt)
    (best : ℕ → Option ℕ) : Type 0 where
  pub entries : r.memory.ckpt ≡ ckpt
  pub leads : (a : ℕ) → Leads alloc gen_id r a (best a)

module _ (fresh : ℕ → Option ℕ) (alloc : ℕ → ℕ) (gen_id : ℕ)
    (gives : (k : ℕ) → fresh k ≡ some (alloc k))
    (apart : (i j : ℕ) → alloc i ≡ alloc j → i ≡ j) where
  module _ (ckpt : Entries) (r : Rebuilt) (e : ℕ) where
    -- the first entry of an object
    abbrev with_first : Rebuilt
    with_first =
        let m = r.memory in
        let a = (m.ckpt e).np_org_act in
        let v = alloc r.allocated in
        let m1 = set_vhdr m v (vhdr_of_entry e) in
        record {
          memory = set_act m1 a (record (m.act a) { p_act_vhdr = some v; gen_id = gen_id });
          allocated = r.allocated + 1;
        }

    first_lem :
        is_stale (r.memory.act (r.memory.ckpt e).np_org_act) gen_id ≡ true
        → reconstruct_volatile_header fresh gen_id r e ≡ some with_first
    unfolding reconstruct_volatile_header
    first_lem stale = rw (stale, gives r.allocated) refl

    first-HeaderOf : HeaderOf alloc gen_id with_first (r.memory.ckpt e).np_org_act e
    first-HeaderOf = record {
      k = r.allocated;
      allocated = omega arith;
      header = ground arith;
      generation = ground arith;
      current = ground arith;
      owner = ground arith;
    }

    -- Another object keeps its header, which is an older one.
    first-other :
        (b : ℕ) (d : Option ℕ)
        → b ≢ (r.memory.ckpt e).np_org_act
        → Leads alloc gen_id r b d
        → Leads alloc gen_id with_first b d
    first-other b none ne l =
        let same : with_first.memory.act b ≡ r.memory.act b = ground (arith, ne) in
        ap (λ x. is_stale x gen_id) same ∙ l
    first-other b (some d) ne l =
        let old : alloc l.k ≢ alloc r.allocated =
          λ same. absurd (omega (arith, apart l.k r.allocated same, l.allocated)) in
        record {
          k = l.k;
          allocated = omega (arith, l.allocated);
          header = ground (arith, ne, l.header);
          generation = ground (arith, ne, l.generation);
          current = ground (arith, old, l.current);
          owner = ground (arith, old, l.owner);
        }

  module _ (r : Rebuilt) (e d : ℕ)
      (h : HeaderOf alloc gen_id r (r.memory.ckpt e).np_org_act d) where
    -- an entry of an object that has one
    abbrev with_later : Rebuilt
    with_later =
        let m = r.memory in
        let v = alloc h.k in
        record r {
          memory =
              if ltb (m.ckpt d).wrt_clk (m.ckpt e).wrt_clk
              then set_vhdr m v (record (m.vhdr v) { np_cur_act = Obj.ckpt e })
              else m;
        }

    later_lem : reconstruct_volatile_header fresh gen_id r e ≡ some with_later
    unfolding reconstruct_volatile_header
    later_lem =
        let used : is_stale (r.memory.act (r.memory.ckpt e).np_org_act) gen_id ≡ false =
          ground (arith, h.header, h.generation) in
        let at : update_header r.memory (r.memory.act (r.memory.ckpt e).np_org_act).p_act_vhdr e
            ≡ with_later.memory =
          rw (h.header, h.current) refl in
        rw used (ap (λ m. some (record r { memory = m })) at)

    later-HeaderOf :
        HeaderOf alloc gen_id with_later
          (r.memory.ckpt e).np_org_act
          (newer r.memory.ckpt (some d) e)
    later-HeaderOf = record {
      k = h.k;
      allocated = h.allocated;
      header = ground (arith, h.header);
      generation = ground (arith, h.generation);
      current = ground (arith, h.current);
      owner = ground (arith, h.owner);
    }

    later-other :
        (b : ℕ) (c : Option ℕ)
        → b ≢ (r.memory.ckpt e).np_org_act
        → Leads alloc gen_id r b c
        → Leads alloc gen_id with_later b c
    later-other b none ne l =
        let same : with_later.memory.act b ≡ r.memory.act b = ground arith in
        ap (λ x. is_stale x gen_id) same ∙ l
    later-other b (some c) ne l =
        let old : alloc l.k ≢ alloc h.k = λ same. ne (
          sym l.owner
          ∙ ap (λ v. (r.memory.ckpt (r.memory.vhdr v).np_org_act).np_org_act) same
          ∙ h.owner) in
        record {
          k = l.k;
          allocated = l.allocated;
          header = ground (arith, l.header);
          generation = ground (arith, l.generation);
          current = ground (arith, old, l.current);
          owner = ground (arith, old, l.owner);
        }

  -- One more entry of a log.
  module _ (r : Rebuilt) (best : ℕ → Option ℕ) (e : ℕ) where
    abbrev owner_of : ℕ
    owner_of = (r.memory.ckpt e).np_org_act

    noted :
        (r' : Rebuilt)
        → r'.memory.ckpt ≡ r.memory.ckpt
        → HeaderOf alloc gen_id r' owner_of (newer r.memory.ckpt (best owner_of) e)
        → ((b : ℕ) → b ≢ owner_of → Leads alloc gen_id r' b (best b))
        → Recovered alloc gen_id r.memory.ckpt r' (note r.memory.ckpt best e)
    noted r' same mine others = record {
      entries = same;
      leads = λ b. elim (Bool-cases (b == owner_of)) [
        | inl here ↦
            let at : owner_of ≡ b = ground (arith, here) in
            rw here
              (subst (λ x. HeaderOf alloc gen_id r' x (newer r.memory.ckpt (best x) e)) at mine)
        | inr there ↦ rw there (others b (ground (arith, there)))
      ];
    }

    reconstruct_by :
        (c : Option ℕ)
        → best owner_of ≡ c
        → ((a : ℕ) → Leads alloc gen_id r a (best a))
        → (r' : Rebuilt) × (reconstruct_volatile_header fresh gen_id r e ≡ some r')
          × Recovered alloc gen_id r.memory.ckpt r' (note r.memory.ckpt best e)
    reconstruct_by none at leads =
        let stale : Leads alloc gen_id r owner_of none =
          subst (Leads alloc gen_id r owner_of) at (leads owner_of) in
        (
          with_first r.memory.ckpt r e,
          first_lem r.memory.ckpt r e stale,
          noted (with_first r.memory.ckpt r e) refl
              (subst
                (λ c.
                  HeaderOf alloc gen_id (with_first r.memory.ckpt r e) owner_of
                    (newer r.memory.ckpt c e))
                (sym at) (first-HeaderOf r.memory.ckpt r e))
              (λ b ne. first-other r.memory.ckpt r e b (best b) ne (leads b)),
        )
    reconstruct_by (some d) at leads =
        let h : HeaderOf alloc gen_id r owner_of d =
          subst (Leads alloc gen_id r owner_of) at (leads owner_of) in
        (
          with_later r e d h,
          later_lem r e d h,
          noted (with_later r e d h) (ground arith)
              (subst
                (λ c. HeaderOf alloc gen_id (with_later r e d h) owner_of (newer r.memory.ckpt c e))
                (sym at) (later-HeaderOf r e d h))
              (λ b ne. later-other r e d h b (best b) ne (leads b)),
        )

  -- The reconstruction for an entry notes it for its object, whether it is the first or a later one, and
  -- leaves the headers of the other objects.
  pub reconstruct_volatile_header-Recovered :
      (ckpt : Entries) (r : Rebuilt) (best : ℕ → Option ℕ) (e : ℕ)
      → Recovered alloc gen_id ckpt r best
      → (r' : Rebuilt) × (reconstruct_volatile_header fresh gen_id r e ≡ some r')
        × Recovered alloc gen_id ckpt r' (note ckpt best e)
  reconstruct_volatile_header-Recovered ckpt r best e inv =
      let (r', at, inv') =
        reconstruct_by r best e (best (r.memory.ckpt e).np_org_act) refl inv.leads in
      (r', at, subst (λ c. Recovered alloc gen_id c r' (note c best e)) inv.entries inv')
