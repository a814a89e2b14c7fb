-- ===== src/Version/Snapshot.antt =====
-- A reader sees the newest version that was committed before its snapshot.
use timestone.Base.{
  ℕ, zero, suc, ◌≤◌, ◌<◌, ◌≡◌, ◌⊎◌, inl, inr, refl, sym, ap, ◌∙◌, true, false, Option, none, some,
  List, [], ◌∷◌, ◌++◌, length, arith, Bool-cases, Option-cases,
}
use timestone.Clock.{lt_clock}
use timestone.Clock.Order.{lt_clock_before}
use timestone.Memory.{Memory, Obj, get_act_vhdr}
use timestone.Version.{
  Walk, found, missing, waits, out_of_fuel, clock_of, walk_chain, Deref, deref, end_walk,
  deref_vhdr,
}

-- A copy knows the clock of the next older one, which is earlier.
abbrev pub Next : Memory → ℕ → List ℕ → Type 0
Next m c [] = Unit {0}
Next m c (d ∷ ds) =
    ((m.chs c).wrt_clk_next ≡ (m.chs d).wrt_clk) × ((m.chs d).wrt_clk < (m.chs c).wrt_clk)

-- `m` has under the pointer `p` the version chain `cs`, newest first.
abbrev pub Versions : Memory → Option ℕ → List ℕ → Type 0
Versions m p [] = p ≡ none
Versions m p (c ∷ cs) = (p ≡ some c) × Versions m (m.chs c).p_copy cs × Next m c cs

-- the reader sees the copy
abbrev pub Sees : Memory → ℕ → ℕ → Type 0
Sees m local_clk c = (t : ℕ) × (clock_of m c local_clk ≡ some t) × (lt_clock t local_clk ≡ true)

-- No copy of the list is seen.
abbrev pub NoneSeen : Memory → ℕ → List ℕ → Type 0
NoneSeen m local_clk [] = Unit {0}
NoneSeen m local_clk (c ∷ cs) = (Sees m local_clk c → ⊥) × NoneSeen m local_clk cs

-- Every copy of the list is older than the last checkpoint.
abbrev pub AllOlder : Memory → ℕ → List ℕ → Type 0
AllOlder m last_ckpt [] = Unit {0}
AllOlder m last_ckpt (c ∷ cs) =
    (lt_clock (m.chs c).wrt_clk last_ckpt ≡ true) × AllOlder m last_ckpt cs

-- What the result of a walk says of the chain.
abbrev pub Walked : Memory → ℕ → ℕ → List ℕ → Walk → Type 0
Walked m last local cs (found c) =
    (newer : List ℕ) × (older : List ℕ) × (cs ≡ newer ++ (c ∷ older))
    × NoneSeen m local newer
    × Sees m local c
Walked m last local cs missing =
    (newer : List ℕ) × (older : List ℕ) × (cs ≡ newer ++ older)
    × NoneSeen m local newer
    × AllOlder m last older
Walked m last local cs waits =
    (newer : List ℕ) × (c : ℕ) × (older : List ℕ) × (cs ≡ newer ++ (c ∷ older))
    × NoneSeen m local newer
    × (clock_of m c local ≡ none)
Walked m last local cs out_of_fuel = ⊥

older-AllOlder :
    (m : Memory) (last c : ℕ) (p : Option ℕ) (cs : List ℕ)
    → Versions m p (c ∷ cs)
    → lt_clock (m.chs c).wrt_clk last ≡ true
    → AllOlder m last (c ∷ cs)
older-AllOlder m last c p [] v old = (old, tt)
older-AllOlder m last c p (d ∷ ds) v old = (
  old,
  older-AllOlder m last d (m.chs c).p_copy ds v.1
      (lt_clock_before (m.chs d).wrt_clk (m.chs c).wrt_clk last v.2.1 old),
)

-- Below a copy whose next clock is older than the checkpoint every copy is.
next-AllOlder :
    (m : Memory) (last c : ℕ) (p : Option ℕ) (cs : List ℕ)
    → Versions m p (c ∷ cs)
    → lt_clock (m.chs c).wrt_clk_next last ≡ true
    → AllOlder m last cs
next-AllOlder m last c p [] v old = tt
next-AllOlder m last c p (d ∷ ds) v old =
    older-AllOlder m last d (m.chs c).p_copy ds v.1 (rw v.2.0 at old)

module _ (m : Memory) (last local : ℕ) where
  cons-Walked :
      (c : ℕ) (cs : List ℕ) (w : Walk)
      → (Sees m local c → ⊥)
      → Walked m last local cs w
      → Walked m last local (c ∷ cs) w
  cons-Walked c cs (found d) hidden (newer, older, e, none_seen, sees) =
      (c ∷ newer, older, ap (λ l. c ∷ l) e, (hidden, none_seen), sees)
  cons-Walked c cs missing hidden (newer, older, e, none_seen, old) =
      (c ∷ newer, older, ap (λ l. c ∷ l) e, (hidden, none_seen), old)
  cons-Walked c cs waits hidden (newer, d, older, e, none_seen, waiting) =
      (c ∷ newer, d, older, ap (λ l. c ∷ l) e, (hidden, none_seen), waiting)
  cons-Walked c cs out_of_fuel hidden h = absurd h

  hidden_of_gte :
      (c t : ℕ) → clock_of m c local ≡ some t → lt_clock t local ≡ false → Sees m local c → ⊥
  hidden_of_gte c t e late (u, f, early) = ground (arith, sym e ∙ f)

  -- one round of the walk, by what it reads
  walk_waits :
      (fuel c : ℕ) → clock_of m c local ≡ none → walk_chain (suc fuel) m last local c ≡ waits
  unfolding walk_chain
  walk_waits fuel c e = ground arith

  walk_found :
      (fuel c t : ℕ)
      → clock_of m c local ≡ some t
      → lt_clock t local ≡ true
      → walk_chain (suc fuel) m last local c ≡ found c
  unfolding walk_chain
  walk_found fuel c t e early = ground arith

  walk_cut :
      (fuel c t : ℕ)
      → clock_of m c local ≡ some t
      → lt_clock t local ≡ false
      → lt_clock (m.chs c).wrt_clk_next last ≡ true
      → walk_chain (suc fuel) m last local c ≡ missing
  unfolding walk_chain
  walk_cut fuel c t e late old = ground arith

  walk_end :
      (fuel c t : ℕ)
      → clock_of m c local ≡ some t
      → lt_clock t local ≡ false
      → (m.chs c).p_copy ≡ none
      → walk_chain (suc fuel) m last local c ≡ missing
  unfolding walk_chain
  walk_end fuel c t e late end = ground arith

  walk_older :
      (fuel c t d : ℕ)
      → clock_of m c local ≡ some t
      → lt_clock t local ≡ false
      → lt_clock (m.chs c).wrt_clk_next last ≡ false
      → (m.chs c).p_copy ≡ some d
      → walk_chain (suc fuel) m last local c ≡ walk_chain fuel m last local d
  unfolding walk_chain
  walk_older fuel c t d e late young next = ground arith

  -- With more fuel than the chain is long the walk ends.
  walk_chain-Walked :
      (fuel c : ℕ) (p : Option ℕ) (cs : List ℕ)
      → Versions m p (c ∷ cs)
      → length cs < fuel
      → Walked m last local (c ∷ cs) (walk_chain fuel m last local c)
  walk_chain-Walked zero c p cs v enough = absurd (omega arith)
  walk_chain-Walked (suc fuel) c p cs v enough = elim (Option-cases (clock_of m c local)) [
    | inl e ↦ rw (walk_waits fuel c e) ([], c, cs, refl, tt, e)
    | inr (t, e) ↦ elim (Bool-cases (lt_clock t local)) [
      | inl early ↦ rw (walk_found fuel c t e early) ([], cs, refl, tt, (t, e, early))
      | inr late ↦ elim (Bool-cases (lt_clock (m.chs c).wrt_clk_next last)) [
        | inl old ↦
            rw (walk_cut fuel c t e late old)
              (c ∷ [], cs, refl, (hidden_of_gte c t e late, tt), next-AllOlder m last c p cs v old)
        | inr young ↦ go t e late young cs v.1 (λ d q ds w. walk_chain-Walked fuel d q ds w) enough
      ]
    ]
  ]
    where
      go :
          (t : ℕ)
          → clock_of m c local ≡ some t
          → lt_clock t local ≡ false
          → lt_clock (m.chs c).wrt_clk_next last ≡ false
          → (ds : List ℕ) → Versions m (m.chs c).p_copy ds
          → ((d : ℕ) (q : Option ℕ) (es : List ℕ)
              → Versions m q (d ∷ es)
              → length es < fuel
              → Walked m last local (d ∷ es) (walk_chain fuel m last local d))
          → length ds < suc fuel
          → Walked m last local (c ∷ ds) (walk_chain (suc fuel) m last local c)
      go t e late young [] w again room =
          rw (walk_end fuel c t e late w) (c ∷ [], [], refl, (hidden_of_gte c t e late, tt), tt)
      go t e late young (d ∷ ds) w again room = rw (walk_older fuel c t d e late young w.0) (
          cons-Walked c (d ∷ ds) (walk_chain fuel m last local d) (hidden_of_gte c t e late)
            (again d (m.chs c).p_copy ds w (omega arith)))

-- What a dereference of an object with a volatile header returns, by the chain of its copies: the
-- newest copy that the reader's snapshot sees; or the current master, and then the copies that it
-- sees are older than the last checkpoint; or it waits for a commit, and sees no newer copy.
abbrev pub Read : Memory → ℕ → ℕ → ℕ → List ℕ → Deref → Type 0
Read m last local v cs (Deref.view r) =
    ((newer : List ℕ) × (c : ℕ) × (older : List ℕ) × (cs ≡ newer ++ (c ∷ older))
      × NoneSeen m local newer
      × Sees m local c
      × (r.version ≡ Obj.cpy c))
    ⊎ ((newer : List ℕ) × (older : List ℕ) × (cs ≡ newer ++ older)
        × NoneSeen m local newer
        × AllOlder m last older
        × (r.version ≡ (m.vhdr v).np_cur_act))
Read m last local v cs Deref.blocked =
    (newer : List ℕ) × (c : ℕ) × (older : List ℕ) × (cs ≡ newer ++ (c ∷ older))
    × NoneSeen m local newer
    × (clock_of m c local ≡ none)
Read m last local v cs _ = ⊥

end_walk-Read :
    (m : Memory) (last local v : ℕ) (latest : Option ℕ) (cs : List ℕ) (w : Walk)
    → Walked m last local cs w
    → Read m last local v cs (end_walk m v latest w)
end_walk-Read m last local v latest cs (found c) (newer, older, e, none_seen, sees) =
    inl (newer, c, older, e, none_seen, sees, refl)
end_walk-Read m last local v latest cs missing (newer, older, e, none_seen, old) =
    inr (newer, older, e, none_seen, old, refl)
end_walk-Read m last local v latest cs waits h = h
end_walk-Read m last local v latest cs out_of_fuel h = h

module _ (fuel : ℕ) (m : Memory) (last local v : ℕ) where
  deref_vhdr-none :
      (m.vhdr v).p_copy ≡ none → deref_vhdr fuel m last local v ≡ end_walk m v none missing
  deref_vhdr-none e = ground arith

  deref_vhdr-some :
      (c : ℕ)
      → (m.vhdr v).p_copy ≡ some c
      → deref_vhdr fuel m last local v ≡ end_walk m v (some c) (walk_chain fuel m last local c)
  deref_vhdr-some c e = ground arith

  deref_act :
      (a : ℕ)
      → (m.act a).p_act_vhdr ≡ some v
      → deref fuel m last local (some (Obj.act a)) ≡ deref_vhdr fuel m last local v
  unfolding deref get_act_vhdr
  deref_act a e = ground arith

deref_vhdr-Read :
    (fuel : ℕ) (m : Memory) (last local v : ℕ) (cs : List ℕ)
    → Versions m (m.vhdr v).p_copy cs
    → length cs ≤ fuel
    → Read m last local v cs (deref_vhdr fuel m last local v)
deref_vhdr-Read fuel m last local v [] h enough =
    rw (deref_vhdr-none fuel m last local v h) (inr ([], [], refl, tt, tt, refl))
deref_vhdr-Read fuel m last local v (c ∷ cs) h enough =
    rw (deref_vhdr-some fuel m last local v c h.0) (
      end_walk-Read m last local v (some c) (c ∷ cs) (walk_chain fuel m last local c)
        (walk_chain-Walked m last local fuel c (m.vhdr v).p_copy cs h (omega arith)))

-- `ts_deref` of an actual object with a volatile header and a chain of versions, with as much fuel
-- as the chain is long: it returns the newest copy that was committed before the reader's snapshot;
-- or the current master, and then every copy is hidden from the reader or older than the last
-- checkpoint; or it spins on a commit that is not public, and sees no newer copy.
pub deref-Read :
    (fuel : ℕ) (m : Memory) (last local a v : ℕ) (cs : List ℕ)
    → (m.act a).p_act_vhdr ≡ some v
    → Versions m (m.vhdr v).p_copy cs
    → length cs ≤ fuel
    → Read m last local v cs (deref fuel m last local (some (Obj.act a)))
deref-Read fuel m last local a v cs has_vhdr h enough =
    rw (deref_act fuel m last local v a has_vhdr) (deref_vhdr-Read fuel m last local v cs h enough)
