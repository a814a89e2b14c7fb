-- ===== src/Tvlog/Borderline/Agree.antt =====
-- The test for the copy that a checkpoint takes agrees with the walk that looks it up.
use timestone.Base.{
  ℕ, zero, suc, ◌<◌, ◌≡◌, ◌≢◌, ◌⊎◌, ◌↔◌, inl, inr, refl, sym, ap, ◌∙◌, true, false, Option, none,
  some, List, [], ◌∷◌, ◌++◌, length, arith, Bool-cases,
}
use timestone.Config.{max_version}
use timestone.Clock.{lt_clock}
use timestone.Clock.Order.{lt_clock_before}
use timestone.Memory.{Memory}
use timestone.Version.Snapshot.{Versions}
use timestone.Tvlog.Borderline.{is_at_borderline, ckpt_walk, get_ckpt_chs}

-- Each copy knows the clock of the next newer one; the newest one has `prev`.
abbrev pub Newer : Memory → ℕ → List ℕ → Type 0
Newer m prev [] = Unit {0}
Newer m prev (c ∷ cs) = ((m.chs c).wrt_clk_prev ≡ prev) × Newer m (m.chs c).wrt_clk cs

-- All the copies are committed.
abbrev pub Committed : Memory → List ℕ → Type 0
Committed m [] = Unit {0}
Committed m (c ∷ cs) = ((m.chs c).wrt_clk ≢ max_version) × Committed m cs

abbrev Found : Option (Option ℕ) → ℕ → Type 0
Found r c = r ≡ some (some c)

module _ (m : Memory) (s last : ℕ) where
  -- one round of the walk over committed copies
  walk_here :
      (fuel c : ℕ)
      → (m.chs c).wrt_clk ≢ max_version
      → lt_clock (m.chs c).wrt_clk s ≡ true
      → ckpt_walk (suc fuel) m s last c ≡ some (some c)
  unfolding ckpt_walk
  walk_here fuel c over early = ground arith

  walk_cut :
      (fuel c : ℕ)
      → (m.chs c).wrt_clk ≢ max_version
      → lt_clock (m.chs c).wrt_clk s ≡ false
      → lt_clock (m.chs c).wrt_clk_next last ≡ true
      → ckpt_walk (suc fuel) m s last c ≡ some none
  unfolding ckpt_walk
  walk_cut fuel c over late old = ground arith

  walk_end :
      (fuel c : ℕ)
      → (m.chs c).wrt_clk ≢ max_version
      → lt_clock (m.chs c).wrt_clk s ≡ false
      → lt_clock (m.chs c).wrt_clk_next last ≡ false
      → (m.chs c).p_copy ≡ none
      → ckpt_walk (suc fuel) m s last c ≡ some none
  unfolding ckpt_walk
  walk_end fuel c over late young end = ground arith

  walk_older :
      (fuel c d : ℕ)
      → (m.chs c).wrt_clk ≢ max_version
      → lt_clock (m.chs c).wrt_clk s ≡ false
      → lt_clock (m.chs c).wrt_clk_next last ≡ false
      → (m.chs c).p_copy ≡ some d
      → ckpt_walk (suc fuel) m s last c ≡ ckpt_walk fuel m s last d
  unfolding ckpt_walk
  walk_older fuel c d over late young next = ground arith

  -- What the walk finds is older than the checkpoint.
  Sound : ℕ → Type 0
  Sound fuel =
      (c d : ℕ) (p : Option ℕ) (cs : List ℕ)
      → Versions m p (c ∷ cs)
      → Committed m (c ∷ cs)
      → Found (ckpt_walk fuel m s last c) d
      → lt_clock (m.chs d).wrt_clk s ≡ true

  Sound-older :
      (fuel c d : ℕ) (es : List ℕ)
      → Sound fuel
      → (m.chs c).wrt_clk ≢ max_version
      → lt_clock (m.chs c).wrt_clk s ≡ false
      → lt_clock (m.chs c).wrt_clk_next last ≡ false
      → Versions m (m.chs c).p_copy es
      → Committed m es
      → Found (ckpt_walk (suc fuel) m s last c) d
      → lt_clock (m.chs d).wrt_clk s ≡ true
  unfolding Sound
  Sound-older fuel c d [] again over late young w all at =
      let bad : some none ≡ some (some d) = sym (walk_end fuel c over late young w) ∙ at in cc
  Sound-older fuel c d (e ∷ es) again over late young w all at =
      again e d (m.chs c).p_copy es w all (sym (walk_older fuel c e over late young w.0) ∙ at)

  walk-Sound : (fuel : ℕ) → Sound fuel
  unfolding ckpt_walk Sound
  walk-Sound zero c d p cs v over at = cc
  walk-Sound (suc fuel) c d p cs v over at = elim (Bool-cases (lt_clock (m.chs c).wrt_clk s)) [
    | inl early ↦
        let same : some (some c) ≡ some (some d) = sym (walk_here fuel c over.0 early) ∙ at in
        let here : c ≡ d = cc in ap (λ x. lt_clock (m.chs x).wrt_clk s) (sym here) ∙ early
    | inr late ↦ elim (Bool-cases (lt_clock (m.chs c).wrt_clk_next last)) [
      | inl old ↦
          let bad : some none ≡ some (some d) = sym (walk_cut fuel c over.0 late old) ∙ at in cc
      | inr young ↦ Sound-older fuel c d cs (walk-Sound fuel) over.0 late young v.1 over.1 at
    ]
  ]

  -- The clocks go down along the chain.
  Versions-below :
      (x c : ℕ) (p : Option ℕ) (xs ys : List ℕ)
      → Versions m p (x ∷ (xs ++ (c ∷ ys)))
      → (m.chs c).wrt_clk < (m.chs x).wrt_clk
  Versions-below x c p [] ys v = v.2.1
  Versions-below x c p (y ∷ xs) ys v =
      omega (arith, v.2.1, Versions-below y c (m.chs x).p_copy xs ys v.1)

  not_borderline :
      (c prev : ℕ)
      → (m.chs c).wrt_clk_prev ≡ prev
      → prev ≢ max_version
      → lt_clock prev s ≡ true
      → is_at_borderline m c s last ≡ false
  unfolding is_at_borderline
  not_borderline c prev at committed early = ground arith

  -- Behind a newer copy that is older than the checkpoint no copy is at the borderline.
  borderline_hidden :
      (x c : ℕ) (xs ys : List ℕ) (p : Option ℕ)
      → Versions m p (x ∷ (xs ++ (c ∷ ys)))
      → Newer m (m.chs x).wrt_clk (xs ++ (c ∷ ys))
      → Committed m (x ∷ (xs ++ (c ∷ ys)))
      → lt_clock (m.chs x).wrt_clk s ≡ true
      → is_at_borderline m c s last ≡ false
  borderline_hidden x c [] ys p v n over early = not_borderline c (m.chs x).wrt_clk n.0 over.0 early
  borderline_hidden x c (y ∷ xs) ys p v n over early =
      borderline_hidden y c xs ys (m.chs x).p_copy v.1 n.1 over.1
        (lt_clock_before (m.chs y).wrt_clk (m.chs x).wrt_clk s v.2.1 early)

  -- No copy newer than the one at hand is older than the checkpoint.
  Bound : ℕ → Type 0
  Bound prev = (prev ≡ max_version) ⊎ ((prev ≢ max_version) × (lt_clock prev s ≡ false))

  borderline_here :
      (c prev : ℕ)
      → (m.chs c).wrt_clk_prev ≡ prev
      → Bound prev
      → lt_clock (m.chs c).wrt_clk last ≡ false
      → is_at_borderline m c s last ≡ lt_clock (m.chs c).wrt_clk s
  unfolding is_at_borderline Bound
  borderline_here c prev at (inl e) young = ground arith
  borderline_here c prev at (inr h) young = ground (arith, h.0, h.1)

  -- On the way to a copy that is not older than the last checkpoint the walk is not cut.
  next_young :
      (x c : ℕ) (p : Option ℕ) (xs ys : List ℕ)
      → Versions m p (x ∷ (xs ++ (c ∷ ys)))
      → lt_clock (m.chs c).wrt_clk last ≡ false
      → lt_clock (m.chs x).wrt_clk_next last ≡ false
  next_young x c p [] ys v young = rw v.2.0 young
  next_young x c p (y ∷ xs) ys v young =
      rw v.2.0 (elim (Bool-cases (lt_clock (m.chs y).wrt_clk last)) [
        | inr fine ↦ fine
        | inl old ↦
            let bad =
              lt_clock_before (m.chs c).wrt_clk (m.chs y).wrt_clk last
                (Versions-below y c (m.chs x).p_copy xs ys v.1) old in
            cc
      ])

  -- the walk from a pointer
  abbrev walk_from : ℕ → Option ℕ → Option (Option ℕ)
  walk_from fuel p = elim p [ none ↦ some none | some q ↦ ckpt_walk fuel m s last q ]

  walk_on :
      (fuel c : ℕ)
      → (m.chs c).wrt_clk ≢ max_version
      → lt_clock (m.chs c).wrt_clk s ≡ false
      → lt_clock (m.chs c).wrt_clk_next last ≡ false
      → ckpt_walk (suc fuel) m s last c ≡ walk_from fuel (m.chs c).p_copy
  unfolding ckpt_walk
  walk_on fuel c over late young = ground arith

  Agree : ℕ → Option (Option ℕ) → Type 0
  Agree c r = (is_at_borderline m c s last ≡ true) ↔ Found r c

  found_other : (x c : ℕ) → (m.chs c).wrt_clk < (m.chs x).wrt_clk → Found (some (some x)) c → ⊥
  found_other x c below at =
      let same : x ≡ c = cc in omega (arith, below, ap (λ k. (m.chs k).wrt_clk) same)

  -- at the copy itself
  Agree-here :
      (fuel prev c : ℕ) (p : Option ℕ) (ys : List ℕ)
      → Versions m p (c ∷ ys)
      → (m.chs c).wrt_clk_prev ≡ prev
      → Committed m (c ∷ ys)
      → Bound prev
      → lt_clock (m.chs c).wrt_clk last ≡ false
      → Agree c (ckpt_walk (suc fuel) m s last c)
  unfolding Agree Sound
  Agree-here fuel prev c p ys v n over bound young =
      elim (Bool-cases (lt_clock (m.chs c).wrt_clk s)) [
        | inl early ↦ (
          (λ b. walk_here fuel c over.0 early),
          (λ at. borderline_here c prev n bound young ∙ early),
        )
        | inr late ↦ (
          (λ b. let bad = sym (borderline_here c prev n bound young ∙ late) ∙ b in cc),
          (λ at. let bad = sym late ∙ walk-Sound (suc fuel) c c p ys v over at in cc),
        )
      ]

  walk-Agree :
      (fuel prev c : ℕ) (p : Option ℕ) (xs ys : List ℕ)
      → Versions m p (xs ++ (c ∷ ys))
      → Newer m prev (xs ++ (c ∷ ys))
      → Committed m (xs ++ (c ∷ ys))
      → Bound prev
      → lt_clock (m.chs c).wrt_clk last ≡ false
      → length xs < fuel
      → Agree c (walk_from fuel p)
  unfolding Agree Bound
  walk-Agree zero prev c p xs ys v n over bound young enough = absurd (omega arith)
  walk-Agree (suc fuel) prev c p [] ys v n over bound young enough =
      rw v.0 (Agree-here fuel prev c p ys v n.0 over bound young)
  walk-Agree (suc fuel) prev c p (y ∷ xs) ys v n over bound young enough =
      rw v.0 (elim (Bool-cases (lt_clock (m.chs y).wrt_clk s)) [
        | inl early ↦ (
          (λ b. let bad = sym (borderline_hidden y c xs ys p v n.1 over early) ∙ b in cc),
          (λ at. absurd (
              found_other y c (Versions-below y c p xs ys v)
                (sym (walk_here fuel y over.0 early) ∙ at))),
        )
        | inr late ↦ rw (walk_on fuel y over.0 late (next_young y c p xs ys v young)) (
            walk-Agree fuel (m.chs y).wrt_clk c (m.chs y).p_copy xs ys v.1 n.1 over.1
              (inr (over.0, late)) young (omega (arith, enough)))
      ])

-- For a copy in its object's chain of committed versions, of which each knows the clocks of its
-- neighbours, that is not older than the last checkpoint: the test of the reclamation holds of it
-- exactly when it is the copy that the walk down the chain looks up, with more fuel than versions are
-- newer.
pub is_at_borderline-get_ckpt_chs :
    (m : Memory) (ckpt_s_clk last_ckpt_clk fuel c : ℕ) (newer older : List ℕ)
    → Versions m (m.vhdr (m.chs c).p_act_vhdr).p_copy (newer ++ (c ∷ older))
    → Newer m max_version (newer ++ (c ∷ older))
    → Committed m (newer ++ (c ∷ older))
    → lt_clock (m.chs c).wrt_clk last_ckpt_clk ≡ false
    → length newer < fuel
    → (is_at_borderline m c ckpt_s_clk last_ckpt_clk ≡ true)
      ↔ (get_ckpt_chs fuel m c ckpt_s_clk last_ckpt_clk ≡ some (some c))
unfolding get_ckpt_chs Agree Bound
is_at_borderline-get_ckpt_chs m s last fuel c newer older v n over young enough =
    walk-Agree m s last fuel max_version c (m.vhdr (m.chs c).p_act_vhdr).p_copy newer older v n over
      (inl refl) young enough
