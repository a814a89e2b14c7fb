-- ===== src/Tvlog/Reclaim/Loop.antt =====
-- The loop over the write sets of a log: it passes the first sets of the log, up to one that it may not
-- pass, or up to the tail.
use mathlib.Core.Path.{subst}
use timestone.Base.{
  ℕ, zero, suc, ◌<◌, ◌≡◌, ◌⊎◌, inl, inr, refl, sym, ap, ◌∙◌, Bool, true, false, not, ◌&&◌, List, [],
  ◌∷◌, ◌++◌, length, ltb, arith, Bool-cases, add_u64,
}
use timestone.Memory.{Memory, WrtSet, get_entry_size}
use timestone.Tvlog.{Tvlog, tvlog_at}
use timestone.Tvlog.WriteSet.{ws_iter_begin}
use timestone.Tvlog.Layout.{visited}
use timestone.Tvlog.Reclaim.{
  State, Outcome, returns, no_space, lost, out_of_fuel, Turn, Round, stops, behind, each_object,
  each_set,
}
use timestone.Tvlog.Reclaim.Walk.{
  Shape, Shape-refl, Shape-trans, All, All-map, Any, Any-map, behind_objects, objects, set_end,
  Sets, visited-Shape, behind_objects-Shape, Stepped, Walked, Lasting, each_object-Walked,
}

-- A write set that is passed: the test does not hold, and `P` holds of each of its objects.
abbrev pub PassedSet :
    (Memory → ℕ → Type 0) → Tvlog → (Memory → ℕ → Bool) → Memory → Memory → ℕ → Type 0
PassedSet P tvlog ends m m' x = (ends m x ≡ false) × All (P m') (objects tvlog m x)

-- What the loop ends in front of: the tail, a write set of which the test holds, or one that has an
-- object of which `Q` holds.
abbrev pub Halted : (Memory → ℕ → Type 0) → Tvlog → (Memory → ℕ → Bool) → Memory → List ℕ → Type 0
Halted Q tvlog ends m [] = Unit {0}
Halted Q tvlog ends m (x ∷ xs) = (ends m x ≡ true) ⊎ Any (Q m) (objects tvlog m x)

module _ (clk : ℕ) where
  module _ (tvlog : Tvlog) (m m' : Memory) (h : Shape clk m m') where
    pub objects-Shape : (x : ℕ) → objects tvlog m' x ≡ objects tvlog m x
    objects-Shape x =
        let a = tvlog_at tvlog x in
        visited-Shape clk tvlog m m' (m'.ws a).num_objs (ws_iter_begin m' a) h
        ∙ ap
            (λ (f : ℕ → WrtSet).
              visited tvlog m.chs (f a).num_objs
                (add_u64 (f a).start_tail_cnt (get_entry_size (m'.chs a))))
            h.ws
        ∙ ap (λ (k : ℕ). visited tvlog m.chs (m.ws a).num_objs (add_u64 (m.ws a).start_tail_cnt k))
            (h.size a)

    set_end-Shape : (x : ℕ) → set_end tvlog m' x ≡ set_end tvlog m x
    set_end-Shape x =
        let a = tvlog_at tvlog x in
        behind_objects-Shape clk tvlog m m' (m'.ws a).num_objs (ws_iter_begin m' a) h
        ∙ ap
            (λ (f : ℕ → WrtSet).
              behind_objects tvlog m.chs (f a).num_objs
                (add_u64 (f a).start_tail_cnt (get_entry_size (m'.chs a))))
            h.ws
        ∙ ap
            (λ (k : ℕ).
              behind_objects tvlog m.chs (m.ws a).num_objs (add_u64 (m.ws a).start_tail_cnt k))
            (h.size a)

    pub Sets-Shape : (cnt : ℕ) (xs : List ℕ) → Sets tvlog m cnt xs → Sets tvlog m' cnt xs
    Sets-Shape cnt [] s = s
    Sets-Shape cnt (x ∷ xs) s = (
      s.0,
      s.1,
      subst (λ (k : ℕ). Sets tvlog m' k xs) (sym (set_end-Shape x))
          (Sets-Shape (set_end tvlog m x) xs s.2),
    )

    pub Sets-back : (cnt : ℕ) (xs : List ℕ) → Sets tvlog m' cnt xs → Sets tvlog m cnt xs
    Sets-back cnt [] s = s
    Sets-back cnt (x ∷ xs) s = (
      s.0,
      s.1,
      subst (λ (k : ℕ). Sets tvlog m k xs) (set_end-Shape x)
          (Sets-back (set_end tvlog m' x) xs s.2),
    )

  -- The result of the loop from memory `m`, over the write sets at the positions `starts`.
  pub record Ended (P Q : Memory → ℕ → Type 0) (tvlog : Tvlog) (ends : Memory → ℕ → Bool)
      (m : Memory) (starts : List ℕ) (m' : Memory) (stop : ℕ) : Type 0 where
    pub passed : List ℕ
    pub left : List ℕ
    pub split : starts ≡ passed ++ left
    pub remains : Sets tvlog m stop left
    pub shape : Shape clk m m'
    pub fine : All (PassedSet P tvlog ends m m') passed
    pub halted : Halted Q tvlog ends m left

  abbrev pub LoopEnded :
      (P Q : Memory → ℕ → Type 0) (tvlog : Tvlog) (ends : Memory → ℕ → Bool) (m : Memory)
      (starts : List ℕ)
      → Outcome (State × ℕ)
      → Type 0
  LoopEnded P Q tvlog ends m starts (returns (st, stop)) =
      Ended P Q tvlog ends m starts st.memory stop
  LoopEnded P Q tvlog ends m starts no_space = Unit {0}
  LoopEnded P Q tvlog ends m starts lost = Unit {0}
  LoopEnded P Q tvlog ends m starts out_of_fuel = ⊥

  module _ (P Q : Memory → ℕ → Type 0) (lasting : Lasting clk P Q) (tvlog : Tvlog)
      (ends : Memory → ℕ → Bool)
      (ends-Shape : (m m' : Memory) (x : ℕ) → Shape clk m m' → ends m' x ≡ ends m x) where
    pub Halted-back :
        (m m' : Memory) (xs : List ℕ)
        → Shape clk m m'
        → Halted Q tvlog ends m' xs
        → Halted Q tvlog ends m xs
    Halted-back m m' [] h k = tt
    Halted-back m m' (x ∷ xs) h (inl e) = inl (sym (ends-Shape m m' x h) ∙ e)
    Halted-back m m' (x ∷ xs) h (inr any) = inr (
        subst (λ (l : List ℕ). Any (Q m) l) (objects-Shape tvlog m m' h x)
          (Any-map (Q m') (Q m) (objects tvlog m' x) (λ c. lasting.was m m' c h) any))

    pub PassedSet-back :
        (m m1 m' : Memory) (x : ℕ)
        → Shape clk m m1
        → PassedSet P tvlog ends m1 m' x
        → PassedSet P tvlog ends m m' x
    PassedSet-back m m1 m' x h k = (
      sym (ends-Shape m m1 x h) ∙ k.0,
      subst (λ (l : List ℕ). All (P m') l) (objects-Shape tvlog m m1 h x) k.1,
    )

    -- A write set in front of those that the rest of the loop passes.
    cons-Ended :
        (m m1 : Memory) (x : ℕ) (xs : List ℕ) (r : Outcome (State × ℕ))
        → Shape clk m m1
        → PassedSet P tvlog ends m m1 x
        → LoopEnded P Q tvlog ends m1 xs r
        → LoopEnded P Q tvlog ends m (x ∷ xs) r
    cons-Ended m m1 x xs (returns (st, stop)) h here e = record {
      passed = x ∷ e.passed;
      left = e.left;
      split = ap (λ l. x ∷ l) e.split;
      remains = Sets-back tvlog m m1 h stop e.left e.remains;
      shape = Shape-trans clk m m1 st.memory h e.shape;
      fine = (
        (
          here.0,
          All-map (P m1) (P st.memory) (objects tvlog m x)
              (λ c. lasting.lasts m1 st.memory c e.shape) here.1,
        ),
        All-map (PassedSet P tvlog ends m1 st.memory) (PassedSet P tvlog ends m st.memory) e.passed
            (λ y. PassedSet-back m m1 st.memory y h) e.fine,
      );
      halted = Halted-back m m1 e.left h e.halted;
    }
    cons-Ended m m1 x xs no_space h here e = tt
    cons-Ended m m1 x xs lost h here e = tt
    cons-Ended m m1 x xs out_of_fuel h here e = absurd e

    module _ (body : Memory → ℕ → State → ℕ → Outcome Turn)
        (step : (m : Memory) (ws : ℕ) (st : State) (c : ℕ)
          → Stepped clk P Q st.memory c (body m ws st c)) where
      abbrev loop : ℕ → State → ℕ → Outcome (State × ℕ)
      loop fuel st start = each_set fuel tvlog ends body tvlog.tail_cnt st start

      -- the rest of a turn of the loop, behind the round over a write set
      abbrev behind_round : ℕ → ℕ → Outcome Round → Outcome (State × ℕ)
      behind_round fuel start r = elim r [
        | returns w ↦ elim w [
          | stops st' ↦ returns (st', start)
          | behind st' cnt ↦ loop fuel st' cnt
        ]
        | no_space ↦ no_space
        | lost ↦ lost
        | out_of_fuel ↦ out_of_fuel
      ]

      stay-Ended :
          (m m' : Memory) (start : ℕ) (xs : List ℕ)
          → Sets tvlog m start xs
          → Shape clk m m'
          → Halted Q tvlog ends m xs
          → Ended P Q tvlog ends m xs m' start
      stay-Ended m m' start xs s h k = record {
        passed = [];
        left = xs;
        split = refl;
        remains = s;
        shape = h;
        fine = tt;
        halted = k;
      }

      behind-Ended :
          (fuel x : ℕ) (xs : List ℕ) (m : Memory) (r : Outcome Round)
          → ((st : State) (start : ℕ)
              → Sets tvlog st.memory start xs
              → LoopEnded P Q tvlog ends st.memory xs (loop fuel st start))
          → x < tvlog.tail_cnt
          → Sets tvlog m (set_end tvlog m x) xs
          → ends m x ≡ false
          → Walked clk P Q tvlog m
              (m.ws (tvlog_at tvlog x)).num_objs
              (ws_iter_begin m (tvlog_at tvlog x))
              r
          → LoopEnded P Q tvlog ends m (x ∷ xs) (behind_round fuel x r)
      behind-Ended fuel x xs m (returns (stops st)) again low s on (h, any) =
          stay-Ended m st.memory x (x ∷ xs) (refl, low, s) h (inr any)
      behind-Ended fuel x xs m (returns (behind st cnt)) again low s on (h, at, all) =
          cons-Ended m st.memory x xs (loop fuel st cnt) h (on, all)
            (again st cnt (
              Sets-Shape tvlog m st.memory h cnt xs
                (subst (λ (k : ℕ). Sets tvlog m k xs) (sym at) s)))
      behind-Ended fuel x xs m no_space again low s on k = tt
      behind-Ended fuel x xs m lost again low s on k = tt
      behind-Ended fuel x xs m out_of_fuel again low s on k = absurd k

      -- the turn of the loop at a write set
      abbrev turn : ℕ → State → ℕ → Bool → Outcome (State × ℕ)
      turn fuel st start b = elim b [
        | false ↦ returns (st, start)
        | true ↦ behind_round fuel start (
            each_object tvlog (body st.memory (tvlog_at tvlog start))
              (st.memory.ws (tvlog_at tvlog start)).num_objs st
              (ws_iter_begin st.memory (tvlog_at tvlog start)))
      ]

      pub each_set-Ended :
          (fuel : ℕ) (st : State) (start : ℕ) (starts : List ℕ)
          → Sets tvlog st.memory start starts
          → length starts < fuel
          → LoopEnded P Q tvlog ends st.memory starts (loop fuel st start)
      unfolding each_set
      each_set-Ended zero st start starts s enough = absurd (omega (arith, enough))
      each_set-Ended (suc fuel) st start [] s enough =
          let off : (ltb start tvlog.tail_cnt && not (ends st.memory start)) ≡ false =
            ground (arith, s) in
          subst (λ (b : Bool). LoopEnded P Q tvlog ends st.memory [] (turn fuel st start b))
            (sym off) (stay-Ended st.memory st.memory start [] s (Shape-refl clk st.memory) tt)
      each_set-Ended (suc fuel) st start (x ∷ xs) s enough =
          let again = λ (st' : State) (k : ℕ) (t : Sets tvlog st'.memory k xs).
            each_set-Ended fuel st' k xs t (omega (arith, enough)) in
          subst (λ (k : ℕ). LoopEnded P Q tvlog ends st.memory (x ∷ xs) (loop (suc fuel) st k))
            (sym s.0)
            (elim (Bool-cases (ends st.memory x)) [
              | inl halt ↦
                  let off : (ltb x tvlog.tail_cnt && not (ends st.memory x)) ≡ false =
                    ground (arith, halt) in
                  subst
                    (λ (b : Bool). LoopEnded P Q tvlog ends st.memory (x ∷ xs) (turn fuel st x b))
                    (sym off)
                    (stay-Ended st.memory st.memory x (x ∷ xs) (refl, s.1, s.2)
                      (Shape-refl clk st.memory) (inl halt))
              | inr go ↦
                  let on : (ltb x tvlog.tail_cnt && not (ends st.memory x)) ≡ true =
                    ground (arith, go, s.1) in
                  let a = tvlog_at tvlog x in
                  let round =
                    each_object tvlog (body st.memory a) (st.memory.ws a).num_objs st
                      (ws_iter_begin st.memory a) in
                  subst
                    (λ (b : Bool). LoopEnded P Q tvlog ends st.memory (x ∷ xs) (turn fuel st x b))
                    (sym on)
                    (behind-Ended fuel x xs st.memory round again s.1 s.2 go (
                      each_object-Walked clk P Q lasting tvlog (body st.memory a) (step st.memory a)
                        (st.memory.ws a).num_objs st (ws_iter_begin st.memory a)))
            ])
