-- ===== src/Tvlog/Reclaim/Walk.antt =====
-- The loops over the write sets and their objects, around any body that keeps the shape of the log.
use mathlib.Core.Path.{subst}
use timestone.Base.{
  ℕ, zero, suc, ◌<◌, ◌≡◌, ◌⊎◌, inl, inr, refl, sym, ap, ◌∙◌, true, List, [], ◌∷◌, add_u64,
}
use timestone.Config.{copy, free}
use timestone.Memory.{Memory, Obj, Chs, get_entry_size}
use timestone.Tvlog.{Tvlog, tvlog_at}
use timestone.Tvlog.WriteSet.{ws_iter_begin}
use timestone.Tvlog.Layout.{visited}
use timestone.Tvlog.Reclaim.{
  State, Outcome, returns, no_space, lost, out_of_fuel, Turn, goes_on, jumps, Round, stops, behind,
  each_object, is_marked, is_detached,
}

-- an entry of the checkpoint log that the checkpoint of clock `s` made
abbrev pub Stamped : ℕ → Memory → Obj → Type 0
Stamped s m (Obj.act a) = ⊥
Stamped s m (Obj.cpy c) = ⊥
Stamped s m (Obj.ckpt e) = (m.ckpt e).ckpt_s_clk ≡ s

-- The current master of the header's object is an entry that the checkpoint of clock `s` made.
abbrev pub InLog : ℕ → Memory → ℕ → Type 0
InLog s m c = Stamped s m (m.vhdr (m.chs c).p_act_vhdr).np_cur_act

abbrev pub All : (ℕ → Type 0) → List ℕ → Type 0
All P [] = Unit {0}
All P (x ∷ xs) = P x × All P xs

abbrev pub Any : (ℕ → Type 0) → List ℕ → Type 0
Any P [] = ⊥
Any P (x ∷ xs) = P x ⊎ Any P xs

pub All-map : (P Q : ℕ → Type 0) (xs : List ℕ) → ((x : ℕ) → P x → Q x) → All P xs → All Q xs
All-map P Q [] f h = tt
All-map P Q (x ∷ xs) f h = (f x h.0, All-map P Q xs f h.1)

pub Any-map : (P Q : ℕ → Type 0) (xs : List ℕ) → ((x : ℕ) → P x → Q x) → Any P xs → Any Q xs
Any-map P Q [] f h = absurd h
Any-map P Q (x ∷ xs) f (inl h) = inl (f x h)
Any-map P Q (x ∷ xs) f (inr h) = inr (Any-map P Q xs f h)

-- the position behind `n` objects from position `cnt` on
abbrev pub behind_objects : Tvlog → (ℕ → Chs) → ℕ → ℕ → ℕ
behind_objects tvlog chs zero cnt = cnt
behind_objects tvlog chs (suc n) cnt =
    behind_objects tvlog chs n (add_u64 cnt (get_entry_size (chs (tvlog_at tvlog cnt))))

-- the objects of the write set at a position, and the position behind it
abbrev pub objects : Tvlog → Memory → ℕ → List ℕ
objects tvlog m x =
    visited tvlog m.chs (m.ws (tvlog_at tvlog x)).num_objs (ws_iter_begin m (tvlog_at tvlog x))

abbrev pub set_end : Tvlog → Memory → ℕ → ℕ
set_end tvlog m x =
    behind_objects tvlog m.chs (m.ws (tvlog_at tvlog x)).num_objs
      (ws_iter_begin m (tvlog_at tvlog x))

-- The log has from position `cnt` up to the tail exactly the write sets at the positions of the list.
abbrev pub Sets : Tvlog → Memory → ℕ → List ℕ → Type 0
Sets tvlog m cnt [] = cnt ≡ tvlog.tail_cnt
Sets tvlog m cnt (x ∷ xs) = (cnt ≡ x) × (x < tvlog.tail_cnt) × Sets tvlog m (set_end tvlog m x) xs

module _ (s : ℕ) where
  -- What a reclamation with clock `s` leaves of memory: the write sets, and of every header the size, the
  -- type, the clocks and the volatile header; a copy that is detached and an object
  -- that is marked stay so, and one that is newly
  -- detached is in the checkpoint log; what is in the log stays there.
  pub record Shape (m m' : Memory) : Type 0 where
    pub ws : m'.ws ≡ m.ws
    pub size : (c : ℕ) → get_entry_size (m'.chs c) ≡ get_entry_size (m.chs c)
    pub type : (c : ℕ) → (m'.chs c).type ≡ (m.chs c).type
    pub clk : (c : ℕ) → (m'.chs c).wrt_clk ≡ (m.chs c).wrt_clk
    pub prev : (c : ℕ) → (m'.chs c).wrt_clk_prev ≡ (m.chs c).wrt_clk_prev
    pub vhdr : (c : ℕ) → (m'.chs c).p_act_vhdr ≡ (m.chs c).p_act_vhdr
    pub stays :
        (c : ℕ)
        → (m.chs c).type ≡ copy
        → is_detached (m.chs c).status ≡ true
        → is_detached (m'.chs c).status ≡ true
    pub marks :
        (c : ℕ)
        → (m.chs c).type ≡ free
        → is_marked (m.chs c).status ≡ true
        → is_marked (m'.chs c).status ≡ true
    pub logged : (v : ℕ) → Stamped s m (m.vhdr v).np_cur_act → Stamped s m' (m'.vhdr v).np_cur_act
    pub newly :
        (c : ℕ)
        → (m.chs c).type ≡ copy
        → is_detached (m'.chs c).status ≡ true
        → (is_detached (m.chs c).status ≡ true) ⊎ InLog s m' c

  InLog-Shape : (m m' : Memory) (c : ℕ) → Shape m m' → InLog s m c → InLog s m' c
  InLog-Shape m m' c h here =
      subst (λ (v : ℕ). Stamped s m' (m'.vhdr v).np_cur_act) (sym (h.vhdr c))
        (h.logged (m.chs c).p_act_vhdr here)

  pub Shape-refl : (m : Memory) → Shape m m
  Shape-refl m = record {
    ws = refl;
    size = λ c. refl;
    type = λ c. refl;
    clk = λ c. refl;
    prev = λ c. refl;
    vhdr = λ c. refl;
    stays = λ c is_copy done. done;
    marks = λ c is_free done. done;
    logged = λ v here. here;
    newly = λ c is_copy done. inl done;
  }

  pub Shape-trans : (m m1 m2 : Memory) → Shape m m1 → Shape m1 m2 → Shape m m2
  Shape-trans m m1 m2 a b = record {
    ws = b.ws ∙ a.ws;
    size = λ c. b.size c ∙ a.size c;
    type = λ c. b.type c ∙ a.type c;
    clk = λ c. b.clk c ∙ a.clk c;
    prev = λ c. b.prev c ∙ a.prev c;
    vhdr = λ c. b.vhdr c ∙ a.vhdr c;
    stays = λ c is_copy done. b.stays c (a.type c ∙ is_copy) (a.stays c is_copy done);
    marks = λ c is_free done. b.marks c (a.type c ∙ is_free) (a.marks c is_free done);
    logged = λ v here. b.logged v (a.logged v here);
    newly = λ c is_copy done. elim (b.newly c (a.type c ∙ is_copy) done) [
      | inr here ↦ inr here
      | inl before ↦ elim (a.newly c is_copy before) [
        | inl first ↦ inl first
        | inr there ↦ inr (InLog-Shape m1 m2 c b there)
      ]
    ];
  }

  pub visited-Shape :
      (tvlog : Tvlog) (m m' : Memory) (n cnt : ℕ)
      → Shape m m'
      → visited tvlog m'.chs n cnt ≡ visited tvlog m.chs n cnt
  visited-Shape tvlog m m' zero cnt h = refl
  visited-Shape tvlog m m' (suc n) cnt h =
      let c = tvlog_at tvlog cnt in
      ap (λ l. c ∷ l)
        (visited-Shape tvlog m m' n (add_u64 cnt (get_entry_size (m'.chs c))) h
          ∙ ap (λ (k : ℕ). visited tvlog m.chs n (add_u64 cnt k)) (h.size c))

  pub behind_objects-Shape :
      (tvlog : Tvlog) (m m' : Memory) (n cnt : ℕ)
      → Shape m m'
      → behind_objects tvlog m'.chs n cnt ≡ behind_objects tvlog m.chs n cnt
  behind_objects-Shape tvlog m m' zero cnt h = refl
  behind_objects-Shape tvlog m m' (suc n) cnt h =
      let c = tvlog_at tvlog cnt in
      behind_objects-Shape tvlog m m' n (add_u64 cnt (get_entry_size (m'.chs c))) h
      ∙ ap (λ (k : ℕ). behind_objects tvlog m.chs n (add_u64 cnt k)) (h.size c)

  -- What a body does with an object: it goes on, and `P` holds of the object from then on, or it jumps
  -- out, and `Q` holds of it.
  abbrev pub Stepped :
      (Memory → ℕ → Type 0) → (Memory → ℕ → Type 0) → Memory → ℕ → Outcome Turn → Type 0
  Stepped P Q m c (returns (goes_on st)) = Shape m st.memory × P st.memory c
  Stepped P Q m c (returns (jumps st)) = Shape m st.memory × Q m c
  Stepped P Q m c no_space = Unit {0}
  Stepped P Q m c lost = Unit {0}
  Stepped P Q m c out_of_fuel = ⊥

  -- What a round over `n` objects ends with.
  abbrev pub Walked :
      (Memory → ℕ → Type 0)
      → (Memory → ℕ → Type 0)
      → Tvlog
      → Memory
      → ℕ
      → ℕ
      → Outcome Round
      → Type 0
  Walked P Q tvlog m n cnt (returns (stops st)) =
      Shape m st.memory × Any (Q m) (visited tvlog m.chs n cnt)
  Walked P Q tvlog m n cnt (returns (behind st cnt')) =
      Shape m st.memory
      × (cnt' ≡ behind_objects tvlog m.chs n cnt)
      × All (P st.memory) (visited tvlog m.chs n cnt)
  Walked P Q tvlog m n cnt no_space = Unit {0}
  Walked P Q tvlog m n cnt lost = Unit {0}
  Walked P Q tvlog m n cnt out_of_fuel = ⊥

  -- `P` and `Q` of memory and a header that later steps do not change.
  pub record Lasting (P Q : Memory → ℕ → Type 0) : Type 1 where
    pub lasts : (m m' : Memory) (c : ℕ) → Shape m m' → P m c → P m' c
    pub was : (m m' : Memory) (c : ℕ) → Shape m m' → Q m' c → Q m c

  module _ (P Q : Memory → ℕ → Type 0) (lasting : Lasting P Q) (tvlog : Tvlog) where
    abbrev next_cnt : (ℕ → Chs) → ℕ → ℕ
    next_cnt chs cnt = add_u64 cnt (get_entry_size (chs (tvlog_at tvlog cnt)))

    next_visited :
        (m m1 : Memory) (n cnt : ℕ)
        → Shape m m1
        → visited tvlog m1.chs n (next_cnt m1.chs cnt) ≡ visited tvlog m.chs n (next_cnt m.chs cnt)
    next_visited m m1 n cnt shape =
        visited-Shape tvlog m m1 n (next_cnt m1.chs cnt) shape
        ∙ ap (λ (k : ℕ). visited tvlog m.chs n (add_u64 cnt k)) (shape.size (tvlog_at tvlog cnt))

    next_behind :
        (m m1 : Memory) (n cnt : ℕ)
        → Shape m m1
        → behind_objects tvlog m1.chs n (next_cnt m1.chs cnt)
          ≡ behind_objects tvlog m.chs n (next_cnt m.chs cnt)
    next_behind m m1 n cnt shape =
        behind_objects-Shape tvlog m m1 n (next_cnt m1.chs cnt) shape
        ∙ ap (λ (k : ℕ). behind_objects tvlog m.chs n (add_u64 cnt k))
            (shape.size (tvlog_at tvlog cnt))

    cons-Walked :
        (m m1 : Memory) (n cnt : ℕ) (r : Outcome Round)
        → Shape m m1
        → P m1 (tvlog_at tvlog cnt)
        → Walked P Q tvlog m1 n (next_cnt m1.chs cnt) r
        → Walked P Q tvlog m (suc n) cnt r
    cons-Walked m m1 n cnt (returns (stops st)) shape here (later, any) = (
      Shape-trans m m1 st.memory shape later,
      inr (
          subst (λ (l : List ℕ). Any (Q m) l) (next_visited m m1 n cnt shape)
            (Any-map (Q m1) (Q m) (visited tvlog m1.chs n (next_cnt m1.chs cnt))
              (λ x. lasting.was m m1 x shape) any)),
    )
    cons-Walked m m1 n cnt (returns (behind st cnt')) shape here (later, at_end, all) = (
      Shape-trans m m1 st.memory shape later,
      at_end ∙ next_behind m m1 n cnt shape,
      (
        lasting.lasts m1 st.memory (tvlog_at tvlog cnt) later here,
        subst (λ (l : List ℕ). All (P st.memory) l) (next_visited m m1 n cnt shape) all,
      ),
    )
    cons-Walked m m1 n cnt no_space shape here h = tt
    cons-Walked m m1 n cnt lost shape here h = tt
    cons-Walked m m1 n cnt out_of_fuel shape here h = absurd h

    module _ (body : State → ℕ → Outcome Turn)
        (step : (st : State) (c : ℕ) → Stepped P Q st.memory c (body st c)) where
      -- the rest of a round, behind the body
      abbrev rest_of : ℕ → ℕ → Outcome Turn → Outcome Round
      rest_of n cnt r = elim r [
        | returns t ↦ elim t [
          | jumps st' ↦ returns (stops st')
          | goes_on st' ↦ each_object tvlog body n st' (next_cnt st'.memory.chs cnt)
        ]
        | no_space ↦ no_space
        | lost ↦ lost
        | out_of_fuel ↦ out_of_fuel
      ]

      rest-Walked :
          (n cnt : ℕ) (m : Memory) (r : Outcome Turn)
          → ((st : State) (k : ℕ) → Walked P Q tvlog st.memory n k (each_object tvlog body n st k))
          → Stepped P Q m (tvlog_at tvlog cnt) r
          → Walked P Q tvlog m (suc n) cnt (rest_of n cnt r)
      rest-Walked n cnt m (returns (goes_on st)) again (shape, here) =
          cons-Walked m st.memory n cnt (each_object tvlog body n st (next_cnt st.memory.chs cnt))
            shape here (again st (next_cnt st.memory.chs cnt))
      rest-Walked n cnt m (returns (jumps st)) again (shape, out) = (shape, inl out)
      rest-Walked n cnt m no_space again h = tt
      rest-Walked n cnt m lost again h = tt
      rest-Walked n cnt m out_of_fuel again h = absurd h

      pub each_object-Walked :
          (n : ℕ) (st : State) (cnt : ℕ)
          → Walked P Q tvlog st.memory n cnt (each_object tvlog body n st cnt)
      unfolding each_object
      each_object-Walked zero st cnt = (Shape-refl st.memory, refl, tt)
      each_object-Walked (suc n) st cnt =
          rest-Walked n cnt st.memory (body st (tvlog_at tvlog cnt)) (each_object-Walked n)
            (step st (tvlog_at tvlog cnt))
