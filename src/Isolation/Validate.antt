-- ===== src/Isolation/Validate.antt =====
-- validate_read_set succeeds exactly where every object that was read still has the version that was its
-- latest.
use timestone.Base.{
  ℕ, zero, suc, ◌+◌, ◌*◌, ◌≤◌, ◌<◌, ◌≡◌, ◌↔◌, inl, inr, refl, sym, ap, ◌∙◌, Bool, true, false,
  Option, none, some, List, [], ◌∷◌, ◌++◌, length, ltb, ◌==◌, take, drop, get_elem?-drop, drop_next,
  arith, Bool-cases,
}
use timestone.PtrSet.{cells_of}
use timestone.PtrSet.Push.{IsValid, contents}
use timestone.Memory.{Memory, Obj, get_act_vhdr}
use timestone.Ckptlog.{ptr_of}
use timestone.Isolation.{
  Level, invalid, snapshot, serializability, linearizability, Isolation, stale_read_occurred,
  is_latest, fetch, validate_from, validate_read_set,
}

-- a read: the object's volatile header, its latest copy, and what was read
pub record ReadEntry : Type 0 where
  pub p_act_vhdr : ℕ
  pub p_latest : ℕ
  pub version : ℕ

abbrev pub words_of : List ReadEntry → List ℕ
words_of [] = []
words_of (r ∷ rs) = r.p_act_vhdr ∷ r.p_latest ∷ r.version ∷ words_of rs

-- The object has the copy that was its latest; without a header at the time of the read it has none.
abbrev pub Latest : (ℕ → Obj) → Memory → ℕ → ℕ → ℕ → Type 0
Latest obj_at m zero latest version =
    (w : ℕ) → get_act_vhdr m (obj_at version) ≡ some w → ptr_of (m.vhdr w).p_copy ≡ 0
Latest obj_at m (suc v) latest version = ptr_of (m.vhdr (suc v)).p_copy ≡ latest

abbrev pub AllLatest : (ℕ → Obj) → Memory → List ReadEntry → Type 0
AllLatest obj_at m [] = Unit {0}
AllLatest obj_at m (r ∷ rs) =
    Latest obj_at m r.p_act_vhdr r.p_latest r.version × AllLatest obj_at m rs

-- the test of the code, for a result of `get_act_vhdr`
header_lem :
    (m : Memory) (o : Option ℕ) (b : Bool)
    → b ≡ (elim o as (λ x. Bool) [ none ↦ true | some w ↦ ptr_of (m.vhdr w).p_copy == 0 ])
    → (b ≡ true) ↔ ((w : ℕ) → o ≡ some w → ptr_of (m.vhdr w).p_copy ≡ 0)
header_lem m none b e = ((λ t w at. cc), (λ h. e))
header_lem m (some v) b e = (
  (λ t w at.
      let same : v ≡ w = cc in
      let here : (ptr_of (m.vhdr v).p_copy == 0) ≡ true = sym e ∙ t in
      ap (λ x. ptr_of (m.vhdr x).p_copy) (sym same) ∙ ground (arith, here)),
  (λ h. e ∙ ground (arith, h v refl)),
)

is_latest-Latest :
    (obj_at : ℕ → Obj) (m : Memory) (v latest version : ℕ)
    → (is_latest obj_at m v latest version ≡ true) ↔ Latest obj_at m v latest version
unfolding is_latest
is_latest-Latest obj_at m zero latest version =
    header_lem m (get_act_vhdr m (obj_at version)) (is_latest obj_at m 0 latest version) refl
is_latest-Latest obj_at m (suc v) latest version = ground arith

fetch_lem :
    (cells : List ℕ) (i : ℕ) {a b c : ℕ} {zs : List ℕ}
    → drop i cells ≡ a ∷ b ∷ c ∷ zs
    → fetch cells i ≡ some (a, b, c)
fetch_lem cells i at =
    let next = drop_next i cells at in
    rw
      (
        get_elem?-drop i cells at,
        fetch,
        get_elem?-drop (i + 1) cells next,
        get_elem?-drop (i + 1 + 1) cells (drop_next (i + 1) cells next),
      )
      refl

-- What the loop returns.
abbrev Verdict : (ℕ → Obj) → Memory → List ReadEntry → Option Bool → Type 0
Verdict obj_at m rs r = (b : Bool) × (r ≡ some b) × ((b ≡ true) ↔ AllLatest obj_at m rs)

module _ (obj_at : ℕ → Obj) (m : Memory) (cells : List ℕ) (num : ℕ) where
  validate_end : (fuel i : ℕ) → num ≡ i → validate_from (suc fuel) obj_at m cells num i ≡ some true
  unfolding validate_from
  validate_end fuel i e = ground (arith, e)

  module _ (fuel i : ℕ) (r : ReadEntry) (zs : List ℕ) (low : i < num)
      (at : drop i cells ≡ r.p_act_vhdr ∷ r.p_latest ∷ r.version ∷ zs) where
    validate_stale :
        is_latest obj_at m r.p_act_vhdr r.p_latest r.version ≡ false
        → validate_from (suc fuel) obj_at m cells num i ≡ some false
    unfolding validate_from
    validate_stale e =
        let on : ltb i num ≡ true = ground (arith, low) in
        rw (on, validate_from, fetch_lem cells i at, e) refl

    validate_fresh :
        is_latest obj_at m r.p_act_vhdr r.p_latest r.version ≡ true
        → validate_from (suc fuel) obj_at m cells num i
          ≡ validate_from fuel obj_at m cells num (i + 1 + 1 + 1)
    unfolding validate_from
    validate_fresh e =
        let on : ltb i num ≡ true = ground (arith, low) in
        rw (on, validate_from, fetch_lem cells i at, e) refl

  validate_from-Verdict :
      (fuel i : ℕ) (rs : List ReadEntry) (rest : List ℕ)
      → drop i cells ≡ words_of rs ++ rest
      → num ≡ i + 3 * length rs
      → length rs < fuel
      → Verdict obj_at m rs (validate_from fuel obj_at m cells num i)
  validate_from-Verdict zero i rs rest at count enough = absurd (omega (arith, enough))
  validate_from-Verdict (suc fuel) i [] rest at count enough =
      (true, validate_end fuel i (omega (arith, count)), ((λ t. tt), (λ h. refl)))
  validate_from-Verdict (suc fuel) i (r ∷ rs) rest at count enough =
      let low : i < num = omega (arith, count) in
      let test = is_latest-Latest obj_at m r.p_act_vhdr r.p_latest r.version in
      elim (Bool-cases (is_latest obj_at m r.p_act_vhdr r.p_latest r.version)) [
        | inr e ↦ (
          false,
          validate_stale fuel i r (words_of rs ++ rest) low at e,
          ((λ t. cc), (λ h. let bad = sym e ∙ test.1 h.0 in cc)),
        )
        | inl e ↦
            let next =
              drop_next (i + 1 + 1) cells (drop_next (i + 1) cells (drop_next i cells at)) in
            let v =
              validate_from-Verdict fuel (i + 1 + 1 + 1) rs rest next (omega (arith, count))
                (omega (arith, enough)) in
            (
              v.0,
              validate_fresh fuel i r (words_of rs ++ rest) low at e ∙ v.1,
              ((λ t. (test.0 e, v.2.0 t)), (λ h. v.2.1 h.1)),
            )
      ]

take-drop : (n : ℕ) (xs : List ℕ) → drop 0 xs ≡ take n xs ++ drop n xs
take-drop zero xs = refl
take-drop (suc n) [] = refl
take-drop (suc n) (x ∷ xs) = ap (λ l. x ∷ l) (take-drop n xs)

length-take : (n : ℕ) (xs : List ℕ) → n ≤ length xs → length (take n xs) ≡ n
length-take zero xs h = refl
length-take (suc n) [] h = absurd (omega (arith, h))
length-take (suc n) (x ∷ xs) h = omega (arith, length-take n xs (omega (arith, h)))

length-words_of : (rs : List ReadEntry) → length (words_of rs) ≡ 3 * length rs
length-words_of [] = refl
length-words_of (r ∷ rs) = omega (arith, length-words_of rs)

abbrev pub is_strict : Level → Bool
is_strict serializability = true
is_strict linearizability = true
is_strict _ = false

level_lem :
    (level : Level) (stale : Bool) (num max : ℕ) (p : Option (List ℕ)) (fuel : ℕ) (obj_at : ℕ → Obj)
    (m : Memory) (rs : List ReadEntry)
    → is_strict level ≡ true
    → Verdict obj_at m rs (
        validate_from fuel obj_at m
          (cells_of (record { num_ptrs = num; num_max_ptrs = max; ptrs = p }))
          num
          0)
    → (b : Bool) × (validate_read_set fuel obj_at m (record {
      level = level;
      stale_read_occured = stale;
      read_set = record { num_ptrs = num; num_max_ptrs = max; ptrs = p };
    })
        ≡ some b)
      × ((b ≡ true) ↔ (
          (stale_read_occurred (record {
            level = level;
            stale_read_occured = stale;
            read_set = record { num_ptrs = num; num_max_ptrs = max; ptrs = p };
          })
            ≡ false)
          × AllLatest obj_at m rs))
unfolding validate_read_set
level_lem invalid stale num max p fuel obj_at m rs strict v = cc
level_lem snapshot stale num max p fuel obj_at m rs strict v = cc
level_lem serializability true num max p fuel obj_at m rs strict v =
    (v.0, v.1, ((λ t. (refl, v.2.0 t)), (λ h. v.2.1 h.1)))
level_lem serializability false num max p fuel obj_at m rs strict v =
    (v.0, v.1, ((λ t. (refl, v.2.0 t)), (λ h. v.2.1 h.1)))
level_lem linearizability false num max p fuel obj_at m rs strict v =
    (v.0, v.1, ((λ t. (refl, v.2.0 t)), (λ h. v.2.1 h.1)))
level_lem linearizability true num max p fuel obj_at m rs strict v =
    (false, refl, ((λ t. cc), (λ h. cc)))

-- The validation of a valid read set that has the words of the reads `rs`, on one of the two stronger
-- levels and with more fuel than reads, returns. It succeeds exactly where no stale read is noted, which
-- only linearizability does, and every object that was read still has the copy that was its latest.
pub validate_read_set-AllLatest :
    (fuel : ℕ) (obj_at : ℕ → Obj) (m : Memory) (isolation : Isolation) (rs : List ReadEntry)
    → is_strict isolation.level ≡ true
    → IsValid isolation.read_set
    → contents isolation.read_set ≡ words_of rs
    → length rs < fuel
    → (b : Bool) × (validate_read_set fuel obj_at m isolation ≡ some b)
      × ((b ≡ true) ↔ ((stale_read_occurred isolation ≡ false) × AllLatest obj_at m rs))
validate_read_set-AllLatest fuel obj_at m isolation rs strict valid reads enough =
    let s = isolation.read_set in
    let cells = cells_of s in
    let count : s.num_ptrs ≡ 3 * length rs =
      sym (length-take s.num_ptrs cells (omega (arith, valid.fits, valid.size)))
      ∙ ap (λ x. length x) reads
      ∙ length-words_of rs in
    level_lem isolation.level isolation.stale_read_occured s.num_ptrs s.num_max_ptrs s.ptrs fuel
      obj_at m rs strict
      (validate_from-Verdict obj_at m cells s.num_ptrs fuel 0 rs (drop s.num_ptrs cells)
        (take-drop s.num_ptrs cells ∙ ap (λ x. x ++ drop s.num_ptrs cells) reads)
        (omega (arith, count)) enough)
