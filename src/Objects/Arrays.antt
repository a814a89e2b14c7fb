-- ===== src/Objects/Arrays.antt =====
-- The elements of an array of objects are found from one another.
use native.Mathlib.Nat.{mod-eq_of_lt}
use timestone.Base.{
  ◌^◌, ◌%◌, ◌≤◌, add_u64, sub_u64, ℕ, ◌+◌, ◌*◌, ◌<◌, ◌≡◌, inl, inr, sym, ap, ◌∙◌, some, arith, ◌==◌,
  Bool-cases,
}
use mathlib.Core.Option
use timestone.Memory.{Memory, Obj}
use timestone.Objects.{
  stride, size_of_int, base_of, actual_of, ts_get_base_addr, ts_get_offset, ts_get_index,
}

-- the address of element `i`
abbrev pub element : ℕ → ℕ → ℕ → ℕ → ℕ
element headers size base i = base + (headers + size) * i

-- An array of `n` objects of `size` bytes, each of which knows its index. Sizes and indices are ints,
-- and the addresses fit into 64 bits.
pub record IsArray (headers : ℕ) (m : Memory) (base size n : ℕ) : Type 0 where
  pub sizes : headers + size < 2 ^ 31
  pub few : n ≤ 2 ^ 31
  pub ends : (i : ℕ) → i < n → element headers size base i < 2 ^ 64
  pub index : (i : ℕ) → i < n → (m.act (element headers size base i)).index ≡ i
  pub obj_size : (i : ℕ) → i < n → (m.act (element headers size base i)).obj_size ≡ size

back : (b p : ℕ) → b + p < 2 ^ 64 → sub_u64 (b + p) p ≡ b
back b p low = omega (arith, low)

ahead : (b p : ℕ) → b + p < 2 ^ 64 → add_u64 b p ≡ b + p
ahead b p low = omega (arith, low)

-- No conversion changes a size or an index of an array.
stride_lem :
    (headers m_size i : ℕ)
    → headers + m_size < 2 ^ 31
    → i < 2 ^ 31
    → (headers + m_size) * i < 2 ^ 64
    → stride headers m_size i ≡ (headers + m_size) * i
stride_lem headers size i small few fits =
    let s : size_of_int size ≡ size = ground (arith, small) in
    let k : size_of_int i ≡ i = ground (arith, few) in
    let one : (headers + size) % 2 ^ 64 ≡ headers + size = omega (arith, small) in
    rw (s, k, one) (mod-eq_of_lt fits)

base_of-element :
    (headers : ℕ) (m : Memory) (base size n i : ℕ)
    → IsArray headers m base size n
    → i < n
    → base_of headers m (element headers size base i) ≡ base
base_of-element headers m base size n i array inside = elim (Bool-cases (i == 0)) [
  | inl first ↦
      let z : i ≡ 0 = ground (arith, first) in
      rw (array.index i inside, first) (ap (λ (k : ℕ). element headers size base k) z ∙ omega arith)
  | inr later ↦
      let p = (headers + size) * i in
      let low = array.ends i inside in
      let far : stride headers size i ≡ p =
        stride_lem headers size i array.sizes (omega (arith, inside, array.few))
          (omega (arith, low)) in
      rw (array.index i inside, array.obj_size i inside, later, far) (back base p low)
]

-- From an element of an array of `n` objects of `size` bytes, given by itself or by a copy of it, the
-- first element is found, and every other one by its index, which is that element's index.
pub ts_get_offset-element :
    (headers : ℕ) (m : Memory) (base size n i j : ℕ) (o : Obj)
    → IsArray headers m base size n
    → i < n
    → j < n
    → actual_of m o ≡ some (element headers size base i)
    → (ts_get_base_addr headers m o ≡ some base)
      × (ts_get_offset headers m o j ≡ some (element headers size base j))
      × (ts_get_index m (element headers size base j) ≡ j)
unfolding ts_get_offset ts_get_base_addr ts_get_index
ts_get_offset-element headers m base size n i j o array inside within at =
    let found = base_of-element headers m base size n i array inside in
    let zero_at : element headers size base 0 ≡ base = omega arith in
    let sized : (m.act base).obj_size ≡ size =
      ap (λ a. (m.act a).obj_size) (sym zero_at) ∙ array.obj_size 0 (omega (arith, inside)) in
    let based : ts_get_base_addr headers m o ≡ some base =
      ap (Option.map (base_of headers m)) at ∙ ap some found in
    let p = (headers + size) * j in
    let low = array.ends j within in
    let far : stride headers (m.act base).obj_size j ≡ p =
      ap (λ (k : ℕ). stride headers k j) sized
      ∙ stride_lem headers size j array.sizes (omega (arith, within, array.few))
          (omega (arith, low)) in
    let there : add_u64 base (stride headers (m.act base).obj_size j)
        ≡ element headers size base j =
      ap (add_u64 base) far ∙ ahead base p low in
    (
      based,
      ap (Option.map (λ b. add_u64 b (stride headers (m.act b).obj_size j))) based ∙ ap some there,
      array.index j within,
    )
