-- ===== src/Threads/Members.antt =====
-- One list of threads: its operations, as operations on the list of its members.
use timestone.Base.{ℕ, ◌+◌, ◌^◌, ◌<◌, ◌≡◌, refl, Bool, false, List, [], ◌∷◌, ◌++◌, length, arith}
use timestone.Links.{set_next, set_prev, ts_list_del}
use timestone.Links.Chains.{◌∉◌, ne_of_mem, Distinct-middle}
use timestone.Links.Rings.{IsRing, IsRing-agree, ts_list_add-IsRing, ts_list_del-IsRing}
use timestone.Threads.{
  ThreadList, Threads, thread_list_add, thread_list_del, thread_list_del_unsafe,
}

-- The list has the threads `xs`, nobody holds its lock or waits for it, and there are fewer than 2 ^ 32.
pub record Members (ts : Threads) (tl : ThreadList) (xs : List ℕ) : Type 0 where
  pub ring : IsRing ts.links tl.head xs
  pub num : tl.num ≡ length xs
  pub unlocked : tl.locked ≡ false
  pub nobody_waits : tl.thread_wait ≡ 0
  pub few : length xs < 2 ^ 32

-- A new thread comes to the front and takes the next number.
pub thread_list_add-Members :
    (contended : Bool) (ts : Threads) (tl : ThreadList) (xs : List ℕ) (self : ℕ)
    → Members ts tl xs
    → self ∉ tl.head ∷ xs
    → length xs + 1 < 2 ^ 32
    → let (ts', tl') = thread_list_add contended ts tl self in
      Members ts' tl' (self ∷ xs) × (ts'.tid self ≡ tl.cur_tid)
unfolding thread_list_add
thread_list_add-Members contended ts tl xs self m out few = (
  record {
    ring = ts_list_add-IsRing self m.ring out;
    num = omega (arith, m.num, few);
    unlocked = refl;
    nobody_waits = ground (arith, m.nobody_waits);
    few = omega (arith, few);
  },
  ground arith,
)

pub thread_list_del_unsafe-ring :
    (ts : Threads) (tl : ThreadList) (xs : List ℕ) (self : ℕ) (ys : List ℕ)
    → IsRing ts.links tl.head (xs ++ self ∷ ys)
    → IsRing (thread_list_del_unsafe ts tl self).0.links tl.head (xs ++ ys)
unfolding thread_list_del_unsafe
thread_list_del_unsafe-ring ts tl xs self ys r =
    let out : self ∉ tl.head ∷ xs ++ ys = (Distinct-middle (tl.head ∷ xs) self ys r.distinct).1 in
    IsRing-agree (ts_list_del-IsRing xs self ys r)
      (set_prev (set_next (ts_list_del ts.links self) self 0) self 0)
      (λ q m.
        let ne = ne_of_mem q self (tl.head ∷ xs ++ ys) m out in
        (ground (arith, ne), ground (arith, ne)))

pub length-middle :
    (xs : List ℕ) (x : ℕ) (ys : List ℕ) → length (xs ++ x ∷ ys) ≡ length (xs ++ ys) + 1
length-middle [] x ys = omega arith
length-middle (y ∷ xs) x ys = omega (arith, length-middle xs x ys)

-- A thread is taken out wherever it stands.
pub thread_list_del-Members :
    (contended : Bool) (ts : Threads) (tl : ThreadList) (xs : List ℕ) (self : ℕ) (ys : List ℕ)
    → Members ts tl (xs ++ self ∷ ys)
    → let (ts', tl') = thread_list_del contended ts tl self in Members ts' tl' (xs ++ ys)
unfolding thread_list_del
thread_list_del-Members contended ts tl xs self ys m =
    let size = length-middle xs self ys in
    record {
      ring = thread_list_del_unsafe-ring ts tl xs self ys m.ring;
      num = omega (arith, m.num, m.few, size);
      unlocked = refl;
      nobody_waits = ground (arith, m.nobody_waits);
      few = omega (arith, m.few, size);
    }
