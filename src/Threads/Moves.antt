-- ===== src/Threads/Moves.antt =====
-- A thread that ends goes from the live threads to the zombies.
use timestone.Base.{
  ℕ, ◌+◌, ◌^◌, ◌<◌, ◌≡◌, sym, Bool, false, List, ◌∷◌, ◌++◌, length, arith, ◌==◌, inl, inr,
  Bool-cases,
}
use mathlib.Core.Path.{subst}
use timestone.Links.{set_next, set_prev, ts_list_del}
use timestone.Links.Chains.{
  has, ◌∈◌, ◌∉◌, ne_of_mem, Distinct-middle, has-append, prev-mem, next-mem, Chain-split,
}
use timestone.Links.Rings.{IsRing, IsRing-agree, ts_list_add-apart, ts_list_del-apart}
use timestone.Threads.{
  ThreadList, Threads, World, thread_list_add, thread_list_del, thread_list_del_unsafe,
  register_thread, deregister_thread, zombinize_thread,
}
use timestone.Threads.Members.{
  thread_list_del_unsafe-ring, length-middle, Members, thread_list_add-Members,
  thread_list_del-Members,
}

-- The live threads are `xs` and the zombies `zs`, and no thread is both.
pub record Lists (w : World) (xs zs : List ℕ) : Type 0 where
  pub live : Members w.threads w.live xs
  pub zombies : Members w.threads w.zombies zs
  pub apart : (q : ℕ) → q ∈ w.live.head ∷ xs → q ∉ w.zombies.head ∷ zs

-- Links that stay as they are keep a list.
Members-ring :
    {ts : Threads} {tl : ThreadList} {xs : List ℕ} (ts' : Threads)
    → Members ts tl xs
    → IsRing ts'.links tl.head xs
    → Members ts' tl xs
Members-ring ts' m r = record {
  ring = r;
  num = m.num;
  unlocked = m.unlocked;
  nobody_waits = m.nobody_waits;
  few = m.few;
}

thread_list_del-other :
    (contended : Bool) (ts : Threads) (tl : ThreadList) (xs : List ℕ) (self : ℕ) (ys : List ℕ)
    {g : ℕ} {zs : List ℕ}
    → IsRing ts.links tl.head (xs ++ self ∷ ys)
    → IsRing ts.links g zs
    → ((q : ℕ) → q ∈ tl.head ∷ xs ++ self ∷ ys → q ∉ g ∷ zs)
    → IsRing (thread_list_del contended ts tl self).0.links g zs
unfolding thread_list_del thread_list_del_unsafe
thread_list_del-other contended ts tl xs self ys {g} {zs} r other apart =
    let (before, behind) = Chain-split xs self ys r.chain in
    let e = has-append (ts.links.prev self) (tl.head ∷ xs) (self ∷ ys) in
    let f = has-append (ts.links.next self) (tl.head ∷ xs) (self ∷ ys) in
    let h = has-append self (tl.head ∷ xs) (self ∷ ys) in
    let p = apart (ts.links.prev self) (ground (arith, e, prev-mem before)) in
    let n = apart (ts.links.next self) (ground (arith, f, next-mem behind)) in
    let out = apart self (ground (arith, h)) in
    IsRing-agree (ts_list_del-apart other self p n)
      (set_prev (set_next (ts_list_del ts.links self) self 0) self 0)
      (λ q m. let ne = ne_of_mem q self (g ∷ zs) m out in (ground (arith, ne), ground (arith, ne)))

-- A thread outside both lists.
pub record Outside (w : World) (xs zs : List ℕ) (self : ℕ) : Type 0 where
  pub not_live : self ∉ w.live.head ∷ xs
  pub not_zombie : self ∉ w.zombies.head ∷ zs

deregister_thread-Lists :
    (contended : Bool) (w : World) (xs : List ℕ) (self : ℕ) (ys zs : List ℕ)
    → Lists w (xs ++ self ∷ ys) zs
    → Lists (deregister_thread contended w self) (xs ++ ys) zs
      × Outside (deregister_thread contended w self) (xs ++ ys) zs self
unfolding deregister_thread
deregister_thread-Lists contended w xs self ys zs l =
    let live = w.live.head ∷ xs in
    let still =
      thread_list_del-other contended w.threads w.live xs self ys l.live.ring l.zombies.ring
        l.apart in
    (
      record {
        live = thread_list_del-Members contended w.threads w.live xs self ys l.live;
        zombies = Members-ring (thread_list_del contended w.threads w.live self).0 l.zombies still;
        apart = λ q m.
            l.apart q (ground (arith, m, has-append q live ys, has-append q live (self ∷ ys)));
      },
      record {
        not_live = (Distinct-middle live self ys l.live.ring.distinct).1;
        not_zombie = l.apart self (ground (arith, has-append self live (self ∷ ys)));
      },
    )

flip : (xs ys : List ℕ) → ((q : ℕ) → q ∈ xs → q ∉ ys) → (q : ℕ) → q ∈ ys → q ∉ xs
flip xs ys apart q m = elim (Bool-cases (has q xs)) [
  | inl there ↦ let out = apart q there in cc
  | inr out ↦ out
]

-- A new thread joins one list and does not touch the other.
module _ (contended : Bool) {ts : Threads} {tl other : ThreadList} {xs zs : List ℕ} (self : ℕ)
    (mine : Members ts tl xs) (theirs : Members ts other zs)
    (apart : (q : ℕ) → q ∈ tl.head ∷ xs → q ∉ other.head ∷ zs) (out : self ∉ other.head ∷ zs) where
  thread_list_add-other :
      Members (thread_list_add contended ts tl self).0 other zs
      × ((q : ℕ) → q ∈ tl.head ∷ self ∷ xs → q ∉ other.head ∷ zs)
  unfolding thread_list_add
  thread_list_add-other = (
    Members-ring (thread_list_add contended ts tl self).0 theirs (
        ts_list_add-apart theirs.ring self tl.head out (apart tl.head (ground arith))
          (apart (ts.links.next tl.head) (next-mem mine.ring.chain))),
    λ q m. elim (Bool-cases (q == self)) [
      | inl here ↦
          let same : q ≡ self = ground (arith, here) in
          subst (λ z. z ∉ other.head ∷ zs) (sym same) out
      | inr there ↦ apart q (ground (arith, m, there))
    ],
  )

-- A new thread becomes the first live one and takes the next number; the zombies stay.
pub register_thread-Lists :
    (contended : Bool) (w : World) (xs zs : List ℕ) (self : ℕ)
    → Lists w xs zs
    → Outside w xs zs self
    → length xs + 1 < 2 ^ 32
    → Lists (register_thread contended w self) (self ∷ xs) zs
      × ((register_thread contended w self).threads.tid self ≡ w.live.cur_tid)
unfolding register_thread
register_thread-Lists contended w xs zs self l out few =
    let added =
      thread_list_add-Members contended w.threads w.live xs self l.live out.not_live few in
    let others = thread_list_add-other contended self l.live l.zombies l.apart out.not_zombie in
    (record { live = added.0; zombies = others.0; apart = others.1 }, added.1)

zombinize_thread-Lists :
    (contended : Bool) (w : World) (xs zs : List ℕ) (self : ℕ)
    → Lists w xs zs
    → Outside w xs zs self
    → length zs + 1 < 2 ^ 32
    → Lists (zombinize_thread contended w self) xs (self ∷ zs)
unfolding zombinize_thread
zombinize_thread-Lists contended w xs zs self l out few =
    let live = w.live.head ∷ xs in
    let dead = w.zombies.head ∷ zs in
    let others =
      thread_list_add-other contended self l.zombies l.live (flip live dead l.apart) out.not_live in
    record {
      live = others.0;
      zombies =
          (thread_list_add-Members contended w.threads w.zombies zs self l.zombies out.not_zombie
            few).0;
      apart = flip (w.zombies.head ∷ self ∷ zs) live others.1;
    }

-- A thread that ends while its logs are in use, `deregister_thread` and then `zombinize_thread`, leaves
-- the live list, wherever it stood, and becomes the first zombie; the other members of both lists
-- stay, in order, with the counts right and the locks free.
pub deregister_thread-zombinize_thread :
    (contended contended' : Bool) (w : World) (xs : List ℕ) (self : ℕ) (ys zs : List ℕ)
    → Lists w (xs ++ self ∷ ys) zs
    → length zs + 1 < 2 ^ 32
    → Lists
        (zombinize_thread contended' (deregister_thread contended w self) self)
        (xs ++ ys)
        (self ∷ zs)
deregister_thread-zombinize_thread contended contended' w xs self ys zs l few =
    let gone = deregister_thread-Lists contended w xs self ys zs l in
    zombinize_thread-Lists contended' (deregister_thread contended w self) (xs ++ ys) zs self gone.0
      gone.1 few

-- A zombie is taken off, with the lock held.
pub del_unsafe-Lists :
    (w : World) (xs zs : List ℕ) (self : ℕ) (ys : List ℕ)
    → Lists w xs (zs ++ self ∷ ys)
    → let (ts, tl) = thread_list_del_unsafe w.threads w.zombies self in
      Lists (record w { threads = ts; zombies = tl }) xs (zs ++ ys)
unfolding thread_list_del_unsafe thread_list_del
del_unsafe-Lists w xs zs self ys l =
    let live = w.live.head ∷ xs in
    let dead = w.zombies.head ∷ zs in
    let size = length-middle zs self ys in
    let (ts, tl) = thread_list_del_unsafe w.threads w.zombies self in
    record {
      live = Members-ring ts l.live (
          thread_list_del-other false w.threads w.zombies zs self ys l.zombies.ring l.live.ring
            (flip live (dead ++ self ∷ ys) l.apart));
      zombies = record {
        ring = thread_list_del_unsafe-ring w.threads w.zombies zs self ys l.zombies.ring;
        num = omega (arith, l.zombies.num, l.zombies.few, size);
        unlocked = l.zombies.unlocked;
        nobody_waits = l.zombies.nobody_waits;
        few = omega (arith, l.zombies.few, size);
      };
      apart = λ q m.
          let e = has-append q dead ys in
          let f = has-append q dead (self ∷ ys) in ground (arith, e, f, l.apart q m);
    }
