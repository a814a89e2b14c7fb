-- ===== src/Zombies/Walk.antt =====
-- The walk over the links of the zombies visits the list that they stand for, although a visit may take
-- the thread that it comes to off the list.
use timestone.Base.{
  ℕ, zero, suc, ◌+◌, ◌<◌, ◌≡◌, ◌⊎◌, inl, inr, refl, sym, ap, ◌∙◌, Bool, false, Option, none, some,
  List, [], ◌∷◌, ◌++◌, length, arith, ◌==◌, Option-cases,
}
use mathlib.Core.Path.{subst}
use mathlib.Core.List.{append_assoc}
use timestone.PtrSet.{Alloc}
use timestone.Memory.{Memory}
use timestone.Qp.{SysClks}
use timestone.Links.{Links}
use timestone.Links.Chains.{Chain, stop, step, Chain-split, has-append}
use timestone.Links.Rings.{IsRing}
use timestone.Threads.{thread_list_del_unsafe}
use timestone.Threads.Members.{thread_list_del_unsafe-ring}
use timestone.Zombies.{
  State, Remains, bury, reap_visit, reclaim_tvlog, reclaim_ckptlog, reap_from,
  qp_reap_zombie_threads, set_remains,
}
use timestone.Zombies.Bury.{without, bury-cases}

-- What the enforced reclamations of a zombie come to: memory and its remains.
unfoldable pub enforced : SysClks → ℕ → ℕ → Alloc → State → ℕ → Option (Memory × Remains)
unfolding reclaim_tvlog reclaim_ckptlog
enforced clks fuel headers alloc s self =
    let z = s.remains self in
    elim (reclaim_tvlog fuel headers s.memory
      (record z { ckptlog = record (z.ckptlog) { clks = clks } })) [
        | none ↦ none
        | some (m1, z1) ↦ reclaim_ckptlog fuel alloc m1 z1
      ]

abbrev pub with_remains : State → ℕ → Memory × Remains → State
with_remains s self (m, z) = record (set_remains s self z) { memory = m }

pub reap_visit_lem :
    (clks : SysClks) (fuel headers : ℕ) (alloc : Alloc) (s : State) (self : ℕ)
    → reap_visit clks fuel headers alloc s self ≡ (elim (enforced clks fuel headers alloc s self) [
      | none ↦ none
      | some mz ↦ bury fuel (with_remains s self mz) self
    ])
unfolding reap_visit enforced
reap_visit_lem clks fuel headers alloc s self = ground arith

-- A visit leaves the lists as they are, or takes the thread off the zombies.
pub reap_visit-world :
    (clks : SysClks) (fuel headers : ℕ) (alloc : Alloc) (s : State) (self : ℕ) {s' : State}
    → reap_visit clks fuel headers alloc s self ≡ some s'
    → (s'.world ≡ s.world) ⊎ (s'.world ≡ without s.world self)
reap_visit-world clks fuel headers alloc s self {s'} e =
    let step = reap_visit_lem clks fuel headers alloc s self in
    elim (Option-cases (enforced clks fuel headers alloc s self)) [
      | inl stuck ↦ let bad : none ≡ some s' = rw stuck at (sym step ∙ e) in cc
      | inr (mz, done) ↦
          let b : bury fuel (with_remains s self mz) self ≡ some s' = rw done at (sym step ∙ e) in
          elim (bury-cases fuel (with_remains s self mz) self b) [
            | inl stays ↦ inl stays.world
            | inr leaves ↦ inr leaves.world
          ]
    ]

-- The visits of the threads of a list, one after the other.
unfoldable pub visit_all : SysClks → ℕ → ℕ → Alloc → State → List ℕ → Option State
visit_all clks fuel headers alloc s [] = some s
visit_all clks fuel headers alloc s (q ∷ qs) = elim (reap_visit clks fuel headers alloc s q) [
  | none ↦ none
  | some s' ↦ visit_all clks fuel headers alloc s' qs
]

abbrev pub nobody_waits : ℕ → Bool
nobody_waits k = false

abbrev first : List ℕ → ℕ → ℕ
first [] h = h
first (q ∷ qs) h = q

next-first : {s : Links} {b a : ℕ} {xs : List ℕ} → Chain s b a xs → s.next a ≡ first xs b
next-first (stop l) = l.onward
next-first (step l c) = l.onward

abbrev IsZombies : State → List ℕ → Type 0
IsZombies s zs = IsRing s.world.threads.links s.world.zombies.head zs

-- Behind the visit of `q` the rest of the walk is still to come.
module _ (s s' : State) (done : List ℕ) (q : ℕ) (qs : List ℕ)
    (r : IsZombies s (done ++ q ∷ qs)) where
  same_rest : s'.world ≡ s.world → IsZombies s' ((done ++ q ∷ []) ++ qs)
  same_rest e =
      rw (append_assoc done (q ∷ []) qs)
        (subst (λ w. IsRing w.threads.links w.zombies.head (done ++ q ∷ qs)) (sym e) r)

  less_rest : s'.world ≡ without s.world q → IsZombies s' (done ++ qs)
  unfolding thread_list_del_unsafe
  less_rest e =
      subst (λ w. IsRing w.threads.links w.zombies.head (done ++ qs)) (sym e)
        (thread_list_del_unsafe-ring s.world.threads s.world.zombies done q qs r)

head-without :
    (s s' : State) (q : ℕ)
    → s'.world ≡ without s.world q
    → s'.world.zombies.head ≡ s.world.zombies.head
unfolding thread_list_del_unsafe
head-without s s' q e = ap (λ w. w.zombies.head) e

module _ (clks : SysClks) (fuel headers : ℕ) (alloc : Alloc) (s : State) (q : ℕ) where
  visit_all-none :
      (qs : List ℕ)
      → reap_visit clks fuel headers alloc s q ≡ none
      → visit_all clks fuel headers alloc s (q ∷ qs) ≡ none
  unfolding visit_all
  visit_all-none qs e = rw (e, visit_all) refl

  pub visit_all-some :
      (qs : List ℕ) {s' : State}
      → reap_visit clks fuel headers alloc s q ≡ some s'
      → visit_all clks fuel headers alloc s (q ∷ qs) ≡ visit_all clks fuel headers alloc s' qs
  unfolding visit_all
  visit_all-some qs e = rw (e, visit_all) refl

  reap_from-none :
      (rounds k n : ℕ)
      → (q == s.world.zombies.head) ≡ false
      → reap_visit clks fuel headers alloc s q ≡ none
      → reap_from nobody_waits clks fuel headers alloc (suc rounds) k s q n ≡ none
  unfolding reap_from
  reap_from-none rounds k n inside e = rw (inside, e) refl

  reap_from-some :
      (rounds k n : ℕ) {s' : State}
      → (q == s.world.zombies.head) ≡ false
      → reap_visit clks fuel headers alloc s q ≡ some s'
      → reap_from nobody_waits clks fuel headers alloc (suc rounds) k s q n
        ≡ reap_from nobody_waits clks fuel headers alloc rounds
            (k + 1)
            s'
            n
            (s'.world.threads.links.next n)
  unfolding reap_from
  reap_from-some rounds k n inside e = rw (inside, e) refl

-- From the thread at which the walk stands, it visits the rest of the list.
reap_from-visit_all :
    (clks : SysClks) (fuel headers : ℕ) (alloc : Alloc) (rounds k : ℕ) (s : State)
    (done rest : List ℕ)
    → IsZombies s (done ++ rest)
    → length rest < rounds
    → let pos = first rest s.world.zombies.head in
      reap_from nobody_waits clks fuel headers alloc rounds k s pos (s.world.threads.links.next pos)
      ≡ visit_all clks fuel headers alloc s rest
unfolding reap_from visit_all
reap_from-visit_all clks fuel headers alloc zero k s done rest r enough = absurd (omega arith)
reap_from-visit_all clks fuel headers alloc (suc rounds) k s done [] r enough = ground arith
reap_from-visit_all clks fuel headers alloc (suc rounds) k s done (q ∷ qs) r enough =
    let inside : (q == s.world.zombies.head) ≡ false =
      ground (arith, r.distinct.0, has-append s.world.zombies.head done (q ∷ qs)) in
    let n = s.world.threads.links.next q in
    let next : n ≡ first qs s.world.zombies.head = next-first (Chain-split done q qs r.chain).1 in
    elim (Option-cases (reap_visit clks fuel headers alloc s q)) [
      | inl stuck ↦
          reap_from-none clks fuel headers alloc s q rounds k n inside stuck
          ∙ sym (visit_all-none clks fuel headers alloc s q qs stuck)
      | inr (s', visited) ↦
          let go = λ (p : ℕ).
            reap_from nobody_waits clks fuel headers alloc rounds (k + 1) s' p
              (s'.world.threads.links.next p) in
          let rest =
            λ (done' : List ℕ) (r' : IsZombies s' (done' ++ qs))
                (e : s.world.zombies.head ≡ s'.world.zombies.head).
              reap_from-some clks fuel headers alloc s q rounds k n inside visited
              ∙ ap go (next ∙ ap (first qs) e)
              ∙ reap_from-visit_all clks fuel headers alloc rounds (k + 1) s' done' qs r'
                  (omega (arith, enough))
              ∙ sym (visit_all-some clks fuel headers alloc s q qs visited) in
          elim (reap_visit-world clks fuel headers alloc s q visited) [
            | inl same ↦
                rest (done ++ q ∷ []) (same_rest s s' done q qs r same)
                  (sym (ap (λ w. w.zombies.head) same))
            | inr less ↦
                rest done (less_rest s s' done q qs r less) (sym (head-without s s' q less))
          ]
    ]

-- While no other thread waits for the list, the pass over the zombies `zs`, which follows their links
-- and takes threads off the list as it goes, does what the visits of `zs` do in order.
pub qp_reap_zombie_threads-visit_all :
    (clks : SysClks) (fuel headers : ℕ) (alloc : Alloc) (rounds : ℕ) (s : State) (zs : List ℕ)
    → IsRing s.world.threads.links s.world.zombies.head zs
    → length zs < rounds
    → qp_reap_zombie_threads nobody_waits clks fuel headers alloc rounds s
      ≡ visit_all clks fuel headers alloc s zs
unfolding qp_reap_zombie_threads
qp_reap_zombie_threads-visit_all clks fuel headers alloc rounds s zs r enough =
    ap
      (λ p.
        reap_from nobody_waits clks fuel headers alloc rounds 0 s p (s.world.threads.links.next p))
      (next-first r.chain)
    ∙ reap_from-visit_all clks fuel headers alloc rounds 0 s [] zs r enough
