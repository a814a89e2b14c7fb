-- ===== src/Zombies/Reap.antt =====
-- A pass over zombies whose logs are empty.
use timestone.Base.{
  ℕ, ◌<◌, ◌≡◌, inl, inr, refl, sym, ap, ◌∙◌, true, false, Option, none, some, List, [], ◌∷◌, ◌++◌,
  length, arith, Bool-cases, if◌then◌else◌,
}
use mathlib.Core.Path.{subst}
use mathlib.Core.List.{append_assoc, append-nil}
use timestone.PtrSet.{Alloc}
use timestone.Qp.{SysClks}
use timestone.Memory.{Memory}
use timestone.Links.Chains.{◌∈◌, ◌∉◌, ne_of_mem, has-append, Distinct-middle}
use timestone.Threads.Moves.{Lists, del_unsafe-Lists}
use timestone.Zombies.{
  State, Remains, is_dead, logs_empty, bury, reap_visit, reclaim_tvlog, reclaim_ckptlog,
  qp_reap_zombie_threads,
}
use timestone.Zombies.Walk.{
  enforced, with_remains, reap_visit_lem, visit_all, visit_all-some, nobody_waits,
  qp_reap_zombie_threads-visit_all,
}
use timestone.Zombies.Returns.{HeapOk, bury_alive, bury_dead}

-- Of the zombies, those that nobody has given up, and those that somebody has.
abbrev pub kept : State → List ℕ → List ℕ
kept s [] = []
kept s (q ∷ qs) = if is_dead ((s.remains q).live_status) then kept s qs else q ∷ kept s qs

abbrev pub gone : State → List ℕ → List ℕ
gone s [] = []
gone s (q ∷ qs) = if is_dead ((s.remains q).live_status) then q ∷ gone s qs else gone s qs

abbrev pub AllEmpty : State → List ℕ → Type 0
AllEmpty s [] = Unit {0}
AllEmpty s (q ∷ qs) = (logs_empty (s.remains q) ≡ true) × AllEmpty s qs

-- What the visits leave: the threads that nobody has given up are still zombies, and the others are
-- freed, in order.
pub record Reaped (s : State) (xs done zs : List ℕ) (s' : State) : Type 0 where
  pub lists : Lists s'.world xs (done ++ kept s zs)
  pub freed : s'.freed ≡ s.freed ++ gone s zs

-- The threads whose remains are the same.
module _ (s s' : State) where
  kept-agree :
      (qs : List ℕ) → ((p : ℕ) → p ∈ qs → s'.remains p ≡ s.remains p) → kept s' qs ≡ kept s qs
  kept-agree [] same = refl
  kept-agree (q ∷ qs) same =
      rw (same q (ground arith), kept-agree qs (λ p m. same p (ground (arith, m)))) refl

  gone-agree :
      (qs : List ℕ) → ((p : ℕ) → p ∈ qs → s'.remains p ≡ s.remains p) → gone s' qs ≡ gone s qs
  gone-agree [] same = refl
  gone-agree (q ∷ qs) same =
      rw (same q (ground arith), gone-agree qs (λ p m. same p (ground (arith, m)))) refl

  AllEmpty-agree :
      (qs : List ℕ)
      → ((p : ℕ) → p ∈ qs → s'.remains p ≡ s.remains p)
      → AllEmpty s qs
      → AllEmpty s' qs
  AllEmpty-agree [] same e = tt
  AllEmpty-agree (q ∷ qs) same e = (
    ap logs_empty (same q (ground arith)) ∙ e.0,
    AllEmpty-agree qs (λ p m. same p (ground (arith, m))) e.1,
  )

-- A visit of `q`, and then the rest.
module _ {s s1 s' : State} {xs done : List ℕ} {q : ℕ} {qs : List ℕ}
    (same : (p : ℕ) → p ∈ qs → s1.remains p ≡ s.remains p) where
  Reaped-alive :
      is_dead ((s.remains q).live_status) ≡ false
      → s1.freed ≡ s.freed
      → Reaped s1 xs (done ++ q ∷ []) qs s'
      → Reaped s xs done (q ∷ qs) s'
  Reaped-alive alive free r = record {
    lists = rw alive (
        subst (Lists s'.world xs)
          (append_assoc done (q ∷ []) (kept s1 qs)
            ∙ ap (λ l. done ++ q ∷ l) (kept-agree s s1 qs same))
          r.lists);
    freed = rw alive (
        r.freed
        ∙ ap (λ l. l ++ gone s1 qs) free
        ∙ ap (λ l. s.freed ++ l) (gone-agree s s1 qs same));
  }

  Reaped-dead :
      is_dead ((s.remains q).live_status) ≡ true
      → s1.freed ≡ s.freed ++ q ∷ []
      → Reaped s1 xs done qs s'
      → Reaped s xs done (q ∷ qs) s'
  Reaped-dead dead free r = record {
    lists =
        rw dead (subst (Lists s'.world xs) (ap (λ l. done ++ l) (kept-agree s s1 qs same)) r.lists);
    freed = rw dead (
        r.freed
        ∙ ap (λ l. l ++ gone s1 qs) free
        ∙ append_assoc s.freed (q ∷ []) (gone s1 qs)
        ∙ ap (λ l. s.freed ++ q ∷ l) (gone-agree s s1 qs same));
  }

-- without a log to reclaim
enforced_empty :
    (clks : SysClks) (fuel headers : ℕ) (alloc : Alloc) (s : State) (self : ℕ)
    → logs_empty (s.remains self) ≡ true
    → enforced clks fuel headers alloc s self
      ≡ some (
        s.memory,
        record (s.remains self) { ckptlog = record (s.remains self).ckptlog { clks = clks } },
      )
unfolding enforced reclaim_tvlog reclaim_ckptlog
enforced_empty clks fuel headers alloc s self empty = ground (arith, empty)

module _ (clks : SysClks) (fuel headers : ℕ) (alloc : Alloc) where
  reap_visit_empty :
      (s : State) (self : ℕ)
      → logs_empty (s.remains self) ≡ true
      → reap_visit clks fuel headers alloc s self
        ≡ bury fuel
            (with_remains s self (
              s.memory,
              record (s.remains self) { ckptlog = record (s.remains self).ckptlog { clks = clks } },
            ))
            self
  reap_visit_empty s self empty =
      reap_visit_lem clks fuel headers alloc s self
      ∙ ap
          (λ o. elim o as (λ x. Option State) [
            | none ↦ none
            | some mz ↦ bury fuel (with_remains s self mz) self
          ])
          (enforced_empty clks fuel headers alloc s self empty)

  -- A pass over the zombies `zs` with `done` in front of them.
  visit_all-Reaped :
      (s : State) (xs done zs : List ℕ)
      → Lists s.world xs (done ++ zs)
      → AllEmpty s zs
      → HeapOk fuel s.heap
      → (s' : State) × (visit_all clks fuel headers alloc s zs ≡ some s') × Reaped s xs done zs s'
  unfolding visit_all
  visit_all-Reaped s xs done [] l empty ok =
      (s, refl, record { lists = l; freed = sym (append-nil s.freed) })
  visit_all-Reaped s xs done (q ∷ qs) l empty ok =
      let mz : Memory × Remains = (
        s.memory,
        record (s.remains q) { ckptlog = record (s.remains q).ckptlog { clks = clks } },
      ) in
      let s0 = with_remains s q mz in
      let e0 : logs_empty (s0.remains q) ≡ true = ground (arith, empty.0) in
      let out : q ∉ qs =
        ground
          (arith, has-append q done qs, (Distinct-middle done q qs l.zombies.ring.distinct.1).1) in
      let apart = λ (p : ℕ) (m : p ∈ qs). ne_of_mem p q qs m out in
      let before = λ (p : ℕ) (m : p ∈ qs).
        let e : s0.remains p ≡ s.remains p = ground (arith, apart p m) in e in
      let visited = reap_visit_empty s q empty.0 in
      elim (Bool-cases (is_dead ((s.remains q).live_status))) [
        | inr alive ↦
            let (s1, r, ok1, stays) = bury_alive fuel s0 q ok e0 (ground (arith, alive)) in
            let same = λ (p : ℕ) (m : p ∈ qs). stays.others p (apart p m) ∙ before p m in
            let rest : Lists s1.world xs ((done ++ q ∷ []) ++ qs) =
              rw (append_assoc done (q ∷ []) qs)
                (subst (λ w. Lists w xs (done ++ q ∷ qs)) (sym stays.world) l) in
            let (s', all, reaped) =
              visit_all-Reaped s1 xs (done ++ q ∷ []) qs rest (AllEmpty-agree s s1 qs same empty.1)
                ok1 in
            (
              s',
              visit_all-some clks fuel headers alloc s q qs (visited ∙ r) ∙ all,
              Reaped-alive same alive stays.freed reaped,
            )
        | inl dead ↦
            let (s1, r, ok1, leaves) = bury_dead fuel s0 q ok e0 (ground (arith, dead)) in
            let same = λ (p : ℕ) (m : p ∈ qs). leaves.others p (apart p m) ∙ before p m in
            let rest : Lists s1.world xs (done ++ qs) =
              subst (λ w. Lists w xs (done ++ qs)) (sym leaves.world)
                (del_unsafe-Lists s.world xs done q qs l) in
            let (s', all, reaped) =
              visit_all-Reaped s1 xs done qs rest (AllEmpty-agree s s1 qs same empty.1) ok1 in
            (
              s',
              visit_all-some clks fuel headers alloc s q qs (visited ∙ r) ∙ all,
              Reaped-dead same dead leaves.freed reaped,
            )
      ]

-- A pass over zombies whose logs are all empty, while no other thread waits for the list, ends: the
-- threads that nobody has given up stay zombies, in order, the others are freed and on no list, and the
-- live threads stay. The mutex over the log stores must be free at the start.
pub qp_reap_zombie_threads-Reaped :
    (clks : SysClks) (fuel headers : ℕ) (alloc : Alloc) (rounds : ℕ) (s : State) (xs zs : List ℕ)
    → Lists s.world xs zs
    → AllEmpty s zs
    → HeapOk fuel s.heap
    → length zs < rounds
    → (s' : State) × (qp_reap_zombie_threads nobody_waits clks fuel headers alloc rounds s
        ≡ some s')
      × Lists s'.world xs (kept s zs)
      × (s'.freed ≡ s.freed ++ gone s zs)
qp_reap_zombie_threads-Reaped clks fuel headers alloc rounds s xs zs l empty ok enough =
    let (s', all, reaped) = visit_all-Reaped clks fuel headers alloc s xs [] zs l empty ok in
    (
      s',
      qp_reap_zombie_threads-visit_all clks fuel headers alloc rounds s zs l.zombies.ring enough
          ∙ all,
      reaped.lists,
      reaped.freed,
    )
