-- ===== src/Tvlog/Abort.antt =====
-- An abort unlocks every object of the write set, and gives the log's space back.
use timestone.Base.{
  ℕ, ◌≡◌, ◌≢◌, ◌⊎◌, inl, inr, refl, sym, ap, ◌∙◌, Bool, true, false, Option, none, some, List, [],
  ◌∷◌, arith, Bool-cases, ◌==◌,
}
use timestone.Config.{ObjType, copy, free}
use timestone.PtrSet.{PtrSet, ptrset_reset}
use timestone.Memory.{Memory, Chs, get_entry_size}
use timestone.Tvlog.{Tvlog}
use timestone.Tvlog.WriteSet.{
  ws_for_each, ws_iter_begin, on_memory, points_to, unlock, unlock_abort, ws_unlock_abort,
  tvlog_abort,
}
use timestone.Tvlog.Layout.{IsWriteSet, NotIn, each, ws_for_each-each}

-- a header of an object that was locked, copied or to be freed
abbrev pub is_object : ObjType → Bool
is_object copy = true
is_object free = true
is_object _ = false

abbrev pub lock_of : Memory → ℕ → Option ℕ
lock_of m v = (m.vhdr v).p_lock

-- The lock of each object is held by the object's own copy, unless it is free.
abbrev pub AllHeld : (ℕ → Chs) → Memory → List ℕ → Type 0
AllHeld chs m [] = Unit {0}
AllHeld chs m (c ∷ cs) =
    (is_object (chs c).type ≡ true
      → (lock_of m (chs c).p_act_vhdr ≡ some c) ⊎ (lock_of m (chs c).p_act_vhdr ≡ none))
    × AllHeld chs m cs

-- In `m` no object of the headers is locked.
abbrev pub AllUnlocked : (ℕ → Chs) → Memory → List ℕ → Type 0
AllUnlocked chs m [] = Unit {0}
AllUnlocked chs m (c ∷ cs) =
    (is_object (chs c).type ≡ true → lock_of m (chs c).p_act_vhdr ≡ none) × AllUnlocked chs m cs

-- Every lock that another copy holds stays.
abbrev pub Spared : Memory → Memory → List ℕ → Type 0
Spared m m' cs = (v p : ℕ) → NotIn p cs → lock_of m v ≡ some p → lock_of m' v ≡ some p

pub unlock_chs : (m : Memory) (c : ℕ) → (unlock m c).chs ≡ m.chs
unlock_chs m c = elim (Bool-cases (points_to (lock_of m (m.chs c).p_act_vhdr) c)) [
  | inl e ↦ rw e refl
  | inr e ↦ rw e refl
]

unlock_ws : (m : Memory) (c : ℕ) → (unlock m c).ws ≡ m.ws
unlock_ws m c = elim (Bool-cases (points_to (lock_of m (m.chs c).p_act_vhdr) c)) [
  | inl e ↦ rw e refl
  | inr e ↦ rw e refl
]

points_to-some : (p : Option ℕ) (c : ℕ) → points_to p c ≡ true → p ≡ some c
points_to-some none c e = cc
points_to-some (some q) c e = ground (arith, e)

-- A lock is left as it was, or free.
pub unlock_keeps :
    (m : Memory) (c v : ℕ)
    → (lock_of (unlock m c) v ≡ lock_of m v) ⊎ (lock_of (unlock m c) v ≡ none)
unlock_keeps m c v = elim (Bool-cases (points_to (lock_of m (m.chs c).p_act_vhdr) c)) [
  | inl e ↦ elim (Bool-cases (v == (m.chs c).p_act_vhdr)) [
    | inl at ↦ inr (rw e (ground (arith, at)))
    | inr away ↦ inl (rw e (ground (arith, away)))
  ]
  | inr e ↦ inl (rw e refl)
]

pub unlock_frees :
    (m : Memory) (c : ℕ)
    → (lock_of m (m.chs c).p_act_vhdr ≡ some c) ⊎ (lock_of m (m.chs c).p_act_vhdr ≡ none)
    → lock_of (unlock m c) (m.chs c).p_act_vhdr ≡ none
unlock_frees m c (inl held) =
    let e : points_to (lock_of m (m.chs c).p_act_vhdr) c ≡ true = rw held (ground arith) in
    rw e (ground arith)
unlock_frees m c (inr free_already) = elim (unlock_keeps m c (m.chs c).p_act_vhdr) [
  | inl same ↦ same ∙ free_already
  | inr freed ↦ freed
]

pub unlock_spares :
    (m : Memory) (c v p : ℕ) → p ≢ c → lock_of m v ≡ some p → lock_of (unlock m c) v ≡ some p
unlock_spares m c v p other h = elim (Bool-cases (points_to (lock_of m (m.chs c).p_act_vhdr) c)) [
  | inl e ↦
      let mine = points_to-some (lock_of m (m.chs c).p_act_vhdr) c e in
      elim (Bool-cases (v == (m.chs c).p_act_vhdr)) [
        | inl at ↦
            let there : v ≡ (m.chs c).p_act_vhdr = ground (arith, at) in
            let both : some p ≡ some c = sym h ∙ ap (lock_of m) there ∙ mine in
            absurd (other (ground (arith, both)))
        | inr away ↦ rw e (ground (arith, away, h))
      ]
  | inr e ↦ rw e h
]

abort_object :
    (m : Memory) (c : ℕ) → is_object (m.chs c).type ≡ true → unlock_abort m c ≡ unlock m c
unfolding unlock_abort
abort_object m c e = ground (arith, e)

abort_other : (m : Memory) (c : ℕ) → is_object (m.chs c).type ≡ false → unlock_abort m c ≡ m
unfolding unlock_abort
abort_other m c e = ground (arith, e)

-- What an abort does with one object; `frees` is about the object's own lock.
record Aborted (m m' : Memory) (c : ℕ) : Type 0 where
  chs : m'.chs ≡ m.chs
  ws : m'.ws ≡ m.ws
  keeps : (v : ℕ) → (lock_of m' v ≡ lock_of m v) ⊎ (lock_of m' v ≡ none)
  spares : (v p : ℕ) → p ≢ c → lock_of m v ≡ some p → lock_of m' v ≡ some p
  frees :
      is_object (m.chs c).type ≡ true
      → (lock_of m (m.chs c).p_act_vhdr ≡ some c) ⊎ (lock_of m (m.chs c).p_act_vhdr ≡ none)
      → lock_of m' (m.chs c).p_act_vhdr ≡ none

unlock_abort-Aborted : (m : Memory) (c : ℕ) → Aborted m (unlock_abort m c) c
unlock_abort-Aborted m c = elim (Bool-cases (is_object (m.chs c).type)) [
  | inl e ↦ rw (abort_object m c e) (record {
    chs = unlock_chs m c;
    ws = unlock_ws m c;
    keeps = unlock_keeps m c;
    spares = unlock_spares m c;
    frees = λ is held. unlock_frees m c held;
  })
  | inr e ↦ rw (abort_other m c e) (record {
    chs = refl;
    ws = refl;
    keeps = λ v. inl refl;
    spares = λ v p other h. h;
    frees = λ is held. absurd (let bad = sym is ∙ e in cc);
  })
]

pub keeps_none :
    (m m' : Memory) (v : ℕ)
    → (lock_of m' v ≡ lock_of m v) ⊎ (lock_of m' v ≡ none)
    → lock_of m v ≡ none
    → lock_of m' v ≡ none
keeps_none m m' v (inl same) h = same ∙ h
keeps_none m m' v (inr freed) h = freed

-- what the loop over the objects leaves
record AllAborted (chs : ℕ → Chs) (m m' : Memory) (cs : List ℕ) : Type 0 where
  headers : m'.chs ≡ m.chs
  sets : m'.ws ≡ m.ws
  keeps : (v : ℕ) → lock_of m v ≡ none → lock_of m' v ≡ none
  spared : Spared m m' cs
  unlocked : AllUnlocked chs m' cs

AllHeld-keeps :
    (m m' : Memory) (chs : ℕ → Chs) (cs : List ℕ)
    → ((v : ℕ) → (lock_of m' v ≡ lock_of m v) ⊎ (lock_of m' v ≡ none))
    → AllHeld chs m cs
    → AllHeld chs m' cs
AllHeld-keeps m m' chs [] k h = tt
AllHeld-keeps m m' chs (c ∷ cs) k h = (
  λ e. elim (k (chs c).p_act_vhdr) [
    | inl same ↦ elim (h.0 e) [
      | inl held ↦ inl (same ∙ held)
      | inr free_already ↦ inr (same ∙ free_already)
    ]
    | inr freed ↦ inr freed
  ],
  AllHeld-keeps m m' chs cs k h.1,
)

each-AllAborted :
    (m : Memory) (chs : ℕ → Chs) (cs : List ℕ)
    → m.chs ≡ chs
    → AllHeld chs m cs
    → AllAborted chs m (each unlock_abort cs m) cs
each-AllAborted m chs [] same held = record {
  headers = refl;
  sets = refl;
  keeps = λ v h. h;
  spared = λ v p out h. h;
  unlocked = tt;
}
each-AllAborted m chs (c ∷ cs) same held =
    let m1 = unlock_abort m c in
    let one = unlock_abort-Aborted m c in
    let at : m.chs c ≡ chs c = ap (λ f. f c) same in
    let rest =
      each-AllAborted m1 chs cs (one.chs ∙ same) (AllHeld-keeps m m1 chs cs one.keeps held.1) in
    let frees = rw at at one.frees in
    record {
      headers = rest.headers ∙ one.chs;
      sets = rest.sets ∙ one.ws;
      keeps = λ v h. rest.keeps v (keeps_none m m1 v (one.keeps v) h);
      spared = λ v p out h. rest.spared v p out.1 (one.spares v p out.0 h);
      unlocked = (λ e. rest.keeps (chs c).p_act_vhdr (frees e (held.0 e)), rest.unlocked);
    }

-- An abort of a write set `ws` of the objects `cs`, those between the write set's header and the tail of
-- the log, whose locks no other copy holds: none of the objects is locked any more, every lock that
-- another copy holds stays, no header and no write set is changed, the tail is back where the write
-- set began, and no write set and no pointer to free is left.
pub tvlog_abort-AllUnlocked :
    (m : Memory) (tvlog : Tvlog) (free_set : PtrSet) (ws : ℕ) (cs : List ℕ)
    → IsWriteSet tvlog m ws cs
    → AllHeld m.chs m cs
    → AllUnlocked m.chs (tvlog_abort m tvlog free_set ws).0 cs
      × Spared m (tvlog_abort m tvlog free_set ws).0 cs
      × ((tvlog_abort m tvlog free_set ws).0.chs ≡ m.chs)
      × ((tvlog_abort m tvlog free_set ws).0.ws ≡ m.ws)
      × ((tvlog_abort m tvlog free_set ws).1.tail_cnt ≡ (m.ws ws).start_tail_cnt)
      × ((tvlog_abort m tvlog free_set ws).1.cur_wrt_set ≡ none)
      × ((tvlog_abort m tvlog free_set ws).2.num_ptrs ≡ 0)
unfolding tvlog_abort ws_unlock_abort ptrset_reset
tvlog_abort-AllUnlocked m tvlog free_set ws cs set held =
    let sizes = λ (m : Memory) (c d : ℕ).
      ap (λ (f : ℕ → Chs). get_entry_size (f d)) (unlock_abort-Aborted m c).chs in
    let loop : (ws_for_each tvlog (on_memory unlock_abort) (m.ws ws).num_objs (m, tt)
          (ws_iter_begin m ws)).0
        ≡ each unlock_abort cs m =
      ap (λ (n : ℕ). (ws_for_each tvlog (on_memory unlock_abort) n (m, tt) (ws_iter_begin m ws)).0)
        set.count
      ∙ ws_for_each-each tvlog unlock_abort sizes m (ws_iter_begin m ws) tvlog.tail_cnt cs
          set.objects in
    let all = each-AllAborted m m.chs cs refl held in
    rw loop (
      all.unlocked,
      all.spared,
      all.headers,
      all.sets,
      ap (λ f. (f ws).start_tail_cnt) all.sets,
      refl,
      refl,
    )
