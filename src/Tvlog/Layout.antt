-- ===== src/Tvlog/Layout.antt =====
-- lib/tvlog.c: where the objects of a write set lie, and a loop over them as a loop over a list.
use timestone.Base.{ℕ, zero, suc, ◌≡◌, ◌≢◌, refl, sym, ap, ◌∙◌, List, [], ◌∷◌, length, add_u64}
use mathlib.Core.Path.{subst}
use timestone.Memory.{Memory, Chs, get_entry_size}
use timestone.Tvlog.{Tvlog, tvlog_at}
use timestone.Tvlog.WriteSet.{ws_for_each, ws_iter_begin, on_memory}

-- the headers that a walk over `n` objects from position `cnt` comes to
abbrev pub visited : Tvlog → (ℕ → Chs) → ℕ → ℕ → List ℕ
visited tvlog chs zero cnt = []
visited tvlog chs (suc n) cnt =
    tvlog_at tvlog cnt
    ∷ visited tvlog chs n (add_u64 cnt (get_entry_size (chs (tvlog_at tvlog cnt))))

-- The objects `cs` lie one behind the other from position `cnt` to `stop`.
abbrev pub Laid : Tvlog → (ℕ → Chs) → ℕ → ℕ → List ℕ → Type 0
Laid tvlog chs cnt stop [] = cnt ≡ stop
Laid tvlog chs cnt stop (c ∷ cs) =
    (c ≡ tvlog_at tvlog cnt) × Laid tvlog chs (add_u64 cnt (get_entry_size (chs c))) stop cs

-- The objects between the header of the write set `ws` and the tail of the log are `cs`, and the write
-- set counts them.
pub record IsWriteSet (tvlog : Tvlog) (m : Memory) (ws : ℕ) (cs : List ℕ) : Type 0 where
  pub objects : Laid tvlog m.chs (ws_iter_begin m ws) tvlog.tail_cnt cs
  pub count : (m.ws ws).num_objs ≡ length cs

-- `c` is none of the copies.
abbrev pub NotIn : ℕ → List ℕ → Type 0
NotIn c [] = Unit {0}
NotIn c (d ∷ ds) = (c ≢ d) × NotIn c ds

abbrev pub each : (Memory → ℕ → Memory) → List ℕ → Memory → Memory
each body [] m = m
each body (c ∷ cs) m = each body cs (body m c)

Laid-sizes :
    (tvlog : Tvlog) (chs chs' : ℕ → Chs) (cnt stop : ℕ) (cs : List ℕ)
    → ((d : ℕ) → get_entry_size (chs' d) ≡ get_entry_size (chs d))
    → Laid tvlog chs cnt stop cs
    → Laid tvlog chs' cnt stop cs
Laid-sizes tvlog chs chs' cnt stop [] same h = h
Laid-sizes tvlog chs chs' cnt stop (c ∷ cs) same h = (
  h.0,
  subst (λ (k : ℕ). Laid tvlog chs' (add_u64 cnt k) stop cs) (sym (same c))
      (Laid-sizes tvlog chs chs' (add_u64 cnt (get_entry_size (chs c))) stop cs same h.1),
)

-- A loop whose body keeps the sizes goes over the objects.
pub ws_for_each-each :
    (tvlog : Tvlog) (body : Memory → ℕ → Memory)
    → ((m : Memory) (c d : ℕ) → get_entry_size ((body m c).chs d) ≡ get_entry_size (m.chs d))
    → (m : Memory) (cnt stop : ℕ) (cs : List ℕ) → Laid tvlog m.chs cnt stop cs
    → (ws_for_each tvlog (on_memory body) (length cs) (m, tt) cnt).0 ≡ each body cs m
unfolding ws_for_each
ws_for_each-each tvlog body same m cnt stop [] h = refl
ws_for_each-each tvlog body same m cnt stop (c ∷ cs) h =
    let x = tvlog_at tvlog cnt in
    let m1 = body m x in
    let here =
      subst (λ (y : ℕ). Laid tvlog m.chs (add_u64 cnt (get_entry_size (m.chs y))) stop cs) h.0
        h.1 in
    let there =
      subst (λ (k : ℕ). Laid tvlog m1.chs (add_u64 cnt k) stop cs) (sym (same m x x))
        (Laid-sizes tvlog m.chs m1.chs (add_u64 cnt (get_entry_size (m.chs x))) stop cs (same m x)
          here) in
    ws_for_each-each tvlog body same m1 (add_u64 cnt (get_entry_size (m1.chs x))) stop cs there
    ∙ ap (λ (y : ℕ). each body cs (body m y)) (sym h.0)
