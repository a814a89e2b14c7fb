-- ===== src/Tvlog/Borderline.antt =====
-- lib/tvlog.c: which copy of an object a checkpoint takes: the test that the reclamation makes of a
-- copy, and the walk that looks the copy up.
pub mod Agree
use timestone.Base.{
  ℕ, zero, suc, ◌<◌, ◌≡◌, ◌≢◌, ◌⊎◌, ◌↔◌, inl, inr, refl, sym, ap, ◌∙◌, Bool, true, false, ◌&&◌,
  Option, none, some, List, [], ◌∷◌, ◌++◌, length, ◌==◌, if◌then◌else◌, arith, Bool-cases,
}
use timestone.Config.{max_version}
use timestone.Clock.{lt_clock, gte_clock}
use timestone.Clock.Order.{lt_clock_before}
use timestone.Memory.{Memory}
use timestone.Version.Snapshot.{Versions}

unfoldable pub is_at_borderline : Memory → ℕ → ℕ → ℕ → Bool
is_at_borderline m c ckpt_s_clk last_ckpt_clk =
    let wrt_clk = (m.chs c).wrt_clk in
    let wrt_clk_prev = (m.chs c).wrt_clk_prev in
    if wrt_clk_prev == max_version
    then lt_clock wrt_clk ckpt_s_clk
    else gte_clock wrt_clk_prev ckpt_s_clk
      && lt_clock wrt_clk ckpt_s_clk
      && gte_clock wrt_clk last_ckpt_clk

-- The loop of `get_ckpt_chs`, on fuel: `none` is a loop that would go on, `some none` is NULL.
unfoldable pub ckpt_walk : ℕ → Memory → ℕ → ℕ → ℕ → Option (Option ℕ)
ckpt_walk zero m ckpt_s_clk last_ckpt_clk c = none
ckpt_walk (suc fuel) m ckpt_s_clk last_ckpt_clk c =
    let older : Option (Option ℕ) = elim ((m.chs c).p_copy) [
      | none ↦ some none
      | some q ↦ ckpt_walk fuel m ckpt_s_clk last_ckpt_clk q
    ] in
    if (m.chs c).wrt_clk == max_version
    then older
    else if lt_clock (m.chs c).wrt_clk ckpt_s_clk
    then some (some c)
    else if lt_clock (m.chs c).wrt_clk_next last_ckpt_clk
    then some none
    else older

unfoldable pub get_ckpt_chs : ℕ → Memory → ℕ → ℕ → ℕ → Option (Option ℕ)
unfolding ckpt_walk
get_ckpt_chs fuel m c ckpt_s_clk last_ckpt_clk = elim ((m.vhdr (m.chs c).p_act_vhdr).p_copy) [
  | none ↦ some none
  | some q ↦ ckpt_walk fuel m ckpt_s_clk last_ckpt_clk q
]
