-- ===== src/Reloader/LayingOut.antt =====
-- The layout of the runtime directory (ensureRuntimeLayout of src/reloader/reloader.service.ts).
use lyttle_nginx.Prelude.{
  ℕ, ◌≡◌, refl, Bool, true, false, ◌&&◌, ◌||◌, Option, none, some, is_some, String, Bool-cases, inl,
  inr, arith,
}
use lyttle_nginx.Prelude.Maps.{insert}
use lyttle_nginx.Reloader.{
  bootstrap, Runtime, Bootstrapping, built, broken, Layout, link_current, link_good, after_current,
  ensure_runtime_layout,
}

abbrev is_built : Bootstrapping → Bool
is_built built = true
is_built (broken left) = false

abbrev succeeds : Layout → Bool
succeeds layout =
    layout.directories_made
    && is_built layout.bootstrapping
    && layout.current_linked
    && layout.good_linked

abbrev both_linked : Runtime → Bool
both_linked rt = is_some rt.current && is_some rt.last_known_good

-- Both links are there, or every step of the layout succeeds.
abbrev pub lays_out : Layout → Runtime → Bool
lays_out layout rt = both_linked rt || succeeds layout

-- A layout in which nothing throws.
abbrev pub with_current : ℕ → Option String → Runtime → Runtime
with_current now none rt = record rt {
  releases =
      insert "bootstrap" (record { status = bootstrap; previous = none; modified_at = now })
        rt.releases;
  current = some "bootstrap";
}
with_current now (some name) rt = rt

abbrev pub with_good : Option String → Runtime → Runtime
with_good none rt = record rt { last_known_good = rt.current }
with_good (some name) rt = rt

abbrev pub laid_out : ℕ → Runtime → Runtime
laid_out now rt =
    let linked = with_current now rt.current rt in with_good linked.last_known_good linked

link_current_succeeds :
    (now : ℕ) (layout : Layout) (b : Bootstrapping) (current : Option String) (rt : Runtime)
    → layout.bootstrapping ≡ b
    → is_built b ≡ true
    → layout.current_linked ≡ true
    → link_current now layout current rt ≡ (with_current now current rt, true)
link_current_succeeds now layout b (some name) rt same made linked = refl
link_current_succeeds now layout built none rt same made linked = rw (same, linked) refl
link_current_succeeds now layout (broken left) none rt same made linked = cc

link_good_succeeds :
    (linked : Bool) (last_good : Option String) (rt : Runtime)
    → linked ≡ true
    → link_good linked last_good rt ≡ (with_good last_good rt, true)
link_good_succeeds linked none rt h = rw h refl
link_good_succeeds linked (some name) rt h = refl

links_stay :
    (now : ℕ) (layout : Layout) (current last_good : Option String) (rt : Runtime)
    → rt.last_known_good ≡ last_good
    → (is_some current && is_some last_good) ≡ true
    → ((after_current layout (link_current now layout current rt)).0 ≡ rt)
      × (with_good
            (Runtime.last_known_good (with_current now current rt))
            (with_current now current rt)
          ≡ rt)
links_stay now layout (some c) (some g) rt same h = rw same (refl, refl)
links_stay now layout none last_good rt same h = cc
links_stay now layout (some c) none rt same h = cc

-- Where both links are there or nothing fails, the layout is that in which nothing throws.
pub ensure_runtime_layout_lem :
    (now : ℕ) (layout : Layout) (rt : Runtime)
    → lays_out layout rt ≡ true
    → (ensure_runtime_layout now layout rt).0 ≡ laid_out now rt
unfolding ensure_runtime_layout
ensure_runtime_layout_lem now layout rt h = elim (Bool-cases (both_linked rt)) [
  | inl linked ↦
      let (kept, same) = links_stay now layout rt.current rt.last_known_good rt refl linked in
      elim (Bool-cases layout.directories_made) [
        | inl made ↦ rw (made, kept, same) refl
        | inr unmade ↦ rw (unmade, same) refl
      ]
  | inr unlinked ↦
      let made : layout.directories_made ≡ true = ground (arith, h, unlinked) in
      let bootstrapped : is_built layout.bootstrapping ≡ true = ground (arith, h, unlinked) in
      let current : layout.current_linked ≡ true = ground (arith, h, unlinked) in
      let last_good : layout.good_linked ≡ true = ground (arith, h, unlinked) in
      let first = with_current now rt.current rt in
      rw
        (
          made,
          link_current_succeeds now layout layout.bootstrapping rt.current rt refl bootstrapped
              current,
          link_good_succeeds layout.good_linked first.last_known_good first last_good,
        )
        refl
]
