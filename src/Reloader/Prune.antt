-- ===== src/Reloader/Prune.antt =====
-- Which releases pruneOldReleases removes (src/reloader/reloader.service.ts).
use lyttle_nginx.Prelude.{
  ℕ, zero, suc, ◌-◌, ◌≡◌, refl, subst, sym, ap, ◌∙◌, String, Bool, true, false, not, ◌&&◌, ◌||◌,
  Option, List, [], ◌∷◌, keep, length, leb, str_eq, eq_iff, All, Bool-cases, inl, inr, arith,
}
use lyttle_nginx.Prelude.Maps.{get, get-delete}
use lyttle_nginx.Reloader.{
  Release, Runtime, is_protected, is_candidate, place, newest_first, skip, stale_releases,
  remove_all, prune_old_releases,
}

length-place :
    (r : String × Release) (rs : List (String × Release)) → length (place r rs) ≡ suc (length rs)
unfolding place
length-place r [] = refl
length-place r (s ∷ rs) = elim (Bool-cases (leb s.1.modified_at r.1.modified_at)) [
  | inl newer ↦ rw newer refl
  | inr older ↦ rw (older, length-place r rs) refl
]

length-newest_first : (rs : List (String × Release)) → length (newest_first rs) ≡ length rs
unfolding newest_first
length-newest_first [] = refl
length-newest_first (r ∷ rs) = rw (length-place r (newest_first rs), length-newest_first rs) refl

length-skip : (n : ℕ) (rs : List (String × Release)) → length (skip n rs) ≡ length rs - n
length-skip zero rs = omega arith
length-skip (suc n) [] = omega arith
length-skip (suc n) (r ∷ rs) = omega (arith, length-skip n rs)

module _ (P : String × Release → Type 0) where
  All-place :
      (r : String × Release) (rs : List (String × Release)) → P r → All P rs → All P (place r rs)
  unfolding place
  All-place r [] p all_ = (p, tt)
  All-place r (s ∷ rs) p (q, all_) = elim (Bool-cases (leb s.1.modified_at r.1.modified_at)) [
    | inl newer ↦ rw newer (p, (q, all_))
    | inr older ↦ rw older (q, All-place r rs p all_)
  ]

  All-newest_first : (rs : List (String × Release)) → All P rs → All P (newest_first rs)
  unfolding newest_first
  All-newest_first [] all_ = tt
  All-newest_first (r ∷ rs) (p, all_) = All-place r (newest_first rs) p (All-newest_first rs all_)

  All-skip : (n : ℕ) (rs : List (String × Release)) → All P rs → All P (skip n rs)
  All-skip zero rs all_ = all_
  All-skip (suc n) [] all_ = tt
  All-skip (suc n) (r ∷ rs) (p, all_) = All-skip n rs all_

-- Whatever is kept by a test passes it.
All-keep :
    (test : String × Release → Bool) (rs : List (String × Release))
    → All (λ r. test r ≡ true) (keep test rs)
All-keep test [] = tt
All-keep test (r ∷ rs) = elim (Bool-cases (test r)) [
  | inl passed ↦ rw passed (passed, All-keep test rs)
  | inr failed ↦ rw failed (All-keep test rs)
]

stale-All :
    (retained : List (Option String)) (releases : List (String × Release))
    → All (λ r. is_candidate retained r ≡ true) (stale_releases retained releases)
stale-All retained releases =
    All-skip (λ r. is_candidate retained r ≡ true) 5
      (newest_first (keep (is_candidate retained) releases))
      (All-newest_first (λ r. is_candidate retained r ≡ true)
        (keep (is_candidate retained) releases) (All-keep (is_candidate retained) releases))

abbrev pub must_stay : List (Option String) → String → Bool
must_stay retained name = str_eq name "bootstrap" || is_protected retained name

candidate_other :
    (retained : List (Option String)) (name n : String)
    → must_stay retained name ≡ true
    → (not (str_eq n "bootstrap") && not (is_protected retained n)) ≡ true
    → str_eq n name ≡ false
candidate_other retained name n stays candidate = elim (Bool-cases (str_eq n name)) [
  | inl same ↦
      let stays_too : must_stay retained n ≡ true =
        subst (λ m. must_stay retained m ≡ true) (sym ((eq_iff n name).0 same)) stays in
      ground arith
  | inr other ↦ other
]

get-remove_all :
    (retained : List (Option String)) (name : String) (stale releases : List (String × Release))
    → must_stay retained name ≡ true
    → All (λ r. is_candidate retained r ≡ true) stale
    → get name (remove_all stale releases) ≡ get name releases
get-remove_all retained name [] releases stays all_ = refl
get-remove_all retained name (r ∷ stale) releases stays (candidate, all_) =
    let other : str_eq r.0 name ≡ false = candidate_other retained name r.0 stays candidate in
    rw (get-delete r.0 name (remove_all stale releases), other)
      (get-remove_all retained name stale releases stays all_)

-- Pruning takes no release that is in use: the bootstrap release, the last known good one and those
-- that the caller retains are afterwards exactly as they were; and as many of the others are stale as
-- there are beyond five.
pub prune_keeps_used :
    (retained : List (Option String)) (rt : Runtime) (name : String)
    → must_stay (rt.last_known_good ∷ retained) name ≡ true
    → (get name (Runtime.releases (prune_old_releases retained rt)) ≡ get name rt.releases)
      × (length (stale_releases (rt.last_known_good ∷ retained) rt.releases)
          ≡ length (keep (is_candidate (rt.last_known_good ∷ retained)) rt.releases) - 5)
unfolding prune_old_releases
prune_keeps_used retained rt name stays =
    let used = rt.last_known_good ∷ retained in
    let candidates = keep (is_candidate used) rt.releases in
    (
      get-remove_all used name (stale_releases used rt.releases) rt.releases stays
          (stale-All used rt.releases),
      length-skip 5 (newest_first candidates) ∙ ap (λ n. n - 5) (length-newest_first candidates),
    )
