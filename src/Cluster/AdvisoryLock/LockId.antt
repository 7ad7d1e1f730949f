-- ===== src/Cluster/AdvisoryLock/LockId.antt =====
-- The lock id of a name is the polynomial hash of its code units at 31, read as a signed 32-bit
-- integer and made positive (stringToLockId of distributed-lock.service.ts).
use lyttle_nginx.Prelude.{
  ℕ, ◌+◌, ◌-◌, ◌*◌, ◌%◌, ◌^◌, ◌≤◌, ◌≡◌, refl, [], ◌∷◌, arith, ltb, if◌then◌else◌,
}
use lyttle_nginx.Prelude.Texts.{Text}
use lyttle_nginx.Cluster.AdvisoryLock.{hash_step, hash_from, abs_int32, string_to_lock_id}

-- The hash over unbounded integers: 31 ^ (n - 1) * c₁ + … + cₙ.
abbrev pub polynomial : ℕ → Text → ℕ
polynomial h [] = h
polynomial h (c ∷ s) = polynomial (h * 31 + c) s

hash_step_lem : (h k c : ℕ) → h ≡ k % 2 ^ 32 → hash_step h c ≡ (k * 31 + c) % 2 ^ 32
unfolding hash_step
hash_step_lem h k c e = omega arith

hash_from-polynomial :
    (s : Text) (h k : ℕ) → h ≡ k % 2 ^ 32 → hash_from h s ≡ polynomial k s % 2 ^ 32
unfolding hash_from
hash_from-polynomial [] h k e = e
hash_from-polynomial (c ∷ s) h k e =
    hash_from-polynomial s (hash_step h c) (k * 31 + c) (hash_step_lem h k c e)

-- The id of a name is the absolute value of the signed 32-bit integer congruent to its polynomial
-- hash at 31, so it is at most 2 ^ 31 and never negative.
pub string_to_lock_id-polynomial :
    (s : Text)
    → let p = polynomial 0 s % 2 ^ 32 in
      (string_to_lock_id s ≡ (if ltb p (2 ^ 31) then p else 2 ^ 32 - p))
      × (string_to_lock_id s ≤ 2 ^ 31)
unfolding string_to_lock_id abs_int32
string_to_lock_id-polynomial s = ground (arith, hash_from-polynomial s 0 0 (refl))
