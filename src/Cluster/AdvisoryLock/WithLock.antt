-- ===== src/Cluster/AdvisoryLock/WithLock.antt =====
-- What withLock of distributed-lock.service.ts asks of the database, in order.
use lyttle_nginx.Prelude.{
  ℕ, zero, suc, ◌≡◌, refl, String, Bool, true, false, Option, none, some, List, [], ◌∷◌, ◌++◌,
  arith, append_assoc, append-nil, eq_iff, sym, ◌∙◌,
}
use lyttle_nginx.Prelude.Maps
use lyttle_nginx.Prelude.Maps.{get-insert, get-delete}
use lyttle_nginx.Prelude.Texts.{codes}
use lyttle_nginx.Cluster.AdvisoryLock.{
  string_to_lock_id, Event, try_lock, unlock, run, HeldLock, Locks, TryReply, granted, busy, failed,
  release_lock, LockResult, value, threw, null, with_lock,
}

-- The events of a call: tries until one is granted, at most `rounds`, and then the run between the
-- lock and its unlock.
abbrev pub expected : ℕ → ℕ → List TryReply → List Event
expected id zero replies = []
expected id (suc rounds) [] = try_lock id ∷ expected id rounds []
expected id (suc rounds) (granted ∷ replies) = try_lock id ∷ run ∷ unlock id ∷ []
expected id (suc rounds) (busy ∷ replies) = try_lock id ∷ expected id rounds replies
expected id (suc rounds) (failed ∷ replies) = try_lock id ∷ expected id rounds replies

-- Whether a try is granted within the rounds.
abbrev pub wins : ℕ → List TryReply → Bool
wins zero replies = false
wins (suc rounds) [] = wins rounds []
wins (suc rounds) (granted ∷ replies) = true
wins (suc rounds) (busy ∷ replies) = wins rounds replies
wins (suc rounds) (failed ∷ replies) = wins rounds replies

release_log :
    (name : String) (ok : Bool) (s : Locks) (info : HeldLock)
    → Maps.get name s.held_locks ≡ some info
    → (release_lock name ok s).log ≡ s.log ++ unlock info.lock_id ∷ []
unfolding release_lock
release_log name ok s info e = rw (e, release_lock)

abbrev lock_of : String → ℕ → HeldLock
lock_of name now = record { lock_id = string_to_lock_id (codes name); acquired_at = now }

held_after :
    (name : String) (now : ℕ) (s : Locks)
    → Maps.get name (Maps.insert name (lock_of name now) s.held_locks) ≡ some (lock_of name now)
held_after name now s =
    rw (get-insert name name (lock_of name now) s.held_locks) (ground (arith, eq_iff name name))

-- The state after a try that was not granted.
abbrev tried : String → Locks → Locks
tried name s = record s { log = s.log ++ try_lock (string_to_lock_id (codes name)) ∷ [] }

module _ {ℓ} {A : Type ℓ} (name : String) (fn : Option A) (unlock_ok : Bool) (now : ℕ) where
  abbrev pub outcome : Bool → LockResult A
  outcome false = null
  outcome true = elim fn [ none ↦ threw | some a ↦ value a ]

  -- withLock tries at most `rounds` times, and stops at the first try that is granted; only then
  -- does it run the function, once, and it unlocks after the run, whether the function returned
  -- or threw. It returns null exactly if no try was granted.
  pub with_lock-expected :
      (rounds : ℕ) (replies : List TryReply) (s : Locks)
      → let result = with_lock name fn unlock_ok now rounds replies s in
        (result.1.log ≡ s.log ++ expected (string_to_lock_id (codes name)) rounds replies)
        × (result.0 ≡ outcome (wins rounds replies))
  unfolding with_lock
  with_lock-expected zero replies s = (sym (append-nil _), refl)
  with_lock-expected (suc rounds) [] s =
      let (log, result) = with_lock-expected rounds [] (tried name s) in
      (log ∙ append_assoc s.log _ _, result)
  with_lock-expected (suc rounds) (granted ∷ replies) s = (
    release_log name unlock_ok
          (record {
            held_locks = Maps.insert name (lock_of name now) s.held_locks;
            log = (s.log ++ try_lock (string_to_lock_id (codes name)) ∷ []) ++ run ∷ [];
          })
          (lock_of name now) (held_after name now s)
        ∙ simp append_assoc,
    refl,
  )
  with_lock-expected (suc rounds) (busy ∷ replies) s =
      let (log, result) = with_lock-expected rounds replies (tried name s) in
      (log ∙ append_assoc s.log _ _, result)
  with_lock-expected (suc rounds) (failed ∷ replies) s =
      let (log, result) = with_lock-expected rounds replies (tried name s) in
      (log ∙ append_assoc s.log _ _, result)
