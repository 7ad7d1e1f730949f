-- ===== src/Cluster/AdvisoryLock.antt =====
-- The advisory locks of DistributedLockService (src/distributed-lock/distributed-lock.service.ts):
-- the lock id of a name, tryAcquireLock, releaseLock and withLock. PostgreSQL's answers are given;
-- the log keeps what is asked of it and when the protected function runs.
pub mod LockId
pub mod WithLock
use lyttle_nginx.Prelude.{
  ℕ, zero, suc, ◌+◌, ◌-◌, ◌*◌, ◌%◌, ◌^◌, String, Bool, true, false, Option, none, some, List, [],
  ◌∷◌, ◌++◌, ltb, if◌then◌else◌,
}
use lyttle_nginx.Prelude.Maps
use lyttle_nginx.Prelude.Texts.{Text, codes}

-- `hash` is the bit pattern of a 32-bit integer. `(hash << 5) - hash + char` is exact as a double,
-- and `hash & hash` reduces it; 2 ^ 32 is added where the difference may be negative.
unfoldable pub hash_step : ℕ → ℕ → ℕ
hash_step hash char = (hash * 32 % 2 ^ 32 + 2 ^ 32 - hash + char) % 2 ^ 32

unfoldable pub hash_from : ℕ → Text → ℕ
unfolding hash_step
hash_from hash [] = hash
hash_from hash (char ∷ str) = hash_from (hash_step hash char) str

-- Math.abs of the integer that a bit pattern stands for.
unfoldable pub abs_int32 : ℕ → ℕ
abs_int32 hash = if ltb hash (2 ^ 31) then hash else 2 ^ 32 - hash

unfoldable pub string_to_lock_id : Text → ℕ
unfolding hash_from abs_int32
string_to_lock_id str = abs_int32 (hash_from 0 str)

-- What the service asks of the database, and the runs of the protected function.
pub data Event : Type 0 where
  try_lock : ℕ → Event
  unlock : ℕ → Event
  run : Event

pub record HeldLock : Type 0 where
  pub lock_id : ℕ
  pub acquired_at : ℕ

pub record Locks : Type 0 where
  pub held_locks : List (String × HeldLock)
  pub log : List Event

-- The answer to pg_try_advisory_lock; `failed` is an exception.
pub data TryReply : Type 0 where
  granted busy failed : TryReply

unfoldable pub try_acquire_lock : String → TryReply → ℕ → Locks → Bool × Locks
unfolding string_to_lock_id
try_acquire_lock name granted now s =
    let id = string_to_lock_id (codes name) in
    (
      true,
      record {
        held_locks = Maps.insert name (record { lock_id = id; acquired_at = now }) s.held_locks;
        log = s.log ++ try_lock id ∷ [];
      },
    )
try_acquire_lock name busy now s =
    (false, record s { log = s.log ++ try_lock (string_to_lock_id (codes name)) ∷ [] })
try_acquire_lock name failed now s =
    (false, record s { log = s.log ++ try_lock (string_to_lock_id (codes name)) ∷ [] })

-- `ok` says that pg_advisory_unlock did not throw.
unfoldable pub release_lock : String → Bool → Locks → Locks
release_lock name ok s = elim (Maps.get name s.held_locks) [
  | none ↦ s
  | some info ↦ record {
    held_locks = if ok then Maps.delete name s.held_locks else s.held_locks;
    log = s.log ++ unlock info.lock_id ∷ [];
  }
]

-- What withLock gives: the function's value, its exception, or null. A function that itself answers
-- null, which the source does not tell from a lock that was not had, is kept apart.
pub data LockResult {ℓ} (A : Type ℓ) : Type ℓ where
  value : A → LockResult A
  threw : LockResult A
  null : LockResult A

-- `fn` is what the function returns when it runs, `none` for an exception.
module _ {ℓ} {A : Type ℓ} (name : String) (fn : Option A) (unlock_ok : Bool) (now : ℕ) where
  unfoldable pub run_locked : Locks → LockResult A × Locks
  unfolding release_lock
  run_locked s =
      let after = release_lock name unlock_ok (record s { log = s.log ++ run ∷ [] }) in
      (elim fn [ none ↦ threw | some a ↦ value a ], after)

  -- The loop: `rounds` retries are left, and each try has its answer; none is an exception.
  unfoldable pub with_lock : ℕ → List TryReply → Locks → LockResult A × Locks
  unfolding run_locked try_acquire_lock
  with_lock zero replies s = (null, s)
  with_lock (suc rounds) [] s =
      let (acquired, s') = try_acquire_lock name failed now s in
      let again = with_lock rounds [] s' in if acquired then run_locked s' else again
  with_lock (suc rounds) (reply ∷ replies) s =
      let (acquired, s') = try_acquire_lock name reply now s in
      let again = with_lock rounds replies s' in if acquired then run_locked s' else again

-- The default of `maxRetries`.
abbrev pub max_retries : ℕ
max_retries = 3
