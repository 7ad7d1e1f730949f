-- ===== src/Cluster/Operations/Waiting.antt =====
-- Waiting for an operation (waitForOperationToSettle of
-- src/distributed-lock/cluster-operations.service.ts). The k-th round reads `answer k` and takes
-- `takes k` milliseconds, the query's time and that of a timer set to the poll interval; `none` of the
-- result is fuel run out.
use lyttle_nginx.Prelude.{
  ℕ, zero, suc, ◌+◌, ◌≡◌, ◌≤◌, ◌<◌, refl, Bool, true, false, Option, none, some, or_else, leb,
  Bool-cases, Option-cases, inl, inr, if◌then◌else◌, arith,
}
use lyttle_nginx.Cluster.Operations.{OperationStatus, pending, running}

pub record WaitForOperationOptions : Type 0 where
  pub timeout_ms : Option ℕ
  pub poll_interval_ms : Option ℕ

pub data Waited : Type 0 where
  settled : OperationStatus → Waited
  not_found : Waited
  timed_out : Waited

abbrev pub is_open : OperationStatus → Bool
is_open pending = true
is_open running = true
is_open _ = false

module _ (answer : ℕ → Option OperationStatus) (takes : ℕ → ℕ) where
  abbrev pub after_poll : Option OperationStatus → Option Waited → Option Waited
  after_poll none later = some not_found
  after_poll (some status) later = if is_open status then later else some (settled status)

  unfoldable pub poll : ℕ → ℕ → ℕ → ℕ → Option Waited
  poll deadline zero k now = none
  poll deadline (suc fuel) k now =
      let later = poll deadline fuel (suc k) (now + takes k) in
      if leb now deadline then after_poll (answer k) later else some timed_out

  -- The clock before the k-th round.
  abbrev pub clock : ℕ → ℕ → ℕ
  clock start zero = start
  clock start (suc k) = clock start k + takes k

  -- The first k rounds were made by the deadline, and each found the operation open.
  pub data Polled (start deadline : ℕ) : ℕ → Type 0 where
    no_round : Polled start deadline zero
    one_more :
        (k : ℕ) (status : OperationStatus)
        → Polled start deadline k
        → answer k ≡ some status
        → is_open status ≡ true
        → clock start k ≤ deadline
        → Polled start deadline (suc k)

  -- What the wait reports after k rounds that found the operation open: the status of a round by the
  -- deadline that found it settled, a round by the deadline that found no operation, or a clock past
  -- the deadline.
  pub data IsDue (start deadline : ℕ) : Waited → Type 0 where
    due_settled :
        (k : ℕ) (status : OperationStatus)
        → Polled start deadline k
        → answer k ≡ some status
        → is_open status ≡ false
        → clock start k ≤ deadline
        → IsDue start deadline (settled status)
    due_not_found :
        (k : ℕ)
        → Polled start deadline k
        → answer k ≡ none
        → clock start k ≤ deadline
        → IsDue start deadline not_found
    due_timed_out :
        (k : ℕ)
        → Polled start deadline k
        → deadline < clock start k
        → IsDue start deadline timed_out

  module _ (start deadline : ℕ) where
    abbrev IsReported : Option Waited → Type 0
    IsReported result = (r : Waited) × (result ≡ some r) × IsDue start deadline r

    over :
        (k : ℕ) (later : Option Waited)
        → Polled start deadline k
        → deadline < clock start k
        → IsReported
            (if leb (clock start k) deadline then after_poll (answer k) later else some timed_out)
    over k later polled late =
        let past : leb (clock start k) deadline ≡ false = ground (arith, late) in
        rw past (timed_out, refl, due_timed_out k polled late)

    in_time :
        (k : ℕ) (later : Option Waited)
        → Polled start deadline k
        → clock start k ≤ deadline
        → (Polled start deadline (suc k) → IsReported later)
        → IsReported (after_poll (answer k) later)
    in_time k later polled now rest = elim (Option-cases (answer k)) [
      | inl gone ↦ rw gone (not_found, refl, due_not_found k polled gone now)
      | inr (status, there) ↦ elim (Bool-cases (is_open status)) [
        | inl going ↦ rw (there, going) (rest (one_more k status polled there going now))
        | inr ended ↦
            rw (there, ended) (settled status, refl, due_settled k status polled there ended now)
      ]
    ]

    poll_reports :
        ((k : ℕ) → 1 ≤ takes k)
        → (fuel k : ℕ) → deadline < clock start k + fuel
        → Polled start deadline k
        → IsReported (poll deadline (suc fuel) k (clock start k))
    unfolding poll
    poll_reports ticks zero k enough polled = over k none polled (omega (arith, enough))
    poll_reports ticks (suc fuel) k enough polled =
        let later = poll deadline (suc fuel) (suc k) (clock start (suc k)) in
        let rest : Polled start deadline (suc k) → IsReported later =
          λ more. poll_reports ticks fuel (suc k) (omega (arith, enough, ticks k)) more in
        elim (Bool-cases (leb (clock start k) deadline)) [
          | inl now ↦ rw now (in_time k later polled (ground (arith, now)) rest)
          | inr past ↦ over k later polled (ground (arith, past))
        ]

-- `takes interval k`: what the k-th round takes with a timer set to the interval.
module _ (answer : ℕ → Option OperationStatus) (takes : ℕ → ℕ → ℕ) where
  -- `while (Date.now() <= deadline)`, with as much fuel as the timeout has milliseconds, and two.
  unfoldable pub wait_for_operation_to_settle : WaitForOperationOptions → ℕ → Option Waited
  unfolding poll
  wait_for_operation_to_settle options start =
      let timeout = or_else options.timeout_ms 30000 in
      let interval = or_else options.poll_interval_ms 250 in
      poll answer (takes interval) (start + timeout) (timeout + 2) 0 start

  -- The wait ends: where the timer lets every round take a millisecond or more, the fuel is enough,
  -- and what the wait reports comes after rounds that were all made by the deadline and found the
  -- operation open: the settled status that the next round read by the deadline, that the next round
  -- found no operation by it, or that the deadline has passed.
  pub wait_for_operation_ends :
      ((interval k : ℕ) → 1 ≤ takes interval k)
      → (options : WaitForOperationOptions) (start : ℕ)
      → (r : Waited) × (wait_for_operation_to_settle options start ≡ some r)
        × IsDue answer
            (takes (or_else options.poll_interval_ms 250))
            start
            (start + or_else options.timeout_ms 30000)
            r
  unfolding wait_for_operation_to_settle
  wait_for_operation_ends ticks options start =
      let timeout = or_else options.timeout_ms 30000 in
      let interval = or_else options.poll_interval_ms 250 in
      let two : timeout + 2 ≡ suc (timeout + 1) = omega arith in
      rw two (
        poll_reports answer (takes interval) start (start + timeout) (ticks interval) (timeout + 1)
          0 (omega arith) no_round)
