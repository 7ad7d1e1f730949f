-- ===== src/Certificate/Order/Service.antt =====
-- The operations of CertificateOrderService (src/certificate/certificate-order.service.ts). Each one
-- is atomic; `now` is the time of the call, and the database chooses `new_id`.
use lyttle_nginx.Prelude.{
  ℕ, ◌+◌, Bool, false, not, ◌||◌, Option, none, some, List, [], ◌∷◌, String, ltb, or_else,
  if◌then◌else◌,
}
use lyttle_nginx.Prelude.Results.{good, ◌>>=◌, ◌>>◌, require, found}
use lyttle_nginx.Certificate.Order.{
  Status, requested, challenge_published, activated, failed, is_terminal, Order, retry_requested,
  state_transition, retry_scheduled, Event, Tables, not_found, scheduled, Outcome, find_order,
  update_order, stamp,
}

-- The columns that callers of transitionOrder pass in `data`.
pub data Column : Type 0 where
  set_metadata : Option String → Column
  set_certificate_id : String → Column
  clear_last_error : Column

unfoldable pub set_columns : List Column → Order → Order
set_columns [] o = o
set_columns (set_metadata m ∷ cs) o = set_columns cs (record o { metadata = m })
set_columns (set_certificate_id c ∷ cs) o = set_columns cs (record o { certificate_id = some c })
set_columns (clear_last_error ∷ cs) o = set_columns cs (record o { last_error = none })

-- `options` of transitionOrder: `none` is a property that is not given, `some none` one that is
-- null; `columns` is its `data`.
pub record TransitionOptions : Type 0 where
  pub message : Option String
  pub details : Option String
  pub last_error : Option (Option String)
  pub next_retry_at : Option (Option ℕ)
  pub columns : List Column

abbrev given : {A : Type 0} → Option (Option A) → Option A
given none = none
given (some a) = a

abbrev or_given : {A : Type 0} → Option (Option A) → Option A → Option A
or_given none old = old
or_given (some new) old = new

-- The row that the update of resumeOrder writes.
unfoldable pub resumed : ℕ → Order → Order
resumed now o = record o {
  status = requested;
  next_retry_at = none;
  last_error = none;
  started_at = none;
  challenge_published_at = none;
  validating_at = none;
  issued_at = none;
  distributing_at = none;
  activated_at = none;
  failed_at = none;
  revoked_at = none;
  completed_at = none;
  requested_at = now;
  attempt_count = Order.attempt_count o + 1;
  retry_count = Order.retry_count o + 1;
}

abbrev pub is_later : ℕ → Option ℕ → Bool
is_later now none = false
is_later now (some at) = ltb now at

-- From the row before the update and the row after it.
abbrev pub resume_event : String → String → Order → Order → Event
resume_event key reason order updated = record {
  order_id = key;
  event_type = retry_requested;
  from_status = some (Order.status order);
  to_status = some requested;
  message = some reason;
  attempt_number = some (Order.attempt_count updated);
  retry_at = none;
  details = none;
}

unfoldable pub resume_order : String → String → Bool → ℕ → Tables → Outcome Order
unfolding resumed
resume_order order_id reason force now tables = do
  order ← found (find_order order_id tables) not_found
  require (force || not (is_later now (Order.next_retry_at order)))
      (scheduled (or_else (Order.next_retry_at order) 0))
  let updated = resumed now order
  good (
    updated,
    record tables {
      orders = update_order order_id (resumed now) (Tables.orders tables);
      events = resume_event order_id reason order updated ∷ Tables.events tables;
    },
  )

abbrev started : Status → ℕ → Option ℕ → Option ℕ
started challenge_published now none = some now
started status now at = at

-- nextRetryAt: what is given; else it is cleared, except by a failure.
abbrev next_retry : Status → Option (Option ℕ) → Option ℕ → Option ℕ
next_retry status (some at) old = at
next_retry failed none old = old
next_retry status none old = none

-- The row that the update of transitionOrder writes: the stamp of the status stands over `data`,
-- and startedAt is read from the row before.
unfoldable pub moved : Status → TransitionOptions → ℕ → Order → Order
unfolding set_columns stamp is_terminal
moved next options now o =
    let row = stamp next now (set_columns (TransitionOptions.columns options) o) in
    record row {
      status = next;
      started_at = started next now (Order.started_at o);
      completed_at = if is_terminal next then some now else Order.completed_at o;
      last_error = or_given (TransitionOptions.last_error options) (Order.last_error row);
      next_retry_at =
          next_retry next (TransitionOptions.next_retry_at options) (Order.next_retry_at o);
    }

abbrev pub move_event : String → Status → TransitionOptions → Order → Order → Event
move_event key next options order updated = record {
  order_id = key;
  event_type = state_transition;
  from_status = some (Order.status order);
  to_status = some next;
  message = TransitionOptions.message options;
  attempt_number = some (Order.attempt_count updated);
  retry_at = given (TransitionOptions.next_retry_at options);
  details = TransitionOptions.details options;
}

unfoldable pub transition_order : String → Status → TransitionOptions → ℕ → Tables → Outcome Order
unfolding moved
transition_order order_id next options now tables = do
  order ← found (find_order order_id tables) not_found
  let updated = moved next options now order
  good (
    updated,
    record tables {
      orders = update_order order_id (moved next options now) (Tables.orders tables);
      events = move_event order_id next options order updated ∷ Tables.events tables;
    },
  )

-- The second event of markFailure, when a retry is planned.
abbrev pub retry_event : String → Option ℕ → Option String → Order → Tables → Tables
retry_event order_id none details updated tables = tables
retry_event order_id (some at) details updated tables = record tables {
  events =
      record {
        order_id = order_id;
        event_type = retry_scheduled;
        from_status = some failed;
        to_status = some failed;
        message = none;
        attempt_number = some (Order.attempt_count updated);
        retry_at = some at;
        details = details;
      }
      ∷ Tables.events tables;
}

abbrev pub failure_options : String → Option ℕ → Option String → TransitionOptions
failure_options error next_retry_at details = record {
  message = some error;
  details = details;
  last_error = some (some error);
  next_retry_at = some next_retry_at;
  columns = [];
}

unfoldable pub mark_failure :
    String → String → Option ℕ → Option String → ℕ → Tables → Outcome Order
unfolding transition_order
mark_failure order_id error next_retry_at details now tables = do
  (updated, tables') ←
      transition_order order_id failed (failure_options error next_retry_at details) now tables
  good (updated, retry_event order_id next_retry_at details updated tables')

abbrev pub completion_options : String → String → Option String → TransitionOptions
completion_options certificate_id message details = record {
  message = some message;
  details = details;
  last_error = none;
  next_retry_at = none;
  columns = set_certificate_id certificate_id ∷ clear_last_error ∷ [];
}

unfoldable pub complete_with_certificate :
    String → String → String → Option String → ℕ → Tables → Outcome Order
unfolding transition_order
complete_with_certificate order_id certificate_id message details now tables =
    transition_order order_id activated (completion_options certificate_id message details) now
      tables
