-- ===== src/Certificate/Order/Creation/Rows.antt =====
-- What holds of every order's row (src/certificate/certificate-order.service.ts).
use lyttle_nginx.Prelude.{
  ℕ, ◌+◌, ◌≡◌, ◌≢◌, refl, sym, ap, ◌∙◌, subst, Bool, true, false, not, ◌||◌, Option, none, some,
  List, [], ◌∷◌, String, str_eq, or_else, if◌then◌else◌, All,
}
use lyttle_nginx.Prelude.Results.{good, found, after, bind-good}
use lyttle_nginx.Certificate.Order.{
  Status, requested, challenge_published, validating, issued, distributing, activated, failed,
  revoked, is_terminal, Order, Tables, not_found, scheduled, Outcome, find_order, update_order,
  stamp,
}
use lyttle_nginx.Certificate.Order.Service.{
  Column, set_metadata, set_certificate_id, clear_last_error, set_columns, TransitionOptions,
  is_later, resumed, resume_order, moved, transition_order, retry_event, mark_failure,
  complete_with_certificate, failure_options, completion_options,
}
use lyttle_nginx.Certificate.Order.Creation.Kept.{answered}

-- One attempt more than retries, and a time of completion in a terminal status.
abbrev pub IsSoundRow : Order → Type 0
IsSoundRow o =
    (Order.attempt_count o ≡ Order.retry_count o + 1)
    × (is_terminal (Order.status o) ≡ true → Order.completed_at o ≢ none)

abbrev pub Rows : Tables → Type 0
Rows tables = All IsSoundRow (Tables.orders tables)

abbrev pub KeepsRows : {A : Type 0} → Outcome A → Type 0
KeepsRows {A} r = (answer : A) (after : Tables) → r ≡ good (answer, after) → Rows after

update_order-All :
    (key : String) (change : Order → Order) (orders : List Order)
    → ((o : Order) → IsSoundRow o → IsSoundRow (change o))
    → All IsSoundRow orders
    → All IsSoundRow (update_order key change orders)
update_order-All key change [] keeps h = tt
update_order-All key change (o ∷ os) keeps (h, hs) =
    (head (str_eq (Order.id o) key), update_order-All key change os keeps hs)
  where
    head : (b : Bool) → IsSoundRow (if b then change o else o)
    head true = keeps o h
    head false = h

resumed-IsSoundRow : (now : ℕ) (o : Order) → IsSoundRow o → IsSoundRow (resumed now o)
unfolding resumed is_terminal
resumed-IsSoundRow now o h = (ap (λ n. n + 1) h.0, λ no. cc)

-- The counts that a transition leaves alone.
set_columns-counts :
    (cs : List Column) (o : Order)
    → (Order.attempt_count (set_columns cs o) ≡ Order.attempt_count o)
      × (Order.retry_count (set_columns cs o) ≡ Order.retry_count o)
unfolding set_columns
set_columns-counts [] o = (refl, refl)
set_columns-counts (set_metadata m ∷ cs) o = set_columns-counts cs (record o { metadata = m })
set_columns-counts (set_certificate_id c ∷ cs) o =
    set_columns-counts cs (record o { certificate_id = some c })
set_columns-counts (clear_last_error ∷ cs) o =
    set_columns-counts cs (record o { last_error = none })

stamp-counts :
    (next : Status) (now : ℕ) (o : Order)
    → (Order.attempt_count (stamp next now o) ≡ Order.attempt_count o)
      × (Order.retry_count (stamp next now o) ≡ Order.retry_count o)
unfolding stamp
stamp-counts requested now o = (refl, refl)
stamp-counts challenge_published now o = (refl, refl)
stamp-counts validating now o = (refl, refl)
stamp-counts issued now o = (refl, refl)
stamp-counts distributing now o = (refl, refl)
stamp-counts activated now o = (refl, refl)
stamp-counts failed now o = (refl, refl)
stamp-counts revoked now o = (refl, refl)

ended : (now : ℕ) (old : Option ℕ) (b : Bool) → b ≡ true → (if b then some now else old) ≢ none
ended now old true h = cc
ended now old false h = cc

moved-IsSoundRow :
    (next : Status) (options : TransitionOptions) (now : ℕ) (o : Order)
    → IsSoundRow o
    → IsSoundRow (moved next options now o)
unfolding moved
moved-IsSoundRow next options now o h =
    let row = set_columns (TransitionOptions.columns options) o in
    let stamped = stamp-counts next now row in
    let set = set_columns-counts (TransitionOptions.columns options) o in
    (
      stamped.0 ∙ set.0 ∙ h.0 ∙ sym (ap (λ n. n + 1) (stamped.1 ∙ set.1)),
      ended now (Order.completed_at o) (is_terminal next),
    )

pub resume_order-KeepsRows :
    (key reason : String) (force : Bool) (now : ℕ) (tables : Tables)
    → Rows tables
    → KeepsRows (resume_order key reason force now tables)
unfolding resume_order
resume_order-KeepsRows key reason force now tables rows answer tables' h =
    let (order, _, rest) = bind-good (found (find_order key tables) not_found) _ _ h in
    let (_, same) =
      after (force || not (is_later now (Order.next_retry_at order)))
        (scheduled (or_else (Order.next_retry_at order) 0)) _ _ rest in
    subst Rows (answered _ answer _ tables' same)
      (update_order-All key (resumed now) (Tables.orders tables) (resumed-IsSoundRow now) rows)

pub transition_order-KeepsRows :
    (key : String) (next : Status) (options : TransitionOptions) (now : ℕ) (tables : Tables)
    → Rows tables
    → KeepsRows (transition_order key next options now tables)
unfolding transition_order
transition_order-KeepsRows key next options now tables rows answer tables' h =
    let (order, _, same) = bind-good (found (find_order key tables) not_found) _ _ h in
    subst Rows (answered _ answer _ tables' same) (
      update_order-All key (moved next options now) (Tables.orders tables)
        (moved-IsSoundRow next options now) rows)

retry_event-Rows :
    (key : String) (at : Option ℕ) (details : Option String) (updated : Order) (tables : Tables)
    → Rows tables
    → Rows (retry_event key at details updated tables)
retry_event-Rows key none details updated tables rows = rows
retry_event-Rows key (some at) details updated tables rows = rows

pub mark_failure-KeepsRows :
    (key error : String) (at : Option ℕ) (details : Option String) (now : ℕ) (tables : Tables)
    → Rows tables
    → KeepsRows (mark_failure key error at details now tables)
unfolding mark_failure
mark_failure-KeepsRows key error at details now tables rows answer tables' h =
    let options = failure_options error at details in
    let ((updated, between), first, same) =
      bind-good (transition_order key failed options now tables)
        (λ (updated, between). good (updated, retry_event key at details updated between)) _ h in
    subst Rows (answered updated answer (retry_event key at details updated between) tables' same) (
      retry_event-Rows key at details updated between
        (transition_order-KeepsRows key failed options now tables rows updated between first))

pub complete-KeepsRows :
    (key certificate message : String) (details : Option String) (now : ℕ) (tables : Tables)
    → Rows tables
    → KeepsRows (complete_with_certificate key certificate message details now tables)
unfolding complete_with_certificate
complete-KeepsRows key certificate message details now tables =
    transition_order-KeepsRows key activated (completion_options certificate message details) now
      tables
