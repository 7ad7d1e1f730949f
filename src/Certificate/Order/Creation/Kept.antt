-- ===== src/Certificate/Order/Creation/Kept.antt =====
-- Each operation on the orders keeps the tables audited
-- (src/certificate/certificate-order.service.ts).
use lyttle_nginx.Prelude.{
  ℕ, ◌≡◌, ◌≢◌, refl, sym, ap, ◌∙◌, subst, Bool, true, not, ◌||◌, Option, none, some, List, [], ◌∷◌,
  String, eq_iff, Bool-cases, Option-cases, inl, inr, or_else, All,
}
use lyttle_nginx.Prelude.Results.{good, found, after, good-inj, bind-good}
use lyttle_nginx.Prelude.Texts.{Text}
use lyttle_nginx.Domains.{normalize_domains, join_domains, hash_domains}
use lyttle_nginx.Certificate.Order.{
  Status, requested, challenge_published, validating, issued, distributing, activated, failed,
  revoked, is_in_progress, is_retryable, Order, Event, Tables, OrderError, not_found, scheduled,
  Outcome, retry_scheduled, of_domains, find_order, newest, stamp,
}
use lyttle_nginx.Certificate.Order.Service.{
  Column, set_metadata, set_certificate_id, clear_last_error, set_columns, TransitionOptions,
  failure_options, completion_options, resume_event, move_event, is_later, resumed, resume_order,
  moved, transition_order, retry_event, mark_failure, complete_with_certificate,
}
use lyttle_nginx.Certificate.Order.Creation.{
  ArtifactParams, OrderParams, order_for, created_event, artifact_event, create_order,
  retry_or_create, reuse_or_create, get_or_create_order, record_artifact,
}
use lyttle_nginx.Certificate.Order.Creation.Audit.{
  last_status, steady-IsAudited, pushed, unused-none, rows-created, IsAudited, update-IsAudited,
}

-- An operation's answer keeps the tables audited.
abbrev Keeps : {A : Type 0} → Outcome A → Type 0
Keeps {A} r = (answer : A) (after : Tables) → r ≡ good (answer, after) → IsAudited after

found-some : {A : Type 0} (o : Option A) (e : OrderError) (x : A) → found o e ≡ good x → o ≡ some x
found-some none e x h = cc
found-some (some a) e x h = ap some (good-inj a x h)

pub answered :
    {A : Type 0} (x y : A) (t t' : Tables) → Path (Outcome A) (good (x, t)) (good (y, t')) → t ≡ t'
answered x y t t' h = ap (λ p. p.1) (good-inj (x, t) (y, t') h)

set_columns-id : (cs : List Column) (o : Order) → Order.id (set_columns cs o) ≡ Order.id o
unfolding set_columns
set_columns-id [] o = refl
set_columns-id (set_metadata m ∷ cs) o = set_columns-id cs (record o { metadata = m })
set_columns-id (set_certificate_id c ∷ cs) o =
    set_columns-id cs (record o { certificate_id = some c })
set_columns-id (clear_last_error ∷ cs) o = set_columns-id cs (record o { last_error = none })

stamp-id : (next : Status) (now : ℕ) (o : Order) → Order.id (stamp next now o) ≡ Order.id o
unfolding stamp
stamp-id requested now o = refl
stamp-id challenge_published now o = refl
stamp-id validating now o = refl
stamp-id issued now o = refl
stamp-id distributing now o = refl
stamp-id activated now o = refl
stamp-id failed now o = refl
stamp-id revoked now o = refl

moved-id :
    (next : Status) (options : TransitionOptions) (now : ℕ) (o : Order)
    → Order.id (moved next options now o) ≡ Order.id o
unfolding moved
moved-id next options now o =
    stamp-id next now (set_columns (TransitionOptions.columns options) o)
    ∙ set_columns-id (TransitionOptions.columns options) o

moved-status :
    (next : Status) (options : TransitionOptions) (now : ℕ) (o : Order)
    → Order.status (moved next options now o) ≡ next
unfolding moved
moved-status next options now o = refl

pub resume_order-Keeps :
    (key : String) (reason : String) (force : Bool) (now : ℕ) (tables : Tables)
    → IsAudited tables
    → Keeps (resume_order key reason force now tables)
unfolding resume_order
resume_order-Keeps key reason force now tables audited answer tables' h =
    let (order, there, rest) = bind-good (found (find_order key tables) not_found) _ _ h in
    let (_, same) =
      after (force || not (is_later now (Order.next_retry_at order)))
        (scheduled (or_else (Order.next_retry_at order) 0)) _ _ rest in
    subst IsAudited (answered _ answer _ tables' same) (
      update-IsAudited key (resumed now) (resume_event key reason order (resumed now order))
        requested (λ o. refl) (λ o. refl) refl refl tables order audited (found-some _ _ _ there)
        refl)

pub transition_order-Keeps :
    (key : String) (next : Status) (options : TransitionOptions) (now : ℕ) (tables : Tables)
    → IsAudited tables
    → Keeps (transition_order key next options now tables)
unfolding transition_order
transition_order-Keeps key next options now tables audited answer tables' h =
    let (order, there, same) = bind-good (found (find_order key tables) not_found) _ _ h in
    subst IsAudited (answered _ answer _ tables' same) (
      update-IsAudited key (moved next options now)
        (move_event key next options order (moved next options now order)) next
        (moved-id next options now) (moved-status next options now) refl refl tables order audited
        (found-some _ _ _ there) refl)

retry_event-IsAudited :
    (key : String) (at : Option ℕ) (details : Option String) (updated : Order) (tables : Tables)
    → last_status key (Tables.events tables) ≡ some failed
    → IsAudited tables
    → IsAudited (retry_event key at details updated tables)
retry_event-IsAudited key none details updated tables h audited = audited
retry_event-IsAudited key (some at) details updated tables h audited =
    steady-IsAudited
      (record {
        order_id = key;
        event_type = retry_scheduled;
        from_status = some failed;
        to_status = some failed;
        message = none;
        attempt_number = some (Order.attempt_count updated);
        retry_at = some at;
        details = details;
      })
      tables (inr (sym h)) (inr (sym h)) audited

transition_order-last :
    (key : String) (next : Status) (options : TransitionOptions) (now : ℕ) (tables : Tables)
    (answer : Order) (after : Tables)
    → transition_order key next options now tables ≡ good (answer, after)
    → last_status key (Tables.events after) ≡ some next
unfolding transition_order
transition_order-last key next options now tables answer tables' h =
    let (order, there, same) = bind-good (found (find_order key tables) not_found) _ _ h in
    ap (λ t. last_status key (Tables.events t)) (sym (answered _ answer _ tables' same))
    ∙ pushed (move_event key next options order (moved next options now order))
        (Tables.events tables) key next ((eq_iff key key).1 refl) refl

-- markFailure's second event repeats the status that its transition has just set.
pub mark_failure-Keeps :
    (key error : String) (at : Option ℕ) (details : Option String) (now : ℕ) (tables : Tables)
    → IsAudited tables
    → Keeps (mark_failure key error at details now tables)
unfolding mark_failure
mark_failure-Keeps key error at details now tables audited answer tables' h =
    let options = failure_options error at details in
    let ((updated, between), first, same) =
      bind-good (transition_order key failed options now tables)
        (λ (updated, between). good (updated, retry_event key at details updated between)) _ h in
    subst IsAudited
      (answered updated answer (retry_event key at details updated between) tables' same)
      (retry_event-IsAudited key at details updated between
        (transition_order-last key failed options now tables updated between first)
        (transition_order-Keeps key failed options now tables audited updated between first))

pub complete-Keeps :
    (key certificate message : String) (details : Option String) (now : ℕ) (tables : Tables)
    → IsAudited tables
    → Keeps (complete_with_certificate key certificate message details now tables)
unfolding complete_with_certificate
complete-Keeps key certificate message details now tables =
    transition_order-Keeps key activated (completion_options certificate message details) now tables

module _ (domain_to_ascii : Text → Text) (is_ip : Text → Bool) (sha256 : Text → Text) where
  create_order-Keeps :
      (p : OrderParams) (domains : List Text) (hash : Text) (new_id : String) (now : ℕ)
      (tables : Tables)
      → All (λ e. Event.order_id e ≢ new_id) (Tables.events tables)
      → IsAudited tables
      → Keeps (create_order domain_to_ascii is_ip sha256 p domains hash new_id now tables)
  unfolding create_order
  create_order-Keeps p domains hash new_id now tables unused audited answer tables' h =
      let (joined, _, same) =
        bind-good (of_domains (join_domains domain_to_ascii is_ip true domains)) _ _ h in
      let unset = unused-none new_id (Tables.events tables) unused in
      subst IsAudited (answered _ answer _ tables' same) (
        (
          pushed (created_event p new_id) (Tables.events tables) new_id requested
              ((eq_iff new_id new_id).1 refl) refl,
          rows-created (created_event p new_id) (Tables.events tables) (Tables.orders tables) unset
              audited.0,
        ),
        (inr (sym unset), audited.1),
      )

  retry_or_create-Keeps :
      (p : OrderParams) (domains : List Text) (hash : Text) (new_id : String) (now : ℕ)
      (tables : Tables) (retryable : Option Order)
      → All (λ e. Event.order_id e ≢ new_id) (Tables.events tables)
      → IsAudited tables
      → Keeps
          (retry_or_create domain_to_ascii is_ip sha256 p domains hash new_id now tables retryable)
  unfolding retry_or_create
  retry_or_create-Keeps p domains hash new_id now tables none unused audited answer tables' h =
      create_order-Keeps p domains hash new_id now tables unused audited answer tables' h
  retry_or_create-Keeps p domains hash new_id now tables (some order) unused audited answer tables'
        h =
      elim (Bool-cases (is_later now (Order.next_retry_at order))) [
        | inl waits ↦
            create_order-Keeps p domains hash new_id now tables unused audited answer tables'
              (rw waits at h)
        | inr due ↦
            resume_order-Keeps (Order.id order) "Automatic retry window reached" true now tables
              audited answer tables' (rw due at h)
      ]

  reuse_or_create-Keeps :
      (p : OrderParams) (domains : List Text) (hash : Text) (new_id : String) (now : ℕ)
      (tables : Tables) (active : Option Order)
      → All (λ e. Event.order_id e ≢ new_id) (Tables.events tables)
      → IsAudited tables
      → Keeps (reuse_or_create domain_to_ascii is_ip sha256 p domains hash new_id now tables active)
  unfolding reuse_or_create
  reuse_or_create-Keeps p domains hash new_id now tables (some order) unused audited answer tables'
        h =
      subst IsAudited (answered order answer tables tables' h) audited
  reuse_or_create-Keeps p domains hash new_id now tables none unused audited answer tables' h =
      retry_or_create-Keeps p domains hash new_id now tables
        (newest (order_for is_retryable hash) (Tables.orders tables)) unused audited answer tables'
        h

  pub get_or_create_order-Keeps :
      (p : OrderParams) (new_id : String) (now : ℕ) (tables : Tables)
      → All (λ e. Event.order_id e ≢ new_id) (Tables.events tables)
      → IsAudited tables
      → Keeps (get_or_create_order domain_to_ascii is_ip sha256 p new_id now tables)
  unfolding get_or_create_order
  get_or_create_order-Keeps p new_id now tables unused audited answer tables' h =
      let (domains, _, h1) =
        bind-good
          (of_domains (normalize_domains domain_to_ascii is_ip true (OrderParams.domains p))) _ _
          h in
      let (hash, _, h2) =
        bind-good (of_domains (hash_domains domain_to_ascii is_ip sha256 true domains)) _ _ h1 in
      elim (Option-cases (OrderParams.existing_order_id p)) [
        | inl absent ↦
            reuse_or_create-Keeps p domains hash new_id now tables
              (newest (order_for is_in_progress hash) (Tables.orders tables)) unused audited answer
              tables' (rw absent at h2)
        | inr (key, given) ↦
            let (order, _, same) =
              bind-good (found (find_order key tables) not_found) (λ order. good (order, tables)) _
                (rw given at h2) in
            subst IsAudited (answered order answer tables tables' same) audited
      ]

  module _ (encrypt : String → Text → ℕ → String × Option String) where
    pub record_artifact-Keeps :
        (p : ArtifactParams) (new_id : String) (now : ℕ) (tables : Tables)
        → IsAudited tables
        → Keeps (record_artifact domain_to_ascii is_ip sha256 encrypt p new_id now tables)
    unfolding record_artifact
    record_artifact-Keeps p new_id now tables audited answer tables' h =
        let (domains, _, h1) =
          bind-good
            (of_domains (normalize_domains domain_to_ascii is_ip true (ArtifactParams.domains p))) _
            _ h in
        let (hash, _, h2) =
          bind-good (of_domains (hash_domains domain_to_ascii is_ip sha256 true domains)) _ _ h1 in
        let (joined, _, same) =
          bind-good (of_domains (join_domains domain_to_ascii is_ip true domains)) _ _ h2 in
        subst IsAudited (answered _ answer _ tables' same)
          (steady-IsAudited (artifact_event p) tables (inl refl) (inl refl) audited)
