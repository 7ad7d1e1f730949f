-- ===== src/Certificate/Order/Creation/Attempts.antt =====
-- The attempts and the completion of every order that the operations reach
-- (src/certificate/certificate-order.service.ts).
use lyttle_nginx.Prelude.{
  ℕ, refl, subst, Bool, true, Option, none, some, List, String, Bool-cases, Option-cases, inl, inr,
  All,
}
use lyttle_nginx.Prelude.Results.{good, found, bind-good}
use lyttle_nginx.Prelude.Texts.{Text}
use lyttle_nginx.Domains.{normalize_domains, join_domains, hash_domains}
use lyttle_nginx.Certificate.Order.{
  is_in_progress, is_retryable, is_terminal, Order, Tables, not_found, of_domains, find_order,
  newest,
}
use lyttle_nginx.Certificate.Order.Service.{is_later}
use lyttle_nginx.Certificate.Order.Creation.{
  ArtifactParams, OrderParams, order_for, created_order, create_order, retry_or_create,
  reuse_or_create, get_or_create_order, record_artifact,
}
use lyttle_nginx.Certificate.Order.Creation.Kept.{answered}
use lyttle_nginx.Certificate.Order.Creation.History.{
  Reached, at_first, by_creation, by_resumption, by_transition, by_failure, by_completion,
  by_artifact,
}
use lyttle_nginx.Certificate.Order.Creation.Rows.{
  IsSoundRow, Rows, KeepsRows, resume_order-KeepsRows, transition_order-KeepsRows,
  mark_failure-KeepsRows, complete-KeepsRows,
}

created-IsSoundRow :
    (p : OrderParams) (domains : List Text) (joined hash : Text) (new_id : String) (now : ℕ)
    → IsSoundRow (created_order p domains joined hash new_id now)
unfolding is_terminal
created-IsSoundRow p domains joined hash new_id now = (refl, λ no. cc)

module _ (domain_to_ascii : Text → Text) (is_ip : Text → Bool) (sha256 : Text → Text) where
  create_order-KeepsRows :
      (p : OrderParams) (domains : List Text) (hash : Text) (new_id : String) (now : ℕ)
      (tables : Tables)
      → Rows tables
      → KeepsRows (create_order domain_to_ascii is_ip sha256 p domains hash new_id now tables)
  unfolding create_order
  create_order-KeepsRows p domains hash new_id now tables rows answer tables' h =
      let (joined, _, same) =
        bind-good (of_domains (join_domains domain_to_ascii is_ip true domains)) _ _ h in
      subst Rows (answered _ answer _ tables' same)
        (created-IsSoundRow p domains joined hash new_id now, rows)

  retry_or_create-KeepsRows :
      (p : OrderParams) (domains : List Text) (hash : Text) (new_id : String) (now : ℕ)
      (tables : Tables) (retryable : Option Order)
      → Rows tables
      → KeepsRows
          (retry_or_create domain_to_ascii is_ip sha256 p domains hash new_id now tables retryable)
  unfolding retry_or_create
  retry_or_create-KeepsRows p domains hash new_id now tables none rows answer tables' h =
      create_order-KeepsRows p domains hash new_id now tables rows answer tables' h
  retry_or_create-KeepsRows p domains hash new_id now tables (some order) rows answer tables' h =
      elim (Bool-cases (is_later now (Order.next_retry_at order))) [
        | inl waits ↦
            create_order-KeepsRows p domains hash new_id now tables rows answer tables'
              (rw waits at h)
        | inr due ↦
            resume_order-KeepsRows (Order.id order) "Automatic retry window reached" true now tables
              rows answer tables' (rw due at h)
      ]

  reuse_or_create-KeepsRows :
      (p : OrderParams) (domains : List Text) (hash : Text) (new_id : String) (now : ℕ)
      (tables : Tables) (active : Option Order)
      → Rows tables
      → KeepsRows
          (reuse_or_create domain_to_ascii is_ip sha256 p domains hash new_id now tables active)
  unfolding reuse_or_create
  reuse_or_create-KeepsRows p domains hash new_id now tables (some order) rows answer tables' h =
      subst Rows (answered order answer tables tables' h) rows
  reuse_or_create-KeepsRows p domains hash new_id now tables none rows answer tables' h =
      retry_or_create-KeepsRows p domains hash new_id now tables
        (newest (order_for is_retryable hash) (Tables.orders tables)) rows answer tables' h

  get_or_create_order-KeepsRows :
      (p : OrderParams) (new_id : String) (now : ℕ) (tables : Tables)
      → Rows tables
      → KeepsRows (get_or_create_order domain_to_ascii is_ip sha256 p new_id now tables)
  unfolding get_or_create_order
  get_or_create_order-KeepsRows p new_id now tables rows answer tables' h =
      let (domains, _, h1) =
        bind-good
          (of_domains (normalize_domains domain_to_ascii is_ip true (OrderParams.domains p))) _ _
          h in
      let (hash, _, h2) =
        bind-good (of_domains (hash_domains domain_to_ascii is_ip sha256 true domains)) _ _ h1 in
      elim (Option-cases (OrderParams.existing_order_id p)) [
        | inl absent ↦
            reuse_or_create-KeepsRows p domains hash new_id now tables
              (newest (order_for is_in_progress hash) (Tables.orders tables)) rows answer tables'
              (rw absent at h2)
        | inr (key, given) ↦
            let (order, _, same) =
              bind-good (found (find_order key tables) not_found) (λ order. good (order, tables)) _
                (rw given at h2) in
            subst Rows (answered order answer tables tables' same) rows
      ]

  module _ (encrypt : String → Text → ℕ → String × Option String) where
    record_artifact-KeepsRows :
        (p : ArtifactParams) (new_id : String) (now : ℕ) (tables : Tables)
        → Rows tables
        → KeepsRows (record_artifact domain_to_ascii is_ip sha256 encrypt p new_id now tables)
    unfolding record_artifact
    record_artifact-KeepsRows p new_id now tables rows answer tables' h =
        let (domains, _, h1) =
          bind-good
            (of_domains (normalize_domains domain_to_ascii is_ip true (ArtifactParams.domains p))) _
            _ h in
        let (hash, _, h2) =
          bind-good (of_domains (hash_domains domain_to_ascii is_ip sha256 true domains)) _ _ h1 in
        let (joined, _, same) =
          bind-good (of_domains (join_domains domain_to_ascii is_ip true domains)) _ _ h2 in
        subst Rows (answered _ answer _ tables' same) rows

    -- In every state of the tables that the operations reach, each order's row counts one attempt
    -- more than retries, and has a time of completion if its status is activated, failed or
    -- revoked.
    pub Reached-IsSoundRow :
        (tables : Tables)
        → Reached domain_to_ascii is_ip sha256 encrypt tables
        → All IsSoundRow (Tables.orders tables)
    Reached-IsSoundRow tables at_first = tt
    Reached-IsSoundRow tables (by_creation p new_id now answer r unused e) =
        get_or_create_order-KeepsRows p new_id now _ (Reached-IsSoundRow _ r) answer tables e
    Reached-IsSoundRow tables (by_resumption key reason force now answer r e) =
        resume_order-KeepsRows key reason force now _ (Reached-IsSoundRow _ r) answer tables e
    Reached-IsSoundRow tables (by_transition key next options now answer r e) =
        transition_order-KeepsRows key next options now _ (Reached-IsSoundRow _ r) answer tables e
    Reached-IsSoundRow tables (by_failure key error at details now answer r e) =
        mark_failure-KeepsRows key error at details now _ (Reached-IsSoundRow _ r) answer tables e
    Reached-IsSoundRow tables (by_completion key certificate message details now answer r e) =
        complete-KeepsRows key certificate message details now _ (Reached-IsSoundRow _ r) answer
          tables e
    Reached-IsSoundRow tables (by_artifact p new_id now answer r e) =
        record_artifact-KeepsRows p new_id now _ (Reached-IsSoundRow _ r) answer tables e
