-- ===== src/Certificate/Order/Creation/History.antt =====
-- Every table state that the operations reach has a true history
-- (src/certificate/certificate-order.service.ts).
use lyttle_nginx.Prelude.{ℕ, ◌≡◌, ◌≢◌, Bool, Option, [], String, All}
use lyttle_nginx.Prelude.Results.{good}
use lyttle_nginx.Prelude.Texts.{Text}
use lyttle_nginx.Certificate.Order.{Status, Order, Event, Tables, Artifact}
use lyttle_nginx.Certificate.Order.Service.{
  TransitionOptions, resume_order, transition_order, mark_failure, complete_with_certificate,
}
use lyttle_nginx.Certificate.Order.Creation.{
  ArtifactParams, OrderParams, get_or_create_order, record_artifact,
}
use lyttle_nginx.Certificate.Order.Creation.Audit.{IsAudited}
use lyttle_nginx.Certificate.Order.Creation.Kept.{
  resume_order-Keeps, transition_order-Keeps, mark_failure-Keeps, complete-Keeps,
  get_or_create_order-Keeps, record_artifact-Keeps,
}

module _ (domain_to_ascii : Text → Text) (is_ip : Text → Bool) (sha256 : Text → Text)
    (encrypt : String → Text → ℕ → String × Option String) where
  -- The table states that the operations reach from empty tables. The id that the database
  -- chooses for a new order is on no event yet.
  pub data Reached : Tables → Type 0 where
    at_first : Reached (record { orders = []; events = []; artifacts = [] })
    by_creation :
        {before after : Tables} (p : OrderParams) (new_id : String) (now : ℕ) (answer : Order)
        → Reached before
        → All (λ e. Event.order_id e ≢ new_id) (Tables.events before)
        → get_or_create_order domain_to_ascii is_ip sha256 p new_id now before
          ≡ good (answer, after)
        → Reached after
    by_resumption :
        {before after : Tables} (key reason : String) (force : Bool) (now : ℕ) (answer : Order)
        → Reached before
        → resume_order key reason force now before ≡ good (answer, after)
        → Reached after
    by_transition :
        {before after : Tables} (key : String) (next : Status) (options : TransitionOptions)
        (now : ℕ) (answer : Order)
        → Reached before
        → transition_order key next options now before ≡ good (answer, after)
        → Reached after
    by_failure :
        {before after : Tables} (key error : String) (at : Option ℕ) (details : Option String)
        (now : ℕ) (answer : Order)
        → Reached before
        → mark_failure key error at details now before ≡ good (answer, after)
        → Reached after
    by_completion :
        {before after : Tables} (key certificate message : String) (details : Option String)
        (now : ℕ) (answer : Order)
        → Reached before
        → complete_with_certificate key certificate message details now before
          ≡ good (answer, after)
        → Reached after
    by_artifact :
        {before after : Tables} (p : ArtifactParams) (new_id : String) (now : ℕ) (answer : Artifact)
        → Reached before
        → record_artifact domain_to_ascii is_ip sha256 encrypt p new_id now before
          ≡ good (answer, after)
        → Reached after

  -- In every state of the tables that the operations reach, the events are a true history: each
  -- event that sets an order's status was recorded with the status that the order's events gave
  -- it before, and the last one gives the status that is in the order's row.
  pub Reached-IsAudited : (tables : Tables) → Reached tables → IsAudited tables
  Reached-IsAudited tables at_first = (tt, tt)
  Reached-IsAudited tables (by_creation p new_id now answer r unused e) =
      get_or_create_order-Keeps domain_to_ascii is_ip sha256 p new_id now _ unused
        (Reached-IsAudited _ r) answer tables e
  Reached-IsAudited tables (by_resumption key reason force now answer r e) =
      resume_order-Keeps key reason force now _ (Reached-IsAudited _ r) answer tables e
  Reached-IsAudited tables (by_transition key next options now answer r e) =
      transition_order-Keeps key next options now _ (Reached-IsAudited _ r) answer tables e
  Reached-IsAudited tables (by_failure key error at details now answer r e) =
      mark_failure-Keeps key error at details now _ (Reached-IsAudited _ r) answer tables e
  Reached-IsAudited tables (by_completion key certificate message details now answer r e) =
      complete-Keeps key certificate message details now _ (Reached-IsAudited _ r) answer tables e
  Reached-IsAudited tables (by_artifact p new_id now answer r e) =
      record_artifact-Keeps domain_to_ascii is_ip sha256 encrypt p new_id now _
        (Reached-IsAudited _ r) answer tables e
