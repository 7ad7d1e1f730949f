-- ===== src/Certificate/Order/Creation/Audit.antt =====
-- The events of an order are its history (src/certificate/certificate-order.service.ts).
use lyttle_nginx.Prelude.{
  find_first, or_option, ◌≡◌, ◌≢◌, refl, sym, ap, ◌∙◌, subst, Bool, true, false, Option, none, some,
  List, [], ◌∷◌, String, str_eq, eq_iff, Bool-cases, ◌⊎◌, inl, inr, if◌then◌else◌, All,
}
use lyttle_nginx.Certificate.Order.{Status, Order, Event, Tables, find_order, update_order}

-- The last status that the events (the newest first) give the order.
abbrev pub last_status : String → List Event → Option Status
last_status key [] = none
last_status key (e ∷ es) =
    let before = last_status key es in
    if str_eq (Event.order_id e) key then or_option (Event.to_status e) before else before

-- Each event that sets a status was recorded with the status that the order had before it.
abbrev pub IsChain : List Event → Type 0
IsChain [] = Unit
IsChain (e ∷ es) =
    ((Event.to_status e ≡ none) ⊎ (Event.from_status e ≡ last_status (Event.order_id e) es))
    × IsChain es

-- The events form a chain, and the last one tells each order's status.
abbrev pub IsAudited : Tables → Type 0
IsAudited tables =
    All (λ o. last_status (Order.id o) (Tables.events tables) ≡ some (Order.status o))
      (Tables.orders tables)
    × IsChain (Tables.events tables)

some-inj : (p o : Order) → some p ≡ some o → p ≡ o
some-inj p o h = cc

on-if :
    (b : Bool) (P : Order → Type 0) (x y : Order)
    → (b ≡ true → P x)
    → (b ≡ false → P y)
    → P (if b then x else y)
on-if true P x y h k = h refl
on-if false P x y h k = k refl

-- An event's own order and the others.
pub pushed :
    (e : Event) (es : List Event) (key : String) (s : Status)
    → str_eq (Event.order_id e) key ≡ true
    → Event.to_status e ≡ some s
    → last_status key (e ∷ es) ≡ some s
pushed e es key s hit to = rw hit (rw to (refl))

pub passed_by :
    (e : Event) (es : List Event) (key : String)
    → str_eq (Event.order_id e) key ≡ false
    → last_status key (e ∷ es) ≡ last_status key es
passed_by e es key miss = rw miss (refl)

find_order-status :
    (key : String) (events : List Event) (orders : List Order) (o : Order)
    → All (λ o'. last_status (Order.id o') events ≡ some (Order.status o')) orders
    → find_first (λ o'. str_eq (Order.id o') key) orders ≡ some o
    → last_status key events ≡ some (Order.status o)
find_order-status key events [] o h e = cc
find_order-status key events (p ∷ ps) o h e = elim (Bool-cases (str_eq (Order.id p) key)) [
  | inl hit ↦
      let same : p ≡ o = some-inj p o (rw hit at e) in
      subst (λ o'. last_status key events ≡ some (Order.status o')) same
        (subst (λ k. last_status k events ≡ some (Order.status p)) ((eq_iff _ _).0 hit) h.0)
  | inr other ↦ find_order-status key events ps o h.1 (rw other at e)
]

-- An event that sets no status, or repeats it.
abbrev pub IsSteady : Event → List Event → Type 0
IsSteady e es = (Event.to_status e ≡ none) ⊎ (Event.to_status e ≡ last_status (Event.order_id e) es)

or_option_idem : (o : Option Status) → or_option o o ≡ o
or_option_idem none = refl
or_option_idem (some s) = refl

last_status-steady :
    (e : Event) (es : List Event) (key : String)
    → IsSteady e es
    → last_status key (e ∷ es) ≡ last_status key es
last_status-steady e es key steady = elim (Bool-cases (str_eq (Event.order_id e) key)) [
  | inl hit ↦ elim steady [
    | inl silent ↦ rw hit (rw silent (refl))
    | inr repeats ↦
        let e' : Event.to_status e ≡ last_status key es =
          repeats ∙ ap (λ k. last_status k es) ((eq_iff _ _).0 hit) in
        rw hit (rw e' (or_option_idem (last_status key es)))
  ]
  | inr other ↦ passed_by e es key other
]

rows-steady :
    (e : Event) (es : List Event) (orders : List Order)
    → IsSteady e es
    → All (λ o. last_status (Order.id o) es ≡ some (Order.status o)) orders
    → All (λ o. last_status (Order.id o) (e ∷ es) ≡ some (Order.status o)) orders
rows-steady e es [] steady h = tt
rows-steady e es (o ∷ os) steady (h, hs) =
    (last_status-steady e es (Order.id o) steady ∙ h, rows-steady e es os steady hs)

pub steady-IsAudited :
    (e : Event) (tables : Tables)
    → IsSteady e (Tables.events tables)
    → (Event.to_status e ≡ none)
      ⊎ (Event.from_status e ≡ last_status (Event.order_id e) (Tables.events tables))
    → IsAudited tables
    → IsAudited (record tables { events = e ∷ Tables.events tables })
steady-IsAudited e tables steady linked (rows, chain) =
    (rows-steady e (Tables.events tables) (Tables.orders tables) steady rows, (linked, chain))

pub unused-none :
    (key : String) (es : List Event)
    → All (λ e. Event.order_id e ≢ key) es
    → last_status key es ≡ none
unused-none key [] h = refl
unused-none key (e ∷ es) (h, hs) = elim (Bool-cases (str_eq (Event.order_id e) key)) [
  | inl hit ↦ absurd (h ((eq_iff _ _).0 hit))
  | inr other ↦ passed_by e es key other ∙ unused-none key es hs
]

-- A new order's first event leaves the other rows as they are.
pub rows-created :
    (e : Event) (es : List Event) (orders : List Order)
    → last_status (Event.order_id e) es ≡ none
    → All (λ o. last_status (Order.id o) es ≡ some (Order.status o)) orders
    → All (λ o. last_status (Order.id o) (e ∷ es) ≡ some (Order.status o)) orders
rows-created e es [] unused h = tt
rows-created e es (o ∷ os) unused (h, hs) =
    (passed_by e es (Order.id o) other ∙ h, rows-created e es os unused hs)
  where
    other : str_eq (Event.order_id e) (Order.id o) ≡ false
    other = elim (Bool-cases (str_eq (Event.order_id e) (Order.id o))) [
      | inl hit ↦
          let no : none ≡ some (Order.status o) =
            sym unused ∙ ap (λ k. last_status k es) ((eq_iff _ _).0 hit) ∙ h in
          cc
      | inr miss ↦ miss
    ]

-- One row's change with its event.
module _ (key : String) (change : Order → Order) (event : Event) (s : Status)
    (same_id : (o : Order) → Order.id (change o) ≡ Order.id o)
    (to : (o : Order) → Order.status (change o) ≡ s) (of_key : Event.order_id event ≡ key)
    (says : Event.to_status event ≡ some s) where
  differs : (id : String) → str_eq id key ≡ false → str_eq (Event.order_id event) id ≡ false
  differs id h = elim (Bool-cases (str_eq (Event.order_id event) id)) [
    | inl equal ↦
        let back : str_eq id key ≡ true = (eq_iff _ _).1 (sym ((eq_iff _ _).0 equal) ∙ of_key) in cc
    | inr other ↦ other
  ]

  update_order-All :
      (events : List Event) (orders : List Order)
      → All (λ o. last_status (Order.id o) events ≡ some (Order.status o)) orders
      → All
          (λ o. last_status (Order.id o) (event ∷ events) ≡ some (Order.status o))
          (update_order key change orders)
  update_order-All events [] h = tt
  update_order-All events (o ∷ os) (h, hs) = (
    on-if (str_eq (Order.id o) key)
        (λ o'. last_status (Order.id o') (event ∷ events) ≡ some (Order.status o')) (change o) o
        (λ hit.
          pushed event events (Order.id (change o)) s
            ((eq_iff _ _).1 (of_key ∙ sym ((eq_iff _ _).0 hit) ∙ sym (same_id o))) says
          ∙ ap some (sym (to o)))
        (λ other. passed_by event events (Order.id o) (differs (Order.id o) other) ∙ h),
    update_order-All events os hs,
  )

  -- When the event was recorded with the status of the row that the key finds.
  pub update-IsAudited :
      (tables : Tables) (o : Order)
      → IsAudited tables
      → find_order key tables ≡ some o
      → Event.from_status event ≡ some (Order.status o)
      → IsAudited (record tables {
        orders = update_order key change (Tables.orders tables);
        events = event ∷ Tables.events tables;
      })
  update-IsAudited tables o (rows, chain) there from = (
    update_order-All (Tables.events tables) (Tables.orders tables) rows,
    (
      inr (
          from
          ∙ sym (find_order-status key (Tables.events tables) (Tables.orders tables) o rows there)
          ∙ ap (λ k. last_status k (Tables.events tables)) (sym of_key)),
      chain,
    ),
  )
