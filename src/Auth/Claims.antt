-- ===== src/Auth/Claims.antt =====
-- JSON values and the readers of a token's claims (the private read and extract methods of
-- src/auth/auth.service.ts). A number is a whole one: no claim is read to a fraction of a second.
use lyttle_nginx.Prelude.{
  ℕ, String, Bool, true, false, ◌||◌, Option, none, some, List, [], ◌∷◌, ◌++◌, any, str_eq, leb,
  is_some, if◌then◌else◌,
}
use lyttle_nginx.Prelude.Numbers.{ℤ, pos, negsuc}
use lyttle_nginx.Prelude.Strings.{trimmed, no_text, words}
use lyttle_nginx.Auth.Role.{ActorType, admin, internal_node, text_set}

-- `infinite` is what JSON.parse makes of a number out of range, such as 1e999.
mutual
  pub data Json : Type 0 where
    null : Json
    boolean : Bool → Json
    number : ℤ → Json
    infinite : Json
    text : String → Json
    array : Items → Json
    object : Members → Json

  pub data Items : Type 0 where
    nil : Items
    cons : Json → Items → Items

  pub data Members : Type 0 where
    no_members : Members
    member : String → Json → Members → Members

abbrev pub is_null : Json → Bool
is_null null = true
is_null _ = false

abbrev pub lookup : String → Members → Option Json
lookup key no_members = none
lookup key (member k value ms) = if str_eq k key then some value else lookup key ms

-- `value[key]` on a value that is not null; the keys read name no property of another value that is
-- a text, a number, an array or an object.
abbrev pub property : Json → String → Option Json
property (object ms) key = lookup key ms
property _ key = none

-- readStringClaim
abbrev pub read_string : Option Json → Option String
read_string (some (text s)) = let t = trimmed s in if no_text t then none else some t
read_string _ = none

-- readNumericClaim
abbrev pub read_number : Option Json → Option ℤ
read_number (some (number i)) = some i
read_number _ = none

-- readRecordClaim
abbrev pub read_record : Option Json → Option Json
read_record (some (object ms)) = some (object ms)
read_record _ = none

abbrev pub item_texts : Items → List String
item_texts nil = []
item_texts (cons (text s) js) = if no_text (trimmed s) then item_texts js else s ∷ item_texts js
item_texts (cons _ js) = item_texts js

-- readStringArrayClaim: one text is trimmed, those of an array are as they stand.
unfoldable pub read_strings : Option Json → List String
unfolding trimmed
read_strings (some (text s)) = let t = trimmed s in if no_text t then [] else t ∷ []
read_strings (some (array js)) = item_texts js
read_strings _ = []

abbrev realm_roles : Option Json → List String
realm_roles none = []
realm_roles (some realm) = read_strings (property realm "roles")

unfoldable pub extract_roles : Json → List String
unfolding read_strings text_set
extract_roles payload = text_set [] (
    read_strings (property payload "roles")
    ++ read_strings (property payload "role")
    ++ realm_roles (read_record (property payload "realm_access")))

abbrev pub scope_words : Option String → List String
scope_words none = []
scope_words (some scope) = words scope

unfoldable pub extract_scopes : Json → List String
unfolding read_strings text_set words
extract_scopes payload = text_set [] (
    scope_words (read_string (property payload "scope"))
    ++ read_strings (property payload "scp")
    ++ read_strings (property payload "permissions"))

unfoldable pub extract_audience : Option Json → List String
unfolding read_strings
extract_audience value = read_strings value

abbrev pub includes_text : List String → String → Bool
includes_text texts value = any (λ t. str_eq t value) texts

abbrev pub claimed_actor : Option String → Option ActorType
claimed_actor none = none
claimed_actor (some claim) =
    if str_eq claim "admin"
    then some admin
    else if str_eq claim "internal-node"
    then some internal_node
    else none

abbrev actor_or : Option ActorType → Bool → ActorType
actor_or (some actor) node = actor
actor_or none node = if node then internal_node else admin

unfoldable pub resolve_actor_type : Json → ActorType
unfolding extract_scopes
resolve_actor_type payload =
    let scopes = extract_scopes payload in
    actor_or (claimed_actor (read_string (property payload "actor_type"))) (
      is_some (read_string (property payload "node_id"))
      || includes_text scopes "cluster:internal"
      || includes_text scopes "node:sync")

-- `time <= now` and `time > now`
abbrev pub reached : ℤ → ℕ → Bool
reached (pos n) now = leb n now
reached (negsuc n) now = true
