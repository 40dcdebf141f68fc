-- ===== src/Events/Redaction.antt =====
-- autoweave/events/redaction.py: values under secret keys are replaced. A key is compared by code
-- points. `str.lower` matters here only where it yields ASCII, which the markers are: for A to Z,
-- for the Kelvin sign and for the capital I with a dot; other characters stay as they are.
pub mod Clean
use Prim.Native.Char.{code}
use autoweave_library.Common.Int.{ℤ}
use autoweave_library.Common.{
  ◌≡◌, refl, ℕ, ◌+◌, Bool, true, false, not, ◌&&◌, ◌||◌, Option, none, some, List, [], ◌∷◌, map,
  String, any, leb, if◌then◌else◌, ◌==◌, nat_eq, string_eq,
}

-- The values of a JSON document; a number with a fraction is kept as it is written.
pub data Scalar : Type 0 where
  null : Scalar
  boolean : Bool → Scalar
  number : ℤ → Scalar
  float : String → Scalar
  text : String → Scalar

mutual
  pub data Json : Type 0 where
    leaf : Scalar → Json
    array : JsonItems → Json
    object : JsonFields → Json

  pub data JsonItems : Type 0 where
    nil : JsonItems
    item : Json → JsonItems → JsonItems

  pub data JsonFields : Type 0 where
    end : JsonFields
    field : String → Json → JsonFields → JsonFields

unfoldable pub redacted_value : String
redacted_value = "[REDACTED]"

unfoldable pub secret_key_markers : List String
secret_key_markers =
    "secret" ∷ "token" ∷ "password" ∷ "passwd" ∷ "private_key" ∷ "api_key" ∷ "apikey" ∷ "access_key"
    ∷ "credential" ∷ "auth" ∷ "bearer" ∷ []

abbrev pub codes : String → List ℕ
codes String.[] = []
codes (String.◌∷◌ c s) = code c ∷ codes s

unfoldable pub lower_codes : List ℕ → List ℕ
lower_codes [] = []
lower_codes (c ∷ cs) =
    if leb 65 c && leb c 90
    then (c + 32) ∷ lower_codes cs
    else if c == 8490
    then 107 ∷ lower_codes cs
    else if c == 304
    then 105 ∷ 775 ∷ lower_codes cs
    else c ∷ lower_codes cs

unfoldable pub is_prefix : List ℕ → List ℕ → Bool
is_prefix [] t = true
is_prefix (c ∷ s) [] = false
is_prefix (c ∷ s) (d ∷ t) = c == d && is_prefix s t

unfoldable pub is_infix : List ℕ → List ℕ → Bool
unfolding is_prefix
is_infix part [] = is_prefix part []
is_infix part (c ∷ s) = is_prefix part (c ∷ s) || is_infix part s

unfoldable pub is_secret_key : String → Bool
unfolding lower_codes is_infix secret_key_markers
is_secret_key key =
    let lowered = lower_codes (codes key) in
    any (λ marker. is_infix (codes marker) lowered) secret_key_markers

-- `key is not None and is_secret_key(key)`
unfoldable pub is_hidden : Option String → Bool
unfolding is_secret_key
is_hidden none = false
is_hidden (some key) = is_secret_key key

unfoldable mutual
  unfolding is_hidden redacted_value

  pub redact_value : Option String → Json → Json
  redact_value key (leaf s) = if is_hidden key then leaf (text redacted_value) else leaf s
  redact_value key (array items) =
      if is_hidden key then leaf (text redacted_value) else array (redact_items key items)
  redact_value key (object fields) =
      if is_hidden key then leaf (text redacted_value) else object (redact_fields fields)

  pub redact_items : Option String → JsonItems → JsonItems
  redact_items key nil = nil
  redact_items key (item v items) = item (redact_value key v) (redact_items key items)

  pub redact_fields : JsonFields → JsonFields
  redact_fields end = end
  redact_fields (field k v fields) = field k (redact_value (some k) v) (redact_fields fields)

unfoldable pub redact_payload : Option JsonFields → JsonFields
unfolding redact_fields
redact_payload none = end
redact_payload (some payload) = redact_fields payload

upper_case_key : is_secret_key "OPENHANDS_API_KEY" ≡ true
unfolding is_secret_key
upper_case_key = refl
