-- ===== src/Json.antt =====
-- Python's JSON values, as `json.loads` returns them and the JSONB columns hold them.
-- The codec itself (the standard library's `json`) is a parameter: see `Codec`.
pub mod Laws
use unith_task.Prelude.{
  ℕ, zero, suc, String, Bool, true, false, not, Option, none, some, ◌≡◌, Bytes, ◌==◌, str_eq,
  is_empty, if◌then◌else◌,
}

-- A decimal number: the coefficient with `scale` digits behind the point.
pub record Number : Type 0 where
  pub is_negative : Bool
  pub coefficient : ℕ
  pub scale : ℕ

mutual
  pub data Value : Type 0 where
    null : Value
    boolean : Bool → Value
    number : Number → Value
    text : String → Value
    array : Items → Value
    object : Fields → Value

  pub data Items : Type 0 where
    nil : Items
    cons : Value → Items → Items

  -- A dict, in the order of insertion.
  pub data Fields : Type 0 where
    empty : Fields
    field : String → Value → Fields → Fields

-- d.get(k)
unfoldable pub get : String → Fields → Option Value
get k empty = none
get k (field j v d) = if str_eq j k then some v else get k d

-- d[k] = v, and `{**d, k: v}`: an old key keeps its place.
unfoldable pub put : String → Value → Fields → Fields
put k v empty = field k v empty
put k v (field j w d) = if str_eq j k then field j v d else field j w (put k v d)

-- len(d)
unfoldable pub size : Fields → ℕ
size empty = 0
size (field k v d) = suc (size d)

abbrev pub get_or : String → Value → Fields → Value
get_or k default d = elim (get k d) [ none ↦ default | some v ↦ v ]

-- bool(v)
unfoldable pub is_truthy : Value → Bool
is_truthy null = false
is_truthy (boolean b) = b
is_truthy (number n) = not (n.coefficient == 0)
is_truthy (text s) = not (is_empty s)
is_truthy (array nil) = false
is_truthy (array (cons v vs)) = true
is_truthy (object empty) = false
is_truthy (object (field k v d)) = true

-- `a or b`
abbrev pub value_or : Option Value → Value → Value
value_or none b = b
value_or (some a) b = if is_truthy a then a else b

abbrev pub as_text : Value → Option String
as_text (text s) = some s
as_text _ = none

abbrev pub whole : ℕ → Value
whole n = number (record { is_negative = false; coefficient = n; scale = 0 })

-- The standard library's `json`: `dumps(…).encode()`, `dumps(…, separators=(",", ":"))`, `loads`.
pub record Codec : Type 0 where
  pub dumps : Value → Bytes
  pub dumps_compact : Value → Bytes
  pub loads : Bytes → Option Value

-- What its documentation says of a value that came from JSON: what `dumps` writes, `loads` reads back.
abbrev pub RoundTrips : Codec → Value → Type 0
RoundTrips c v = c.loads (c.dumps v) ≡ some v
