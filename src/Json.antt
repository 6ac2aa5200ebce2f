-- ===== src/Json.antt =====
-- Documents as `json.loads` gives them: the values that the management protocol, the policy and the feeds
-- test by `isinstance` (aegorx/management/protocol.py, aegorx/policy.py, aegorx/signing/feed.py).
--
-- `negative n` is the number -1 - n. A float is its sign and its magnitude, a multiple of 2 ^ -1074; NaN and
-- the infinities, which JSON has not, are left out. A `dict` has each key once.
use aegor_x.Prelude.{
  ℕ, ◌^◌, String, Bool, true, false, not, Option, none, some, List, [], ◌∷◌, ◌≐◌, ltb,
  if◌then◌else◌,
}

mutual
  pub data Json : Type 0 where
    null : Json
    boolean : Bool → Json
    whole : ℕ → Json
    negative : ℕ → Json
    float : Bool → ℕ → Json
    text : String → Json
    array : Items → Json
    object : Fields → Json

  pub data Items : Type 0 where
    nil : Items
    item : Json → Items → Items

  pub data Fields : Type 0 where
    end : Fields
    field : String → Json → Fields → Fields

-- How many units of a float make 1. Shut, so that the numeral stays small in proofs.
unfoldable pub unit : ℕ
unit = 2 ^ 1074

-- doc.get(key)
unfoldable pub get : String → Fields → Option Json
get key end = none
get key (field k v fs) = let rest = get key fs in if k ≐ key then some v else rest

-- The keys of a `dict`, and the elements of a list.
abbrev pub keys : Fields → List String
keys end = []
keys (field k v fs) = k ∷ keys fs

abbrev pub elements : Items → List Json
elements nil = []
elements (item x xs) = x ∷ elements xs

abbrev pub items_of : List Json → Items
items_of [] = nil
items_of (x ∷ xs) = item x (items_of xs)

-- isinstance(x, str), isinstance(x, dict) and isinstance(x, list), with what x is then
unfoldable pub text_of : Json → Option String
text_of (text s) = some s
text_of _ = none

unfoldable pub fields_of : Json → Option Fields
fields_of (object fs) = some fs
fields_of _ = none

unfoldable pub list_of : Json → Option (List Json)
list_of (array xs) = some (elements xs)
list_of _ = none

-- doc.get(key), where it is a text
unfoldable pub text_at : String → Fields → Option String
unfolding get text_of
text_at key fs = elim (get key fs) [ none ↦ none | some j ↦ text_of j ]

-- Python's truth of a value, as in `x or default`
unfoldable pub is_true : Json → Bool
is_true null = false
is_true (boolean b) = b
is_true (whole n) = ltb 0 n
is_true (negative n) = true
is_true (float s n) = ltb 0 n
is_true (text s) = not (s ≐ "")
is_true (array nil) = false
is_true (array (item x xs)) = true
is_true (object end) = false
is_true (object (field k v fs)) = true

-- d.setdefault(key, value)
unfoldable pub set_default : String → Json → Fields → Fields
set_default key v end = field key v end
set_default key v (field k w fs) =
    let rest = set_default key v fs in if k ≐ key then field k w fs else field k w rest
