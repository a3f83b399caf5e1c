-- ===== src/Agent/Payload.antt =====
-- Reading of JSON payloads, as agent/codex_translator.py and agent/opencode_translator.py both do
-- it: `payload[key]`, `payload.get(key)` and the tests of a value's type.
use aw_bot.Prelude.{zero, String, Bool, false, true, Option, none, some, str_eq, if◌then◌else◌}
use aw_bot.Prelude.Int.{ℤ, pos}
use aw_bot.Prelude.Json.{
  Json, null, bool, int, float, str, arr, obj, Items, nil, cons, Fields, end, field,
}
use aw_bot.Prelude.Action.{Result, return, raise}
use aw_bot.Prelude.Fallible.{◌>>=◌}
use aw_bot.Prelude.Text.{truthy}

-- KeyError, TypeError and ValueError. `no_text` is no exception: the code goes on with a value of
-- `key` that is true and no text, which an event of the model cannot hold.
pub data PayloadError : Type 0 where
  key_error type_error value_error no_text : (key : String) → PayloadError

abbrev pub Checked : Type 0 → Type 0
Checked A = Result PayloadError A

-- What Python's `str` gives for a value that is no text, what `json.dumps` writes, and whether the
-- float with a literal is other than zero.
pub record Builtins : Type 0 where
  pub to_str : Json → String
  pub dumps : Json → String
  pub float_truth : String → Bool

-- The value of a key. The keys of a dict are distinct, so the first one is the only one.
unfoldable pub lookup : Fields → String → Option Json
lookup end key = none
lookup (field k v rest) key = if str_eq k key then some v else lookup rest key

-- `x is not None`, for a value that may be missing
unfoldable pub not_none : Option Json → Option Json
not_none none = none
not_none (some null) = none
not_none (some v) = some v

-- `payload.get(key)`, with None for a missing key and for `null`
abbrev pub get : Fields → String → Option Json
get payload key = not_none (lookup payload key)

-- `d[key] = value`: a key that is there keeps its place.
unfoldable pub set_field : String → Json → Fields → Fields
set_field key v end = field key v end
set_field key v (field k w rest) =
    if str_eq k key then field key v rest else field k w (set_field key v rest)

abbrev pub or_key_error : String → Option Json → Checked Json
or_key_error key none = raise (key_error key)
or_key_error key (some v) = return v

-- `payload[key]`
unfoldable pub item : Fields → String → Checked Json
item payload key = or_key_error key (lookup payload key)

abbrev pub as_str : String → Json → Checked String
as_str key (str text) = return text
as_str key v = raise (type_error key)

abbrev pub as_obj : String → Json → Checked Fields
as_obj key (obj fields) = return fields
as_obj key v = raise (type_error key)

abbrev pub as_arr : String → Json → Checked Items
as_arr key (arr items) = return items
as_arr key v = raise (type_error key)

abbrev pub as_bool : String → Json → Checked Bool
as_bool key (bool b) = return b
as_bool key v = raise (type_error key)

-- `isinstance(value, int)` holds of a bool too, which counts as 0 or 1.
abbrev pub as_int : String → Json → Checked ℤ
as_int key (int i) = return i
as_int key (bool false) = return (pos 0)
as_int key (bool true) = return (pos 1)
as_int key v = raise (type_error key)

-- `_required_str` and the like
unfoldable pub required_str : Fields → String → Checked String
required_str payload key = do v ← item payload key; as_str key v

unfoldable pub required_dict : Fields → String → Checked Fields
required_dict payload key = do v ← item payload key; as_obj key v

unfoldable pub required_list : Fields → String → Checked Items
required_list payload key = do v ← item payload key; as_arr key v

unfoldable pub required_bool : Fields → String → Checked Bool
required_bool payload key = do v ← item payload key; as_bool key v

unfoldable pub required_int : Fields → String → Checked ℤ
required_int payload key = do v ← item payload key; as_int key v

abbrev pub str_or_none : String → Option Json → Checked (Option String)
str_or_none key none = return none
str_or_none key (some (str text)) = return (some text)
str_or_none key (some v) = raise (type_error key)

-- `_optional_str`
unfoldable pub optional_str : Fields → String → Checked (Option String)
optional_str payload key = str_or_none key (get payload key)

-- The value of `key` in a value that may be no dict, for which Python raises TypeError.
unfoldable pub str_in : Json → String → Checked String
str_in (obj payload) key = required_str payload key
str_in v key = raise (type_error key)

module _ (python : Builtins) where
  -- Truth of a value in a test.
  unfoldable pub is_true : Json → Bool
  is_true null = false
  is_true (bool b) = b
  is_true (int (pos zero)) = false
  is_true (int i) = true
  is_true (float literal) = python.float_truth literal
  is_true (str text) = truthy text
  is_true (arr nil) = false
  is_true (arr (cons v rest)) = true
  is_true (obj end) = false
  is_true (obj (field k v rest)) = true

  -- `payload.get(key) or other`
  unfoldable pub get_or : Option Json → Json → Json
  get_or none other = other
  get_or (some v) other = if is_true v then v else other

  -- `str(value)`
  unfoldable pub str_of : Json → String
  str_of (str text) = text
  str_of v = python.to_str v
