-- ===== src/Value.antt =====
-- The values that `json.loads` and Flask's `get_json` hand to the handlers, with the Python
-- operations that the handlers apply to them: `d.get(k)`, `d.get(k, default)`, truth, `a or b`,
-- `str(v)` and `int(v)`.
-- A text is a sequence of Unicode scalar values. `json.loads` also makes strings with lone
-- surrogates of escapes such as "\ud800", which no `encode('utf-8')` and no statement of SQLite
-- takes; they are no values here, so the encodings below are total.
-- A float is kept by what the code observes of it: its `repr`, whether it is zero, and what `int`
-- makes of it. The `repr` of a list or a dict is a parameter.
use chat_app_csd.Prelude.{
  List, [], ◌∷◌, zero, String, Bool, true, false, not, Option, none, some, ℤ, pos, is_empty,
  str_int, int_of_text, ◌==◌, if◌then◌else◌, ◌≡◌, arith,
}

-- How `int(v)` ends.
pub data Conversion : Type 0 where
  whole : ℤ → Conversion
  value_error type_error overflow_error : Conversion

pub record Float : Type 0 where
  pub shown : String
  pub is_zero : Bool
  pub trunc : Conversion

mutual
  pub data Value : Type 0 where
    null : Value
    bool : Bool → Value
    int : ℤ → Value
    float : Float → Value
    text : String → Value
    list : Items → Value
    dict : Fields → Value

  pub data Fields : Type 0 where
    end : Fields
    field : String → Value → Fields → Fields

  pub data Items : Type 0 where
    nil : Items
    cons : Value → Items → Items

-- A list of values as one value's items.
abbrev pub items_of : List Value → Items
items_of [] = nil
items_of (v ∷ vs) = cons v (items_of vs)

-- `d.get(k, default)`
unfoldable pub get_or : Value → Fields → String → Value
get_or default end k = default
get_or default (field j v d) k = if j == k then v else get_or default d k

-- `d.get(k)`
unfoldable pub get : Fields → String → Value
unfolding get_or
get = get_or null

abbrev zero_int : ℤ → Bool
zero_int (pos zero) = true
zero_int _ = false

-- `bool(v)`
unfoldable pub truthy : Value → Bool
truthy null = false
truthy (bool b) = b
truthy (int n) = not (zero_int n)
truthy (float f) = not f.is_zero
truthy (text s) = not (is_empty s)
truthy (list nil) = false
truthy (list (cons v vs)) = true
truthy (dict end) = false
truthy (dict (field k v d)) = true

infixr 30 ◌or◌
-- `a or b`
unfoldable pub ◌or◌ : Value → Value → Value
unfolding truthy
a or b = if truthy a then a else b

-- `str(v)`; `repr` writes lists and dicts
unfoldable pub str : (Value → String) → Value → String
str repr null = "None"
str repr (bool true) = "True"
str repr (bool false) = "False"
str repr (int n) = str_int n
str repr (float f) = f.shown
str repr (text s) = s
str repr (list vs) = repr (list vs)
str repr (dict d) = repr (dict d)

abbrev read_numeral : Option ℤ → Conversion
read_numeral none = value_error
read_numeral (some n) = whole n

-- `int(v)`
unfoldable pub to_int : Value → Conversion
to_int null = type_error
to_int (bool true) = whole (pos 1)
to_int (bool false) = whole (pos 0)
to_int (int n) = whole n
to_int (float f) = f.trunc
to_int (text s) = read_numeral (int_of_text s)
to_int (list vs) = type_error
to_int (dict d) = type_error

-- The first text that is not empty, as `str(a or b or "")` finds it.
pub str-or-text :
    (repr : Value → String) (s : String) (rest : Value)
    → is_empty s ≡ false
    → str repr (text s or rest) ≡ s
unfolding str ◌or◌
str-or-text repr s rest h = ground arith
