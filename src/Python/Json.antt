-- ===== src/Python/Json.antt =====
-- JSON values, as Python's `Any` holds them in SARIF properties. A number is counted in
-- thousandths: the scores of the program have at most three decimals, and lines are whole.
use omniscan.Prelude.{
  ℕ, String, Bool, true, false, none, some, List, [], ◌∷◌, if◌then◌else◌, ◌==◌, eqb,
}
use omniscan.Prelude.Try.{Try, ok, raise, other_error}
use omniscan.Prelude.Dict.{Dict, lookup}

mutual
  pub data Json : Type 0 where
    null : Json
    boolean : Bool → Json
    num : ℕ → Json
    str : String → Json
    arr : Items → Json
    obj : Fields → Json

  pub data Items : Type 0 where
    nil : Items
    cons : Json → Items → Items

  pub data Fields : Type 0 where
    end : Fields
    field : String → Json → Fields → Fields

-- `dict[str, Any]`
abbrev pub JsonDict : Type 0
JsonDict = Dict Json

-- `bool(value)`
unfoldable pub json_truthy : Json → Bool
json_truthy null = false
json_truthy (boolean b) = b
json_truthy (num n) = if eqb n 0 then false else true
json_truthy (str s) = if s == "" then false else true
json_truthy (arr nil) = false
json_truthy (arr (cons x xs)) = true
json_truthy (obj end) = false
json_truthy (obj (field k x r)) = true

-- The dictionary of an object, and the list of an array.
unfoldable pub dict_of : Fields → JsonDict
dict_of end = []
dict_of (field k v r) = (k, v) ∷ dict_of r

unfoldable pub list_of : Items → List Json
list_of nil = []
list_of (cons x xs) = x ∷ list_of xs

unfoldable pub items_of : List Json → Items
items_of [] = nil
items_of (x ∷ xs) = cons x (items_of xs)

unfoldable pub fields_of : JsonDict → Fields
fields_of [] = end
fields_of ((k, v) ∷ d) = field k v (fields_of d)

-- A value on which `.get` or `.items` is called: anything but a dict has no such method.
unfoldable pub as_dict : Json → Try JsonDict
unfolding dict_of
as_dict (obj r) = ok (dict_of r)
as_dict _ = raise (other_error "object has no attribute 'get'")

-- A value that a `for` runs over, whose items are used as dicts: of a text or a dict the items are
-- texts, so only the empty ones pass.
unfoldable pub as_list : Json → Try (List Json)
unfolding list_of
as_list (arr xs) = ok (list_of xs)
as_list (obj end) = ok []
as_list (str s) = if s == "" then ok [] else raise (other_error "string indices must be integers")
as_list _ = raise (other_error "object is not iterable")

-- `d.get(key, default)`, `d.get(key)`
unfoldable pub get_or : String → Json → JsonDict → Json
get_or key default d = elim (lookup key d) [ none ↦ default | some v ↦ v ]

unfoldable pub value_at : String → JsonDict → Json
unfolding get_or
value_at key = get_or key null

-- `a or b`
unfoldable pub or_else : Json → Json → Json
or_else a b = if json_truthy a then a else b
