-- ===== src/Json.antt =====
-- Values of a decoded JSON document, as Python's json module returns them. Numbers are integers.
use tsg.Base.{String, Bool, true, false, not, Option, none, some, if◌then◌else◌, ◌==◌, string_eq}
use tsg.Base.Number.{ℤ, pos, eqb_ℤ}

mutual
  pub data Json : Type 0 where
    null : Json
    bool : Bool → Json
    num : ℤ → Json
    str : String → Json
    arr : Items → Json
    obj : Fields → Json

  pub data Items : Type 0 where
    nil : Items
    cons : Json → Items → Items

  pub data Fields : Type 0 where
    end : Fields
    field : String → Json → Fields → Fields

-- `d.get(key)`
abbrev pub get : Fields → String → Option Json
get end key = none
get (field k v rest) key = if k == key then some v else get rest key

-- `bool(value)`
abbrev pub truthy : Json → Bool
truthy Json.null = false
truthy (Json.bool b) = b
truthy (Json.num n) = not (eqb_ℤ n (pos 0))
truthy (Json.str t) = not (t == "")
truthy (Json.arr Items.nil) = false
truthy (Json.arr _) = true
truthy (Json.obj Fields.end) = false
truthy (Json.obj _) = true

-- The dict or the list that a value is; the empty one where it is another value.
abbrev pub fields_of : Json → Fields
fields_of (Json.obj fs) = fs
fields_of _ = Fields.end

abbrev pub items_of : Json → Items
items_of (Json.arr xs) = xs
items_of _ = Items.nil
