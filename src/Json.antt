-- ===== src/Json.antt =====
-- JSON values as the core reads and builds them. The library nlohmann::json is not part of the
-- repository: a value here is the data that it documents, an object keeping its keys in order.
use vnv.Base.{
  Bool, List, [], ◌∷◌, Option, none, some, Str, str_eq, str_less, if◌then◌else◌, Outcome, ok, raise,
  standard,
}
use vnv.Base.Int.{ℤ}

mutual
  pub data Json : Type 0 where
    null : Json
    boolean : Bool → Json
    number : ℤ → Json
    string : Str → Json
    array : Items → Json
    object : Fields → Json

  pub data Items : Type 0 where
    nil : Items
    cons : Json → Items → Items

  pub data Fields : Type 0 where
    done : Fields
    field : Str → Json → Fields → Fields

-- The members of an object in the order of their keys.
abbrev pub members : Fields → List (Str × Json)
members done = []
members (field k v fs) = (k, v) ∷ members fs

abbrev pub elements : Items → List Json
elements nil = []
elements (cons v vs) = v ∷ elements vs

abbrev pub find_field : Str → Fields → Option Json
find_field a done = none
find_field a (field b v fs) = if str_eq a b then some v else find_field a fs

abbrev pub put_field : Str → Json → Fields → Fields
put_field a v done = field a v done
put_field a v (field b w fs) =
    if str_eq a b
    then field a v fs
    else if str_less a b
    then field a v (field b w fs)
    else field b w (put_field a v fs)

-- `j.find(key)`: nothing is found in a value that is no object.
abbrev pub find_member : Str → Json → Option Json
find_member a (object fs) = find_field a fs
find_member a _ = none

-- `j[key] = v`. On a value that is neither null nor an object it throws.
abbrev pub put : Str → Json → Json → Outcome Json
put a v null = ok (object (field a v done))
put a v (object fs) = ok (object (put_field a v fs))
put a v _ = raise standard

-- `j.get<std::string>()` and `j.get<bool>()` throw on a value of another type.
abbrev pub get_string : Json → Outcome Str
get_string (string s) = ok s
get_string _ = raise standard

abbrev pub get_bool : Json → Outcome Bool
get_bool (boolean b) = ok b
get_bool _ = raise standard

abbrev pub empty_object : Json
empty_object = object done
