-- ===== src/Streams/Globals.antt =====
-- Global arrays on the stream: WriteDataJson and PutGlobalArray of
-- injection/include/plugins/engines/streamtemplate.h, behind the gather of the objects, whose result is
-- given. An object is seen as its local put data and what getPutData says of each.
use vnv.Base.{
  ℕ, zero, suc, ◌≡◌, refl, ap, ◌∙◌, Bool, true, false, List, [], ◌∷◌, Option, none, some, Str,
  if◌then◌else◌, ltb, ◌==◌, Outcome, ok, raise, fault, vnv_exception, bind, length, Act, pure,
  catch_vnv, throw, arith,
}
use vnv.Base.Int.{pos}
use vnv.Json.{empty_object}
use vnv.Transport.Grid.{accumulate}
use vnv.Streams.Soundness.{IsSound, write-Goes}
use vnv.Streams.Following.{nodes_of, numbered-write}
use vnv.Streams.{
  Files, CanWrite, SupportedDataType, double_type, long_type, string_type, json_type, Value, double,
  long, json, string, Meta, Child, Node, array_shape, global_array, Communicator, Manager, write,
}

-- `values` is what the pointer of getPutData leads to, or what getPutData throws.
pub record PutData : Type 0 where
  pub name : Str
  pub shape : List ℕ
  pub datatype : SupportedDataType
  pub values : Outcome (List Value)

-- The local put data in the order of their keys.
abbrev pub Datum : Type 0
Datum = List PutData

-- Reading behind the end of an array is undefined.
abbrev pub read_values : ℕ → List Value → Outcome (List Value)
read_values zero vs = ok []
read_values (suc n) [] = raise fault
read_values (suc n) (v ∷ vs) = bind (read_values n vs) λ rest. ok (v ∷ rest)

-- `shape` is empty for a single value.
abbrev pub count_of : List ℕ → ℕ
count_of [] = 1
count_of (n ∷ shape) = accumulate 1 (n ∷ shape)

-- The type of a JSON value goes under another key than that of the others.
abbrev pub dtype_of : SupportedDataType → Option SupportedDataType
dtype_of json_type = none
dtype_of type = some type

abbrev pub sdt_of : SupportedDataType → Option SupportedDataType
sdt_of json_type = some json_type
sdt_of _ = none

-- What getPutData throws of the library becomes another exception of the library.
abbrev pub child_json : PutData → Outcome Child
child_json p = bind p.values λ vs. bind (read_values (count_of p.shape) vs) λ taken. ok record {
  name = p.name;
  shape = p.shape;
  value = taken;
  dtype = dtype_of p.datatype;
  sdt = sdt_of p.datatype;
}

abbrev pub children_json : Datum → Outcome (List Child)
children_json [] = ok []
children_json (p ∷ ps) = bind (child_json p) λ c. bind (children_json ps) λ cs. ok (c ∷ cs)

-- A slot of the gather without an object has no children.
pub write_data_json : List (Option Datum) → Outcome (List (List Child))
write_data_json [] = ok []
write_data_json (none ∷ gather) = bind (write_data_json gather) λ rest. ok ([] ∷ rest)
write_data_json (some d ∷ gather) =
    bind (children_json d) λ c. bind (write_data_json gather) λ rest. ok (c ∷ rest)

-- The value for a slot without an object.
abbrev pub default_value : SupportedDataType → Value
default_value double_type = double 0
default_value long_type = long (pos 0)
default_value string_type = string []
default_value json_type = json empty_object

-- `getPutData(param)` of an object, whose first value is read.
abbrev pub first_value : Datum → Outcome Value
first_value [] = raise fault
first_value (p ∷ ps) = bind p.values λ vs. elim vs [ [] ↦ raise fault | v ∷ rest ↦ ok v ]

pub param_values : SupportedDataType → List (Option Datum) → Outcome (List Value)
param_values type [] = ok []
param_values type (none ∷ gather) =
    bind (param_values type gather) λ rest. ok (default_value type ∷ rest)
param_values type (some d ∷ gather) =
    bind (first_value d) λ v. bind (param_values type gather) λ rest. ok (v ∷ rest)

-- One value of no more than one dimension is written as a plain array.
abbrev pub is_plain : Datum → Bool
is_plain (p ∷ []) = ltb (length p.shape) 2
is_plain _ = false

module _ (good : Files) where
  -- `catch (VnVExceptionBase&)`, which leaves a message.
  abbrev pub write_children :
      (key : ℕ) (name : Str) (sizes : List ℕ) (m : Meta)
      → Outcome (List (List Child))
      → Act Manager (Unit {0})
  write_children key name sizes m (ok cs) =
      catch_vnv (write good (global_array name key sizes cs m)) (pure tt)
  write_children key name sizes m (raise vnv_exception) = pure tt
  write_children key name sizes m (raise e) = throw e

  abbrev pub write_params :
      (type : SupportedDataType) (name : Str) (sizes : List ℕ) (m : Meta)
      → Outcome (List Value)
      → Act Manager (Unit {0})
  write_params type name sizes m (ok vs) = write good (array_shape name type vs sizes m)
  write_params type name sizes m (raise e) = throw e

  abbrev pub write_gathered :
      (key : ℕ) (name : Str) (sizes : List ℕ) (m : Meta) (main : Datum)
      → List (Option Datum)
      → Act Manager (Unit {0})
  write_gathered key name sizes m [] gather = pure tt
  write_gathered key name sizes m (p ∷ ps) gather =
      if is_plain (p ∷ ps)
      then write_params p.datatype name sizes m (param_values p.datatype gather)
      else write_children key name sizes m (write_data_json gather)

  -- `main` is a fresh object of the type, or none where the type is not registered.
  pub put_global_array :
      (key : ℕ) (name : Str) (main : Option Datum) (gather : List (Option Datum)) (gsizes : List ℕ)
      (m : Meta)
      → Act Manager (Unit {0})
  unfolding write write_data_json param_values
  put_global_array key name main gather gsizes m s = elim s.comm [
    | none ↦ (raise fault, s)
    | some c ↦ elim gather [
      | [] ↦ (ok tt, s)
      | g ∷ gs ↦
          if c.rank == 0
          then elim main [
            | none ↦ (raise fault, s)
            | some d ↦ write_gathered key name gsizes m d (g ∷ gs) s
          ]
          else (ok tt, s)
    ]
  ]

  -- The values of the slots: that of an object, and where there is none the default of the type.
  abbrev pub Slots : SupportedDataType → List (Option Datum) → List Value → Type 0
  Slots type [] [] = Unit
  Slots type (none ∷ gather) (v ∷ vs) = (v ≡ default_value type) × Slots type gather vs
  Slots type (some d ∷ gather) (v ∷ vs) = (first_value d ≡ ok v) × Slots type gather vs
  Slots type _ _ = ⊥

  param_values-Slots :
      (type : SupportedDataType) (gather : List (Option Datum)) (vs : List Value)
      → Slots type gather vs
      → param_values type gather ≡ ok vs
  unfolding param_values
  param_values-Slots type [] [] h = refl
  param_values-Slots type [] (v ∷ vs) h = absurd h
  param_values-Slots type (none ∷ gather) [] h = absurd h
  param_values-Slots type (none ∷ gather) (v ∷ vs) (e, h) =
      rw (param_values-Slots type gather vs h, e) refl
  param_values-Slots type (some d ∷ gather) [] h = absurd h
  param_values-Slots type (some d ∷ gather) (v ∷ vs) (e, h) =
      rw (e, param_values-Slots type gather vs h) refl

  -- For a type whose only put data has no more than one dimension, the root of a communicator that is
  -- set up writes one node for the array, and in it for every slot of the gather the first value of its
  -- object, or the default of the type where it has none.
  pub put_plain_array :
      (rank_of : ℕ → ℕ) (all_good : CanWrite good) (c : Communicator) (s : Manager) (key : ℕ)
      (name : Str) (p : PutData) (g : Option Datum) (gs : List (Option Datum)) (gsizes : List ℕ)
      (m : Meta) (vs : List Value)
      → s.comm ≡ some c
      → c.rank ≡ 0
      → IsSound rank_of s
      → ltb (length p.shape) 2 ≡ true
      → Slots p.datatype (g ∷ gs) vs
      → let done = put_global_array key name (some (p ∷ [])) (g ∷ gs) gsizes m s in
        (done.0 ≡ ok tt) × (nodes_of done.1 ≡ array_shape name p.datatype vs gsizes m ∷ nodes_of s)
  unfolding put_global_array
  put_plain_array rank_of all_good c s key name p g gs gsizes m vs e root i plain slots =
      let node : Node = array_shape name p.datatype vs gsizes m in
      let (done, _) = write-Goes rank_of good all_good node s c e root i in
      let same : put_global_array key name (some (p ∷ [])) (g ∷ gs) gsizes m s ≡ write good node s =
        ground (arith, param_values-Slots p.datatype (g ∷ gs) vs) in
      (ap (λ x. x.0) same ∙ done, ap (λ x. nodes_of x.1) same ∙ numbered-write good c node s e done)
