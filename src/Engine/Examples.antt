-- ===== src/Engine/Examples.antt =====
-- The names of the enumerations at work.
use vnv.Base.{◌≡◌, refl, ◌≢◌, ◌↔◌, ok, str}
use vnv.Engine.{InjectionPointType}
use vnv.Engine.Names.{VariableEnum, from_string, to_string, get_type, from_string-to_string}

from_string-to_string_sample :
    (from_string (to_string VariableEnum.int) ≡ ok VariableEnum.int)
    ↔ ((VariableEnum.int ≢ VariableEnum.int) × (VariableEnum.int ≢ VariableEnum.string))
from_string-to_string_sample = from_string-to_string VariableEnum.int

int_reads_as_long : from_string (to_string VariableEnum.int) ≡ ok VariableEnum.long
unfolding from_string to_string
int_reads_as_long = refl

iteration_name : get_type InjectionPointType.iter (str "7") ≡ str "7"
unfolding get_type
iteration_name = refl
