-- ===== src/Engine/Names.antt =====
-- The names and C codes of the enumerations: injection/src/interfaces/IOutputEngine.cpp.
use vnv.Base.{
  ℕ, ◌≡◌, refl, ◌≢◌, ◌↔◌, arith, Str, str, str_eq, if◌then◌else◌, Outcome, ok, raise, vnv_exception,
}
use vnv.Engine.{InjectionPointType}

unfoldable pub get_type : InjectionPointType → Str → Str
get_type InjectionPointType.begin stage_id = str "Begin"
get_type InjectionPointType.end stage_id = str "End"
get_type InjectionPointType.single stage_id = str "Single"
get_type InjectionPointType.child_begin stage_id = str "CBegin"
get_type InjectionPointType.child_end stage_id = str "CEnd"
get_type InjectionPointType.child_single stage_id = str "CSingle"
get_type _ stage_id = stage_id

-- The numbers of injection/include/c-interfaces/Wrappers.h.
pub to_c : InjectionPointType → ℕ
to_c InjectionPointType.single = 0
to_c InjectionPointType.begin = 1
to_c InjectionPointType.iter = 2
to_c InjectionPointType.end = 3
to_c InjectionPointType.child_single = 4
to_c InjectionPointType.child_begin = 5
to_c InjectionPointType.child_iter = 6
to_c InjectionPointType.child_end = 7

pub data VariableEnum : Type 0 where
  double string int float long : VariableEnum

unfoldable pub from_string : Str → Outcome VariableEnum
from_string s =
    if str_eq s (str "Double")
    then ok VariableEnum.double
    else if str_eq s (str "String")
    then ok VariableEnum.long
    else if str_eq s (str "Int")
    then ok VariableEnum.int
    else if str_eq s (str "Float")
    then ok VariableEnum.float
    else if str_eq s (str "Long")
    then ok VariableEnum.long
    else raise vnv_exception

unfoldable pub to_string : VariableEnum → Str
to_string VariableEnum.double = str "Double"
to_string VariableEnum.long = str "Long"
to_string VariableEnum.float = str "Float"
to_string VariableEnum.int = str "Long"
to_string VariableEnum.string = str "String"

-- Each type has a code of its own.
pub to_c_injective : (a b : InjectionPointType) → to_c a ≡ to_c b → a ≡ b
unfolding to_c
to_c_injective a b h = ground arith

-- A variable type is read back from its name exactly when it is neither Int nor String: Int is
-- printed as Long, and String is read as Long.
pub from_string-to_string :
    (v : VariableEnum)
    → (from_string (to_string v) ≡ ok v) ↔ ((v ≢ VariableEnum.int) × (v ≢ VariableEnum.string))
unfolding from_string to_string
from_string-to_string VariableEnum.double = (λ e. (λ p. cc, λ p. cc), λ p. refl)
from_string-to_string VariableEnum.long = (λ e. (λ p. cc, λ p. cc), λ p. refl)
from_string-to_string VariableEnum.float = (λ e. (λ p. cc, λ p. cc), λ p. refl)
from_string-to_string VariableEnum.int = (λ e. cc, λ p. absurd (p.0 refl))
from_string-to_string VariableEnum.string = (λ e. cc, λ p. absurd (p.1 refl))
