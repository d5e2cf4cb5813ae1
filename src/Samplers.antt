-- ===== src/Samplers.antt =====
-- The samplers of injection/src/plugins/samplers. A runner reads its configuration on its first
-- run and keeps its state from run to run.
pub mod Counting
pub mod Chance
pub mod Caching
pub mod Store
pub mod Safety
mod Examples
use vnv.Base.{
  ℕ, zero, ◌+◌, ◌-◌, ◌*◌, ◌/◌, ◌%◌, ◌^◌, Bool, true, false, Option, none, some, [], ltb, leb, ◌==◌,
  if◌then◌else◌, Outcome, ok, raise, fault, standard, Act, ◌>>◌, suc,
}
use vnv.Base.Int.{ℤ, pos, negsuc, sub_ℕ, leb_ℤ}
use vnv.Base.Dict.{Dict, find, assign}
use vnv.Base.{nat_key}
use vnv.Engine.{Comm}

-- What the JSON of a sampler holds under a key: a number, as the int that is read from it, or
-- something that is no number.
pub data SamplerValue : Type 0 where
  number : ℤ → SamplerValue
  no_number : SamplerValue

-- The keys that the samplers read.
pub record SamplerJson : Type 0 where
  pub skip : Option SamplerValue
  pub processor : Option SamplerValue
  pub percentage : Option SamplerValue

-- `config.value(key, d)` throws where the value is of another type.
abbrev pub value_or : Option SamplerValue → ℤ → Outcome ℤ
value_or none d = ok d
value_or (some (number v)) d = ok v
value_or (some no_number) d = raise standard

abbrev pub magnitude : ℤ → ℕ
magnitude (pos n) = n
magnitude (negsuc n) = suc n

-- skip.cpp
pub record SkipRunner : Type 0 where
  pub setup_complete : Bool
  pub skip : ℤ
  pub curr : ℕ

abbrev pub new_skip_runner : SkipRunner
new_skip_runner = record { setup_complete = false; skip = pos 50; curr = 0 }

pub skip_setup : SamplerJson → Act SkipRunner (Unit {0})
skip_setup config r =
    if r.setup_complete then (ok tt, r) else elim (value_or config.skip (pos 50)) [
      | ok v ↦ (ok tt, record r { skip = v; setup_complete = true })
      | raise e ↦ (raise e, r)
    ]

-- `curr++ % skip == 0`, which does not depend on the sign of `skip`. A remainder by zero is undefined.
skip_sample : Act SkipRunner Bool
skip_sample r =
    if magnitude r.skip == 0
    then (raise fault, r)
    else (ok (r.curr % magnitude r.skip == 0), record r { curr = r.curr + 1 })

pub skip_run : SamplerJson → Act SkipRunner Bool
unfolding skip_setup skip_sample
skip_run config = skip_setup config >> skip_sample

-- proc.cpp
pub record ProcessorRunner : Type 0 where
  pub contains_cache : Dict ℕ Bool
  pub setup_complete : Bool
  pub processor : ℤ

abbrev pub new_processor_runner : ProcessorRunner
new_processor_runner = record { contains_cache = []; setup_complete = false; processor = pos 0 }

pub processor_setup : SamplerJson → Act ProcessorRunner (Unit {0})
processor_setup config r =
    if r.setup_complete then (ok tt, r) else elim (value_or config.processor (pos 0)) [
      | ok v ↦ (ok tt, record r { processor = v; setup_complete = true })
      | raise e ↦ (raise e, r)
    ]

processor_sample : Comm → Act ProcessorRunner Bool
processor_sample comm r = elim (find comm.unique_id r.contains_cache) [
  | none ↦
      let inside = comm.contains r.processor in
      (ok inside, record r { contains_cache = assign comm.unique_id inside r.contains_cache })
  | some inside ↦ (ok inside, r)
]

pub processor_run : SamplerJson → Comm → Act ProcessorRunner Bool
unfolding processor_setup processor_sample
processor_run config comm = processor_setup config >> processor_sample comm

-- random.cpp. A percentage is a whole number here; the source keeps a double.
pub record RandomRunner : Type 0 where
  pub setup_complete : Bool
  pub percent : ℤ

abbrev pub new_random_runner : RandomRunner
new_random_runner = record { setup_complete = false; percent = pos 50 }

pub random_setup : SamplerJson → Act RandomRunner (Unit {0})
random_setup config r =
    if r.setup_complete then (ok tt, r) else elim (value_or config.percentage (pos 50)) [
      | ok v ↦ (ok tt, record r { percent = v; setup_complete = true })
      | raise e ↦ (raise e, r)
    ]

abbrev pub rand_max : ℕ
rand_max = 2147483647

-- The 32-bit signed integer that a bit pattern stands for.
abbrev to_int32 : ℕ → ℤ
to_int32 x = if ltb x 2147483648 then pos x else negsuc (4294967295 - x)

-- C++ division, which rounds towards zero.
abbrev div_towards_zero : ℤ → ℕ → ℤ
div_towards_zero (pos n) d = pos (n / d)
div_towards_zero (negsuc n) d = sub_ℕ 0 ((n + 1) / d)

-- `100*rand()/RAND_MAX <= percent`. The product of two `int` may overflow, which C++ leaves undefined:
-- it wraps here, as on two's complement machines.
random_sample : ℕ → Act RandomRunner Bool
random_sample rand r =
    (ok (leb_ℤ (div_towards_zero (to_int32 (100 * rand % 4294967296)) rand_max) r.percent), r)

pub random_run : SamplerJson → ℕ → Act RandomRunner Bool
unfolding random_setup random_sample
random_run config rand = random_setup config >> random_sample rand

-- A sampler object: its class, its configuration and its runner. `always` is the base class
-- ISampler, whose `sample` returns true.
pub data Sampler : Type 0 where
  always : Sampler
  skip : SamplerJson → SkipRunner → Sampler
  processor : SamplerJson → ProcessorRunner → Sampler
  random : SamplerJson → RandomRunner → Sampler

-- `sample`: the answer, and the object afterwards. `rand` is what rand() would return.
unfoldable pub sample : ℕ → Sampler → Comm → Outcome Bool × Sampler
unfolding skip_run processor_run random_run
sample rand always comm = (ok true, always)
sample rand (skip config r) comm = let (o, r') = skip_run config r in (o, skip config r')
sample rand (processor config r) comm =
    let (o, r') = processor_run config comm r in (o, processor config r')
sample rand (random config r) comm = let (o, r') = random_run config rand r in (o, random config r')
