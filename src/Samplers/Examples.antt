-- ===== src/Samplers/Examples.antt =====
-- The samplers at work.
use vnv.Base.{
  ℕ, ◌%◌, ◌≡◌, refl, str_key, Bool, true, false, [], ◌∷◌, map, some, str, arith, ◌==◌, ◌||◌, ◌&&◌,
  ok, raise, fault, standard, get_elem?,
}
use vnv.Json.{Json, null}
use vnv.Base.Dict.{assign}
use vnv.Base.Int.{ℤ, pos, negsuc}
use vnv.Samplers.{
  SamplerJson, new_skip_runner, skip_run, new_processor_runner, new_random_runner, random_run,
  always, number, no_number,
}
use vnv.Samplers.Counting.{runs, skip_every}
use vnv.Samplers.Caching.{answers, processor_answers}
use vnv.Samplers.Chance.{random_run_always}
use vnv.Samplers.Store.{
  SamplerConfig, SamplerStore, create_sampler, create_sampler_never, add_sampler,
}

abbrev by_three : SamplerJson
by_three = record {
  skip = some (number (pos 3));
  processor = some (number (pos 1));
  percentage = some (number (pos 1));
}

-- Seven runs by three.
seven_runs :
    runs by_three new_skip_runner 7
    ≡ ok true ∷ ok false ∷ ok false ∷ ok true ∷ ok false ∷ ok false ∷ ok true ∷ []
unfolding runs skip_run
seven_runs = refl

-- A period that is no number.
no_period : runs (record by_three { skip = some no_number }) new_skip_runner 1 ≡ raise standard ∷ []
unfolding runs skip_run
no_period = refl

-- A period of zero.
by_zero :
    runs (record by_three { skip = some (number (pos 0)) }) new_skip_runner 1 ≡ raise fault ∷ []
unfolding runs skip_run
by_zero = refl

skip_every_sample : get_elem? (runs by_three new_skip_runner 7) 6 ≡ some (ok (6 % 3 == 0))
skip_every_sample = skip_every by_three (pos 3) 7 6 refl (omega arith) (omega arith)

random_run_always_sample : (random_run by_three 2000000000 new_random_runner).0 ≡ ok true
random_run_always_sample = random_run_always by_three 2000000000 (omega arith) 0 refl

abbrev is_one : ℤ → Bool
is_one (pos n) = n == 1
is_one (negsuc n) = false

-- Processor 1 is in the communicators 2 and 3.
abbrev members : ℕ → ℤ → Bool
members id p = (id == 2 || id == 3) && is_one p

processor_answers_example :
    answers members by_three new_processor_runner (2 ∷ 4 ∷ 2 ∷ 3 ∷ [])
    ≡ map (λ id. ok (members id (pos 1))) (2 ∷ 4 ∷ 2 ∷ 3 ∷ [])
processor_answers_example = processor_answers members by_three (2 ∷ 4 ∷ 2 ∷ 3 ∷ [])

abbrev sampler_config : SamplerConfig
sampler_config = record {
  package_name = str "VNV";
  name = str "Skip";
  ip_package = str "P";
  ip_name = str "loop";
  config = null;
}

abbrev with_skip : SamplerStore
with_skip = record {
  samplers = [];
  sampler_factory = (str "VNV:Skip", record { make = λ j. always; schema = str "{}" }) ∷ [];
}

-- A validator that takes a JSON string for no schema.
abbrev validates : Json → Json → Bool
validates (Json.string s) value = false
validates _ value = true

create_sampler_never_sample : create_sampler validates sampler_config with_skip ≡ (false, with_skip)
create_sampler_never_sample =
    create_sampler_never validates sampler_config with_skip (λ s value. refl)

registers :
    add_sampler
      (str "VNV")
      (str "Skip")
      (str "{}")
      (λ j. always)
      (record { samplers = []; sampler_factory = [] })
    ≡ with_skip
unfolding add_sampler assign
registers = refl
