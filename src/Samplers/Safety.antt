-- ===== src/Samplers/Safety.antt =====
-- When sampling cannot go wrong: a Skip sampler with a period of zero divides by it.
use vnv.Base.{
  ok, ℕ, ◌≡◌, subst, ◌≢◌, some, raise, text, fault, arith, Str, str_key, Bool-cases, inl, inr,
}
use vnv.Base.Dict.{Dict, find, assign, find-assign}
use vnv.Base.Int.{pos}
use vnv.Engine.{Comm}
use vnv.Samplers.{
  Sampler, always, skip, processor, random, skip_setup, sample, SamplerJson, value_or,
  new_skip_runner, magnitude,
}

abbrev pub IsSafe : Sampler → Type 0
IsSafe (skip config r) = magnitude (skip_setup config r).1.skip ≢ 0
IsSafe _ = Unit

-- A safe sampler answers, and stays safe.
pub sample-IsSafe :
    (rand : ℕ) (s : Sampler) (comm : Comm)
    → IsSafe s
    → ((sample rand s comm).0 ≢ raise text)
      × ((sample rand s comm).0 ≢ raise fault)
      × IsSafe (sample rand s comm).1
unfolding sample
sample-IsSafe rand always comm h = (ground arith, ground arith, tt)
sample-IsSafe rand (skip config r) comm h = (ground arith, ground arith, ground arith)
sample-IsSafe rand (processor config r) comm h = (ground arith, ground arith, tt)
sample-IsSafe rand (random config r) comm h = (ground arith, ground arith, tt)

pub record AllSafe (samplers : Dict Str Sampler) : Type 0 where
  pub safe : (k : Str) (s : Sampler) → find k samplers ≡ some s → IsSafe s

pub AllSafe-assign :
    (k : Str) (s : Sampler) (samplers : Dict Str Sampler)
    → AllSafe samplers
    → IsSafe s
    → AllSafe (assign k s samplers)
AllSafe-assign k s samplers all h = record {
  safe = λ j t e. elim (Bool-cases (str_key.beq j k)) [
    | inl same ↦ subst IsSafe (ground (arith, find-assign j k s samplers)) h
    | inr other ↦ all.safe j t (ground (arith, find-assign j k s samplers))
  ];
}

-- A sampler that was never run and has a positive period configured, or none.
pub new_skip-IsSafe :
    (config : SamplerJson)
    → value_or config.skip (pos 50) ≢ ok (pos 0)
    → IsSafe (skip config new_skip_runner)
unfolding skip_setup
new_skip-IsSafe config h = ground (arith, h)
