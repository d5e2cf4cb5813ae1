-- ===== src/Samplers/Chance.antt =====
-- random.cpp: the chance that the random sampler gives.
use vnv.Base.{ℕ, suc, ◌≤◌, ◌≡◌, true, arith, ok}
use vnv.Base.Int.{pos}
use vnv.Samplers.{SamplerJson, new_random_runner, value_or, rand_max, random_run}

-- With a percentage of at least one the random sampler lets every run through, whatever rand()
-- returns: the product by 100 wraps before it is divided.
pub random_run_always :
    (config : SamplerJson) (rand : ℕ)
    → rand ≤ rand_max
    → (n : ℕ) → value_or config.percentage (pos 50) ≡ ok (pos (suc n))
    → (random_run config rand new_random_runner).0 ≡ ok true
unfolding random_run
random_run_always config rand h n e = ground arith
