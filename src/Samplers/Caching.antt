-- ===== src/Samplers/Caching.antt =====
-- proc.cpp: the cache of the Processor sampler.
use vnv.Base.{
  Outcome, ok, raise, Exn, ℕ, ◌≡◌, ap, refl, Bool, true, List, [], ◌∷◌, map, some, arith, ==_iff,
  nat_key, Option-cases, inl, inr,
}
use vnv.Base.Int.{ℤ, pos}
use vnv.Base.Dict.{find, find-assign}
use vnv.Engine.{Comm}
use vnv.Samplers.{SamplerJson, ProcessorRunner, new_processor_runner, value_or, processor_run}

-- Which processors are in which communicator.
module _ (members : ℕ → ℤ → Bool) where
  abbrev pub comm_of : ℕ → Comm
  comm_of id = record { unique_id = id; contains = members id }

  -- The answers of the runs of one sampler on a row of communicators.
  pub answers : SamplerJson → ProcessorRunner → List ℕ → List (Outcome Bool)
  answers config r [] = []
  answers config r (id ∷ ids) =
      let (b, r') = processor_run config (comm_of id) r in b ∷ answers config r' ids

  -- What the cache holds is right.
  record IsCoherent (r : ProcessorRunner) : Type 0 where
    cached : (id : ℕ) (b : Bool) → find id r.contains_cache ≡ some b → b ≡ members id r.processor

  module _ (config : SamplerJson) (r : ProcessorRunner) (id : ℕ) (ready : r.setup_complete ≡ true)
      (coherent : IsCoherent r) where
    processor_run_ready :
        ((processor_run config (comm_of id) r).0 ≡ ok (members id r.processor))
        × ((processor_run config (comm_of id) r).1.processor ≡ r.processor)
        × ((processor_run config (comm_of id) r).1.setup_complete ≡ true)
    unfolding processor_run
    processor_run_ready = elim (Option-cases (find id r.contains_cache)) [
      | inl miss ↦ (ground arith, ground arith, ground arith)
      | inr (b, hit) ↦ (ground (arith, coherent.cached id b), ground arith, ground arith)
    ]

    processor_run-IsCoherent : IsCoherent (processor_run config (comm_of id) r).1
    unfolding processor_run
    processor_run-IsCoherent = record {
      cached = λ j b h. elim (Option-cases (find id r.contains_cache)) [
        | inl miss ↦ ground (
          arith,
          find-assign j id (members id r.processor) r.contains_cache,
          coherent.cached j b,
          ==_iff j id,
        )
        | inr (b', hit) ↦ ground (arith, coherent.cached j b)
      ];
    }

  answers-eq-map :
      (config : SamplerJson) (r : ProcessorRunner) (ids : List ℕ)
      → r.setup_complete ≡ true
      → IsCoherent r
      → answers config r ids ≡ map (λ id. ok (members id r.processor)) ids
  unfolding answers
  answers-eq-map config r [] ready coherent = refl
  answers-eq-map config r (id ∷ ids) ready coherent =
      let now = processor_run_ready config r id ready coherent in
      let later =
        answers-eq-map config (processor_run config (comm_of id) r).1 ids now.2
          (processor_run-IsCoherent config r id ready coherent) in
      cc (now.0, later, ap (λ p. map (λ j. ok (members j p)) ids) now.1)

  -- The answer of a communicator itself, where the configured processor can be read.
  abbrev pub asked : Outcome ℤ → ℕ → Outcome Bool
  asked (ok p) id = ok (members id p)
  asked (raise e) id = raise e

  unread :
      (config : SamplerJson) (e : Exn) (ids : List ℕ)
      → value_or config.processor (pos 0) ≡ raise e
      → answers config new_processor_runner ids ≡ map (λ id. raise e) ids
  unfolding answers processor_run
  unread config e [] h = refl
  unread config e (id ∷ ids) h = ground (arith, unread config e ids h)

  abbrev set_up : ℤ → ProcessorRunner
  set_up p = record { contains_cache = []; setup_complete = true; processor = p }

  set_up-IsCoherent : (p : ℤ) → IsCoherent (set_up p)
  unfolding find
  set_up-IsCoherent p = record { cached = λ j b h. cc }

  read :
      (config : SamplerJson) (p : ℤ) (ids : List ℕ)
      → value_or config.processor (pos 0) ≡ ok p
      → answers config new_processor_runner ids ≡ map (λ id. ok (members id p)) ids
  unfolding answers processor_run
  read config p [] h = refl
  read config p (id ∷ ids) h =
      rw h (answers-eq-map config (set_up p) (id ∷ ids) refl (set_up-IsCoherent p))

  -- On any row of communicators, the answers of a new Processor sampler are those that each
  -- communicator would give itself about the configured processor, which is 0 if none is
  -- configured, and all of them a std::exception if what is configured is no number: the cache
  -- never gives a wrong one.
  pub processor_answers :
      (config : SamplerJson) (ids : List ℕ)
      → answers config new_processor_runner ids
        ≡ map (asked (value_or config.processor (pos 0))) ids
  processor_answers config ids = by_value (value_or config.processor (pos 0)) refl
    where
      by_value :
          (o : Outcome ℤ)
          → value_or config.processor (pos 0) ≡ o
          → answers config new_processor_runner ids ≡ map (asked o) ids
      by_value (ok p) h = read config p ids h
      by_value (raise e) h = unread config e ids h
