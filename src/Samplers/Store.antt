-- ===== src/Samplers/Store.antt =====
-- injection/src/base/stores/SamplerStore.cpp. `validates schema value` is the schema validator;
-- a schema is kept as text and is handed to the validator as a JSON string.
use vnv.Base.{
  Bool, true, false, ◌∷◌, ◌++◌, ◌≡◌, Option, none, some, Str, if◌then◌else◌, str_key, arith,
  Option-cases, inl, inr,
}
use vnv.Base.Dict.{Dict, find, assign}
use vnv.Json.{Json, string}
use vnv.Samplers.{Sampler}

-- What SamplerConfig holds.
pub record SamplerConfig : Type 0 where
  pub package_name : Str
  pub name : Str
  pub ip_package : Str
  pub ip_name : Str
  pub config : Json

-- A registration: how to make the sampler, and its schema.
pub record Registration : Type 0 where
  pub make : Json → Sampler
  pub schema : Str

pub record SamplerStore : Type 0 where
  pub samplers : Dict Str Sampler
  pub sampler_factory : Dict Str Registration

abbrev sampler_key : Str → Str → Str
sampler_key package_name name = package_name ++ b':' ∷ name

unfoldable pub add_sampler : Str → Str → Str → (Json → Sampler) → SamplerStore → SamplerStore
add_sampler package_name name schema make store = record store {
  sampler_factory =
      assign (sampler_key package_name name) (record { make = make; schema = schema })
        store.sampler_factory;
}

unfoldable pub get_sampler_for_injection_point : Str → Str → SamplerStore → Option Sampler
get_sampler_for_injection_point ip_package ip_name store =
    find (sampler_key ip_package ip_name) store.samplers

module _ (validates : Json → Json → Bool) where
  unfoldable pub create_sampler : SamplerConfig → SamplerStore → Bool × SamplerStore
  create_sampler config store =
      elim (find (sampler_key config.package_name config.name) store.sampler_factory) [
        | none ↦ (false, store)
        | some r ↦
            if validates (string r.schema) config.config
            then (
              true,
              record store {
                samplers =
                    assign (sampler_key config.ip_package config.ip_name) (r.make config.config)
                      store.samplers;
              },
            )
            else (false, store)
      ]

  -- Since a JSON string is no schema, and the validator accepts nothing against what is no schema,
  -- no sampler is ever created: every injection point runs unsampled.
  pub create_sampler_never :
      (config : SamplerConfig) (store : SamplerStore)
      → ((s : Str) (value : Json) → validates (string s) value ≡ false)
      → create_sampler config store ≡ (false, store)
  unfolding create_sampler
  create_sampler_never config store rejects =
      elim (Option-cases
        (find (sampler_key config.package_name config.name) store.sampler_factory)) [
          | inl none_found ↦ ground arith
          | inr (r, found) ↦ ground (arith, rejects r.schema config.config)
        ]
