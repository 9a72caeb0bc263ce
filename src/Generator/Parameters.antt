-- ===== src/Generator/Parameters.antt =====
-- What the parameters of the plugin mean.
mod Examples
use mathlib.Core.Option
use grpc_gateway_rust.Prelude.{
  ◌≡◌, Bool, true, false, ◌||◌, Option, none, some, List, [], ◌∷◌, Str, lit, str_eq, lookup, insert,
  if◌then◌else◌, ◌>>=◌, arith,
}
use grpc_gateway_rust.Generator.Plugin.{PluginParams, extern_pair, insert_pair, read_param}

abbrev pub or_before {ℓ} : {A : Type ℓ} → A → Option A → A
or_before before none = before
or_before before (some v) = v

-- The value of the last parameter that has one.
abbrev pub last_value {ℓ} : {A : Type ℓ} → (Str → Option A) → A → List Str → A
last_value f before [] = before
last_value f before (p ∷ ps) = last_value f (or_before before (f p)) ps

-- The forms of a parameter.
abbrev pub paths_of : Str → Option Bool
paths_of p =
    if str_eq p (lit "paths=source_relative")
    then some true
    else if str_eq p (lit "paths=import")
    then some false
    else none

abbrev pub is_no_include : Str → Bool
is_no_include p = str_eq p (lit "no_include") || str_eq p (lit "no_include=true")

-- The Rust path that a parameter gives a proto path.
abbrev pub extern_of : Str → Str → Option (Option Str)
extern_of k p = extern_pair p >>= λ pair. if str_eq pair.0 k then some (some pair.1) else none

-- What one parameter changes.
abbrev Step : Str → PluginParams → Type 0
Step p params =
    ((read_param p params).source_relative ≡ or_before params.source_relative (paths_of p))
    × ((read_param p params).no_include ≡ (is_no_include p || params.no_include))
    × ((k : Str)
        → lookup k (read_param p params).extern_paths
          ≡ or_before (lookup k params.extern_paths) (extern_of k p))
