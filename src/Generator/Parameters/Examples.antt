-- ===== src/Generator/Parameters/Examples.antt =====
-- The parameters of the plugin at a text with three of them.
use grpc_gateway_rust.Prelude.{
  ◌≡◌, refl, [], ◌∷◌, Str, str_eq, starts_with, split_once, insert, false, some, trim, split, lit,
}
use grpc_gateway_rust.Generator.Plugin.{plugin_params}

abbrev text : Str
text = lit "paths=import, no_include,extern_path=.lib=crate::lib"

-- A no-break space and an ideographic space around a letter.
trim_spaces : trim (0xC2 ∷ 0xA0 ∷ b'a' ∷ b' ' ∷ 0xE3 ∷ 0x80 ∷ 0x80 ∷ []) ≡ b'a' ∷ []
unfolding trim
trim_spaces = refl

text-source_relative : (plugin_params (some text)).source_relative ≡ false
unfolding plugin_params trim split str_eq starts_with split_once insert
text-source_relative = refl
