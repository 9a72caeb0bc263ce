-- ===== src/Prelude.antt =====
-- The names that the other modules share: the libraries', passed on, and those of the children.
-- A Rust `str` is the list of its bytes (`Str`), a `Vec` or a slice is a list, a `BTreeMap` or a
-- `HashMap` that the code never iterates over is an association list (`Map`).
mod Tests
mod Lists
mod Text
mod TextLaws
mod SplitLaws
mod FindLaws
mod Maps
mod Word
mod Attempts
mod Utf8
pub use Tests.*
unfoldable pub use Lists.*
unfoldable pub use Text.*
pub use TextLaws.*
pub use SplitLaws.*
pub use FindLaws.*
unfoldable pub use Maps.*
pub use Word.*
pub use Attempts.*
unfoldable pub use Utf8.*
pub use Prim.Native.Nat.{ℕ, zero, suc, ◌+◌, ◌-◌, ◌*◌, ◌%◌, ◌^◌, ◌≤◌, ◌<◌}
pub use Prim.Native.String.{String}
pub use mathlib.Core.Path.{◌≡◌, refl, sym, ap, ap₂, ◌∙◌, subst}
pub use mathlib.Core.Logic.{◌≢◌, ◌↔◌, ◌⊎◌, inl, inr}
pub use mathlib.Core.Bool.{Bool, true, false, not, ◌&&◌, ◌||◌}
pub use mathlib.Core.Option.{Option, none, some}
pub use mathlib.Core.List.{List, [], ◌∷◌, ◌++◌, map}
pub use native.Mathlib.Omega.{arith}
