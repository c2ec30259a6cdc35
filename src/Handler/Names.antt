-- ===== src/Handler/Names.antt =====
-- Resource names in handler.go: `generateK8sName` and `extractNameFromPath`.
pub mod Laws
use Prim.Native.Char.{Char, code}
use Prim.Native.String.{[], ◌∷◌}
use mathlib.Core.List.{[], ◌∷◌}
use a2a_registry.Common.{ℕ, String, List, Bool, ◌&&◌, ◌||◌, ◌==◌, nat_eq, leb, if◌then◌else◌}
use a2a_registry.GoStrings.{to_lower, replace_all, split, trim_prefix}
use a2a_registry.Platform.{Std}

-- The test of the loop, on one byte. A character beyond ASCII is written as bytes of 128 and more,
-- of which none passes.
unfoldable pub is_name_char : ℕ → Bool
is_name_char c =
    leb b'a' c && leb c b'z' || leb b'0' c && leb c b'9' || nat_eq c b'-' || nat_eq c b'.'

unfoldable pub keep_name_chars : String → String
keep_name_chars [] = ""
keep_name_chars (c ∷ s) =
    let rest = keep_name_chars s in if is_name_char (code c) then c ∷ rest else rest

unfoldable pub generate_k8s_name : Std → String → String
generate_k8s_name std name =
    let result = keep_name_chars (replace_all b' ' "-" (to_lower std name)) in
    if result == "" then "agent" else result

abbrev pub head_or_empty : List String → String
head_or_empty [] = ""
head_or_empty (part ∷ parts) = part

unfoldable pub extract_name_from_path : String → String → String
extract_name_from_path path prefix = head_or_empty (split b'/' (trim_prefix path prefix))
