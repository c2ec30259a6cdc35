-- ===== src/GoStrings.antt =====
-- The functions of Go's package `strings` that the program calls, over the characters of a text,
-- which is taken to be valid UTF-8. Case and case folding are tables of `Std`.
pub mod Laws
use Prim.Native.Char.{Char, code}
use Prim.Native.String.{[], ◌∷◌}
use mathlib.Core.List.{[], ◌∷◌}
use a2a_registry.Common.{
  ℕ, String, List, Bool, true, false, ◌&&◌, ◌||◌, Option, none, some, nat_eq, leb, ◌==◌,
  if◌then◌else◌,
}
use a2a_registry.Platform.{Std}

abbrev pub same_char : Char → Char → Bool
same_char c d = nat_eq (code c) (code d)

-- `strings.HasPrefix`
unfoldable pub has_prefix : String → String → Bool
has_prefix s [] = true
has_prefix [] (d ∷ t) = false
has_prefix (c ∷ s) (d ∷ t) = same_char c d && has_prefix s t

-- What is left after a prefix that is there.
abbrev strip : String → String → String
strip s [] = s
strip [] (d ∷ t) = ""
strip (c ∷ s) (d ∷ t) = strip s t

-- `strings.TrimPrefix`
unfoldable pub trim_prefix : String → String → String
unfolding has_prefix
trim_prefix s p = if has_prefix s p then strip s p else s

-- `strings.HasSuffix`
unfoldable pub has_suffix : String → String → Bool
has_suffix [] t = t == ""
has_suffix (c ∷ s) t = (c ∷ s) == t || has_suffix s t

-- `strings.TrimSuffix`
unfoldable pub trim_suffix : String → String → String
trim_suffix [] t = ""
trim_suffix (c ∷ s) t = if (c ∷ s) == t then "" else c ∷ trim_suffix s t

-- `strings.Contains`
unfoldable pub contains : String → String → Bool
unfolding has_prefix
contains [] t = t == ""
contains (c ∷ s) t = has_prefix (c ∷ s) t || contains s t

abbrev push_front : Char → List String → List String
push_front c [] = (c ∷ []) ∷ []
push_front c (p ∷ ps) = (c ∷ p) ∷ ps

-- `strings.Split` at a separator of one character, given by its code.
unfoldable pub split : ℕ → String → List String
split sep [] = "" ∷ []
split sep (c ∷ s) =
    let rest = split sep s in if nat_eq (code c) sep then "" ∷ rest else push_front c rest

-- `unicode.IsSpace`
unfoldable pub is_space : ℕ → Bool
is_space n =
    leb 9 n && leb n 13
    || nat_eq n 32
    || nat_eq n 0x85
    || nat_eq n 0xa0
    || nat_eq n 0x1680
    || leb 0x2000 n && leb n 0x200a
    || nat_eq n 0x2028
    || nat_eq n 0x2029
    || nat_eq n 0x202f
    || nat_eq n 0x205f
    || nat_eq n 0x3000

unfoldable pub trim_left_space : String → String
unfolding is_space
trim_left_space [] = ""
trim_left_space (c ∷ s) = let rest = trim_left_space s in if is_space (code c) then rest else c ∷ s

-- Cuts off the characters at the right end that pass the test.
unfoldable pub trim_right_func : (ℕ → Bool) → String → String
trim_right_func p [] = ""
trim_right_func p (c ∷ s) =
    let rest = trim_right_func p s in if p (code c) && rest == "" then "" else c ∷ rest

-- `strings.TrimRight` at a cutset of one character.
abbrev pub trim_right : ℕ → String → String
trim_right sep = trim_right_func (nat_eq sep)

-- `strings.TrimSpace`
unfoldable pub trim_space : String → String
unfolding is_space trim_left_space trim_right_func
trim_space s = trim_right_func is_space (trim_left_space s)

-- `strings.ReplaceAll` of one character by another.
unfoldable pub replace_all : ℕ → Char → String → String
replace_all old new [] = ""
replace_all old new (c ∷ s) = (if nat_eq (code c) old then new else c) ∷ replace_all old new s

module _ (std : Std) where
  -- `strings.ToLower`
  unfoldable pub to_lower : String → String
  to_lower [] = ""
  to_lower (c ∷ s) = std.lower_rune c ∷ to_lower s

  -- `strings.EqualFold`
  unfoldable pub equal_fold : String → String → Bool
  equal_fold [] [] = true
  equal_fold [] (_ ∷ _) = false
  equal_fold (_ ∷ _) [] = false
  equal_fold (c ∷ s) (d ∷ t) = same_char (std.fold_rune c) (std.fold_rune d) && equal_fold s t
