-- ===== src/Handler/Names/Laws.antt =====
-- What the resource names are made of.
use Prim.Native.Char.{Char, code}
use Prim.Native.String.{[], ◌∷◌}
use mathlib.Core.List.{[], ◌∷◌}
use mathlib.Core.Path.{subst}
use text.Mathlib.TextLemmas.{cons-append, nil-append}
use a2a_registry.Common.{
  ℕ, ◌≤◌, ◌↔◌, ◌⊎◌, String, ◌<>◌, List, true, ◌≡◌, ◌≢◌, refl, ◌∙◌, ap, arith, ◌==◌, eq_iff, All,
  if◌then◌else◌, Bool-cases, inl, inr, false≢true,
}
use a2a_registry.GoStrings.{to_lower, replace_all, split, trim_prefix, trim_suffix}
use a2a_registry.GoStrings.Laws.{
  NoChar, trim_prefix-append, split_of_NoChar, split-append, split-NoChar, trim_suffix_of_NoChar,
}
use a2a_registry.Platform.{Std}
use a2a_registry.Handler.Names.{
  is_name_char, keep_name_chars, generate_k8s_name, head_or_empty, extract_name_from_path,
}

-- The lower-case letters and the digits of ASCII, the dash and the dot.
abbrev pub NameCode : ℕ → Type 0
NameCode c = ((97 ≤ c) × (c ≤ 122)) ⊎ ((48 ≤ c) × (c ≤ 57)) ⊎ (c ≡ 45) ⊎ (c ≡ 46)

-- Of such characters, and nothing else.
abbrev pub NameChars : String → Type 0
NameChars [] = Unit
NameChars (c ∷ s) = NameCode (code c) × NameChars s

-- A character with that code is in the text.
abbrev pub HasCode : ℕ → String → Type 0
HasCode n [] = ⊥
HasCode n (c ∷ s) = (code c ≡ n) ⊎ HasCode n s

is_name_char_iff : (c : ℕ) → (is_name_char c ≡ true) ↔ NameCode c
unfolding is_name_char
is_name_char_iff c = ground arith

keep_name_chars-NameChars : (s : String) → NameChars (keep_name_chars s)
unfolding keep_name_chars
keep_name_chars-NameChars [] = tt
keep_name_chars-NameChars (c ∷ s) = elim (Bool-cases (is_name_char (code c))) [
  | inl kept ↦ rw kept ((is_name_char_iff (code c)).0 kept, keep_name_chars-NameChars s)
  | inr cut ↦ rw cut (keep_name_chars-NameChars s)
]

keep_name_chars-HasCode :
    (n : ℕ) → NameCode n → (s : String) → HasCode n s → HasCode n (keep_name_chars s)
unfolding keep_name_chars
keep_name_chars-HasCode n ok [] h = h
keep_name_chars-HasCode n ok (c ∷ s) (inl e) =
    let kept : is_name_char (code c) ≡ true = ap is_name_char e ∙ (is_name_char_iff n).1 ok in
    rw kept (inl e)
keep_name_chars-HasCode n ok (c ∷ s) (inr h) = elim (Bool-cases (is_name_char (code c))) [
  | inl kept ↦ rw kept (inr (keep_name_chars-HasCode n ok s h))
  | inr cut ↦ rw cut (keep_name_chars-HasCode n ok s h)
]

agent-NameChars : NameChars "agent"
agent-NameChars = omega arith

-- A text, or "agent" in place of the empty one.
abbrev name_or_agent : String → String
name_or_agent kept = if kept == "" then "agent" else kept

name_or_agent-NameChars :
    (kept : String) → NameChars kept → (name_or_agent kept ≢ "") × NameChars (name_or_agent kept)
name_or_agent-NameChars kept h = elim (Bool-cases (kept == "")) [
  | inl gone ↦ rw gone ((λ e. false≢true ((eq_iff "agent" "").1 e)), agent-NameChars)
  | inr some_left ↦ rw some_left ((λ e. cc (some_left, (eq_iff kept "").1 e)), h)
]

name_or_agent-HasCode : (n : ℕ) (kept : String) → HasCode n kept → HasCode n (name_or_agent kept)
name_or_agent-HasCode n kept h = elim (Bool-cases (kept == "")) [
  | inl gone ↦ absurd (subst (HasCode n) ((eq_iff kept "").0 gone) h)
  | inr some_left ↦ rw some_left h
]

-- Whatever the display name and the case tables: a generated name is not empty; it consists of
-- lower-case letters, digits, dashes and dots; and it has each such character that is in the
-- lower-cased display name with dashes for spaces.
pub generate_k8s_name-NameChars :
    (std : Std) (name : String)
    → (generate_k8s_name std name ≢ "")
      × NameChars (generate_k8s_name std name)
      × ((n : ℕ)
          → NameCode n
          → HasCode n (replace_all b' ' "-" (to_lower std name))
          → HasCode n (generate_k8s_name std name))
unfolding generate_k8s_name
generate_k8s_name-NameChars std name =
    let text = replace_all b' ' "-" (to_lower std name) in
    let (left, chars) = name_or_agent-NameChars _ (keep_name_chars-NameChars text) in
    (
      left,
      chars,
      λ n ok h.
          name_or_agent-HasCode n (keep_name_chars text) (keep_name_chars-HasCode n ok text h),
    )

-- The letter case tables leave the characters of names alone.
abbrev pub FixesNames : Std → Type 0
FixesNames std = (c : Char) → NameCode (code c) → std.lower_rune c ≡ c

fixed_by_replace : (s : String) → NameChars s → replace_all b' ' "-" s ≡ s
unfolding replace_all
fixed_by_replace [] h = refl
fixed_by_replace (c ∷ s) h = ground (arith, fixed_by_replace s h.1)

fixed_by_keep : (s : String) → NameChars s → keep_name_chars s ≡ s
unfolding keep_name_chars
fixed_by_keep [] h = refl
fixed_by_keep (c ∷ s) h = rw ((is_name_char_iff (code c)).1 h.0, fixed_by_keep s h.1)

fixed_by_lower : (std : Std) → FixesNames std → (s : String) → NameChars s → to_lower std s ≡ s
unfolding to_lower
fixed_by_lower std fixes [] h = refl
fixed_by_lower std fixes (c ∷ s) h = rw (fixes c h.0, fixed_by_lower std fixes s h.1)

generate_k8s_name_id :
    (std : Std) (s : String) → FixesNames std → s ≢ "" → NameChars s → generate_k8s_name std s ≡ s
unfolding generate_k8s_name
generate_k8s_name_id std s fixes n h =
    rw (fixed_by_lower std fixes s h, fixed_by_replace s h, fixed_by_keep s h)
      (ground (arith, eq_iff s ""))

-- If lower-casing leaves the characters of names alone, then a name is generated from itself if it
-- is not empty and consists of lower-case letters, digits, dashes and dots; and to generate a name
-- from a generated name changes nothing.
pub generate_k8s_name_fixed :
    (std : Std)
    → FixesNames std
    → ((s : String) → s ≢ "" → NameChars s → generate_k8s_name std s ≡ s)
      × ((name : String)
          → generate_k8s_name std (generate_k8s_name std name) ≡ generate_k8s_name std name)
generate_k8s_name_fixed std fixes = (
  (λ s n h. generate_k8s_name_id std s fixes n h),
  λ name.
      let (left, chars, kept) = generate_k8s_name-NameChars std name in
      generate_k8s_name_id std (generate_k8s_name std name) fixes left chars,
)

pub NameChars-NoSlash : (s : String) → NameChars s → NoChar b'/' s
NameChars-NoSlash [] h = tt
NameChars-NoSlash (c ∷ s) h = (ground arith, NameChars-NoSlash s h.1)

-- The name is read back from a path that is the prefix and a name with no slash.
pub extract_name-append :
    (prefix name : String)
    → NoChar b'/' name
    → extract_name_from_path (prefix <> name) prefix ≡ name
unfolding extract_name_from_path
extract_name-append prefix name h = rw (trim_prefix-append prefix name, split_of_NoChar b'/' name h)

-- The name is read back from a path that is the prefix, a name with no slash, a slash, and any rest.
pub extract_name-append_slash :
    (prefix name rest : String)
    → NoChar b'/' name
    → extract_name_from_path (prefix <> (name <> ("/" <> rest))) prefix ≡ name
unfolding extract_name_from_path
extract_name-append_slash prefix name rest h =
    rw (trim_prefix-append prefix (name <> ("/" <> rest))) (
      ap (λ t. head_or_empty (split b'/' (name <> t))) (slash_front rest)
      ∙ ap head_or_empty (split-append b'/' name "/" rest h refl))
  where
    slash_front : (t : String) → "/" <> t ≡ "/" ∷ t
    slash_front t = cons-append "/" "" t ∙ ap (λ (u : String). "/" ∷ u) (nil-append t)

head-NoChar :
    (sep : ℕ) (parts : List String) → All (NoChar sep) parts → NoChar sep (head_or_empty parts)
head-NoChar sep [] h = tt
head-NoChar sep (p ∷ ps) h = h.0

extract_name-NoChar : (path prefix : String) → NoChar b'/' (extract_name_from_path path prefix)
unfolding extract_name_from_path
extract_name-NoChar path prefix = head-NoChar b'/' _ (split-NoChar b'/' (trim_prefix path prefix))

-- An extracted name holds no slash, so that to trim "/card" or "/approve" from it does nothing.
pub trim_suffix-extract_name :
    (path prefix : String)
    → (trim_suffix (extract_name_from_path path prefix) "/card"
        ≡ extract_name_from_path path prefix)
      × (trim_suffix (extract_name_from_path path prefix) "/approve"
          ≡ extract_name_from_path path prefix)
trim_suffix-extract_name path prefix = (
  trim_suffix_of_NoChar _ "/" "card" (extract_name-NoChar path prefix),
  trim_suffix_of_NoChar _ "/" "approve" (extract_name-NoChar path prefix),
)
