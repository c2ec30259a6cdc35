-- ===== src/Scenarios/Texts.antt =====
-- The theorems on resource names at concrete names.
use a2a_registry.Common.{ℕ, String, ◌≡◌, ◌≢◌, arith}
use a2a_registry.GoStrings.{replace_all, to_lower}
use a2a_registry.Platform.{ascii_std}
use a2a_registry.Handler.Names.{generate_k8s_name}
use a2a_registry.Handler.Names.Laws.{
  NameCode, NameChars, HasCode, generate_k8s_name-NameChars, FixesNames, generate_k8s_name_fixed,
}

generate_example :
    (generate_k8s_name ascii_std "Echo Agent" ≢ "")
    × NameChars (generate_k8s_name ascii_std "Echo Agent")
    × ((n : ℕ)
        → NameCode n
        → HasCode n (replace_all b' ' "-" (to_lower ascii_std "Echo Agent"))
        → HasCode n (generate_k8s_name ascii_std "Echo Agent"))
generate_example = generate_k8s_name-NameChars ascii_std "Echo Agent"

ascii_std-FixesNames : FixesNames ascii_std
ascii_std-FixesNames c h = ground arith

fixed_example :
    ((s : String) → s ≢ "" → NameChars s → generate_k8s_name ascii_std s ≡ s)
    × ((name : String)
        → generate_k8s_name ascii_std (generate_k8s_name ascii_std name)
          ≡ generate_k8s_name ascii_std name)
fixed_example = generate_k8s_name_fixed ascii_std ascii_std-FixesNames
