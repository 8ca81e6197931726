-- ===== src/Errors/Headers.antt =====
-- errors.py, `_header`: which header answers to a name.
use Prim.Native.Char.{Char, code}
use Prim.Native.String.{String as Text}
use deixic_python.Base.{
  ◌+◌, ◌≤◌, String, Bool, true, not, ◌&&◌, ◌≡◌, ◌⊎◌, List, [], ◌∷◌, ◌++◌, All, leb, ◌==◌,
}

-- Two characters that are one letter in upper and in lower case, or the same character. The Kelvin
-- sign is an upper-case k.
abbrev pub Alike : Char → Char → Type 0
Alike c d =
    (code c ≡ code d)
    ⊎ (((65 ≤ code c) × (code c ≤ 90) × (code d ≡ code c + 32))
        ⊎ ((code c ≡ 0x212a) × (code d ≡ 107)))

-- A spelling of a name: the same characters, up to upper and lower case.
abbrev pub Spells : String → String → Type 0
Spells Text.[] Text.[] = Unit
Spells (Text.◌∷◌ c s) (Text.◌∷◌ d t) = Alike c d × Spells s t
Spells _ _ = ⊥

-- A name without upper-case letters, as the names are that the source looks up.
abbrev pub is_lowered : String → Bool
is_lowered Text.[] = true
is_lowered (Text.◌∷◌ d t) =
    not (leb 65 (code d) && leb (code d) 90) && not (code d == 0x212a) && is_lowered t

-- A value stands behind a spelling of the name, and no header before it is one.
abbrev pub IsFirst : List (String × String) → String → String → Type 0
IsFirst headers name value =
    (before : List (String × String)) × (key : String) × (rest : List (String × String)) × (headers
      ≡ before ++ (key, value) ∷ rest)
    × All (λ other. ¬ Spells other.0 name) before
    × Spells key name
