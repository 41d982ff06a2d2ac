-- ===== src/Base/Text.antt =====
-- Texts as lists of Unicode code points: their length in bytes, `strings.TrimSpace`,
-- `strings.Join` and `strings.Fields`.
use Prim.Native.Char.{Char, code}
use Prim.Native.Nat.{ℕ, ◌+◌}
use Prim.Native.String.{String}
use Prim.Native.String.{◌++◌ as ◌+++◌}
use mathlib.Core.List.{List, [], ◌∷◌}
use mathlib.Core.Path.{◌≡◌, sym, ap, ◌∙◌}
use mathlib.Core.Logic.{◌≢◌}
use mathlib.Core.Option.{none, some}
use text.Mathlib.Text.{find?, starts_with}
use Prim.Native.String.{len, slice}
use text.Mathlib.TextPositions.{eq_refl}
use mathlib.Core.Bool.{Bool, true, false, ◌&&◌, ◌||◌}
use multi_agent_com.Base.Tests.{◌==◌, leb, ltb, eqb, if◌then◌else◌}

-- `unicode.IsSpace`
abbrev pub is_space_code : ℕ → Bool
is_space_code c =
    (leb 9 c && leb c 13)
    || eqb c 32
    || eqb c 0x85
    || eqb c 0xa0
    || eqb c 0x1680
    || (leb 0x2000 c && leb c 0x200a)
    || eqb c 0x2028
    || eqb c 0x2029
    || eqb c 0x202f
    || eqb c 0x205f
    || eqb c 0x3000

unfoldable pub is_space : Char → Bool
is_space c = is_space_code (code c)

-- The bytes of a code point in UTF-8.
abbrev pub code_bytes : ℕ → ℕ
code_bytes c = if ltb c 0x80 then 1 else if ltb c 0x800 then 2 else if ltb c 0x10000 then 3 else 4

-- `len(s)`
unfoldable pub byte_length : String → ℕ
byte_length String.[] = 0
byte_length (String.◌∷◌ c s) = code_bytes (code c) + byte_length s

abbrev pub is_empty : String → Bool
is_empty String.[] = true
is_empty (String.◌∷◌ c s) = false

unfoldable pub trim_left : String → String
unfolding is_space
trim_left String.[] = String.[]
trim_left (String.◌∷◌ c s) = if is_space c then trim_left s else String.◌∷◌ c s

unfoldable pub trim_right : String → String
unfolding is_space
trim_right String.[] = String.[]
trim_right (String.◌∷◌ c s) =
    let r = trim_right s in if is_space c && is_empty r then String.[] else String.◌∷◌ c r

-- `strings.TrimSpace`
unfoldable pub trim : String → String
unfolding trim_left trim_right
trim s = trim_right (trim_left s)

-- `strings.Join`
unfoldable pub join : String → List String → String
join sep [] = ""
join sep (x ∷ []) = x
join sep (x ∷ (y ∷ ys)) = x +++ (sep +++ join sep (y ∷ ys))

abbrev starts_apart : String → Bool
starts_apart String.[] = true
starts_apart (String.◌∷◌ c s) = is_space c

abbrev prepend : Char → List String → List String
prepend c [] = String.◌∷◌ c String.[] ∷ []
prepend c (w ∷ ws) = String.◌∷◌ c w ∷ ws

-- `strings.Fields`
unfoldable pub fields : String → List String
unfolding is_space
fields String.[] = []
fields (String.◌∷◌ c s) =
    let rest = fields s in
    if is_space c
    then rest
    else if starts_apart s
    then String.◌∷◌ c String.[] ∷ rest
    else prepend c rest

-- `strings.Contains`
abbrev pub has_text : String → String → Bool
has_text s part = elim (find? s part) [ none ↦ false | some at ↦ true ]

pub unequal : (x y : String) → (x == y) ≡ false → x ≢ y
unequal x y h e = absurd (cc (sym (eq_refl x) ∙ ap (λ z. x == z) e ∙ h))

-- `strings.TrimPrefix`
abbrev pub trim_prefix : String → String → String
trim_prefix s front = if starts_with s front then slice s (len front) (len s) else s

-- `content[start:end]`, in bytes of the UTF-8 text, for bounds between characters.
abbrev pub bytes_between : ℕ → ℕ → ℕ → String → String
bytes_between first last at String.[] = String.[]
bytes_between first last at (String.◌∷◌ c s) =
    let rest = bytes_between first last (at + code_bytes (code c)) s in
    if leb first at && ltb at last then String.◌∷◌ c rest else rest
