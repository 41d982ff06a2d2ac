-- ===== src/Base/Trim.antt =====
-- `strings.TrimSpace` on a trimmed text.
use Prim.Native.Char.{Char}
use Prim.Native.String.{String}
use mathlib.Core.Path.{◌≡◌, refl, sym, ap, ◌∙◌}
use mathlib.Core.Logic.{inl, inr}
use mathlib.Core.Bool.{false, ◌&&◌}
use multi_agent_com.Base.Tests.{Bool-cases}
use multi_agent_com.Base.Text.{is_space, is_empty, trim_left, trim_right, trim}

trim_right_twice : (s : String) → trim_right (trim_right s) ≡ trim_right s
unfolding trim_right
trim_right_twice String.[] = refl
trim_right_twice (String.◌∷◌ c s) =
    let again = trim_right_twice s in
    elim (Bool-cases (is_space c && is_empty (trim_right s))) [
      | inl gone ↦ rw (gone, trim_right) refl
      | inr kept ↦ rw (kept, trim_right) (rw (again, kept, trim_right) refl)
    ]

-- A text that starts with no space is not cut on the left.
trim_left_kept :
    (c : Char) (s : String) → is_space c ≡ false → trim_left (String.◌∷◌ c s) ≡ String.◌∷◌ c s
unfolding trim_left
trim_left_kept c s letter = rw (letter, trim_left) refl

trim_right_kept :
    (c : Char) (s : String)
    → is_space c ≡ false
    → trim_right (String.◌∷◌ c s) ≡ String.◌∷◌ c (trim_right s)
unfolding trim_right
trim_right_kept c s letter = rw (letter, trim_right) refl

-- A text trimmed on the left stays so when it is trimmed on the right.
trim_left-trim_right :
    (s : String) → trim_left (trim_right (trim_left s)) ≡ trim_right (trim_left s)
unfolding trim_left trim_right
trim_left-trim_right String.[] = refl
trim_left-trim_right (String.◌∷◌ c s) = elim (Bool-cases (is_space c)) [
  | inl space ↦ rw (space, trim_left) (trim_left-trim_right s)
  | inr letter ↦
      let kept = trim_right_kept c s letter in
      rw (trim_left_kept c s letter)
        (ap trim_left kept ∙ trim_left_kept c (trim_right s) letter ∙ sym kept)
]

pub trim_twice : (s : String) → trim (trim s) ≡ trim s
unfolding trim
trim_twice s = ap trim_right (trim_left-trim_right s) ∙ trim_right_twice (trim_left s)
