-- ===== src/Base/Split.antt =====
-- `strings.Cut` and `strings.SplitN` at a code point.
use Prim.Native.Char.{Char, code}
use Prim.Native.Nat.{ℕ, zero, suc}
use Prim.Native.String.{String}
use Prim.Native.String.{◌++◌ as ◌+++◌}
use mathlib.Core.Path.{◌≡◌, refl, ap, subst}
use mathlib.Core.Logic.{inl, inr}
use mathlib.Core.Bool.{Bool, true, false, ◌||◌}
use mathlib.Core.Option.{Option, none, some, some-injective}
use mathlib.Core.List.{List, [], ◌∷◌}
use text.Mathlib.TextEquality.{Char-path}
use text.Mathlib.TextLemmas.{nil-append, cons-append}
use multi_agent_com.Base.Tests.{eqb, eqb_iff, if◌then◌else◌, Bool-cases, Option-cases}

-- Whether the code point occurs.
abbrev pub has_code : ℕ → String → Bool
has_code c String.[] = false
has_code c (String.◌∷◌ d s) = eqb (code d) c || has_code c s

abbrev prepend_first : Char → Option (String × String) → Option (String × String)
prepend_first d none = none
prepend_first d (some (a, b)) = some (String.◌∷◌ d a, b)

-- `strings.Cut`: what stands before the first occurrence, and what after it.
abbrev pub cut : ℕ → String → Option (String × String)
cut c String.[] = none
cut c (String.◌∷◌ d s) =
    let rest = cut c s in if eqb (code d) c then some (String.[], s) else prepend_first d rest

-- The same at the last occurrence, where `strings.LastIndex` finds it.
abbrev pub cut_last : ℕ → String → Option (String × String)
cut_last c String.[] = none
cut_last c (String.◌∷◌ d s) = elim (cut_last c s) [
  | some (a, b) ↦ some (String.◌∷◌ d a, b)
  | none ↦ if eqb (code d) c then some (String.[], s) else none
]

-- `strings.SplitN`, for a positive number of parts.
abbrev pub split_n : ℕ → ℕ → String → List String
split_n zero c s = []
split_n (suc zero) c s = s ∷ []
split_n (suc (suc n)) c s = elim (cut c s) [ none ↦ s ∷ [] | some (a, b) ↦ a ∷ split_n (suc n) c b ]

module _ (sep : Char) where
  abbrev at_sep : String → String → String
  at_sep a b = a +++ String.◌∷◌ sep b

  pub cut_join :
      (a b : String) → has_code (code sep) a ≡ false → cut (code sep) (at_sep a b) ≡ some (a, b)
  cut_join String.[] b h = rw (nil-append, (eqb_iff (code sep) (code sep)).1 refl) refl
  cut_join (String.◌∷◌ d a) b h = elim (Bool-cases (eqb (code d) (code sep))) [
    | inl same ↦ absurd (cc (rw same at h))
    | inr other ↦ rw (cons-append, other, cut_join a b (rw other at h)) refl
  ]

  -- Where a text is cut in two.
  abbrev IsCut : String → String × String → Type 0
  IsCut s p = (s ≡ at_sep p.0 p.1) × (has_code (code sep) p.0 ≡ false)

  IsCut-here :
      (d : Char) (s : String) → eqb (code d) (code sep) ≡ true → IsCut (String.◌∷◌ d s) ("", s)
  IsCut-here d s same =
      let eq = Char-path d sep ((eqb_iff (code d) (code sep)).0 same) in
      (rw (eq, nil-append) refl, refl)

  IsCut-later :
      (d : Char) (s : String) (p : String × String)
      → eqb (code d) (code sep) ≡ false
      → IsCut s p
      → IsCut (String.◌∷◌ d s) (String.◌∷◌ d p.0, p.1)
  IsCut-later d s p other h = (rw (cons-append) (ap (String.◌∷◌ d) h.0), rw (other) h.1)

  pub cut_parts : (s : String) (p : String × String) → cut (code sep) s ≡ some p → IsCut s p
  cut_parts String.[] p e = absurd (cc e)
  cut_parts (String.◌∷◌ d s) p e = elim (Bool-cases (eqb (code d) (code sep))) [
    | inl same ↦
        subst (IsCut (String.◌∷◌ d s)) (some-injective _ _ (rw same at e)) (IsCut-here d s same)
    | inr other ↦ elim (Option-cases (cut (code sep) s)) [
      | inl nowhere ↦ absurd (cc (rw (other, nowhere) at e))
      | inr (q, found) ↦
          subst (IsCut (String.◌∷◌ d s)) (some-injective _ _ (rw (other, found) at e))
            (IsCut-later d s q other (cut_parts s q found))
    ]
  ]

pub split_n-cut :
    (n c : ℕ) (s : String) (p : String × String)
    → cut c s ≡ some p
    → split_n (suc (suc n)) c s ≡ p.0 ∷ split_n (suc n) c p.1
split_n-cut n c s p e = rw (split_n, e) refl

pub split_n-whole : (n c : ℕ) (s : String) → cut c s ≡ none → split_n (suc (suc n)) c s ≡ s ∷ []
split_n-whole n c s e = rw (split_n, e) refl
