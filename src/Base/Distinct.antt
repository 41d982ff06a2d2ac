-- ===== src/Base/Distinct.antt =====
-- Lists of texts without blanks and repetitions, as loops make them that keep the texts seen.
use Prim.Native.String.{String}
use mathlib.Core.Path.{◌≡◌, refl, sym, subst, ◌∙◌}
use mathlib.Core.Logic.{inl, inr}
use mathlib.Core.Bool.{Bool, true, false, not, ◌&&◌, ◌||◌}
use mathlib.Core.List.{List, [], ◌∷◌, map}
use native.Mathlib.Omega.{arith}
use text.Mathlib.TextEquality.{eq_iff}
use text.Mathlib.TextPositions.{eq_refl}
use multi_agent_com.Base.Tests.{◌==◌, if◌then◌else◌, Bool-cases}
use multi_agent_com.Base.Lists.{contains}
use multi_agent_com.Base.Text.{is_empty}

-- Each text is cleaned; blank ones and those seen before are left out.
unfoldable pub distinct_by : (String → String) → List String → List String → List String
distinct_by clean seen [] = []
distinct_by clean seen (v ∷ vs) =
    let c = clean v in
    let skipped = distinct_by clean seen vs in
    let rest = distinct_by clean (c ∷ seen) vs in
    if is_empty c || contains seen c then skipped else c ∷ rest

-- No text occurs twice.
abbrev pub IsDistinct : List String → Type 0
IsDistinct [] = Unit
IsDistinct (x ∷ xs) = (contains xs x ≡ false) × IsDistinct xs

-- The tests of one round, as Booleans: the role asked for is the one of the round, it is empty,
-- among the later ones, seen before.
skip_lem :
    (same empty later seen : Bool)
    → (same ≡ true → (empty || seen) ≡ true)
    → ((not empty && later) && not seen) ≡ ((not empty && (same || later)) && not seen)
skip_lem false empty later seen h = refl
skip_lem true true later seen h = refl
skip_lem true false later true h = ground arith
skip_lem true false later false h = absurd (cc (h refl))

keep_lem :
    (same empty later seen : Bool)
    → (same ≡ true → (empty || seen) ≡ false)
    → (same || ((not empty && later) && not (same || seen)))
      ≡ ((not empty && (same || later)) && not seen)
keep_lem false empty later seen h = refl
keep_lem true true later seen h = absurd (cc (h refl))
keep_lem true false later true h = absurd (cc (h refl))
keep_lem true false later false h = refl

no_role : (empty seen : Bool) → ((not empty && false) && not seen) ≡ false
no_role true seen = refl
no_role false seen = refl

module _ (clean : String → String) where
  distinct_by-contains :
      (vs seen : List String) (r : String)
      → contains (distinct_by clean seen vs) r
        ≡ ((not (is_empty r) && contains (map (clean) vs) r) && not (contains seen r))
  unfolding distinct_by
  distinct_by-contains [] seen r = sym (no_role (is_empty r) (contains seen r))
  distinct_by-contains (v ∷ vs) seen r =
      let c = clean v in
      let is_role = (eq_iff c r).0 in
      elim (Bool-cases (is_empty c || contains seen c)) [
        | inl skipped ↦
            rw (skipped, distinct_by-contains vs seen r)
              (skip_lem (c == r) (is_empty r) _ (contains seen r)
                (λ e. subst (λ z. (is_empty z || contains seen z) ≡ true) (is_role e) skipped))
        | inr kept ↦
            rw (kept, distinct_by-contains vs (c ∷ seen) r)
              (keep_lem (c == r) (is_empty r) _ (contains seen r)
                (λ e. subst (λ z. (is_empty z || contains seen z) ≡ false) (is_role e) kept))
      ]

  seen_no_more :
      (vs seen : List String) (c : String)
      → contains seen c ≡ true
      → contains (distinct_by clean seen vs) c ≡ false
  seen_no_more vs seen c h = rw (distinct_by-contains vs seen c, h) (and_false _)
    where
      and_false : (b : Bool) → (b && false) ≡ false
      and_false true = refl
      and_false false = refl

  distinct_by-IsDistinct : (vs seen : List String) → IsDistinct (distinct_by clean seen vs)
  unfolding distinct_by
  distinct_by-IsDistinct [] seen = tt
  distinct_by-IsDistinct (v ∷ vs) seen =
      let c = clean v in
      elim (Bool-cases (is_empty c || contains seen c)) [
        | inl skipped ↦ rw skipped (distinct_by-IsDistinct vs seen)
        | inr kept ↦ rw kept (
          seen_no_more vs (c ∷ seen) c (rw (eq_refl c) refl),
          distinct_by-IsDistinct vs (c ∷ seen),
        )
      ]

  -- What is kept is, once each, every text that is not empty and that one of the values becomes.
  pub IsDistinct-contains :
      (vs : List String)
      → ((r : String)
          → contains (distinct_by clean [] vs) r ≡ (not (is_empty r) && contains (map clean vs) r))
        × IsDistinct (distinct_by clean [] vs)
  IsDistinct-contains vs =
      (λ r. distinct_by-contains vs [] r ∙ and_true _, distinct_by-IsDistinct vs [])
    where
      and_true : (b : Bool) → (b && true) ≡ b
      and_true true = refl
      and_true false = refl
