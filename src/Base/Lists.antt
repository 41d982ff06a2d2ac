-- ===== src/Base/Lists.antt =====
-- Slices of Go as lists: lengths, last elements, searches from either end.
use Prim.Native.Nat.{ℕ, suc}
use Prim.Native.String.{String}
use mathlib.Core.Path.{◌≡◌, refl, subst, sym, ap, ◌∙◌}
use mathlib.Core.Logic.Or
use mathlib.Core.HLevel.{⊥_prop}
use mathlib.Core.Logic.{◌⊎◌, ◌↔◌, inl, inr}
use mathlib.Core.Bool.{Bool, true, false, ◌||◌}
use mathlib.Core.Option.{Option, none, some, some-injective}
use mathlib.Core.List.{
  List, [], ◌∷◌, ◌++◌, Mem, mem-cons_self, mem-cons_of_mem, not-mem-nil, eq-or-mem_of_mem-cons,
}
use native.Mathlib.Omega.{arith}
use multi_agent_com.Base.Tests.{◌==◌, if◌then◌else◌, Bool-cases, Option-cases}

module _ {ℓ} {A : Type ℓ} where
  abbrev pub length : List A → ℕ
  length [] = 0
  length (x ∷ xs) = suc (length xs)

  pub List-cases : (xs : List A) → (xs ≡ []) ⊎ ((x : A) × ((ys : List A) × (xs ≡ x ∷ ys)))
  List-cases [] = inl refl
  List-cases (x ∷ xs) = inr (x, (xs, refl))

  -- `append(xs, x)`.
  abbrev pub snoc : List A → A → List A
  snoc xs x = xs ++ x ∷ []

  -- `xs[len(xs)-1]`, where there is one.
  abbrev pub last? : List A → Option A
  last? [] = none
  last? (x ∷ xs) = elim (last? xs) [ none ↦ some x | some y ↦ some y ]

  -- A write through the pointer that was appended last.
  abbrev pub set_last : List A → A → List A
  set_last [] y = []
  set_last (x ∷ []) y = y ∷ []
  set_last (x ∷ (z ∷ xs)) y = x ∷ set_last (z ∷ xs) y

  -- The first element that passes, and the last one.
  abbrev pub find_first : (A → Bool) → List A → Option A
  find_first p [] = none
  find_first p (x ∷ xs) = if p x then some x else find_first p xs

  abbrev pub find_last : (A → Bool) → List A → Option A
  find_last p [] = none
  find_last p (x ∷ xs) = elim (find_last p xs) [
    | some y ↦ some y
    | none ↦ if p x then some x else none
  ]

  -- The first element that passes is replaced.
  abbrev pub update_first : (A → Bool) → (A → A) → List A → List A
  update_first p f [] = []
  update_first p f (x ∷ xs) = if p x then f x ∷ xs else x ∷ update_first p f xs

  -- The last element that passes is replaced.
  abbrev pub update_last : (A → Bool) → (A → A) → List A → List A
  update_last p f [] = []
  update_last p f (x ∷ xs) = elim (find_last p xs) [
    | some y ↦ x ∷ update_last p f xs
    | none ↦ if p x then f x ∷ xs else x ∷ xs
  ]

  abbrev pub All {κ} : (A → Type κ) → List A → Type κ
  All P [] = Unit
  All P (x ∷ xs) = P x × All P xs

  pub All-append {κ} : (P : A → Type κ) (xs ys : List A) → All P xs → All P ys → All P (xs ++ ys)
  All-append P [] ys hx hy = hy
  All-append P (x ∷ xs) ys hx hy = (hx.0, All-append P xs ys hx.1 hy)

  pub All-snoc {κ} : (P : A → Type κ) (xs : List A) (x : A) → All P xs → P x → All P (snoc xs x)
  All-snoc P xs x hx h = All-append P xs (x ∷ []) hx (h, tt)

  pub find_first-none :
      (p : A → Bool) (xs : List A) → find_first p xs ≡ none → All (λ x. p x ≡ false) xs
  find_first-none p [] e = tt
  find_first-none p (y ∷ xs) e = ground (arith, find_first-none p xs)

-- Membership of a text, as the loops over string slices test it.
abbrev pub contains : List String → String → Bool
contains [] a = false
contains (x ∷ xs) a = x == a || contains xs a

module _ {ℓ} {A : Type ℓ} where
  -- What the search finds passes the test and is in the list.
  pub find_first-Mem :
      (p : A → Bool) (xs : List A) (x : A) → find_first p xs ≡ some x → (p x ≡ true) × Mem x xs
  find_first-Mem p [] x e = absurd (cc e)
  find_first-Mem p (y ∷ xs) x e = elim (Bool-cases (p y)) [
    | inl hit ↦
        let same = some-injective _ _ (rw hit at e) in
        subst (λ z. (p z ≡ true) × Mem z (y ∷ xs)) same (hit, mem-cons_self)
    | inr miss ↦
        let (passes, later) = find_first-Mem p xs x (rw miss at e) in
        (passes, mem-cons_of_mem y later)
  ]

  found_or_not :
      (p : A → Bool) (xs : List A) (x : A) → Mem x xs → p x ≡ true → ¬ (find_first p xs ≡ none)
  found_or_not p [] x m h e = not-mem-nil m
  found_or_not p (y ∷ xs) x m h e = elim (Bool-cases (p y)) [
    | inl hit ↦ cc (rw hit at e)
    | inr miss ↦
        Or.elim ⊥_prop (eq-or-mem_of_mem-cons m) (λ same. cc (sym h ∙ ap p same ∙ miss))
          (λ later. found_or_not p xs x later h (rw miss at e))
  ]

  -- Where an element passes the test, the search finds one.
  pub Mem-find_first :
      (p : A → Bool) (xs : List A) (x : A)
      → Mem x xs
      → p x ≡ true
      → (y : A) × (find_first p xs ≡ some y)
  Mem-find_first p xs x m h = elim (Option-cases (find_first p xs)) [
    | inl missing ↦ absurd (found_or_not p xs x m h missing)
    | inr found ↦ found
  ]

pub All-map {ℓ κ ν} :
    {A : Type ℓ} (P : A → Type κ) (Q : A → Type ν) (f : (x : A) → P x → Q x) (xs : List A)
    → All P xs
    → All Q xs
All-map P Q f [] h = tt
All-map P Q f (x ∷ xs) h = (f x h.0, All-map P Q f xs h.1)

pub append_nil {ℓ} : {B : Type ℓ} (xs ys : List B) → xs ++ ys ≡ [] → (xs ≡ []) × (ys ≡ [])
append_nil [] ys e = (refl, e)
append_nil (x ∷ xs) ys e = absurd (cc e)

module _ {ℓ κ} {A : Type ℓ} {B : Type κ} where
  -- What a loop appends for each element.
  abbrev pub flat : (A → List B) → List A → List B
  flat f [] = []
  flat f (x ∷ xs) = f x ++ flat f xs

  -- Nothing is appended exactly where nothing is for each.
  pub flat-All : (f : A → List B) (xs : List A) → (flat f xs ≡ []) ↔ All (λ x. f x ≡ []) xs
  flat-All f [] = (λ e. tt, λ h. refl)
  flat-All f (x ∷ xs) = (
    λ e. let (here, later) = append_nil (f x) (flat f xs) e in (here, (flat-All f xs).0 later),
    λ h. rw (h.0, (flat-All f xs).1 h.1) refl,
  )
