-- ===== src/Base/Maps.antt =====
-- Go's maps with string keys, as functions: a missing key is `none`, or the value type's zero.
use Prim.Native.String.{String}
use mathlib.Core.Path.{◌≡◌, subst₂}
use mathlib.Core.Logic.{◌≢◌, ◌⊎◌, inl, inr}
use mathlib.Core.Option.{Option, some, some-injective}
use native.Mathlib.Omega.{arith}
use text.Mathlib.TextEquality.{eq_iff}
use text.Mathlib.TextPositions.{eq_refl}
use multi_agent_com.Base.Tests.{◌==◌, if◌then◌else◌, Bool-cases}

abbrev pub Map {ℓ} : Type ℓ → Type ℓ
Map A = String → A

module _ {ℓ} {A : Type ℓ} where
  -- `m[k] = v`
  abbrev pub put : Map A → String → A → Map A
  put m k v j = if k == j then v else m j

  pub put_self : (m : Map A) (k : String) (v : A) → put m k v k ≡ v
  put_self m k v = rw (eq_refl k)

  pub put_other : (m : Map A) (k j : String) (v : A) → k ≢ j → put m k v j ≡ m j
  put_other m k j v h = ground (arith, eq_iff k j)

  -- An entry of the changed map is the new one, or one of the others.
  pub put_cases :
      (m : Map A) (k : String) (v : A) (j : String)
      → ((k ≡ j) × (put m k v j ≡ v)) ⊎ ((k ≢ j) × (put m k v j ≡ m j))
  put_cases m k v j = elim (Bool-cases (k == j)) [
    | inl same ↦ inl ((eq_iff k j).0 same, rw same)
    | inr other ↦ inr (λ e. cc ((eq_iff k j).1 e), rw other)
  ]

-- A property of every entry.
abbrev pub Every {ℓ κ} : {A : Type ℓ} → (String → A → Type κ) → Map (Option A) → Type (ℓ ⊔ κ)
Every {A = A} P m = (k : String) (v : A) → m k ≡ some v → P k v

pub put-Every {ℓ κ} :
    {A : Type ℓ} (P : String → A → Type κ) (m : Map (Option A)) (k : String) (v : A)
    → Every P m
    → P k v
    → Every P (put m k (some v))
put-Every P m k v h hv j w e = elim (Bool-cases (k == j)) [
  | inl same ↦ subst₂ P ((eq_iff k j).0 same) (some-injective _ _ (rw same at e)) hv
  | inr other ↦ h j w (rw other at e)
]
