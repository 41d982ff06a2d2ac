-- ===== src/Base/Keys.antt =====
-- Loops over keys that delete entries of a map, or copy those that another map has.
use Prim.Native.String.{String}
use mathlib.Core.Path.{◌≡◌, refl, ap, ◌∙◌}
use mathlib.Core.Bool.{Bool, true, false, ◌||◌}
use mathlib.Core.Option.{Option, none, some}
use mathlib.Core.List.{List, [], ◌∷◌}
use text.Mathlib.TextEquality.{eq_iff}
use multi_agent_com.Base.Tests.{◌==◌, if◌then◌else◌}
use multi_agent_com.Base.Lists.{contains}
use multi_agent_com.Base.Maps.{Map, put}

module _ {ℓ} {A : Type ℓ} where
  -- `for _, k := range keys { delete(m, k) }`, with the value that a missing key has.
  abbrev pub forget : A → List String → Map A → Map A
  forget d [] m = m
  forget d (k ∷ ks) m = forget d ks (put m k d)

  pub forget_lem :
      (d : A) (ks : List String) (m : Map A) (j : String)
      → forget d ks m j ≡ (if contains ks j then d else m j)
  forget_lem d [] m j = refl
  forget_lem d (k ∷ ks) m j = forget_lem d ks (put m k d) j ∙ either (contains ks j) (k == j)
    where
      either :
          (later same : Bool)
          → (if later then d else if same then d else m j) ≡ (if same || later then d else m j)
      either true true = refl
      either true false = refl
      either false true = refl
      either false false = refl

module _ {ℓ κ} {A : Type ℓ} {B : Type κ} (wrap : A → B) where
  -- The value that is there, or else the old one.
  abbrev pub chosen : Option A → B → B
  chosen none d = d
  chosen (some x) d = wrap x

  -- `if x, ok := from[k]; ok { m[k] = x }`
  abbrev pub put_some : Map B → String → Option A → Map B
  put_some m k none = m
  put_some m k (some x) = put m k (wrap x)

  abbrev pub fill : List String → Map (Option A) → Map B → Map B
  fill [] from m = m
  fill (k ∷ ks) from m = fill ks from (put_some m k (from k))

  same_else : (b : Bool) (x : B) → x ≡ (if b then x else x)
  same_else true x = refl
  same_else false x = refl

  put_some_lem :
      (m : Map B) (k : String) (o : Option A) (j : String)
      → put_some m k o j ≡ (if k == j then chosen o (m j) else m j)
  put_some_lem m k none j = same_else (k == j) (m j)
  put_some_lem m k (some x) j = refl

  chosen_again : (o p : Option A) (d : B) → p ≡ o → chosen o (chosen p d) ≡ chosen o d
  chosen_again none p d e = ap (λ q. chosen q d) e
  chosen_again (some x) p d e = refl

  either_way :
      (later same : Bool) (o p : Option A) (d : B)
      → (same ≡ true → p ≡ o)
      → (if later
          then chosen o (if same then chosen p d else d)
          else if same
          then chosen p d
          else d)
        ≡ (if same || later then chosen o d else d)
  either_way true true o p d h = chosen_again o p d (h refl)
  either_way false true o p d h = ap (λ q. chosen q d) (h refl)
  either_way true false o p d h = refl
  either_way false false o p d h = refl

  pub fill_lem :
      (ks : List String) (from : Map (Option A)) (m : Map B) (j : String)
      → fill ks from m j ≡ (if contains ks j then chosen (from j) (m j) else m j)
  fill_lem [] from m j = refl
  fill_lem (k ∷ ks) from m j =
      fill_lem ks from (put_some m k (from k)) j
      ∙ ap (λ v. if contains ks j then chosen (from j) v else v) (put_some_lem m k (from k) j)
      ∙ either_way (contains ks j) (k == j) (from j) (from k) (m j)
          (λ e. ap from ((eq_iff k j).0 e))
