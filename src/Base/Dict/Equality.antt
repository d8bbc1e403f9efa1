-- ===== src/Base/Dict/Equality.antt =====
-- Python's `==` on dicts: as many entries, and each entry of the one is in the other.
use mathlib.Core.Path.{◌≡◌, refl, sym, ◌∙◌}
use mathlib.Core.Logic.{◌↔◌}
use mathlib.Core.Option.{none, some}
use mathlib.Core.List.{[], ◌∷◌}
use mathlib.Core.Bool.{Bool, true, ◌&&◌}
use native.Mathlib.Omega.{arith}
use Prim.Native.Nat.{◌+◌}
use chrome_client.Base.Tests.{Eq, ◌==◌, if◌then◌else◌, option_eq, ℕ_eq}
use chrome_client.Base.Lists.{length}
use chrome_client.Base.Dict.{Dict, lookup, erase, has, NodupKeys, lookup-erase, erase-NodupKeys}

module _ {ℓ κ} {K : Type ℓ} {V : Type κ} ⦃e : Eq K⦄ ⦃f : Eq V⦄ where
  pub includes : Dict K V → Dict K V → Bool
  includes [] b = true
  includes ((k, v) ∷ a) b = (lookup k b == some v) && includes a b

  unfoldable pub dict_eq : Dict K V → Dict K V → Bool
  unfolding includes option_eq ℕ_eq
  dict_eq a b = (length a == length b) && includes a b

module _ {ℓ κ} {K : Type ℓ} {V : Type κ} ⦃e : Eq K⦄ where
  pub erase_of_absent : (k : K) (d : Dict K V) → lookup k d ≡ none → erase k d ≡ d
  unfolding lookup erase
  erase_of_absent k [] h = refl
  erase_of_absent k ((j, v) ∷ d) h = ground (arith, erase_of_absent k d)

  pub length-erase :
      (k : K) (d : Dict K V)
      → NodupKeys d
      → length d ≡ (if has k d then length (erase k d) + 1 else length (erase k d))
  unfolding lookup erase
  length-erase k [] u = refl
  length-erase k ((j, v) ∷ d) (fresh, u) =
      ground (arith, length-erase k d u, erase_of_absent j d fresh)

module _ {ℓ κ} {K : Type ℓ} {V : Type κ} ⦃e : Eq K⦄ ⦃f : Eq V⦄ where
  includes-erase :
      (k : K) (a b : Dict K V)
      → lookup k a ≡ none
      → includes a b ≡ true
      → includes a (erase k b) ≡ true
  unfolding lookup includes
  includes-erase k [] b fresh h = refl
  includes-erase k ((j, v) ∷ a) b fresh h = ground (arith, includes-erase k a b, lookup-erase j k b)

  lookup_of_includes :
      (a b : Dict K V)
      → NodupKeys a
      → NodupKeys b
      → length a ≡ length b
      → includes a b ≡ true
      → (k : K) → lookup k a ≡ lookup k b
  unfolding lookup includes
  lookup_of_includes [] [] _ _ _ _ k = refl
  lookup_of_includes [] (_ ∷ _) _ _ n _ k = absurd (omega arith)
  lookup_of_includes ((j, v) ∷ a) b (fresh, u) w n h k = ground (
    arith,
    length-erase j b w,
    includes-erase j a b fresh,
    lookup_of_includes a (erase j b) u (erase-NodupKeys j b w) (ground (arith, length-erase j b w))
        (ground (arith, includes-erase j a b fresh)) k,
    lookup-erase k j b,
  )

  includes_of_lookup :
      (a b : Dict K V)
      → NodupKeys a
      → ((k : K) (v : V) → lookup k a ≡ some v → lookup k b ≡ some v)
      → includes a b ≡ true
  unfolding lookup includes
  includes_of_lookup [] b _ h = refl
  includes_of_lookup ((j, v) ∷ a) b (fresh, u) h =
      ground (arith, h j v, includes_of_lookup a b u (λ k w p. h k w (ground arith)))

  length_of_lookup :
      (a b : Dict K V)
      → NodupKeys a
      → NodupKeys b
      → ((k : K) → lookup k a ≡ lookup k b)
      → length a ≡ length b
  unfolding lookup
  length_of_lookup [] [] _ _ h = refl
  length_of_lookup [] ((j, v) ∷ b) _ _ h = ground (arith, h j)
  length_of_lookup ((j, v) ∷ a) b (fresh, u) w h = ground (
    arith,
    h j,
    length-erase j b w,
    length_of_lookup a (erase j b) u (erase-NodupKeys j b w)
        (λ k. ground (arith, h k, lookup-erase k j b)),
  )

  -- Dicts are equal exactly when they have the same value, or none, at every key.
  pub dict_eq_iff :
      (a b : Dict K V)
      → NodupKeys a
      → NodupKeys b
      → (dict_eq a b ≡ true) ↔ ((k : K) → lookup k a ≡ lookup k b)
  unfolding dict_eq
  dict_eq_iff a b u w = (
    λ h. lookup_of_includes a b u w (ground arith) (ground arith),
    λ h.
        ground
          (arith, length_of_lookup a b u w h, includes_of_lookup a b u (λ k v p. sym (h k) ∙ p)),
  )
