-- ===== src/Base/Splitting.antt =====
-- Splitting a text at a separator that its parts lack.
use Prim.Native.Nat.{ℕ}
use mathlib.Core.Path.{◌≡◌, refl}
use mathlib.Core.Logic.{◌≢◌, inl, inr}
use mathlib.Core.Option.{some}
use mathlib.Core.List.{List, [], ◌∷◌, ◌++◌}
use native.Mathlib.Omega.{arith}
use chrome_client.Base.Lists.{All}
use chrome_client.Base.Tests.{◌==◌, ℕ_eq, Bool-cases}
use chrome_client.Base.Text.{Text, split_all, split_once, extend_first}

abbrev pub Lacks : ℕ → Text → Type 0
Lacks x s = All (λ (c : ℕ). c ≢ x) s

pub Lacks-append : (x : ℕ) (s t : Text) → Lacks x s → Lacks x t → Lacks x (s ++ t)
Lacks-append x [] t h k = k
Lacks-append x (c ∷ s) t (h, hs) k = (h, Lacks-append x s t hs k)

module _ (sep : ℕ) where
  pub split_once-cut : (p s : Text) → Lacks sep p → split_once sep (p ++ sep ∷ s) ≡ (p, some s)
  unfolding split_once
  split_once-cut [] s h = ground arith
  split_once-cut (c ∷ p) s (h, hs) = ground (arith, h, split_once-cut p s hs)

  pub split_all-cut :
      (p s : Text) → Lacks sep p → split_all sep (p ++ sep ∷ s) ≡ p ∷ split_all sep s
  unfolding split_all extend_first
  split_all-cut [] s h = ground arith
  split_all-cut (c ∷ p) s (h, hs) = ground (arith, h, split_all-cut p s hs)

  pub split_all_last : (q : Text) → Lacks sep q → split_all sep q ≡ q ∷ []
  unfolding split_all extend_first
  split_all_last [] h = refl
  split_all_last (c ∷ q) (h, hs) = ground (arith, h, split_all_last q hs)

  pub split_all_parts : (s : Text) → (p : Text) × (ps : List Text) × (split_all sep s ≡ p ∷ ps)
  unfolding split_all extend_first
  split_all_parts [] = ([], [], refl)
  split_all_parts (c ∷ s) = elim (Bool-cases (c == sep)) [
    | inl e ↦ ([], split_all sep s, simp e refl)
    | inr e ↦ let (p, ps, k) = split_all_parts s in (c ∷ p, ps, simp (e, k) refl)
  ]
