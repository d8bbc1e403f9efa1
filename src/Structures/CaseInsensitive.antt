-- ===== src/Structures/CaseInsensitive.antt =====
-- `CaseInsensitiveDict`. The store maps the lowered key to the name as it was last written and the
-- value. A key that is missing is `none`, where the code raises `KeyError`.
pub mod Laws
use mathlib.Core.Option
use chrome_client.Base.{ℕ, Option, none, some, List, [], ◌∷◌, map, length, Bool, Eq, ◌==◌}
use chrome_client.Base.Dict.{Dict, lookup, insert, erase, values, has}
use chrome_client.Base.Dict.Equality.{dict_eq}
use chrome_client.Base.Text.{Text, lower, text_eq}

pub record CaseInsensitiveDict {ℓ} (V : Type ℓ) : Type ℓ where
  pub store : Dict Text (Text × V)

module _ {ℓ} {V : Type ℓ} where
  abbrev pub empty : CaseInsensitiveDict V
  empty = record { store = [] }

  unfoldable pub set_item : CaseInsensitiveDict V → Text → V → CaseInsensitiveDict V
  set_item d key value = record { store = insert (lower key) (key, value) d.store }

  unfoldable pub get_item : CaseInsensitiveDict V → Text → Option V
  get_item d key = Option.map (λ (_, value). value) (lookup (lower key) d.store)

  unfoldable pub del_item : CaseInsensitiveDict V → Text → Option (CaseInsensitiveDict V)
  del_item d key = elim (lookup (lower key) d.store) [
    | none ↦ none
    | some _ ↦ some (record { store = erase (lower key) d.store })
  ]

  unfoldable pub iter : CaseInsensitiveDict V → List Text
  iter d = map (λ (name, _). name) (values d.store)

  unfoldable pub len : CaseInsensitiveDict V → ℕ
  len d = length d.store

  unfoldable pub lower_items : CaseInsensitiveDict V → Dict Text V
  lower_items d = map (λ (key, (_, value)). (key, value)) d.store

  -- `update` with pairs, which is also how `__init__` reads its argument.
  unfoldable pub update : CaseInsensitiveDict V → List (Text × V) → CaseInsensitiveDict V
  unfolding set_item
  update d [] = d
  update d ((name, value) ∷ pairs) = update (set_item d name value) pairs

  unfoldable pub copy : CaseInsensitiveDict V → CaseInsensitiveDict V
  unfolding update
  copy d = update empty (values d.store)

-- `__eq__` with another mapping, which is given by its items and read into a mapping of this class.
unfoldable pub equals {ℓ} : {V : Type ℓ} ⦃e : Eq V⦄ → CaseInsensitiveDict V → List (Text × V) → Bool
unfolding lower_items update dict_eq
equals d other = dict_eq (lower_items d) (lower_items (update empty other))
