-- ===== src/Structures/CaseInsensitive/Laws.antt =====
-- Lookups ignore case, and a copy is the mapping that it was taken from.
use mathlib.Core.Option
use mathlib.Core.List.{append-nil, append_assoc}
use chrome_client.Base.{
  ◌≡◌, refl, ◌↔◌, sym, ◌∙◌, ap, none, some, List, [], ◌∷◌, ◌++◌, true, Eq, ◌==◌, if◌then◌else◌,
  arith,
}
use chrome_client.Base.Dict.{
  Dict, lookup, insert, erase, values, has, NodupKeys, lookup-insert, lookup-erase,
  insert-NodupKeys,
}
use chrome_client.Base.Dict.Equality.{dict_eq_iff}
use chrome_client.Base.Text.{Text, lower, text_eq}
use chrome_client.Structures.CaseInsensitive.{
  CaseInsensitiveDict, empty, set_item, get_item, del_item, lower_items, update, copy, equals,
}

module _ {ℓ} {V : Type ℓ} where
  abbrev AllLowered : Dict Text (Text × V) → Type 0
  AllLowered [] = Unit
  AllLowered ((key, (name, _)) ∷ store) = (key ≡ lower name) × AllLowered store

  -- Each key of the store is there once, and it is the lowered form of the name beside it.
  pub record IsValid (d : CaseInsensitiveDict V) : Type ℓ where
    pub lowered : AllLowered d.store
    pub nodup : NodupKeys d.store

  AllLowered-insert :
      (name : Text) (value : V) (s : Dict Text (Text × V))
      → AllLowered s
      → AllLowered (insert (lower name) (name, value) s)
  unfolding insert
  AllLowered-insert name value [] h = (refl, tt)
  AllLowered-insert name value ((key, (n, v)) ∷ s) (k, h) =
      ground (arith, AllLowered-insert name value s h)

  AllLowered-erase : (k : Text) (s : Dict Text (Text × V)) → AllLowered s → AllLowered (erase k s)
  unfolding erase
  AllLowered-erase k [] h = tt
  AllLowered-erase k ((key, (n, v)) ∷ s) (e, h) = ground (arith, AllLowered-erase k s h)

  pub set_item-IsValid :
      (d : CaseInsensitiveDict V) (name : Text) (value : V)
      → IsValid d
      → IsValid (set_item d name value)
  unfolding set_item
  set_item-IsValid d name value h = record {
    lowered = AllLowered-insert name value d.store h.lowered;
    nodup = insert-NodupKeys (lower name) (name, value) d.store h.nodup;
  }

  pub update-IsValid :
      (pairs : List (Text × V)) (d : CaseInsensitiveDict V) → IsValid d → IsValid (update d pairs)
  unfolding update
  update-IsValid [] d h = h
  update-IsValid ((name, value) ∷ pairs) d h =
      update-IsValid pairs _ (set_item-IsValid d name value h)

  -- A read after a write: the written value under every spelling of its key, the old one elsewhere.
  pub get_item-set_item :
      (d : CaseInsensitiveDict V) (key other : Text) (value : V)
      → get_item (set_item d key value) other
        ≡ (if lower other == lower key then some value else get_item d other)
  unfolding set_item get_item
  get_item-set_item d key other value = rw lookup-insert (ground arith)

  -- A deletion fails exactly on a key that is missing, and removes no other key.
  pub get_item-del_item :
      (d d' : CaseInsensitiveDict V) (key other : Text)
      → del_item d key ≡ some d'
      → get_item d' other ≡ (if lower other == lower key then none else get_item d other)
  unfolding del_item get_item
  get_item-del_item d d' key other h =
      ground (arith, lookup-erase (lower other) (lower key) d.store)

  insert_of_absent :
      (k : Text) (v : Text × V) (s : Dict Text (Text × V))
      → lookup k s ≡ none
      → insert k v s ≡ s ++ (k, v) ∷ []
  unfolding lookup insert
  insert_of_absent k v [] h = refl
  insert_of_absent k v (_ ∷ s) h = ground (arith, insert_of_absent k v s)

  lookup-append :
      (k : Text) (s t : Dict Text (Text × V))
      → lookup k (s ++ t) ≡ (if has k s then lookup k s else lookup k t)
  unfolding lookup
  lookup-append k [] t = refl
  lookup-append k (_ ∷ s) t = ground (arith, lookup-append k s t)

  abbrev Fresh : Dict Text (Text × V) → Dict Text (Text × V) → Type ℓ
  Fresh done [] = Unit
  Fresh done ((k, _) ∷ s) = (lookup k done ≡ none) × Fresh done s

  Fresh-nil : (s : Dict Text (Text × V)) → Fresh [] s
  unfolding lookup
  Fresh-nil [] = tt
  Fresh-nil (_ ∷ s) = (refl, Fresh-nil s)

  Fresh-next :
      (k : Text) (v : Text × V) (done s : Dict Text (Text × V))
      → lookup k s ≡ none
      → Fresh done s
      → Fresh (done ++ (k, v) ∷ []) s
  unfolding lookup
  Fresh-next k v done [] h f = tt
  Fresh-next k v done ((j, w) ∷ s) h (p, f) =
      ground (arith, lookup-append j done ((k, v) ∷ []), Fresh-next k v done s (ground arith) f)

  set_item_of_absent :
      (key name : Text) (v : V) (s : Dict Text (Text × V))
      → key ≡ lower name
      → lookup key s ≡ none
      → set_item (record { store = s }) name v ≡ record { store = s ++ (key, (name, v)) ∷ [] }
  unfolding set_item
  set_item_of_absent key name v s low f =
      rw (← low) (
        ap (λ (t : Dict Text (Text × V)). record { store = t })
          (insert_of_absent key (name, v) s f))

  update-values :
      (s done : Dict Text (Text × V))
      → AllLowered s
      → NodupKeys s
      → Fresh done s
      → (update (record { store = done }) (values s)).store ≡ done ++ s
  unfolding update set_item
  update-values [] done _ _ _ = sym (append-nil done)
  update-values ((key, (name, v)) ∷ s) done (low, h) (fresh, u) (f, g) =
      ap (λ (d : CaseInsensitiveDict V). (update d (values s)).store)
        (set_item_of_absent key name v done low f)
      ∙ update-values s (done ++ (key, (name, v)) ∷ []) h u
          (Fresh-next key (name, v) done s fresh g)
      ∙ append_assoc done ((key, (name, v)) ∷ []) s

  -- Reading a mapping's names and values back gives the same mapping, order and casing included.
  pub copy-eq : (d : CaseInsensitiveDict V) → IsValid d → copy d ≡ d
  unfolding copy
  copy-eq d h =
      ap (λ (s : Dict Text (Text × V)). record { store = s })
        (update-values d.store [] h.lowered h.nodup (Fresh-nil d.store))

  lookup-lower_items :
      (k : Text) (s : Dict Text (Text × V))
      → lookup k (lower_items (record { store = s }))
        ≡ Option.map (λ (_, value). value) (lookup k s)
  unfolding lookup lower_items
  lookup-lower_items k [] = refl
  lookup-lower_items k (_ ∷ s) = ground (arith, lookup-lower_items k s)

  lower_items-NodupKeys :
      (s : Dict Text (Text × V)) → NodupKeys s → NodupKeys (lower_items (record { store = s }))
  unfolding lower_items
  lower_items-NodupKeys [] u = tt
  lower_items-NodupKeys ((k, (n, v)) ∷ s) (fresh, u) =
      ground (arith, lookup-lower_items k s, lower_items-NodupKeys s u)

module _ {ℓ} {V : Type ℓ} ⦃e : Eq V⦄ where
  -- Equality compares values under lowered keys: the casing and the order of the entries are not seen.
  pub equals_iff :
      (d : CaseInsensitiveDict V) (pairs : List (Text × V))
      → IsValid d
      → (equals d pairs ≡ true)
        ↔ ((k : Text) → lookup k (lower_items d) ≡ lookup k (lower_items (update empty pairs)))
  unfolding equals
  equals_iff d pairs h =
      let v = update-IsValid pairs empty (record { lowered = tt; nodup = tt }) in
      dict_eq_iff (lower_items d) (lower_items (update empty pairs))
        (lower_items-NodupKeys d.store h.nodup)
        (lower_items-NodupKeys (update empty pairs).store v.nodup)
