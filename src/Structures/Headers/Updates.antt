-- ===== src/Structures/Headers/Updates.antt =====
-- What a reader of the headers sees after a copy and after `update`.
use mathlib.Core.Option
use mathlib.Core.List.{append-nil, append_assoc}
use chrome_client.Base.{
  ◌≡◌, refl, sym, ◌∙◌, ap, Option, none, some, List, [], ◌∷◌, ◌++◌, map, true, false, ◌==◌,
  if◌then◌else◌, arith, All, contains,
}
use chrome_client.Base.Dict.{Dict, lookup, values, keys, has, contains-keys}
use chrome_client.Base.Text.{Text, lower, text_eq, join, codes}
use chrome_client.Structures.Headers.{
  Field, Headers, values_of, summary, add, set_item, del_item, get_item, get_list, add_all, set_all,
  create, ingest, copy, empty, multi_items, names, remove_present, or_unchanged, Update,
  from_headers, from_items, update, update_self,
}
use chrome_client.Structures.Headers.Fields.{values_of-append, values_of-without, fields-add}
use chrome_client.Structures.Headers.Consistency.{
  IsConsistent, IsLowered, NamesFit, add-IsConsistent, del_item-IsConsistent, add_all-IsConsistent,
  set_all-IsConsistent, set_item-IsConsistent, empty-IsConsistent,
}

abbrev pub joined : List Text → Option Text
joined [] = none
joined (v ∷ vs) = some (join (codes ", ") (v ∷ vs))

-- Reading a header gives its fields joined with commas, and fails exactly when it has none.
pub get_item-get_list :
    (h : Headers) (key : Text) → IsConsistent h → get_item h key ≡ joined (get_list h key false)
unfolding get_item get_list summary
get_item-get_list h key c = read (values_of (lower key) h.fields) refl
  where
    read :
        (vs : List Text)
        → values_of (lower key) h.fields ≡ vs
        → get_item h key ≡ joined (values_of (lower key) h.fields)
    read [] e = ground (arith, c.stored (lower key))
    read (v ∷ vs) e = ground (arith, c.stored (lower key))

fields-add_all :
    (fs : List Field) (h : Headers)
    → All IsLowered fs
    → (add_all h (map (λ (f : Field). (f.name, f.value)) fs)).fields ≡ h.fields ++ fs
unfolding add_all
fields-add_all [] h low = sym (append-nil h.fields)
fields-add_all (f ∷ fs) h (l, low) =
    fields-add_all fs (add h f.name f.value) low
    ∙ ap (λ (gs : List Field). gs ++ fs) (fields-add h f.name f.value)
    ∙ append_assoc h.fields _ fs
    ∙ ap (λ (k : Text). h.fields ++ (record { key = k; name = f.name; value = f.value } ∷ fs))
        (sym l)

-- A copy has the same fields, duplicates and order included.
pub fields-copy : (h : Headers) → IsConsistent h → (copy h).fields ≡ h.fields
unfolding copy create ingest multi_items
fields-copy h c = fields-add_all h.fields (empty h.encoding) c.lowered

-- A copy is consistent, it has the fields of the original in the same order, and it reads alike.
pub get_item-copy :
    (h : Headers) (key : Text)
    → IsConsistent h
    → IsConsistent (copy h)
      × (multi_items (copy h) ≡ multi_items h)
      × (get_item (copy h) key ≡ get_item h key)
unfolding multi_items get_item
get_item-copy h key c =
    let cc : IsConsistent (copy h) =
      unfold copy create ingest in
      add_all-IsConsistent _ (empty h.encoding) (empty-IsConsistent h.encoding) in
    (
      cc,
      ap (map (λ (f : Field). (f.name, f.value))) (fields-copy h c),
      ap (Option.map (λ (e : Text × Text). e.1)) (
          cc.stored (lower key)
          ∙ ap (summary (lower key)) (fields-copy h c)
          ∙ sym (c.stored (lower key))),
    )

-- A key that the store lacks has no fields.
values_of_absent :
    (h : Headers) (k : Text) → IsConsistent h → lookup k h.store ≡ none → values_of k h.fields ≡ []
unfolding summary
values_of_absent h k c e = read (values_of k h.fields) refl
  where
    read : (vs : List Text) → values_of k h.fields ≡ vs → values_of k h.fields ≡ []
    read [] p = p
    read (v ∷ vs) p = ground (arith, c.stored k)

values_of_present :
    (h : Headers) (k : Text)
    → IsConsistent h
    → (has k h.store ≡ true)
    → (values_of k h.fields ≡ [])
    → ⊥
unfolding summary
values_of_present h k c e p = ground (arith, c.stored k)

module _ (h : Headers) (name : Text) (c : IsConsistent h) where
  pub or_unchanged-IsConsistent : IsConsistent (or_unchanged h (del_item h name))
  or_unchanged-IsConsistent = split (del_item h name) refl
    where
      split : (o : Option Headers) → del_item h name ≡ o → IsConsistent (or_unchanged h o)
      split none e = c
      split (some h') e = del_item-IsConsistent h h' name c e

  pub values_of-or_unchanged :
      (k : Text)
      → values_of k (or_unchanged h (del_item h name)).fields
        ≡ (if lower name == k then [] else values_of k h.fields)
  unfolding del_item
  values_of-or_unchanged k =
      ground (arith, values_of-without k (lower name) h.fields, values_of_absent h k c)

pub remove_present-IsConsistent :
    (ns : List Text) (h : Headers) → IsConsistent h → IsConsistent (remove_present h ns)
unfolding remove_present
remove_present-IsConsistent [] h c = c
remove_present-IsConsistent (n ∷ ns) h c =
    remove_present-IsConsistent ns _ (or_unchanged-IsConsistent h n c)

pub values_of-remove_present :
    (ns : List Text) (h : Headers) (k : Text)
    → IsConsistent h
    → values_of k (remove_present h ns).fields
      ≡ (if contains (map lower ns) k then [] else values_of k h.fields)
unfolding remove_present
values_of-remove_present [] h k c = refl
values_of-remove_present (n ∷ ns) h k c = ground (
  arith,
  values_of-remove_present ns (or_unchanged h (del_item h n)) k (or_unchanged-IsConsistent h n c),
  values_of-or_unchanged h n c k,
)

lower-names :
    (s : Dict Text (Text × Text))
    → NamesFit s
    → map lower (map (λ (name, _). name) (values s)) ≡ keys s
lower-names [] n = refl
lower-names ((k, (name, v)) ∷ s) (e, n) = ground (arith, lower-names s n)

contains-names :
    (h : Headers) (k : Text) → IsConsistent h → contains (map lower (names h)) k ≡ has k h.store
unfolding names
contains-names h k c = rw (lower-names h.store c.named) (contains-keys k h.store)

values_of-add_all :
    (fs : List Field) (h : Headers) (k : Text)
    → All IsLowered fs
    → values_of k (add_all h (map (λ (f : Field). (f.name, f.value)) fs)).fields
      ≡ values_of k h.fields ++ values_of k fs
values_of-add_all fs h k low =
    ap (values_of k) (fields-add_all fs h low) ∙ values_of-append k h.fields fs

abbrev pub or_else : List Text → List Text → List Text
or_else [] old = old
or_else (v ∷ vs) old = v ∷ vs

-- After an update from other headers, a key that they have reads as it does there, with all its
-- duplicates and none of the old values, and a key that they lack reads as before.
pub get_list-update :
    (h other : Headers) (key : Text)
    → IsConsistent h
    → IsConsistent other
    → get_list (update h (from_headers other) []) key false
      ≡ or_else (get_list other key false) (get_list h key false)
unfolding get_list update set_all multi_items
get_list-update h other key c d =
    values_of-add_all other.fields (remove_present h (names other)) (lower key) d.lowered
    ∙ merge (values_of (lower key) other.fields) refl
  where
    k : Text
    k = lower key

    left : List Text
    left = values_of k (remove_present h (names other)).fields

    merge :
        (vs : List Text)
        → values_of k other.fields ≡ vs
        → left ++ values_of k other.fields
          ≡ or_else (values_of k other.fields) (values_of k h.fields)
    merge [] e = ground (
      arith,
      values_of-remove_present (names other) h k c,
      contains-names other k d,
      values_of_present other k d,
      append-nil left,
    )
    merge (v ∷ vs) e = ground (
      arith,
      values_of-remove_present (names other) h k c,
      contains-names other k d,
      values_of_absent other k d,
    )

no_fields : (fs : List Field) → ((k : Text) → values_of k fs ≡ []) → fs ≡ []
unfolding values_of
no_fields [] h = refl
no_fields (f ∷ fs) h = ground (arith, h f.key)

fields-remove_names : (h : Headers) → IsConsistent h → (remove_present h (names h)).fields ≡ []
fields-remove_names h c = no_fields _ (λ k.
    ground (
      arith,
      values_of-remove_present (names h) h k c,
      contains-names h k c,
      values_of_absent h k c,
    ))

-- Updating headers from themselves leaves none: the fields are read after they were deleted.
pub update_self-empties : (h : Headers) → IsConsistent h → multi_items (update_self h) ≡ []
unfolding update_self multi_items add_all
update_self-empties h c = rw (fields-remove_names h c)

update-IsConsistent :
    (h : Headers) (u : Update) (kwargs : List (Text × Text))
    → IsConsistent h
    → IsConsistent (update h u kwargs)
unfolding update
update-IsConsistent h (from_headers other) kwargs c =
    set_all-IsConsistent kwargs _
      (add_all-IsConsistent (multi_items other) _ (remove_present-IsConsistent (names other) h c))
update-IsConsistent h (from_items items) kwargs c =
    set_all-IsConsistent kwargs _ (set_all-IsConsistent items h c)

-- Every operation that changes consistent headers leaves them consistent: `add`, assignment, `del`
-- where it does not fail, `update` from any source with keyword arguments, and `update` from the
-- headers themselves.
pub edits-IsConsistent :
    (h : Headers)
    → IsConsistent h
    → ((key value : Text) → IsConsistent (add h key value))
      × ((key value : Text) → IsConsistent (set_item h key value))
      × ((key : Text) (h' : Headers) → del_item h key ≡ some h' → IsConsistent h')
      × ((u : Update) (kwargs : List (Text × Text)) → IsConsistent (update h u kwargs))
      × IsConsistent (update_self h)
unfolding update_self
edits-IsConsistent h c = (
  λ key value. add-IsConsistent h key value c,
  λ key value. set_item-IsConsistent h key value c,
  λ key h' e. del_item-IsConsistent h h' key c e,
  λ u kwargs. update-IsConsistent h u kwargs c,
  add_all-IsConsistent _ _ (remove_present-IsConsistent (names h) h c),
)
