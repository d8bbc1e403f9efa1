-- ===== src/Structures/Headers.antt =====
-- `Headers`: a list of fields that keeps duplicates, and beside it the store of
-- `CaseInsensitiveDict`, where the fields of one key are joined. A header value is text; the bytes
-- that `_text` would decode, and the codec of `raw`, are not modelled.
pub mod Consistency
pub mod Fields
pub mod Updates
use mathlib.Core.Option
use chrome_client.Base.{
  ℕ, Option, none, some, List, [], ◌∷◌, ◌++◌, map, Bool, true, false, not, keep, ◌==◌,
  if◌then◌else◌,
}
use chrome_client.Base.Dict.{Dict, lookup, insert, erase, values, has}
use chrome_client.Base.Text.{Text, codes, lower, strip, split_once, split_all, join, text_eq}

pub record Field : Type 0 where
  pub key : Text
  pub name : Text
  pub value : Text

pub record Headers : Type 0 where
  pub store : Dict Text (Text × Text)
  pub fields : List Field
  pub encoding : Text

abbrev pub empty : Text → Headers
empty encoding = record { store = []; fields = []; encoding = encoding }

-- `[value for key, _name, value in self._list if key == lowered]`
unfoldable pub values_of : Text → List Field → List Text
unfolding text_eq
values_of lowered fields =
    map (λ (f : Field). f.value) (keep (λ (f : Field). f.key == lowered) fields)

first_name : Text → List Field → Text
unfolding text_eq
first_name lowered [] = []
first_name lowered (f ∷ fields) = if f.key == lowered then f.name else first_name lowered fields

-- What `_refresh` writes for a key, or `none` where it removes the key.
unfoldable pub summary : Text → List Field → Option (Text × Text)
unfolding values_of first_name
summary lowered fields = elim (values_of lowered fields) [
  | [] ↦ none
  | v ∷ vs ↦ some (first_name lowered fields, join (codes ", ") (v ∷ vs))
]

pub write_back : Headers → Text → Option (Text × Text) → Headers
write_back h lowered none = record h { store = erase lowered h.store }
write_back h lowered (some entry) = record h { store = insert lowered entry h.store }

unfoldable pub refresh : Headers → Text → Headers
unfolding write_back
refresh h lowered = write_back h lowered (summary lowered h.fields)

unfoldable pub add : Headers → Text → Text → Headers
add h key value =
    let field : Field = record { key = lower key; name = key; value = value } in
    refresh (record h { fields = h.fields ++ field ∷ [] }) (lower key)

unfoldable pub set_item : Headers → Text → Text → Headers
set_item h key value =
    let field : Field = record { key = lower key; name = key; value = value } in
    let others = keep (λ (f : Field). not (f.key == lower key)) h.fields in
    refresh (record h { fields = others ++ field ∷ [] }) (lower key)

-- `none` is the `KeyError` of a missing key.
unfoldable pub del_item : Headers → Text → Option Headers
del_item h key =
    if has (lower key) h.store
    then some (record h {
      store = erase (lower key) h.store;
      fields = keep (λ (f : Field). not (f.key == lower key)) h.fields;
    })
    else none

-- Inherited from `CaseInsensitiveDict`.
unfoldable pub get_item : Headers → Text → Option Text
get_item h key = Option.map (λ (_, value). value) (lookup (lower key) h.store)

unfoldable pub multi_items : Headers → List (Text × Text)
multi_items h = map (λ (f : Field). (f.name, f.value)) h.fields

nonempty : List Text → List Text
nonempty [] = []
nonempty ([] ∷ items) = nonempty items
nonempty ((c ∷ item) ∷ items) = (c ∷ item) ∷ nonempty items

split_values : List Text → List Text
unfolding nonempty split_all strip
split_values [] = []
split_values (value ∷ vs) = nonempty (map strip (split_all b',' value)) ++ split_values vs

unfoldable pub get_list : Headers → Text → Bool → List Text
unfolding split_values
get_list h key split_commas =
    let found = values_of (lower key) h.fields in if split_commas then split_values found else found

-- One entry of the iterable that `Headers(...)` reads: a raw line, or a pair.
pub data Line : Type 0 where
  line : Text → Line
  pair : Text → Text → Line

-- The three shapes that `Headers(...)` accepts.
pub data Source : Type 0 where
  headers : Headers → Source
  mapping : List (Text × Text) → Source
  entries : List Line → Source

unfoldable pub add_all : Headers → List (Text × Text) → Headers
add_all h [] = h
add_all h ((name, value) ∷ items) = add_all (add h name value) items

unfoldable pub set_all : Headers → List (Text × Text) → Headers
set_all h [] = h
set_all h ((name, value) ∷ items) = set_all (set_item h name value) items

unfoldable pub ingest_line : Headers → Line → Headers
ingest_line h (pair name value) = add h name value
ingest_line h (line text) =
    let (name, rest) = split_once b':' text in
    elim rest [ none ↦ h | some value ↦ add h (strip name) (strip value) ]

unfoldable pub ingest_lines : Headers → List Line → Headers
ingest_lines h [] = h
ingest_lines h (l ∷ ls) = ingest_lines (ingest_line h l) ls

unfoldable pub ingest : Headers → Source → Headers
ingest h (headers other) = add_all h (multi_items other)
ingest h (mapping items) = set_all h items
ingest h (entries ls) = ingest_lines h ls

-- `Headers(source, encoding)`
unfoldable pub create : Source → Text → Headers
create source encoding = ingest (empty encoding) source

unfoldable pub copy : Headers → Headers
copy h = create (headers h) h.encoding

-- `list(headers.keys())`: the name that the store holds for each key.
unfoldable pub names : Headers → List Text
names h = map (λ (name, _). name) (values h.store)

-- The guard `_key(name) in self._store` is the test by which `del_item` fails.
abbrev pub or_unchanged : Headers → Option Headers → Headers
or_unchanged h none = h
or_unchanged h (some h') = h'

unfoldable pub remove_present : Headers → List Text → Headers
remove_present h [] = h
remove_present h (name ∷ more) = remove_present (or_unchanged h (del_item h name)) more

-- What `update` accepts: other headers, or the items of a mapping or an iterable of pairs.
pub data Update : Type 0 where
  from_headers : Headers → Update
  from_items : List (Text × Text) → Update

-- `update` with another object than the one that is updated.
unfoldable pub update : Headers → Update → List (Text × Text) → Headers
update h (from_headers other) kwargs =
    set_all (add_all (remove_present h (names other)) (multi_items other)) kwargs
update h (from_items items) kwargs = set_all (set_all h items) kwargs

-- `h.update(h)`: the fields are read after the loop has deleted them.
unfoldable pub update_self : Headers → Headers
update_self h = let emptied = remove_present h (names h) in add_all emptied (multi_items emptied)
