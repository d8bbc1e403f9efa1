-- ===== src/Structures/Headers/Consistency.antt =====
-- The store and the field list agree, and every operation keeps them so.

use chrome_client.Base.{
  ◌≡◌, refl, sym, ◌∙◌, Option, none, some, List, [], ◌∷◌, ◌++◌, Bool, false, not, keep, ◌==◌,
  if◌then◌else◌, arith, All, All-concat,
}
use chrome_client.Base.Dict.{
  Dict, lookup, insert, erase, NodupKeys, lookup-insert, lookup-erase, lookup-nil, insert-NodupKeys,
  erase-NodupKeys,
}
use chrome_client.Base.Text.{Text, lower, text_eq, split_once, strip}
use chrome_client.Structures.Headers.{
  Field, Headers, values_of, first_name, summary, write_back, refresh, add, set_item, del_item,
  add_all, set_all, create, headers, mapping, entries, Source, ingest, ingest_line, ingest_lines,
  Line, line, pair, empty, multi_items,
}
use chrome_client.Structures.Headers.Fields.{summary-append, summary-without}

abbrev pub IsLowered : Field → Type 0
IsLowered f = f.key ≡ lower f.name

abbrev pub NamesFit : Dict Text (Text × Text) → Type 0
NamesFit [] = Unit
NamesFit ((key, (name, _)) ∷ store) = (key ≡ lower name) × NamesFit store

-- Each field is under its lowered name; the store has, for each key with fields, the first name and
-- the joined values, and nothing for any other key; and it has each key once.
pub record IsConsistent (h : Headers) : Type 0 where
  pub lowered : All IsLowered h.fields
  pub stored : (k : Text) → lookup k h.store ≡ summary k h.fields
  pub nodup : NodupKeys h.store
  pub named : NamesFit h.store

NamesFit-insert :
    (k name value : Text) (s : Dict Text (Text × Text))
    → k ≡ lower name
    → NamesFit s
    → NamesFit (insert k (name, value) s)
unfolding insert
NamesFit-insert k name value [] e h = (e, tt)
NamesFit-insert k name value ((j, (n, v)) ∷ s) e (p, h) =
    ground (arith, NamesFit-insert k name value s e h)

NamesFit-erase : (k : Text) (s : Dict Text (Text × Text)) → NamesFit s → NamesFit (erase k s)
unfolding erase
NamesFit-erase k [] h = tt
NamesFit-erase k ((j, (n, v)) ∷ s) (p, h) = ground (arith, NamesFit-erase k s h)

first_name-IsLowered :
    (k : Text) (fs : List Field) (v : Text) (vs : List Text)
    → All IsLowered fs
    → values_of k fs ≡ v ∷ vs
    → k ≡ lower (first_name k fs)
unfolding values_of first_name
first_name-IsLowered k [] v vs h e = cc
first_name-IsLowered k (f ∷ fs) v vs (p, h) e = ground (arith, first_name-IsLowered k fs v vs h)

summary-IsLowered :
    (k : Text) (fs : List Field) (name value : Text)
    → All IsLowered fs
    → summary k fs ≡ some (name, value)
    → k ≡ lower name
unfolding summary
summary-IsLowered k fs name value h e = cases (values_of k fs) refl
  where
    cases : (vs : List Text) → values_of k fs ≡ vs → k ≡ lower name
    cases [] p = ground arith
    cases (v ∷ vs) p = ground (arith, first_name-IsLowered k fs v vs h p)

module _ (h : Headers) (l : Text) where
  lookup-write_back :
      (k : Text) (o : Option (Text × Text))
      → lookup k (write_back h l o).store ≡ (if k == l then o else lookup k h.store)
  unfolding write_back
  lookup-write_back k none = lookup-erase k l h.store
  lookup-write_back k (some entry) = lookup-insert k l entry h.store

  nodup-write_back :
      (o : Option (Text × Text)) → NodupKeys h.store → NodupKeys (write_back h l o).store
  unfolding write_back
  nodup-write_back none u = erase-NodupKeys l h.store u
  nodup-write_back (some entry) u = insert-NodupKeys l entry h.store u

  named-write_back :
      (o : Option (Text × Text))
      → ((name value : Text) → o ≡ some (name, value) → l ≡ lower name)
      → NamesFit h.store
      → NamesFit (write_back h l o).store
  unfolding write_back
  named-write_back none e n = NamesFit-erase l h.store n
  named-write_back (some (name, value)) e n =
      NamesFit-insert l name value h.store (e name value refl) n

  fields-write_back : (o : Option (Text × Text)) → (write_back h l o).fields ≡ h.fields
  unfolding write_back
  fields-write_back none = refl
  fields-write_back (some entry) = refl

-- The store is right once the entry of the one key that changed is written again.
refresh-IsConsistent :
    (h : Headers) (l : Text)
    → All IsLowered h.fields
    → ((k : Text) → (k == l) ≡ false → lookup k h.store ≡ summary k h.fields)
    → NodupKeys h.store
    → NamesFit h.store
    → IsConsistent (refresh h l)
unfolding refresh
refresh-IsConsistent h l low others u n =
    let o : Option (Text × Text) = summary l h.fields in
    record {
      lowered = rw fields-write_back low;
      stored = λ k. rw (lookup-write_back, fields-write_back) (ground (arith, others k));
      nodup = nodup-write_back h l o u;
      named =
          named-write_back h l o (λ name value e. summary-IsLowered l h.fields name value low e) n;
    }

pub add-IsConsistent :
    (h : Headers) (key value : Text) → IsConsistent h → IsConsistent (add h key value)
unfolding add
add-IsConsistent h key value c =
    let field : Field = record { key = lower key; name = key; value = value } in
    refresh-IsConsistent (record h { fields = h.fields ++ field ∷ [] }) (lower key)
      (All-concat IsLowered h.fields c.lowered refl)
      (λ k ne. c.stored k ∙ sym (summary-append k h.fields field (ground arith))) c.nodup c.named

All-keep : (p : Field → Bool) (fs : List Field) → All IsLowered fs → All IsLowered (keep p fs)
All-keep p [] h = tt
All-keep p (f ∷ fs) (l, h) = ground (arith, All-keep p fs h)

pub set_item-IsConsistent :
    (h : Headers) (key value : Text) → IsConsistent h → IsConsistent (set_item h key value)
unfolding set_item
set_item-IsConsistent h key value c =
    let field : Field = record { key = lower key; name = key; value = value } in
    let others : List Field = keep (λ (f : Field). not (f.key == lower key)) h.fields in
    refresh-IsConsistent (record h { fields = others ++ field ∷ [] }) (lower key)
      (All-concat IsLowered others (All-keep _ h.fields c.lowered) refl)
      (λ k ne. ground (
        arith,
        c.stored k,
        summary-append k others field (ground arith),
        summary-without k (lower key) h.fields,
      ))
      c.nodup c.named

-- Deleting a key that is there keeps the store and the fields in step.
pub del_item-IsConsistent :
    (h h' : Headers) (key : Text) → IsConsistent h → del_item h key ≡ some h' → IsConsistent h'
unfolding del_item
del_item-IsConsistent h h' key c e =
    let others : List Field = keep (λ (f : Field). not (f.key == lower key)) h.fields in
    let cut : Headers = record h { store = erase (lower key) h.store; fields = others } in
    let eq : cut ≡ h' = ground arith in
    rw (← eq) (record {
      lowered = All-keep _ h.fields c.lowered;
      stored = λ k. ground (
        arith,
        c.stored k,
        summary-without k (lower key) h.fields,
        lookup-erase k (lower key) h.store,
      );
      nodup = erase-NodupKeys (lower key) h.store c.nodup;
      named = NamesFit-erase (lower key) h.store c.named;
    })

pub empty-IsConsistent : (encoding : Text) → IsConsistent (empty encoding)
unfolding summary values_of
empty-IsConsistent encoding = record {
  lowered = tt;
  stored = λ k. lookup-nil k;
  nodup = tt;
  named = tt;
}

pub add_all-IsConsistent :
    (items : List (Text × Text)) (h : Headers) → IsConsistent h → IsConsistent (add_all h items)
unfolding add_all
add_all-IsConsistent [] h c = c
add_all-IsConsistent ((n, v) ∷ items) h c = add_all-IsConsistent items _ (add-IsConsistent h n v c)

pub set_all-IsConsistent :
    (items : List (Text × Text)) (h : Headers) → IsConsistent h → IsConsistent (set_all h items)
unfolding set_all
set_all-IsConsistent [] h c = c
set_all-IsConsistent ((n, v) ∷ items) h c =
    set_all-IsConsistent items _ (set_item-IsConsistent h n v c)

ingest_line-IsConsistent :
    (l : Line) (h : Headers) → IsConsistent h → IsConsistent (ingest_line h l)
unfolding ingest_line
ingest_line-IsConsistent (pair name value) h c = add-IsConsistent h name value c
ingest_line-IsConsistent (line text) h c = read (split_once b':' text)
  where
    read :
        (parts : Text × Option Text)
        → IsConsistent
            (elim parts.1 [ none ↦ h | some value ↦ add h (strip parts.0) (strip value) ])
    read (name, none) = c
    read (name, some value) = add-IsConsistent h (strip name) (strip value) c

ingest_lines-IsConsistent :
    (ls : List Line) (h : Headers) → IsConsistent h → IsConsistent (ingest_lines h ls)
unfolding ingest_lines
ingest_lines-IsConsistent [] h c = c
ingest_lines-IsConsistent (l ∷ ls) h c =
    ingest_lines-IsConsistent ls (ingest_line h l) (ingest_line-IsConsistent l h c)

-- Headers that are built from any source are consistent.
pub create-IsConsistent : (s : Source) (encoding : Text) → IsConsistent (create s encoding)
unfolding create ingest
create-IsConsistent (headers other) encoding =
    add_all-IsConsistent (multi_items other) _ (empty-IsConsistent encoding)
create-IsConsistent (mapping items) encoding =
    set_all-IsConsistent items _ (empty-IsConsistent encoding)
create-IsConsistent (entries ls) encoding =
    ingest_lines-IsConsistent ls _ (empty-IsConsistent encoding)
