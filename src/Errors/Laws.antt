-- ===== src/Errors/Laws.antt =====
-- What a failure of the Core becomes, for every message.
use chrome_client.Base.{
  ◌≡◌, refl, ap, Option, none, some, List, [], ◌∷◌, Bool, true, ◌&&◌, ◌==◌, ==→eq, option_eq, inl,
  inr, Bool-cases, arith,
}
use chrome_client.Base.Dict.{Dict, lookup}
use chrome_client.Base.Text.{Text, text_eq}
use chrome_client.Errors.Classes.{Class, is_subclass, subclass_within, request_exception}
use chrome_client.Errors.Table.{Code, code_eq, net_errors, native_errors}
use chrome_client.Errors.Mapping.{
  search_code, named_message, rename, rename_by, entry_class, code_class, name_net_error, category,
  specific, by_wording, classify, map_native_error, occurs,
}

abbrev Requests : Class → Type 0
Requests c = is_subclass c request_exception ≡ true

-- A check of every entry holds of what a lookup finds.
abbrev all_entries : (Code → Text × Option Class → Bool) → Dict Code (Text × Option Class) → Bool
all_entries p [] = true
all_entries p ((c, v) ∷ d) = p c v && all_entries p d

lookup-all_entries :
    (p : Code → Text × Option Class → Bool) (c : Code) (d : Dict Code (Text × Option Class))
    (v : Text × Option Class)
    → all_entries p d ≡ true
    → lookup c d ≡ some v
    → p c v ≡ true
unfolding lookup
lookup-all_entries p c [] v h e = cc
lookup-all_entries p c ((b, w) ∷ d) v h e = elim (Bool-cases (c == b)) [
  | inl same ↦ ground (arith, ==→eq c b same, simp same at e)
  | inr other ↦ lookup-all_entries p c d v (ground arith) (simp other at e)
]

abbrev all_rows : List (Text × Class) → Bool
all_rows [] = true
all_rows ((_, k) ∷ rows) = is_subclass k request_exception && all_rows rows

abbrev reads_back : Code → Text × Option Class → Bool
reads_back c v = search_code (named_message v.0 c) == some c

net_errors_read : all_entries reads_back net_errors ≡ true
unfolding net_errors search_code named_message option_eq code_eq
net_errors_read = refl

abbrev class_requests : Code → Text × Option Class → Bool
class_requests c v = elim v.1 [ none ↦ true | some k ↦ is_subclass k request_exception ]

net_errors_request : all_entries class_requests net_errors ≡ true
unfolding net_errors subclass_within
net_errors_request = refl

search-named :
    (c : Code) (v : Text × Option Class)
    → lookup c net_errors ≡ some v
    → search_code (named_message v.0 c) ≡ some c
search-named c v e = ==→eq _ _ (lookup-all_entries reads_back c net_errors v net_errors_read e)

rename_by-search :
    (text : Text) (c : Code) (entry : Option (Text × Option Class))
    → search_code text ≡ some c
    → lookup c net_errors ≡ entry
    → search_code (rename_by text c entry) ≡ some c
unfolding rename_by
rename_by-search text c none h e = h
rename_by-search text c (some v) h e = search-named c v e

rename-search :
    (text : Text) (o : Option Code) → search_code text ≡ o → search_code (rename text o) ≡ o
unfolding rename
rename-search text none h = h
rename-search text (some c) h = rename_by-search text c (lookup c net_errors) h refl

search-name_net_error : (text : Text) → search_code (name_net_error text) ≡ search_code text
unfolding name_net_error
search-name_net_error text = rename-search text (search_code text) refl

rename_by-rename_by :
    (text : Text) (c : Code) (entry : Option (Text × Option Class))
    → rename_by (rename_by text c entry) c entry ≡ rename_by text c entry
unfolding rename_by
rename_by-rename_by text c none = refl
rename_by-rename_by text c (some v) = refl

rename-rename : (text : Text) (o : Option Code) → rename (rename text o) o ≡ rename text o
unfolding rename
rename-rename text none = refl
rename-rename text (some c) = rename_by-rename_by text c (lookup c net_errors)

-- Naming the net error of a message loses nothing: the named message still tells the same code, and so
-- the same class of the table, and naming it again changes nothing.
pub name_net_error-stable :
    (text : Text)
    → (search_code (name_net_error text) ≡ search_code text)
      × (specific (name_net_error text) ≡ specific text)
      × (name_net_error (name_net_error text) ≡ name_net_error text)
unfolding name_net_error specific
name_net_error-stable text =
    let same = rename-search text (search_code text) refl in
    (same, ap code_class same, simp same (rename-rename text (search_code text)))

category-Requests :
    (text : Text) (rows : List (Text × Class)) (k : Class)
    → all_rows rows ≡ true
    → category text rows ≡ some k
    → Requests k
unfolding category
category-Requests text [] k h e = cc
category-Requests text ((needle, kind) ∷ rows) k h e = elim (Bool-cases (occurs needle text)) [
  | inl there ↦ ground (arith, simp there at e)
  | inr absent ↦ category-Requests text rows k (ground arith) (simp absent at e)
]

native_errors_request : all_rows native_errors ≡ true
unfolding native_errors subclass_within
native_errors_request = refl

entry_class-Requests :
    (c : Code) (entry : Option (Text × Option Class)) (k : Class)
    → lookup c net_errors ≡ entry
    → entry_class entry ≡ some k
    → Requests k
unfolding entry_class
entry_class-Requests c none k e h = cc
entry_class-Requests c (some (name, o)) k e h =
    let all = lookup-all_entries class_requests c net_errors (name, o) net_errors_request e in
    simp h at all

code_class-Requests : (o : Option Code) (k : Class) → code_class o ≡ some k → Requests k
unfolding code_class
code_class-Requests none k h = cc
code_class-Requests (some c) k h = entry_class-Requests c (lookup c net_errors) k refl h

by_wording-Requests : (text : Text) → Requests (by_wording text)
unfolding by_wording subclass_within
by_wording-Requests text = ground arith

classify-Requests :
    (s c : Option Class) (text : Text)
    → ((k : Class) → s ≡ some k → Requests k)
    → ((k : Class) → c ≡ some k → Requests k)
    → Requests (classify s c text)
unfolding classify
classify-Requests (some k) c text hs hc = hs k refl
classify-Requests none (some k) text hs hc = hc k refl
classify-Requests none none text hs hc = by_wording-Requests text

-- `map_native_error` gives a subclass of RequestException for every message of the Core.
pub map_native_error-requests :
    (text : Text) → is_subclass (map_native_error text).0 request_exception ≡ true
unfolding map_native_error specific
map_native_error-requests text =
    classify-Requests _ _ _ (λ k h. code_class-Requests (search_code text) k h)
      (λ k h. category-Requests text native_errors k native_errors_request h)
