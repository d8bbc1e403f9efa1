-- ===== src/Structures/Headers/Fields.antt =====
-- The field list: what each operation does to the values of each key.
use mathlib.Core.List.{append-nil}
use chrome_client.Base.{
  ◌≡◌, refl, Option, none, some, List, [], ◌∷◌, ◌++◌, false, not, keep, ◌==◌, if◌then◌else◌, arith,
}
use chrome_client.Base.Text.{Text, lower, text_eq}
use chrome_client.Structures.Headers.{
  Field, Headers, values_of, first_name, summary, write_back, refresh, add, set_item, get_list,
}

pub values_of-append :
    (k : Text) (fs gs : List Field) → values_of k (fs ++ gs) ≡ values_of k fs ++ values_of k gs
unfolding values_of
values_of-append k [] gs = refl
values_of-append k (f ∷ fs) gs = ground (arith, values_of-append k fs gs)

pub values_of-without :
    (k l : Text) (fs : List Field)
    → values_of k (keep (λ (f : Field). not (f.key == l)) fs)
      ≡ (if k == l then [] else values_of k fs)
unfolding values_of
values_of-without k l [] = ground arith
values_of-without k l (f ∷ fs) = ground (arith, values_of-without k l fs)

first_name-append :
    (k : Text) (fs : List Field) (f : Field)
    → (f.key == k) ≡ false
    → first_name k (fs ++ f ∷ []) ≡ first_name k fs
unfolding first_name
first_name-append k [] f h = ground arith
first_name-append k (g ∷ fs) f h = ground (arith, first_name-append k fs f h)

first_name-without :
    (k l : Text) (fs : List Field)
    → (k == l) ≡ false
    → first_name k (keep (λ (f : Field). not (f.key == l)) fs) ≡ first_name k fs
unfolding first_name
first_name-without k l [] h = refl
first_name-without k l (f ∷ fs) h = ground (arith, first_name-without k l fs h)

values_of-append_ne :
    (k : Text) (fs : List Field) (f : Field)
    → (f.key == k) ≡ false
    → values_of k (fs ++ f ∷ []) ≡ values_of k fs
unfolding values_of
values_of-append_ne k [] f h = ground arith
values_of-append_ne k (g ∷ fs) f h = ground (arith, values_of-append_ne k fs f h)

pub summary-append :
    (k : Text) (fs : List Field) (f : Field)
    → (f.key == k) ≡ false
    → summary k (fs ++ f ∷ []) ≡ summary k fs
unfolding summary
summary-append k fs f h = ground (arith, values_of-append_ne k fs f h, first_name-append k fs f h)

pub summary-without :
    (k l : Text) (fs : List Field)
    → summary k (keep (λ (f : Field). not (f.key == l)) fs)
      ≡ (if k == l then none else summary k fs)
unfolding summary
summary-without k l fs = ground (arith, values_of-without k l fs, first_name-without k l fs)

fields-refresh : (h : Headers) (k : Text) → (refresh h k).fields ≡ h.fields
unfolding refresh
fields-refresh h k = write (summary k h.fields)
  where
    write : (o : Option (Text × Text)) → (write_back h k o).fields ≡ h.fields
    write none = refl
    write (some entry) = refl

pub fields-add :
    (h : Headers) (key value : Text)
    → (add h key value).fields
      ≡ h.fields ++ record { key = lower key; name = key; value = value } ∷ []
unfolding add
fields-add h key value = fields-refresh _ (lower key)

pub fields-set_item :
    (h : Headers) (key value : Text)
    → (set_item h key value).fields
      ≡ keep (λ (f : Field). not (f.key == lower key)) h.fields
        ++ record { key = lower key; name = key; value = value } ∷ []
unfolding set_item
fields-set_item h key value = fields-refresh _ (lower key)

-- Appending a field adds its value behind the others of its key, whatever the casing, and changes
-- the values of no other key.
pub get_list-add :
    (h : Headers) (key value other : Text)
    → get_list (add h key value) other false ≡ (
        if lower key == lower other
        then get_list h other false ++ value ∷ []
        else get_list h other false)
unfolding get_list
get_list-add h key value other =
    rw (fields-add h key value, values_of-append (lower other) h.fields)
      (unfold values_of in ground (arith, append-nil (values_of (lower other) h.fields)))

-- Assigning to a key leaves the new value as the only one of its key, and changes no other key.
pub get_list-set_item :
    (h : Headers) (key value other : Text)
    → get_list (set_item h key value) other false
      ≡ (if lower key == lower other then value ∷ [] else get_list h other false)
unfolding get_list
get_list-set_item h key value other =
    rw
      (
        fields-set_item h key value,
        values_of-append (lower other),
        values_of-without (lower other) (lower key) h.fields,
      )
      (unfold values_of in ground (arith, append-nil (values_of (lower other) h.fields)))
