-- ===== src/Structures/Tests.antt =====
-- Runs of the mappings of structures.py, and their theorems at concrete data.
use chrome_client.Base.{◌≡◌, refl, some, List, [], ◌∷◌, true}
use chrome_client.Base.Dict
use chrome_client.Base.Text.{Text, codes, lower, text_eq, strip, split_once, join}
use chrome_client.Structures.CaseInsensitive
use chrome_client.Structures.CaseInsensitive.{CaseInsensitiveDict}
use chrome_client.Structures.CaseInsensitive.Laws
use chrome_client.Structures.Headers
use chrome_client.Structures.Headers.{Headers, Source, entries, line, pair, mapping}
use chrome_client.Structures.Headers.Consistency
use chrome_client.Structures.Headers.Consistency.{IsConsistent}
use chrome_client.Structures.Headers.Updates

abbrev utf8 : Text
utf8 = codes "utf-8"

-- `Headers(["Set-Cookie: a=1", ("set-cookie", "b=2"), "junk", "Host: x"])`
abbrev response : Headers
response =
    Headers.create
      (entries (
        line (codes "Set-Cookie: a=1")
        ∷ pair (codes "set-cookie") (codes "b=2")
        ∷ line (codes "junk")
        ∷ line (codes "Host:  x ")
        ∷ []))
      utf8

abbrev overrides : Headers
overrides = Headers.create (mapping ((codes "HOST", codes "y") ∷ [])) utf8

response_fields :
    Headers.multi_items response
    ≡ (codes "Set-Cookie", codes "a=1")
      ∷ (codes "set-cookie", codes "b=2")
      ∷ (codes "Host", codes "x")
      ∷ []
unfolding Headers.multi_items Headers.create Headers.ingest Headers.ingest_line Headers.add
    Headers.refresh split_once strip Headers.ingest_lines Headers.summary lower
response_fields = refl

response_joined : Headers.get_item response (codes "SET-COOKIE") ≡ some (codes "a=1, b=2")
unfolding Headers.get_item Headers.create Headers.ingest Headers.ingest_line Headers.ingest_lines
    Headers.add Headers.refresh Headers.summary split_once strip lower text_eq Dict.insert
    Dict.lookup join
response_joined = refl

response-IsConsistent : IsConsistent response
response-IsConsistent = Consistency.create-IsConsistent _ utf8

overrides-IsConsistent : IsConsistent overrides
overrides-IsConsistent = Consistency.create-IsConsistent _ utf8

update_self-empties_example : Headers.multi_items (Headers.update_self response) ≡ []
update_self-empties_example = Updates.update_self-empties response response-IsConsistent

abbrev Edited : Headers → Type 0
Edited h =
    ((key value : Text) → IsConsistent (Headers.add h key value))
    × ((key value : Text) → IsConsistent (Headers.set_item h key value))
    × ((key : Text) (h' : Headers) → Headers.del_item h key ≡ some h' → IsConsistent h')
    × ((u : Headers.Update) (kwargs : List (Text × Text))
        → IsConsistent (Headers.update h u kwargs))
    × IsConsistent (Headers.update_self h)

edits-IsConsistent_example : Edited response
edits-IsConsistent_example = Updates.edits-IsConsistent response response-IsConsistent

abbrev plain : CaseInsensitiveDict Text
plain = record {
  store =
      (codes "accept", (codes "Accept", codes "*/*"))
      ∷ (codes "host", (codes "HOST", codes "x"))
      ∷ [];
}

plain-IsValid : Laws.IsValid plain
unfolding lower text_eq Dict.lookup
plain-IsValid = record { lowered = (refl, (refl, tt)); nodup = (refl, (refl, tt)) }

abbrev same : List (Text × Text)
same = (codes "host", codes "x") ∷ (codes "ACCEPT", codes "*/*") ∷ []

casing_ignored : CaseInsensitive.equals plain same ≡ true
unfolding CaseInsensitive.equals lower text_eq Dict.insert Dict.lookup
casing_ignored = refl
