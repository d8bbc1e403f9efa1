-- ===== src/Models/Request/Framing.antt =====
-- How the headers of a prepared request frame its body.
use chrome_client.Base.{
  ◌≡◌, ◌≢◌, inl, inr, refl, sym, ◌∙◌, Option, none, some, List, [], ◌∷◌, true, false, ◌||◌, ◌==◌,
  if◌then◌else◌, arith, length, Bool-cases, ==_refl,
}
use mathlib.Core.Path.{subst}
use chrome_client.Base.Dict.{has}
use chrome_client.Base.Text.{Text, codes, lower, text_eq}
use chrome_client.Async.State.{Bytes}
use chrome_client.Multipart.{Data}
use chrome_client.Multipart.Files.{Source}
use chrome_client.Multipart.Params.{Value}
use chrome_client.Structures.Headers.{
  Headers, set_item, del_item, or_unchanged, get_list, remove_present, summary,
}
use chrome_client.Structures.Headers.Fields.{get_list-set_item}
use chrome_client.Structures.Headers.Consistency.{
  IsConsistent, set_item-IsConsistent, empty-IsConsistent, add_all-IsConsistent,
}
use chrome_client.Structures.Headers.Updates.{values_of-remove_present, remove_present-IsConsistent}
use chrome_client.Models.Request.{
  Body, missing, fixed, streamed, PreparedRequest, Given, from_headers, from_items, set_present,
  prepare_headers, content_length, transfer_encoding, show_number, is_bodiless, frame,
  prepare_content_length, with_content_type, choose_body, prepare_body, prepare_auth, start,
  prepare,
}

-- What frames a body: one that is streamed is chunked and has no length, one that is fixed has the
-- number of its bytes, once, and is not chunked, and a request without a body has the length 0, or
-- none at all where its method has no body.
abbrev pub Framed : Option Text → Body → Headers → Type 0
Framed method (streamed source) h =
    (get_list h content_length false ≡ [])
    × (get_list h transfer_encoding false ≡ codes "chunked" ∷ [])
Framed method (fixed bytes) h =
    (get_list h content_length false ≡ show_number (length bytes) ∷ [])
    × (get_list h transfer_encoding false ≡ [])
Framed method missing h =
    (get_list h content_length false ≡ (if is_bodiless method then [] else codes "0" ∷ []))
    × (get_list h transfer_encoding false ≡ [])

-- Headers that say nothing of a body.
abbrev pub Unframed : Headers → Type 0
Unframed h = (get_list h content_length false ≡ []) × (get_list h transfer_encoding false ≡ [])

-- The fields of a key are there if the store has it.
listed :
    (h : Headers) (key : Text)
    → IsConsistent h
    → has (lower key) h.store ≡ true
    → get_list h key false ≢ []
unfolding get_list summary
listed h key c e = λ v. ground (arith, c.stored (lower key), e, v)

dropped :
    (h : Headers) (key : Text)
    → IsConsistent h
    → get_list (or_unchanged h (del_item h key)) key false ≡ []
unfolding get_list remove_present
dropped h key c =
    values_of-remove_present (key ∷ []) h (lower key) c ∙ ground (arith, ==_refl (lower key))

set_same : (h : Headers) (key value : Text) → get_list (set_item h key value) key false ≡ value ∷ []
set_same h key value = get_list-set_item h key value key ∙ ground (arith, ==_refl (lower key))

pub set_other :
    (h : Headers) (key value other : Text)
    → (lower key == lower other) ≡ false
    → get_list (set_item h key value) other false ≡ get_list h other false
set_other h key value other e = get_list-set_item h key value other ∙ ground (arith, e)

differ : (lower transfer_encoding == lower content_length) ≡ false
unfolding lower text_eq
differ = refl

differ_too : (lower content_length == lower transfer_encoding) ≡ false
unfolding lower text_eq
differ_too = refl

stored :
    (h : Headers) (key value : Text)
    → IsConsistent h
    → get_list h key false ≡ value ∷ []
    → has (lower key) h.store ≡ true
unfolding get_list summary
stored h key value c e = ground (arith, c.stored (lower key), e)

stream-Framed :
    (h : Headers)
    → IsConsistent h
    → (source : Source) (method : Option Text)
    → Framed method (streamed source) (frame method (streamed source) h)
unfolding frame
stream-Framed h c source method = (
  set_other (or_unchanged h (del_item h content_length)) transfer_encoding (codes "chunked")
        content_length differ
      ∙ dropped h content_length c,
  set_same _ transfer_encoding (codes "chunked"),
)

fixed-Framed :
    (h : Headers) (bytes : Bytes) (method : Option Text)
    → get_list h transfer_encoding false ≡ []
    → Framed method (fixed bytes) (frame method (fixed bytes) h)
unfolding frame
fixed-Framed h bytes method t = (
  set_same h content_length (show_number (length bytes)),
  set_other h content_length (show_number (length bytes)) transfer_encoding differ_too ∙ t,
)

first-Framed :
    (method : Option Text) (h : Headers)
    → IsConsistent h
    → Unframed h
    → Framed method missing (frame method missing h)
unfolding frame lower
first-Framed method h c (l, t) = elim (Bool-cases (is_bodiless method)) [
  | inl e ↦ simp e (l, t)
  | inr e ↦ elim (Bool-cases (has (codes "content-length") h.store)) [
    | inl f ↦ absurd (listed h content_length c f l)
    | inr f ↦
        simp (e, f)
          (
            set_same h content_length (codes "0"),
            set_other h content_length (codes "0") transfer_encoding differ_too ∙ t,
          )
  ]
]

kept-Framed :
    (method : Option Text) (h : Headers)
    → IsConsistent h
    → Framed method missing h
    → Framed method missing (frame method missing h)
unfolding frame lower
kept-Framed method h c (l, t) = elim (Bool-cases (is_bodiless method)) [
  | inl e ↦ simp e (simp e at l, t)
  | inr e ↦
      let length_zero : get_list h content_length false ≡ codes "0" ∷ [] = simp e at l in
      simp (e, stored h content_length (codes "0") c length_zero) (length_zero, t)
]

frame-Framed :
    (method : Option Text) (body : Body) (h : Headers)
    → IsConsistent h
    → Unframed h
    → Framed method body (frame method body h)
frame-Framed method (streamed source) h c u = stream-Framed h c source method
frame-Framed method (fixed bytes) h c u = fixed-Framed h bytes method u.1
frame-Framed method missing h c u = first-Framed method h c u

-- Two bodies of which both are streamed, both are fixed, or both are missing.
abbrev pub SameKind : Body → Body → Type 0
SameKind missing missing = Unit
SameKind (fixed _) (fixed _) = Unit
SameKind (streamed _) (streamed _) = Unit
SameKind _ _ = ⊥

pub same_kind : (body : Body) → SameKind body body
same_kind missing = tt
same_kind (fixed bytes) = tt
same_kind (streamed source) = tt

frame_again :
    (method : Option Text) (body next : Body) (h : Headers)
    → IsConsistent h
    → SameKind body next
    → Framed method body h
    → Framed method next (frame method next h)
frame_again method missing missing h c k f = kept-Framed method h c f
frame_again method (fixed _) (fixed bytes) h c k f = fixed-Framed h bytes method f.1
frame_again method (streamed _) (streamed source) h c k f = stream-Framed h c source method
frame_again method missing (fixed _) h c k f = absurd k
frame_again method missing (streamed _) h c k f = absurd k
frame_again method (fixed _) missing h c k f = absurd k
frame_again method (fixed _) (streamed _) h c k f = absurd k
frame_again method (streamed _) missing h c k f = absurd k
frame_again method (streamed _) (fixed _) h c k f = absurd k

frame-IsConsistent :
    (method : Option Text) (body : Body) (h : Headers)
    → IsConsistent h
    → IsConsistent (frame method body h)
unfolding frame
frame-IsConsistent method (streamed source) h c =
    unfold remove_present in
    set_item-IsConsistent _ transfer_encoding (codes "chunked")
      (remove_present-IsConsistent (content_length ∷ []) h c)
frame-IsConsistent method (fixed bytes) h c = set_item-IsConsistent h content_length _ c
frame-IsConsistent method missing h c =
    elim (Bool-cases (is_bodiless method || has (codes "content-length") h.store)) [
      | inl e ↦ simp e c
      | inr e ↦ simp e (set_item-IsConsistent h content_length (codes "0") c)
    ]

get_list-with_content_type :
    (kind : Option Text) (h : Headers) (other : Text)
    → (lower (codes "Content-Type") == lower other) ≡ false
    → get_list (with_content_type kind h) other false ≡ get_list h other false
unfolding with_content_type
get_list-with_content_type none h other e = refl
get_list-with_content_type (some []) h other e = refl
get_list-with_content_type (some (d ∷ kind)) h other e =
    elim (Bool-cases (has (codes "content-type") h.store)) [
      | inl f ↦ simp f refl
      | inr f ↦ simp f (set_other h (codes "Content-Type") (d ∷ kind) other e)
    ]

length_kept :
    (kind : Option Text) (h : Headers)
    → get_list (with_content_type kind h) content_length false ≡ get_list h content_length false
unfolding lower text_eq
length_kept kind h = get_list-with_content_type kind h content_length refl

encoding_kept :
    (kind : Option Text) (h : Headers)
    → get_list (with_content_type kind h) transfer_encoding false
      ≡ get_list h transfer_encoding false
unfolding lower text_eq
encoding_kept kind h = get_list-with_content_type kind h transfer_encoding refl

-- Headers that say the same of a body frame the same.
same-Framed :
    (method : Option Text) (body : Body) (h g : Headers)
    → get_list g content_length false ≡ get_list h content_length false
    → get_list g transfer_encoding false ≡ get_list h transfer_encoding false
    → Framed method body h
    → Framed method body g
same-Framed method (streamed source) h g l t f = (l ∙ f.0, t ∙ f.1)
same-Framed method (fixed bytes) h g l t f = (l ∙ f.0, t ∙ f.1)
same-Framed method missing h g l t f = (l ∙ f.0, t ∙ f.1)

set_present-IsConsistent :
    (items : List (Text × Option Text)) (h : Headers)
    → IsConsistent h
    → IsConsistent (set_present h items)
unfolding set_present
set_present-IsConsistent [] h c = c
set_present-IsConsistent ((name, none) ∷ items) h c = set_present-IsConsistent items h c
set_present-IsConsistent ((name, some value) ∷ items) h c =
    set_present-IsConsistent items _ (set_item-IsConsistent h name value c)

prepare_headers-IsConsistent : (given : Given) → IsConsistent (prepare_headers given)
unfolding prepare_headers
prepare_headers-IsConsistent (from_headers other) =
    add_all-IsConsistent _ _ (empty-IsConsistent (codes "utf-8"))
prepare_headers-IsConsistent (from_items items) =
    set_present-IsConsistent items _ (empty-IsConsistent (codes "utf-8"))

with_content_type-IsConsistent :
    (kind : Option Text) (h : Headers) → IsConsistent h → IsConsistent (with_content_type kind h)
unfolding with_content_type
with_content_type-IsConsistent none h c = c
with_content_type-IsConsistent (some []) h c = c
with_content_type-IsConsistent (some (d ∷ kind)) h c =
    elim (Bool-cases (has (codes "content-type") h.store)) [
      | inl e ↦ simp e c
      | inr e ↦ simp e (set_item-IsConsistent h (codes "Content-Type") (d ∷ kind) c)
    ]

prepare_body-IsConsistent :
    (source : Source) (fields : List (Data × Value)) (files : Option (Bytes × Text))
    (json : Option Bytes) (r : PreparedRequest)
    → IsConsistent r.headers
    → IsConsistent (prepare_body source fields files json r).headers
unfolding prepare_body prepare_content_length
prepare_body-IsConsistent source fields files json r c =
    let (body, kind) = choose_body source fields files json in
    with_content_type-IsConsistent kind _ (frame-IsConsistent r.method body r.headers c)

abbrev pub IsFramed : PreparedRequest → Type 0
IsFramed r = Framed r.method r.body r.headers

prepare_body-IsFramed :
    (source : Source) (fields : List (Data × Value)) (files : Option (Bytes × Text))
    (json : Option Bytes) (r : PreparedRequest)
    → IsConsistent r.headers
    → Unframed r.headers
    → IsFramed (prepare_body source fields files json r)
unfolding prepare_body prepare_content_length
prepare_body-IsFramed source fields files json r c u =
    let (body, kind) = choose_body source fields files json in
    let h = frame r.method body r.headers in
    same-Framed r.method body h (with_content_type kind h) (length_kept kind h)
      (encoding_kept kind h) (frame-Framed r.method body r.headers c u)

-- An authentication that leaves the method, the kind of the body and what the headers say of it alone,
-- and changes the headers through their methods. It may change other headers and the bytes of the body.
pub record LeavesFraming (auth : PreparedRequest → PreparedRequest) : Type 0 where
  pub consistent : (r : PreparedRequest) → IsConsistent r.headers → IsConsistent (auth r).headers
  pub method : (r : PreparedRequest) → (auth r).method ≡ r.method
  pub kind : (r : PreparedRequest) → SameKind r.body (auth r).body
  pub lengths :
      (r : PreparedRequest)
      → get_list (auth r).headers content_length false ≡ get_list r.headers content_length false
  pub encodings :
      (r : PreparedRequest)
      → get_list (auth r).headers transfer_encoding false
        ≡ get_list r.headers transfer_encoding false

abbrev pub IsQuiet : Option (PreparedRequest → PreparedRequest) → Type 0
IsQuiet none = Unit
IsQuiet (some auth) = LeavesFraming auth

method-Framed :
    (m n : Option Text) (body : Body) (h : Headers) → m ≡ n → Framed n body h → Framed m body h
method-Framed m n body h e f = subst (λ x. Framed x body h) (sym e) f

prepare_auth-IsFramed :
    (auth : Option (PreparedRequest → PreparedRequest)) (r : PreparedRequest)
    → IsQuiet auth
    → IsConsistent r.headers
    → IsFramed r
    → IsFramed (prepare_auth auth r)
unfolding prepare_auth prepare_content_length
prepare_auth-IsFramed none r q c f = f
prepare_auth-IsFramed (some auth) r q c f =
    frame_again (auth r).method r.body (auth r).body (auth r).headers (q.consistent r c) (q.kind r)
      (method-Framed (auth r).method r.method r.body (auth r).headers (q.method r)
        (same-Framed r.method r.body r.headers (auth r).headers (q.lengths r) (q.encodings r) f))

start-IsConsistent :
    (method : Option Text) (given : Given) (order : List Text)
    → IsConsistent (start method given order).headers
unfolding start
start-IsConsistent method given order = prepare_headers-IsConsistent given

-- If the caller's headers and the authentication say nothing of the body, the headers that go out frame
-- the body that goes out, whatever the method, the data, the files, the JSON and the other headers are,
-- and whatever bytes the authentication puts into the body: a streamed body is chunked and has no
-- length; a fixed one has the number of its bytes as its only length and is not chunked; a request
-- without a body has the length 0, or none if its method is GET or HEAD.
pub prepare-IsFramed :
    (method : Option Text) (given : Given) (order : List Text) (source : Source)
    (fields : List (Data × Value)) (files : Option (Bytes × Text)) (json : Option Bytes)
    (auth : Option (PreparedRequest → PreparedRequest))
    → Unframed (prepare_headers given)
    → IsQuiet auth
    → IsFramed (prepare method given order source fields files json auth)
unfolding prepare start
prepare-IsFramed method given order source fields files json auth u q =
    let r = start method given order in
    let c = start-IsConsistent method given order in
    prepare_auth-IsFramed auth (prepare_body source fields files json r) q
      (prepare_body-IsConsistent source fields files json r c)
      (prepare_body-IsFramed source fields files json r c u)
