-- ===== src/Models/Head/RoundTrip.antt =====
-- Writing a header block and parsing it.
use chrome_client.Base.{
  ℕ, ◌≡◌, ◌≢◌, refl, sym, ap, ◌∙◌, List, [], ◌∷◌, ◌++◌, map, true, false, ℕ_eq, contains, All,
  arith, append_assoc, append-nil,
}
use chrome_client.Base.Text.{Text, codes, strip, split_once, is_space}
use mathlib.Core.List.{map-append}
use mathlib.Core.Path.{subst}
use chrome_client.Structures.Headers.{Headers, Field, empty, add, add_all, multi_items}
use chrome_client.Structures.Headers.Fields.{fields-add}
use chrome_client.Base.Splitting.{Lacks}
use chrome_client.Models.Head.{
  is_break, text_lines, text_lines_from, is_empty, add_line, parse_line, parse_lines,
  parse_raw_headers,
}
use chrome_client.Models.Head.Parsing.{
  IsLine, text_lines-line, split_once-cut, strip-space, strip_not_empty,
}

-- A field that a server may write: neither part is padded or broken, and the name has no colon.
pub record IsField (field : Text × Text) : Type 0 where
  pub name_line : IsLine field.0
  pub name_bare : strip field.0 ≡ field.0
  pub no_colon : Lacks b':' field.0
  pub value_line : IsLine field.1
  pub value_bare : strip field.1 ≡ field.1

pub record IsStatus (line : Text) : Type 0 where
  pub one_line : IsLine line
  pub bare : strip line ≡ line
  pub some_text : is_empty line ≡ false
  pub no_colon : contains (split_once b' ' line).0 b':' ≡ false

abbrev pub field_line : Text × Text → Text
field_line (name, value) = name ++ b':' ∷ b' ' ∷ value

abbrev pub Ended : Type 0
Ended = (Text × Text) × ℕ

-- Each field on a line, with the break that ends the line.
abbrev pub print_ended : List Ended → Text
print_ended [] = []
print_ended ((field, end) ∷ fields) = field_line field ++ end ∷ print_ended fields

abbrev IsEnd : ℕ → Type 0
IsEnd end = (is_break end ≡ true) × (end ≢ 13)

abbrev IsEnded : Ended → Type 0
IsEnded (field, end) = IsField field × IsEnd end

abbrev fields_of : List Ended → List (Text × Text)
fields_of [] = []
fields_of ((field, end) ∷ fields) = field ∷ fields_of fields

-- The block as it is written: each line ends with a line feed.
abbrev pub print_fields : List (Text × Text) → Text
print_fields [] = []
print_fields (field ∷ fields) = field_line field ++ 10 ∷ print_fields fields

abbrev pub print_head : Text → List (Text × Text) → Text
print_head status fields = status ++ 10 ∷ print_fields fields

IsLine-append : (s t : Text) → IsLine s → IsLine t → IsLine (s ++ t)
IsLine-append [] t h k = k
IsLine-append (c ∷ s) t (h, hs) k = (h, IsLine-append s t hs k)

field_line-IsLine : (f : Text × Text) → IsField f → IsLine (field_line f)
field_line-IsLine (name, value) h =
    IsLine-append name _ h.name_line
      (unfold is_break ℕ_eq in refl, (unfold is_break ℕ_eq in refl, h.value_line))

parse_field :
    (parsed : Text × Headers) (f : Text × Text)
    → IsField f
    → parse_line false parsed (field_line f) ≡ (parsed.0, add parsed.1 f.0 f.1)
unfolding parse_line add_line
parse_field (status, h) (name, value) k =
    simp
      (
        strip_not_empty name (b' ' ∷ value) b':' (unfold is_space ℕ_eq in refl),
        split_once-cut b':' name (b' ' ∷ value) k.no_colon,
        k.name_bare,
        strip-space value,
        k.value_bare,
      )
      refl

parse_status :
    (h : Headers) (line : Text) → IsStatus line → parse_line true ([], h) line ≡ (line, h)
unfolding parse_line
parse_status h line k = simp (k.bare, k.some_text, k.no_colon) refl

parse_fields :
    (parsed : Text × Headers) (fields : List Ended)
    → All IsEnded fields
    → parse_lines false parsed (text_lines (print_ended fields))
      ≡ (parsed.0, add_all parsed.1 (fields_of fields))
unfolding parse_lines add_all
parse_fields parsed [] _ = unfold text_lines text_lines_from in refl
parse_fields parsed ((f, end) ∷ fields) ((h, (ends, n)), hs) =
    ap (parse_lines false parsed)
      (text_lines-line (field_line f) _ end (field_line-IsLine f h) ends n)
    ∙ ap (λ p. parse_lines false p (text_lines (print_ended fields))) (parse_field parsed f h)
    ∙ parse_fields (parsed.0, add parsed.1 f.0 f.1) fields hs

line_feed : IsEnd 10
line_feed = (unfold is_break ℕ_eq in refl, omega arith)

parse_head :
    (status : Text) (fields : List Ended)
    → IsStatus status
    → All IsEnded fields
    → parse_raw_headers (status ++ 10 ∷ print_ended fields)
      ≡ (status, add_all (empty (codes "utf-8")) (fields_of fields))
unfolding parse_raw_headers parse_lines
parse_head status fields h hs =
    ap (parse_lines true ([], empty (codes "utf-8")))
      (text_lines-line status _ 10 h.one_line line_feed.0 line_feed.1)
    ∙ ap (λ p. parse_lines false p (text_lines (print_ended fields)))
        (parse_status (empty (codes "utf-8")) status h)
    ∙ parse_fields (status, empty (codes "utf-8")) fields hs

multi_items-add :
    (h : Headers) (name value : Text)
    → multi_items (add h name value) ≡ multi_items h ++ (name, value) ∷ []
unfolding multi_items
multi_items-add h name value =
    ap (map (λ (f : Field). (f.name, f.value))) (fields-add h name value) ∙ map-append _ h.fields _

multi_items-add_all :
    (h : Headers) (fields : List (Text × Text))
    → multi_items (add_all h fields) ≡ multi_items h ++ fields
unfolding add_all
multi_items-add_all h [] = sym (append-nil (multi_items h))
multi_items-add_all h ((name, value) ∷ fields) =
    multi_items-add_all (add h name value) fields
    ∙ ap (λ x. x ++ fields) (multi_items-add h name value)
    ∙ append_assoc (multi_items h) ((name, value) ∷ []) fields

read_back :
    (status : Text) (fields : List Ended)
    → IsStatus status
    → All IsEnded fields
    → let (line, h) = parse_raw_headers (status ++ 10 ∷ print_ended fields) in
      (line ≡ status) × (multi_items h ≡ fields_of fields)
read_back status fields h hs =
    let e = parse_head status fields h hs in
    (
      ap (λ (p : Text × Headers). p.0) e,
      ap (λ (p : Text × Headers). multi_items p.1) e
          ∙ multi_items-add_all (empty (codes "utf-8")) (fields_of fields)
          ∙ unfold multi_items in refl,
    )

by_feeds : List (Text × Text) → List Ended
by_feeds [] = []
by_feeds (f ∷ fields) = (f, 10) ∷ by_feeds fields

by_feeds_lem :
    (fields : List (Text × Text))
    → All IsField fields
    → (print_ended (by_feeds fields) ≡ print_fields fields)
      × (fields_of (by_feeds fields) ≡ fields)
      × All IsEnded (by_feeds fields)
unfolding by_feeds
by_feeds_lem [] _ = (refl, refl, tt)
by_feeds_lem (f ∷ fields) (h, hs) =
    let rest = by_feeds_lem fields hs in
    (ap (λ t. field_line f ++ 10 ∷ t) rest.0, ap (λ t. f ∷ t) rest.1, ((h, line_feed), rest.2))

-- A status line and fields, written one to a line, are parsed to themselves: every field in its
-- order, duplicates and casing kept. The parts hold no line break of Python and no padding, a name
-- no colon, and neither does the first word of the status line.
pub parse_raw_headers-print :
    (status : Text) (fields : List (Text × Text))
    → IsStatus status
    → All IsField fields
    → let (line, h) = parse_raw_headers (print_head status fields) in
      (line ≡ status) × (multi_items h ≡ fields)
parse_raw_headers-print status fields h hs =
    let b = by_feeds_lem fields hs in
    subst
      (λ (x : Text × List (Text × Text)).
        ((parse_raw_headers (status ++ 10 ∷ x.0)).0 ≡ status)
        × (multi_items (parse_raw_headers (status ++ 10 ∷ x.0)).1 ≡ x.1))
      (λ i. (b.0 i, b.1 i)) (read_back status (by_feeds fields) h b.2)

-- A value that holds a line break of Python other than a carriage return, such as the vertical tab
-- or the byte 0x85 that HTTP allows, followed by what looks like a field, is parsed as two fields:
-- the server's field `a.0` becomes `a` and `b`.
pub parse_raw_headers-splits :
    (status : Text) (end : ℕ) (a b : Text × Text)
    → is_break end ≡ true
    → end ≢ 13
    → IsStatus status
    → IsField a
    → IsField b
    → multi_items (parse_raw_headers (print_head status ((a.0, a.1 ++ end ∷ field_line b) ∷ []))).1
      ≡ a ∷ b ∷ []
parse_raw_headers-splits status end a b h n hs ha hb =
    ap (λ t. multi_items (parse_raw_headers (status ++ 10 ∷ t)).1) (one_text)
    ∙ (read_back status ((a, end) ∷ (b, 10) ∷ []) hs ((ha, (h, n)), ((hb, line_feed), tt))).1
  where
    one_text :
        field_line (a.0, a.1 ++ end ∷ field_line b) ++ 10 ∷ []
        ≡ field_line a ++ end ∷ (field_line b ++ 10 ∷ [])
    one_text =
        ap (λ t. t ++ 10 ∷ []) (sym (append_assoc a.0 (b':' ∷ b' ' ∷ a.1) (end ∷ field_line b)))
        ∙ append_assoc (field_line a) (end ∷ field_line b) (10 ∷ [])
