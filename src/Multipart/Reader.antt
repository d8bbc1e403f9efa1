-- ===== src/Multipart/Reader.antt =====
-- A reader of multipart bodies that goes by lines (RFC 2046), and what it reads in the body that
-- `CurlMime.encode` writes.
use chrome_client.Base.{
  ℕ, ◌≡◌, ◌≢◌, refl, sym, ap, ◌∙◌, Option, List, [], ◌∷◌, ◌++◌, map, ◌&&◌, ◌==◌, ℕ_eq,
  if◌then◌else◌, All, arith, append_assoc, Bool-cases, inl, inr, length, length-append, append-nil,
  ==_refl,
}
use chrome_client.Base.Text.{Text, codes, join, extend_first, text_eq}
use chrome_client.Base.Splitting.{Lacks, Lacks-append}
use chrome_client.Async.State.{Bytes}
use chrome_client.Multipart.{
  Part, CurlMime, bytes_of, lines_of, render, crlf, chunks_of, encode, boundary_of, encode_utf8,
}

-- The lines of a body: it ends with an empty one.
unfoldable pub split_lines : Bytes → List Bytes
unfolding extend_first ℕ_eq
split_lines [] = [] ∷ []
split_lines (c ∷ []) = (c ∷ []) ∷ []
split_lines (c ∷ d ∷ s) =
    let after = split_lines s in
    let later = split_lines (d ∷ s) in
    if c == 13 && d == 10 then [] ∷ after else extend_first c later

split_lines_parts : (s : Bytes) → (p : Bytes) × (ps : List Bytes) × (split_lines s ≡ p ∷ ps)
unfolding split_lines extend_first
split_lines_parts [] = ([], [], refl)
split_lines_parts (c ∷ []) = (c ∷ [], [], refl)
split_lines_parts (c ∷ d ∷ s) =
    let (p, ps, e) = split_lines_parts (d ∷ s) in
    elim (Bool-cases (c == 13 && d == 10)) [
      | inl e' ↦ ([], split_lines s, simp e' refl)
      | inr e' ↦ (c ∷ p, ps, simp (e', e) refl)
    ]

extend_first-append :
    (c : ℕ) (s : Bytes) (ys : List Bytes)
    → extend_first c (split_lines s ++ ys) ≡ extend_first c (split_lines s) ++ ys
unfolding extend_first
extend_first-append c s ys = let (p, ps, e) = split_lines_parts s in simp e refl

split_lines-append : (s t : Bytes) → split_lines (s ++ (crlf ++ t)) ≡ split_lines s ++ split_lines t
unfolding split_lines
split_lines-append [] t = refl
split_lines-append (c ∷ []) t = ground arith
split_lines-append (c ∷ d ∷ s) t = ground (
  arith,
  split_lines-append s t,
  split_lines-append (d ∷ s) t,
  extend_first-append c (d ∷ s) (split_lines t),
)

split_lines-Lacks : (s : Bytes) → Lacks 13 s → split_lines s ≡ s ∷ []
unfolding split_lines extend_first
split_lines-Lacks [] h = refl
split_lines-Lacks (c ∷ []) h = refl
split_lines-Lacks (c ∷ d ∷ s) (h, hs) = ground (arith, h, split_lines-Lacks (d ∷ s) hs)

join_more :
    (c : ℕ) (p : Bytes) (ps : List Bytes) → join crlf ((c ∷ p) ∷ ps) ≡ c ∷ join crlf (p ∷ ps)
unfolding join
join_more c p [] = refl
join_more c p (_ ∷ _) = refl

join-extend_first :
    (c : ℕ) (s : Bytes) → join crlf (extend_first c (split_lines s)) ≡ c ∷ join crlf (split_lines s)
unfolding extend_first
join-extend_first c s = let (p, ps, e) = split_lines_parts s in simp e (join_more c p ps)

join_empty : (s : Bytes) → join crlf ([] ∷ split_lines s) ≡ 13 ∷ 10 ∷ join crlf (split_lines s)
unfolding join
join_empty s = let (p, ps, e) = split_lines_parts s in simp e refl

join-split_lines : (s : Bytes) → join crlf (split_lines s) ≡ s
unfolding split_lines
join-split_lines [] = unfold join in refl
join-split_lines (c ∷ []) = unfold join in refl
join-split_lines (c ∷ d ∷ s) =
    ground (
      arith,
      join-extend_first c (d ∷ s),
      join_empty s,
      join-split_lines s,
      join-split_lines (d ∷ s),
    )

-- The lines of the body from a delimiter line on to the next, after those before the first one.
unfoldable pub sections : Bytes → List Bytes → List Bytes × List (List Bytes)
unfolding text_eq
sections marker [] = ([], [])
sections marker (l ∷ ls) =
    let (current, later) = sections marker ls in
    if l == marker
    then ([], current ∷ later)
    else if l == marker ++ codes "--"
    then ([], [])
    else (l ∷ current, later)

-- The header ends at the first empty line.
unfoldable pub split_head : List Bytes → List Bytes × List Bytes
split_head [] = ([], [])
split_head ([] ∷ ls) = ([], ls)
split_head ((c ∷ l) ∷ ls) = let (header, content) = split_head ls in ((c ∷ l) ∷ header, content)

unfoldable pub read_section : List Bytes → List Bytes × Bytes
unfolding split_head join
read_section ls = let (header, content) = split_head ls in (header, join crlf content)

-- The parts of a body: the lines of the header of each, and its content.
unfoldable pub read_parts : Bytes → Bytes → List (List Bytes × Bytes)
unfolding split_lines sections read_section
read_parts marker body = map read_section (sections marker (split_lines body)).1

-- A line that is no delimiter.
abbrev pub IsInner : Bytes → Bytes → Type 0
IsInner marker l = (l ≢ marker) × (l ≢ marker ++ codes "--")

abbrev pub IsHeader : Bytes → Bytes → Type 0
IsHeader marker l = (l ≢ []) × Lacks 13 l × IsInner marker l

-- A part whose lines can be told apart from the delimiters.
abbrev pub IsPlain : Bytes → Part → Type 0
IsPlain marker p =
    All (IsHeader marker) (lines_of p) × All (IsInner marker) (split_lines (bytes_of p.content))

regroup : (l c j u : Bytes) → l ++ c ++ j ++ u ≡ l ++ (c ++ (j ++ u))
regroup l c j u = append_assoc (l ++ c) j u ∙ append_assoc l c (j ++ u)

split_lines-join :
    (l : Bytes) (ls : List Bytes) (t : Bytes)
    → All (Lacks 13) (l ∷ ls)
    → split_lines (join crlf (l ∷ ls) ++ (crlf ++ t)) ≡ (l ∷ ls) ++ split_lines t
unfolding join
split_lines-join l [] t (h, hs) =
    split_lines-append l t ∙ ap (λ x. x ++ split_lines t) (split_lines-Lacks l h)
split_lines-join l (m ∷ ls) t (h, hs) =
    ap split_lines (regroup l crlf (join crlf (m ∷ ls)) (crlf ++ t))
    ∙ split_lines-append l (join crlf (m ∷ ls) ++ (crlf ++ t))
    ∙ ap (λ x. x ++ split_lines (join crlf (m ∷ ls) ++ (crlf ++ t))) (split_lines-Lacks l h)
    ∙ ap (λ x. l ∷ x) (split_lines-join m ls t hs)

inner_sections :
    (marker : Bytes) (ls rest : List Bytes)
    → All (IsInner marker) ls
    → sections marker (ls ++ rest) ≡ (ls ++ (sections marker rest).0, (sections marker rest).1)
unfolding sections
inner_sections marker [] rest h = refl
inner_sections marker (l ∷ ls) rest ((h, k), hs) =
    ground (arith, h, k, inner_sections marker ls rest hs)

split_head-append :
    (ls ds : List Bytes) → All (λ (l : Bytes). l ≢ []) ls → split_head (ls ++ [] ∷ ds) ≡ (ls, ds)
unfolding split_head
split_head-append [] ds h = refl
split_head-append ([] ∷ ls) ds (h, hs) = absurd (h refl)
split_head-append ((c ∷ l) ∷ ls) ds (h, hs) = rw (split_head-append ls ds hs)

lines-content :
    (l : Bytes) (ls : List Bytes) (content rest : Bytes)
    → All (Lacks 13) (l ∷ ls)
    → split_lines (join crlf (l ∷ ls) ++ (crlf ++ (crlf ++ (content ++ crlf))) ++ rest)
      ≡ (l ∷ ls) ++ [] ∷ split_lines content ++ split_lines rest
unfolding split_lines
lines-content l ls content rest h =
    ap split_lines (append_assoc (join crlf (l ∷ ls)) (crlf ++ (crlf ++ (content ++ crlf))) rest)
    ∙ split_lines-join l ls (crlf ++ (content ++ crlf ++ rest)) h
    ∙ ap (λ u. (l ∷ ls) ++ [] ∷ split_lines u) (append_assoc content crlf rest)
    ∙ ap (λ u. (l ∷ ls) ++ [] ∷ u) (split_lines-append content rest)
    ∙ sym (append_assoc (l ∷ ls) ([] ∷ split_lines content) (split_lines rest))

all_join :
    (marker : Bytes) (xs ys : List Bytes)
    → All (IsInner marker) xs
    → All (IsInner marker) ys
    → All (IsInner marker) (xs ++ ys)
all_join marker [] ys h k = k
all_join marker (x ∷ xs) ys (h, hs) k = (h, all_join marker xs ys hs k)

headers_lack : (marker : Bytes) (ls : List Bytes) → All (IsHeader marker) ls → All (Lacks 13) ls
headers_lack marker [] h = tt
headers_lack marker (l ∷ ls) ((_, h, _), hs) = (h, headers_lack marker ls hs)

headers-IsInner :
    (marker : Bytes) (ls : List Bytes) → All (IsHeader marker) ls → All (IsInner marker) ls
headers-IsInner marker [] h = tt
headers-IsInner marker (l ∷ ls) ((_, _, h), hs) = (h, headers-IsInner marker ls hs)

headers_nonempty :
    (marker : Bytes) (ls : List Bytes) → All (IsHeader marker) ls → All (λ (l : Bytes). l ≢ []) ls
headers_nonempty marker [] h = tt
headers_nonempty marker (l ∷ ls) ((h, _, _), hs) = (h, headers_nonempty marker ls hs)

section_of : Part → List Bytes
section_of p = lines_of p ++ [] ∷ split_lines (bytes_of p.content)

split_lines-render :
    (marker : Bytes) (p : Part) (rest : Bytes)
    → IsPlain marker p
    → split_lines (render p ++ rest) ≡ section_of p ++ split_lines rest
unfolding render section_of
split_lines-render marker p rest (h, k) =
    let lack : All (Lacks 13) (lines_of p) = headers_lack marker (lines_of p) h in
    unfold lines_of in lines-content _ _ (bytes_of p.content) rest (unfold lines_of in lack)

section-IsInner :
    (marker : Bytes) (p : Part)
    → [] ≢ marker
    → IsPlain marker p
    → All (IsInner marker) (section_of p)
unfolding section_of
section-IsInner marker p ne (h, k) =
    all_join marker (lines_of p) ([] ∷ split_lines (bytes_of p.content))
      (headers-IsInner marker (lines_of p) h)
      ((ne, λ e. omega (arith, ap length e, length-append marker (codes "--"))), k)

read_section_lem :
    (marker : Bytes) (p : Part)
    → IsPlain marker p
    → read_section (section_of p) ≡ (lines_of p, bytes_of p.content)
unfolding read_section section_of
read_section_lem marker p (h, k) =
    rw
      (split_head-append (lines_of p) (split_lines (bytes_of p.content))
        (headers_nonempty marker (lines_of p) h))
      (ap (λ x. (lines_of p, x)) (join-split_lines (bytes_of p.content)))

module _ (marker : Bytes) (one : Lacks 13 marker) (filled : [] ≢ marker) where
  sections_open :
      (ls : List Bytes)
      → sections marker (marker ∷ ls) ≡ ([], (sections marker ls).0 ∷ (sections marker ls).1)
  unfolding sections
  sections_open ls = ground (arith, ==_refl marker)

  sections_close : (ls : List Bytes) → sections marker ((marker ++ codes "--") ∷ ls) ≡ ([], [])
  unfolding sections
  sections_close ls =
      let longer : marker ++ codes "--" ≢ marker =
        λ e. omega (arith, ap length e, length-append marker (codes "--")) in
      ground (arith, longer, ==_refl (marker ++ codes "--"))

  sections-chunks_of :
      (ps : List Part)
      → All (IsPlain marker) ps
      → sections marker (split_lines (chunks_of marker ps)) ≡ ([], map section_of ps)
  unfolding chunks_of
  sections-chunks_of [] h =
      ap (λ x. sections marker (split_lines x)) (sym (append_assoc marker (codes "--") crlf))
      ∙ ap (sections marker) (split_lines-append (marker ++ codes "--") [])
      ∙ ap (λ x. sections marker (x ++ split_lines []))
          (split_lines-Lacks (marker ++ codes "--")
            (Lacks-append 13 marker (codes "--") one (omega arith, (omega arith, tt))))
      ∙ sections_close (split_lines [])
  sections-chunks_of (p ∷ ps) (h, hs) =
      ap (sections marker) (split_lines-append marker (render p ++ chunks_of marker ps))
      ∙ ap (λ x. sections marker (x ++ split_lines (render p ++ chunks_of marker ps)))
          (split_lines-Lacks marker one)
      ∙ ap (λ x. sections marker (marker ∷ x)) (split_lines-render marker p (chunks_of marker ps) h)
      ∙ sections_open (section_of p ++ split_lines (chunks_of marker ps))
      ∙ ap (λ x. ([], x.0 ∷ x.1))
          (inner_sections marker (section_of p) (split_lines (chunks_of marker ps))
              (section-IsInner marker p filled h)
            ∙ ap (λ x. (section_of p ++ x.0, x.1)) (sections-chunks_of ps hs)
            ∙ ap (λ x. (x, map section_of ps)) (append-nil (section_of p)))

map_sections :
    (marker : Bytes) (ps : List Part)
    → All (IsPlain marker) ps
    → map read_section (map section_of ps) ≡ map (λ (p : Part). (lines_of p, bytes_of p.content)) ps
map_sections marker [] h = refl
map_sections marker (p ∷ ps) (h, hs) =
    ap (λ x. x ∷ map read_section (map section_of ps)) (read_section_lem marker p h)
    ∙ ap (λ x. (lines_of p, bytes_of p.content) ∷ x) (map_sections marker ps hs)

-- A reader that goes by lines finds in the body the parts that were written, in their order: the lines
-- of the header of each and its bytes, if no line of the header is empty or has a carriage return in
-- it, no line of a part is the delimiter line or the closing one, and the boundary has no carriage
-- return.
pub read_parts-encode :
    (mime : CurlMime) (boundary : Option Text) (random : Text)
    (one : Lacks 13 (encode_utf8 (codes "--" ++ boundary_of mime boundary random)))
    → All (IsPlain (encode_utf8 (codes "--" ++ boundary_of mime boundary random))) mime.parts
    → read_parts
        (encode_utf8 (codes "--" ++ boundary_of mime boundary random))
        (encode mime boundary random).0
      ≡ map (λ (p : Part). (lines_of p, bytes_of p.content)) mime.parts
unfolding read_parts encode
read_parts-encode mime boundary random one h =
    let marker = encode_utf8 (codes "--" ++ boundary_of mime boundary random) in
    ap (λ x. map read_section x.1)
      (sections-chunks_of marker one (λ e. unfold encode_utf8 in cc e) mime.parts h)
    ∙ map_sections marker mime.parts h
