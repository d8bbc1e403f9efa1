-- ===== src/Multipart/Injection.antt =====
-- What a quotation mark in the name of a field does.
use chrome_client.Base.{◌≡◌, ap, ◌∙◌, none, some, ◌∷◌, ◌++◌, map, append_assoc}
use chrome_client.Base.Text.{Text, codes, join}
use chrome_client.Multipart.{
  Part, disposition, disposition_end, lines_of, render, line_if, header_line, encode_utf8, crlf,
  bytes_of,
}

posed :
    (name filename : Text)
    → disposition (name ++ codes "\"; filename=\"" ++ filename) none
      ≡ disposition name (some filename)
unfolding disposition disposition_end
posed name filename =
    ap (λ x. codes "form-data; name=\"" ++ x)
      (append_assoc (name ++ codes "\"; filename=\"") filename (codes "\"")
        ∙ append_assoc name (codes "\"; filename=\"") (filename ++ codes "\""))

-- `render` writes a name without escaping it: a name that has a quotation mark in it can say the rest
-- of the line. A field whose name ends with `"; filename="` and a text is written like a file of that
-- name, whatever else the part has.
pub render-posed :
    (p : Part) (name filename : Text)
    → render (record p { name = name ++ codes "\"; filename=\"" ++ filename; filename = none })
      ≡ render (record p { name = name; filename = some filename })
unfolding render lines_of
render-posed p name filename =
    let others =
      line_if (codes "Content-Type: ") p.content_type
      ++ (line_if (codes "Content-Transfer-Encoding: ") p.content_transfer_encoding
          ++ map header_line p.headers) in
    ap
      (λ d.
        join crlf ((codes "Content-Disposition: " ++ encode_utf8 d) ∷ others)
        ++ (crlf ++ (crlf ++ (bytes_of p.content ++ crlf))))
      (posed name filename)
