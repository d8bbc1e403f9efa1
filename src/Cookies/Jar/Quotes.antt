-- ===== src/Cookies/Jar/Quotes.antt =====
-- Taking the quotes off a value a second time changes nothing.
use mathlib.Core.List.{reverse, reverse-append, reverse-reverse}
use chrome_client.Base.{
  ℕ, ◌≡◌, refl, sym, ◌∙◌, ap, Option, none, some, [], ◌∷◌, ◌++◌, Bool, false, ◌==◌, ℕ_eq, arith,
  Bool-cases, inl, inr,
}
use chrome_client.Base.Text.{Text, strip_start, strip_by, starts_with}
use chrome_client.Cookies.Jar.{unquote, quoted, bare, remove_escaped}

abbrev is_quote : ℕ → Bool
is_quote c = c == 0x22

strip_start-starts_with : (s : Text) → starts_with (strip_start is_quote s) (0x22 ∷ []) ≡ false
unfolding strip_start starts_with
strip_start-starts_with [] = refl
strip_start-starts_with (c ∷ s) = ground (arith, strip_start-starts_with s)

strip_start-suffix : (p : ℕ → Bool) (s : Text) → (w : Text) × (s ≡ w ++ strip_start p s)
unfolding strip_start
strip_start-suffix p [] = ([], refl)
strip_start-suffix p (c ∷ s) = elim (Bool-cases (p c)) [
  | inl e ↦ let (w, h) = strip_start-suffix p s in (c ∷ w, ground arith)
  | inr e ↦ ([], ground arith)
]

starts_with-prefix :
    (u v : Text) → starts_with (u ++ v) (0x22 ∷ []) ≡ false → starts_with u (0x22 ∷ []) ≡ false
unfolding starts_with
starts_with-prefix [] v h = refl
starts_with-prefix (c ∷ u) v h = ground arith

strip_by-starts_with : (s : Text) → starts_with (strip_by is_quote s) (0x22 ∷ []) ≡ false
unfolding strip_by
strip_by-starts_with s =
    let t : Text = strip_start is_quote s in
    let (w, h) = strip_start-suffix is_quote (reverse t) in
    let v : Text = strip_start is_quote (reverse t) in
    let e : reverse v ++ reverse w ≡ t =
      sym (reverse-append w v) ∙ sym (ap reverse h) ∙ reverse-reverse t in
    starts_with-prefix (reverse v) (reverse w)
      (ap (λ (x : Text). starts_with x (0x22 ∷ [])) e ∙ strip_start-starts_with s)

quoted-bare : (v : Text) → quoted (bare v) ≡ false
unfolding quoted bare
quoted-bare v = rw (strip_by-starts_with (remove_escaped v))

pub unquote_idem : (v : Option Text) → unquote (unquote v) ≡ unquote v
unfolding unquote
unquote_idem none = refl
unquote_idem (some v) = ground (arith, quoted-bare v)
