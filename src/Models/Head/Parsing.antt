-- ===== src/Models/Head/Parsing.antt =====
-- How lines, fields and padding are found again in the text of a header block.
use chrome_client.Base.{
  ℕ, ◌≡◌, ◌≢◌, refl, ap, ◌∙◌, some, [], ◌∷◌, ◌++◌, Bool, true, false, not, ◌==◌, ℕ_eq, All, arith,
  inl, inr, Bool-cases,
}
use mathlib.Core.List.{reverse, reverse-append, append_assoc, reverse-cons}
use chrome_client.Base.Text.{Text, strip, strip_by, strip_start, is_space, split_once, every}
use chrome_client.Base.Text.{extend_first}
use chrome_client.Base.Splitting.{Lacks}
use chrome_client.Models.Head.{is_break, text_lines_from, text_lines, is_empty}

-- A text on one line.
abbrev pub IsLine : Text → Type 0
IsLine s = All (λ (c : ℕ). is_break c ≡ false) s

-- To decide whether a text stands on one line.
pub every-IsLine : (s : Text) → every (λ c. not (is_break c)) s ≡ true → IsLine s
every-IsLine [] h = tt
every-IsLine (c ∷ s) h = (ground arith, every-IsLine s (ground arith))

lines_plain :
    (c : ℕ) (s : Text) → is_break c ≡ false → text_lines (c ∷ s) ≡ extend_first c (text_lines s)
unfolding text_lines text_lines_from
lines_plain c s h =
    let not_return : (c == 13) ≡ false = unfold is_break in ground (arith, h) in
    simp (h, not_return) refl

-- Any break ends a line; a carriage return may take a line feed with it, so it is left out.
pub text_lines-line :
    (line s : Text) (b : ℕ)
    → IsLine line
    → is_break b ≡ true
    → b ≢ 13
    → text_lines (line ++ b ∷ s) ≡ line ∷ text_lines s
unfolding text_lines text_lines_from
text_lines-line [] s b h k n =
    let not_return : (b == 13) ≡ false = ground (arith, n) in simp (k, not_return) refl
text_lines-line (c ∷ line) s b (h, hs) k n =
    lines_plain c _ h
    ∙ ap (extend_first c) (text_lines-line line s b hs k n)
    ∙ unfold extend_first in refl

pub split_once-cut :
    (sep : ℕ) (name rest : Text)
    → Lacks sep name
    → split_once sep (name ++ sep ∷ rest) ≡ (name, some rest)
unfolding split_once
split_once-cut sep [] rest h = ground arith
split_once-cut sep (c ∷ name) rest (h, hs) = ground (arith, h, split_once-cut sep name rest hs)

-- A space in front is stripped.
pub strip-space : (s : Text) → strip (32 ∷ s) ≡ strip s
unfolding strip strip_by strip_start is_space ℕ_eq
strip-space s = refl

strip_start_keeps :
    (p : ℕ → Bool) (s t : Text) (c : ℕ)
    → p c ≡ false
    → (u : Text) × (strip_start p (s ++ c ∷ t) ≡ u ++ c ∷ t)
unfolding strip_start
strip_start_keeps p [] t c h = ([], simp h refl)
strip_start_keeps p (d ∷ s) t c h = elim (Bool-cases (p d)) [
  | inl e ↦ let (u, k) = strip_start_keeps p s t c h in (u, simp e k)
  | inr e ↦ (d ∷ s, simp e refl)
]

has_element : (u t : Text) (c : ℕ) → is_empty (u ++ c ∷ t) ≡ false
unfolding is_empty
has_element [] t c = refl
has_element (d ∷ u) t c = refl

reversed_around : (u t : Text) (c : ℕ) → reverse (u ++ c ∷ t) ≡ reverse t ++ c ∷ reverse u
reversed_around u t c =
    reverse-append u (c ∷ t)
    ∙ ap (λ x. x ++ reverse u) (reverse-cons c t)
    ∙ append_assoc (reverse t) (c ∷ []) (reverse u)

-- A text with a character that is no space is not stripped to nothing.
pub strip_not_empty :
    (s t : Text) (c : ℕ) → is_space c ≡ false → is_empty (strip (s ++ c ∷ t)) ≡ false
unfolding strip strip_by
strip_not_empty s t c h =
    let (u, e) = strip_start_keeps is_space s t c h in
    let (v, f) = strip_start_keeps is_space (reverse t) (reverse u) c h in
    rw (e, reversed_around u t c, f, reversed_around v (reverse u) c)
      (has_element (reverse (reverse u)) (reverse v) c)
