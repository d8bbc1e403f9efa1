-- ===== src/Models/Lines/Pending.antt =====
-- What `iter_lines` keeps back of a chunk: the part of a line that stands last.
use chrome_client.Base.{
  ◌≡◌, ◌≢◌, refl, ap, ◌∙◌, Option, none, some, List, [], ◌∷◌, ◌++◌, true, false, append-nil, arith,
  ==_refl, ℕ_eq, All, ℕ,
}
use mathlib.Core.Option.{some-injective}
use chrome_client.Async.State.{Bytes}
use chrome_client.Models.Lines.{last, init, last_byte, alike, hold_back}
use chrome_client.Models.Lines.Text.{IsPlain, unlines, as_pending, last_line}

module _ {ℓ} {A : Type ℓ} where
  pub last-append : (xs ys : List A) (y : A) → last (xs ++ y ∷ ys) ≡ last (y ∷ ys)
  unfolding last
  last-append [] ys y = refl
  last-append (x ∷ []) ys y = refl
  last-append (x ∷ z ∷ xs) ys y = last-append (z ∷ xs) ys y

  init-concat : (xs : List A) (x : A) → init (xs ++ x ∷ []) ≡ xs
  unfolding init
  init-concat [] x = refl
  init-concat (y ∷ []) x = refl
  init-concat (y ∷ z ∷ xs) x = ap (λ t. y ∷ t) (init-concat (z ∷ xs) x)

  pub last_found : (x : A) (xs : List A) → (y : A) × (last (x ∷ xs) ≡ some y)
  unfolding last
  last_found x [] = (x, refl)
  last_found x (z ∷ xs) = last_found z xs

last-unlines : (lines : List Bytes) → last (10 ∷ unlines lines) ≡ some 10
last-unlines [] = unfold last in refl
last-unlines (line ∷ lines) = last-append (10 ∷ line) (unlines lines) 10 ∙ last-unlines lines

plain_end : (s : Bytes) → IsPlain s → last s ≢ some 10
unfolding last
plain_end [] h e = absurd (cc e)
plain_end (c ∷ []) ((h, _), _) e = h (some-injective c 10 e)
plain_end (c ∷ d ∷ s) ((_, hs), (_, ks)) e = plain_end (d ∷ s) (hs, ks) e

lines_end : (lines : List Bytes) → All IsPlain lines → last_byte (last lines) ≢ some 10
unfolding last last_byte
lines_end [] h e = absurd (cc e)
lines_end (line ∷ []) (h, _) e = plain_end line h e
lines_end (line ∷ next ∷ lines) (_, hs) e = lines_end (next ∷ lines) hs e

alike_feed : (o : Option ℕ) → o ≢ some 10 → alike o (some 10) ≡ false
unfolding alike
alike_feed none h = refl
alike_feed (some c) h = ground (arith, h)

pub alike_same : (o : Option ℕ) (c : ℕ) → o ≡ some c → alike o o ≡ true
unfolding alike
alike_same none c e = absurd (cc e)
alike_same (some d) c e = ==_refl d

pub hold_nothing :
    (lines : List Bytes) (chunk : Bytes)
    → alike (last_byte (last lines)) (last chunk) ≡ false
    → hold_back lines chunk ≡ (lines, none)
unfolding hold_back
hold_nothing lines chunk h = simp h refl

pub hold_last :
    (lines : List Bytes) (chunk : Bytes)
    → alike (last_byte (last lines)) (last chunk) ≡ true
    → hold_back lines chunk ≡ (init lines, last lines)
unfolding hold_back
hold_last lines chunk h = simp h refl

hold_whole :
    (lines : List Bytes) → All IsPlain lines → hold_back lines (unlines lines) ≡ (lines, none)
hold_whole [] h = hold_nothing [] [] (unfold last last_byte alike in refl)
hold_whole (line ∷ lines) h = hold_nothing (line ∷ lines) (unlines (line ∷ lines)) (
    rw (last-append line (unlines lines) 10, last-unlines lines)
      (alike_feed _ (lines_end (line ∷ lines) h)))

-- Of whole lines and a part of one, the part is kept back, if it is not empty.
pub hold_back_lem :
    (lines : List Bytes) (tail : Bytes)
    → All IsPlain lines
    → hold_back (lines ++ last_line tail) (unlines lines ++ tail) ≡ (lines, as_pending tail)
hold_back_lem lines [] h = rw (append-nil, append-nil) (hold_whole lines h)
hold_back_lem lines (c ∷ tail) h =
    let found = last_found c tail in
    let lines_last : last (lines ++ (c ∷ tail) ∷ []) ≡ some (c ∷ tail) =
      last-append lines [] (c ∷ tail) ∙ unfold last in refl in
    let same : alike (last_byte (some (c ∷ tail))) (last (c ∷ tail)) ≡ true =
      unfold last_byte in alike_same (last (c ∷ tail)) found.0 found.1 in
    hold_last _ _ (rw (lines_last, last-append (unlines lines) tail c) same)
    ∙ (λ i. (init-concat lines (c ∷ tail) i, lines_last i))
