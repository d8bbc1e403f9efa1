-- ===== src/Models/Lines/Text.antt =====
-- Text with no carriage return, as whole lines and a part of one.
use chrome_client.Base.{
  ℕ, ◌≡◌, ◌≢◌, refl, sym, ap, ◌∙◌, Option, none, some, List, [], ◌∷◌, ◌++◌, ℕ_eq, All, append_assoc,
  arith,
}
use native.Mathlib.Decide.{ℕ_discrete}
use chrome_client.Async.State.{Bytes}
use chrome_client.Base.Splitting.{Lacks}
use chrome_client.Models.Lines.{split_from, splitlines}
use chrome_client.Base.Text.{extend_first}

-- A line, or a part of one.
abbrev pub IsPlain : Bytes → Type 0
IsPlain s = Lacks 10 s × Lacks 13 s

-- The text of whole lines.
abbrev pub unlines : List Bytes → Bytes
unlines [] = []
unlines (line ∷ lines) = line ++ 10 ∷ unlines lines

abbrev pub as_pending : Bytes → Option Bytes
as_pending [] = none
as_pending (c ∷ s) = some (c ∷ s)

abbrev pub last_line : Bytes → List Bytes
last_line [] = []
last_line (c ∷ s) = (c ∷ s) ∷ []

split_plain :
    (c : ℕ) (s : Bytes) → c ≢ 10 → c ≢ 13 → splitlines (c ∷ s) ≡ extend_first c (splitlines s)
unfolding splitlines split_from
split_plain c s h k = ground arith

split_feed : (s : Bytes) → splitlines (10 ∷ s) ≡ [] ∷ splitlines s
unfolding splitlines split_from ℕ_eq
split_feed s = refl

splitlines-line :
    (line s : Bytes) → IsPlain line → splitlines (line ++ 10 ∷ s) ≡ line ∷ splitlines s
splitlines-line [] s h = split_feed s
splitlines-line (c ∷ line) s ((h, hs), (k, ks)) =
    split_plain c _ h k
    ∙ ap (extend_first c) (splitlines-line line s (hs, ks))
    ∙ unfold extend_first in refl

pub splitlines-last : (s : Bytes) → IsPlain s → splitlines s ≡ last_line s
splitlines-last [] h = unfold splitlines split_from in refl
splitlines-last (c ∷ s) ((h, hs), (k, ks)) =
    split_plain c s h k ∙ ap (extend_first c) (splitlines-last s (hs, ks)) ∙ extend s
  where
    extend : (t : Bytes) → extend_first c (last_line t) ≡ (c ∷ t) ∷ []
    extend [] = unfold extend_first in refl
    extend (d ∷ t) = unfold extend_first in refl

pub splitlines-unlines :
    (lines : List Bytes) (s : Bytes)
    → All IsPlain lines
    → splitlines (unlines lines ++ s) ≡ lines ++ splitlines s
splitlines-unlines [] s h = refl
splitlines-unlines (line ∷ lines) s (h, hs) =
    ap splitlines (append_assoc line (10 ∷ unlines lines) s)
    ∙ splitlines-line line (unlines lines ++ s) h
    ∙ ap (λ t. line ∷ t) (splitlines-unlines lines s hs)

-- Text with no carriage return is whole lines and a part of one.
pub record Parsed (s : Bytes) : Type 0 where
  pub lines : List Bytes
  pub tail : Bytes
  pub spelt : unlines lines ++ tail ≡ s
  pub plain : All IsPlain lines
  pub part : IsPlain tail

extend-Parsed : (c : ℕ) (s : Bytes) → c ≢ 10 → c ≢ 13 → Parsed s → Parsed (c ∷ s)
extend-Parsed c s h k p = go p.lines p.spelt p.plain
  where
    go : (lines : List Bytes) → unlines lines ++ p.tail ≡ s → All IsPlain lines → Parsed (c ∷ s)
    go [] e a = record {
      lines = [];
      tail = c ∷ p.tail;
      spelt = ap (λ t. c ∷ t) e;
      plain = tt;
      part = ((h, p.part.0), (k, p.part.1));
    }
    go (line ∷ lines) e ((x, y), b) = record {
      lines = (c ∷ line) ∷ lines;
      tail = p.tail;
      spelt = ap (λ t. c ∷ t) e;
      plain = (((h, x), (k, y)), b);
      part = p.part;
    }

pub parse : (s : Bytes) → Lacks 13 s → Parsed s
parse [] h = record { lines = []; tail = []; spelt = refl; plain = tt; part = (tt, tt) }
parse (c ∷ s) (k, ks) = elim (ℕ_discrete c 10) [
  | no n ↦ extend-Parsed c s n k (parse s ks)
  | yes e ↦
      let p = parse s ks in
      record {
        lines = [] ∷ p.lines;
        tail = p.tail;
        spelt = λ i. sym e i ∷ p.spelt i;
        plain = ((tt, tt), p.plain);
        part = p.part;
      }
]
