-- ===== src/Models/Lines/Laws.antt =====
-- The lines of a stream are those of the whole text, where a line ends at a line feed. With a
-- delimiter they are not.
use chrome_client.Base.{
  ◌≡◌, refl, sym, ap, ◌∙◌, Option, none, some, List, [], ◌∷◌, ◌++◌, ℕ_eq, All, append_assoc,
  append-nil, concat, ℕ,
}
use chrome_client.Async.State.{Bytes}
use chrome_client.Models.Lines.{
  splitlines, hold_back, with_pending, lines_of, lines_from, iter_lines,
}
use chrome_client.Models.Lines.Text.{
  IsPlain, unlines, as_pending, last_line, splitlines-last, splitlines-unlines, Parsed, parse,
}
use chrome_client.Base.Splitting.{Lacks, Lacks-append}
use chrome_client.Models.Lines.Pending.{hold_back_lem}

with_pending-eq : (p chunk : Bytes) → with_pending (as_pending p) chunk ≡ p ++ chunk
unfolding with_pending
with_pending-eq [] chunk = refl
with_pending-eq (c ∷ p) chunk = refl

lines_step :
    (delimiter : Option ℕ) (pending : Option Bytes) (chunk : Bytes) (chunks : List Bytes)
    → let joined = with_pending pending chunk in
      let (lines, kept) = hold_back (lines_of delimiter joined) joined in
      lines_from delimiter pending (chunk ∷ chunks) ≡ lines ++ lines_from delimiter kept chunks
unfolding lines_from
lines_step delimiter none chunk chunks = refl
lines_step delimiter (some p) chunk chunks = refl

lines_last : (p : Bytes) → IsPlain p → lines_from none (as_pending p) [] ≡ last_line p
unfolding lines_from
lines_last [] h = refl
lines_last (c ∷ p) h = refl

-- The lines of a text, and the part that is kept back of it.
Parsed-step :
    (s : Bytes) (p : Parsed s) → hold_back (lines_of none s) s ≡ (p.lines, as_pending p.tail)
unfolding lines_of
Parsed-step s p = (λ i. hold_back (split i) (sym p.spelt i)) ∙ hold_back_lem p.lines p.tail p.plain
  where
    split : splitlines s ≡ p.lines ++ last_line p.tail
    split =
        ap splitlines (sym p.spelt)
        ∙ splitlines-unlines p.lines p.tail p.plain
        ∙ ap (λ t. p.lines ++ t) (splitlines-last p.tail p.part)

lines_from-splitlines :
    (p : Bytes) (chunks : List Bytes)
    → IsPlain p
    → All (Lacks 13) chunks
    → lines_from none (as_pending p) chunks ≡ splitlines (p ++ concat chunks)
lines_from-splitlines p [] h _ =
    lines_last p h ∙ sym (splitlines-last p h) ∙ ap splitlines (sym (append-nil p))
lines_from-splitlines p (chunk ∷ chunks) h (k, ks) =
    lines_step none (as_pending p) chunk chunks
    ∙ ap
        (λ (s : Bytes).
          let (lines, kept) = hold_back (lines_of none s) s in lines ++ lines_from none kept chunks)
        (with_pending-eq p chunk)
    ∙ ap (λ (x : List Bytes × Option Bytes). x.0 ++ lines_from none x.1 chunks) (Parsed-step _ q)
    ∙ ap (λ t. q.lines ++ t) (lines_from-splitlines q.tail chunks q.part ks)
    ∙ sym (splitlines-unlines q.lines (q.tail ++ concat chunks) q.plain)
    ∙ ap splitlines (sym (append_assoc (unlines q.lines) q.tail (concat chunks)))
    ∙ ap (λ s. splitlines (s ++ concat chunks)) q.spelt
    ∙ ap splitlines (append_assoc p chunk (concat chunks))
  where
    q : Parsed (p ++ chunk)
    q = parse (p ++ chunk) (Lacks-append 13 p chunk h.1 k)

-- Without a delimiter, `iter_lines` yields the lines of the whole text, whatever blocks it comes in,
-- if no block holds a carriage return.
pub iter_lines-eq-splitlines :
    (blocks : List Bytes)
    → All (Lacks 13) blocks
    → iter_lines none blocks ≡ splitlines (concat blocks)
unfolding iter_lines
iter_lines-eq-splitlines blocks h = lines_from-splitlines [] blocks (tt, tt) h
