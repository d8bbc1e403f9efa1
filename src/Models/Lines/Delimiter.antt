-- ===== src/Models/Lines/Delimiter.antt =====
-- With a delimiter the lines depend on the blocks: a block that ends with the delimiter leaves an
-- empty line that the text does not have.
use chrome_client.Base.{
  append_assoc, true, ◌≡◌, refl, sym, ap, ◌∙◌, none, some, List, [], ◌∷◌, ◌++◌, ℕ_eq, ℕ,
}
use chrome_client.Async.State.{Bytes}
use chrome_client.Base.Text.{split_all}
use chrome_client.Models.Lines.{
  last, init, last_byte, alike, hold_back, with_pending, lines_of, lines_from, iter_lines,
}
use chrome_client.Base.Splitting.{Lacks, split_all-cut, split_all_last}
use chrome_client.Models.Lines.Pending.{
  last-append, last_found, alike_same, hold_nothing, hold_last,
}

module _ (d : ℕ) where
  -- The last line stands at the end of the text, so it is kept back.
  hold_end :
      (lines : List Bytes) (s q : Bytes) (c : ℕ)
      → hold_back (lines ++ (c ∷ q) ∷ []) (s ++ c ∷ q)
        ≡ (init (lines ++ (c ∷ q) ∷ []), some (c ∷ q))
  hold_end lines s q c =
      let found = last_found c q in
      let end : last (lines ++ (c ∷ q) ∷ []) ≡ some (c ∷ q) =
        last-append lines [] (c ∷ q) ∙ unfold last in refl in
      let same : alike (last_byte (some (c ∷ q))) (last (c ∷ q)) ≡ true =
        unfold last_byte in alike_same (last (c ∷ q)) found.0 found.1 in
      hold_last _ _ (rw (end, last-append s q c) same)
      ∙ (λ i. (init (lines ++ (c ∷ q) ∷ []), end i))

  -- A block that ends with the delimiter: an empty line is left, and nothing is kept back.
  hold_block :
      (p : Bytes)
      → Lacks d p
      → hold_back (split_all d (p ++ d ∷ [])) (p ++ d ∷ []) ≡ (p ∷ [] ∷ [], none)
  hold_block p h =
      rw (split_all-cut d p [] h) (unfold split_all last last_byte alike in hold_nothing _ _ refl)

  -- `iter_lines` with a delimiter yields an extra empty line where a block ends with the delimiter:
  -- the text `p d q` gives the lines `p` and `q` in one block, and `p`, an empty line and `q` in the
  -- blocks `p d` and `q`. `p` and `q` do not hold the delimiter, and `q` is not empty.
  pub iter_lines-extra :
      (p q : Bytes) (c : ℕ)
      → Lacks d p
      → Lacks d (c ∷ q)
      → (iter_lines (some d) ((p ++ d ∷ c ∷ q) ∷ []) ≡ p ∷ (c ∷ q) ∷ [])
        × (iter_lines (some d) ((p ++ d ∷ []) ∷ (c ∷ q) ∷ []) ≡ p ∷ [] ∷ (c ∷ q) ∷ [])
  unfolding iter_lines lines_from lines_of with_pending
  iter_lines-extra p q c h k =
      (simp (whole) (unfold init in refl), simp (hold_block p h, last_part) (unfold init in refl))
    where
      whole :
          hold_back (split_all d (p ++ d ∷ c ∷ q)) (p ++ d ∷ c ∷ q)
          ≡ (init (p ∷ (c ∷ q) ∷ []), some (c ∷ q))
      whole =
          (λ i. hold_back (parts i) (sym (append_assoc p (d ∷ []) (c ∷ q)) i))
          ∙ hold_end (p ∷ []) (p ++ d ∷ []) q c
        where
          parts : split_all d (p ++ d ∷ c ∷ q) ≡ p ∷ (c ∷ q) ∷ []
          parts = split_all-cut d p (c ∷ q) h ∙ ap (λ t. p ∷ t) (split_all_last d (c ∷ q) k)

      last_part : hold_back (split_all d (c ∷ q)) (c ∷ q) ≡ (init ((c ∷ q) ∷ []), some (c ∷ q))
      last_part = rw (split_all_last d (c ∷ q) k) (hold_end [] [] q c)
