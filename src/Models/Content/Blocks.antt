-- ===== src/Models/Content/Blocks.antt =====
-- The blocks of a body: whatever chunks the Core hands over, the blocks are those of the whole body.
use chrome_client.Base.{
  ℕ, zero, suc, ◌+◌, ◌≤◌, ◌<◌, ◌≡◌, refl, sym, ap, ◌∙◌, none, List, [], ◌∷◌, ◌++◌, true, false,
  length, leb, inl, inr, Bool-cases, All, append_assoc, append-nil, arith, length-append, take,
  drop, concat, take-append-drop, length-take, take_short, drop_short, length-drop, drop-drop,
  concat-append, append-cancel,
}
use native.Mathlib.Decide.{dec_lt}
use mathlib.Core.Path.{subst}
use chrome_client.Async.State.{Bytes}
use chrome_client.Models.Content.{cut, rechunk, with_rest, end_stream, stream_chunks, slices}

abbrev pub IsSized : ℕ → List Bytes → Type 0
IsSized n blocks = All (λ (b : Bytes). length b ≡ n) blocks

-- Blocks of `n` bytes each and fewer than `n` bytes after them, which spell `body`.
pub record IsSplit (n : ℕ) (body : Bytes) (split : List Bytes × Bytes) : Type 0 where
  pub whole : concat split.0 ++ split.1 ≡ body
  pub sized : IsSized n split.0
  pub short : length split.1 < n

IsSized-append : (n : ℕ) (xs ys : List Bytes) → IsSized n xs → IsSized n ys → IsSized n (xs ++ ys)
IsSized-append n [] ys h k = k
IsSized-append n (x ∷ xs) ys (p, h) k = (p, IsSized-append n xs ys h k)

cut_more :
    (fuel n : ℕ) (p : Bytes)
    → leb n (length p) ≡ true
    → cut (suc fuel) n p ≡ (take n p ∷ (cut fuel n (drop n p)).0, (cut fuel n (drop n p)).1)
unfolding cut
cut_more fuel n p h = simp h refl

cut_stop : (fuel n : ℕ) (p : Bytes) → leb n (length p) ≡ false → cut (suc fuel) n p ≡ ([], p)
unfolding cut
cut_stop fuel n p h = simp h refl

Split-nil : (n : ℕ) (p : Bytes) → length p < n → IsSplit n p ([], p)
Split-nil n p h = record { whole = refl; sized = tt; short = h }

Split-cons :
    (n : ℕ) (p : Bytes) (s : List Bytes × Bytes)
    → n ≤ length p
    → IsSplit n (drop n p) s
    → IsSplit n p (take n p ∷ s.0, s.1)
Split-cons n p s h i = record {
  whole =
      append_assoc (take n p) (concat s.0) s.1
      ∙ ap (λ t. take n p ++ t) i.whole
      ∙ take-append-drop n p;
  sized = (length-take n p h, i.sized);
  short = i.short;
}

pub cut-IsSplit : (fuel n : ℕ) (p : Bytes) → 0 < n → length p ≤ fuel → IsSplit n p (cut fuel n p)
cut-IsSplit zero n p h le = unfold cut in Split-nil n p (omega arith)
cut-IsSplit (suc fuel) n p h le = elim (Bool-cases (leb n (length p))) [
  | inl e ↦
      let more : n ≤ length p = ground arith in
      rw (cut_more fuel n p e)
        (Split-cons n p _ more (cut-IsSplit fuel n (drop n p) h (omega (arith, length-drop n p))))
  | inr e ↦ rw (cut_stop fuel n p e) (Split-nil n p (ground arith))
]

Split-append :
    (n : ℕ) (p q : Bytes) (s t : List Bytes × Bytes)
    → IsSplit n p s
    → IsSplit n (s.1 ++ q) t
    → IsSplit n (p ++ q) (s.0 ++ t.0, t.1)
Split-append n p q s t a b = record {
  whole =
      ap (λ x. x ++ t.1) (concat-append s.0 t.0)
      ∙ append_assoc (concat s.0) (concat t.0) t.1
      ∙ ap (λ x. concat s.0 ++ x) b.whole
      ∙ sym (append_assoc (concat s.0) s.1 q)
      ∙ ap (λ x. x ++ q) a.whole;
  sized = IsSized-append n s.0 t.0 a.sized b.sized;
  short = b.short;
}

pub rechunk-IsSplit :
    (n : ℕ) (pending : Bytes) (chunks : List Bytes)
    → length pending < n
    → IsSplit n (pending ++ concat chunks) (rechunk n pending chunks)
unfolding rechunk
rechunk-IsSplit n pending [] h = rw append-nil (Split-nil n pending h)
rechunk-IsSplit n pending (c ∷ cs) h =
    let first = cut-IsSplit (length (pending ++ c)) n (pending ++ c) (omega arith) (omega arith) in
    let rest = (cut (length (pending ++ c)) n (pending ++ c)).1 in
    subst (λ (x : Bytes). IsSplit n x (rechunk n pending (c ∷ cs)))
      (append_assoc pending c (concat cs))
      (Split-append n (pending ++ c) (concat cs) _ _ first (rechunk-IsSplit n rest cs first.short))

-- A body is split in one way only.
pub IsSplit-unique :
    (n : ℕ) (body : Bytes) (xs ys : List Bytes) (u v : Bytes)
    → IsSplit n body (xs, u)
    → IsSplit n body (ys, v)
    → (xs ≡ ys) × (u ≡ v)
IsSplit-unique n body [] [] u v a b = (refl, a.whole ∙ sym b.whole)
IsSplit-unique n body [] (y ∷ ys) u v a b = absurd (
    omega (
      arith,
      a.short,
      b.sized.0,
      ap length (a.whole ∙ sym b.whole),
      length-append y (concat ys),
      length-append (y ++ concat ys) v,
    ))
IsSplit-unique n body (x ∷ xs) [] u v a b = absurd (
    omega (
      arith,
      b.short,
      a.sized.0,
      ap length (a.whole ∙ sym b.whole),
      length-append x (concat xs),
      length-append (x ++ concat xs) u,
    ))
IsSplit-unique n body (x ∷ xs) (y ∷ ys) u v a b =
    let e =
      append-cancel x y (concat xs ++ u) (concat ys ++ v) (a.sized.0 ∙ sym b.sized.0) (
        sym (append_assoc x (concat xs) u)
        ∙ a.whole
        ∙ sym b.whole
        ∙ append_assoc y (concat ys) v) in
    let rest =
      IsSplit-unique n (concat ys ++ v) xs ys u v
        (record { whole = e.1; sized = a.sized.1; short = a.short })
        (record { whole = refl; sized = b.sized.1; short = b.short }) in
    ((λ i. e.0 i ∷ rest.0 i), rest.1)

-- What a generator yields is the split of `body` into blocks of `n`, the rest of it last.
pub IsBlocks : ℕ → Bytes → List Bytes → Type 0
IsBlocks n body blocks = (s : List Bytes × Bytes) × IsSplit n body s × (blocks ≡ with_rest s.0 s.1)

pub IsBlocks-unique :
    (n : ℕ) (body : Bytes) (xs ys : List Bytes) → IsBlocks n body xs → IsBlocks n body ys → xs ≡ ys
unfolding IsBlocks
IsBlocks-unique n body xs ys (s, a, e) (t, b, f) =
    let u = IsSplit-unique n body s.0 t.0 s.1 t.1 a b in
    e ∙ (λ i. with_rest (u.0 i) (u.1 i)) ∙ sym f

with_rest-cons :
    (x : Bytes) (xs : List Bytes) (r : Bytes) → with_rest (x ∷ xs) r ≡ x ∷ with_rest xs r
unfolding with_rest
with_rest-cons x xs [] = refl
with_rest-cons x xs (b ∷ r) = refl

with_rest_only : (r : Bytes) → 0 < length r → with_rest [] r ≡ r ∷ []
unfolding with_rest
with_rest_only [] h = absurd (omega arith)
with_rest_only (b ∷ r) h = refl

slices_stop :
    (fuel n offset : ℕ) (body : Bytes) → length body ≤ offset → slices fuel n offset body ≡ []
unfolding slices
slices_stop zero n offset body h = refl
slices_stop (suc fuel) n offset body h = ground arith

slices_more :
    (fuel n offset : ℕ) (body : Bytes)
    → offset < length body
    → slices (suc fuel) n offset body ≡ take n (drop offset body) ∷ slices fuel n (offset + n) body
unfolding slices
slices_more fuel n offset body h = ground arith

pub IsBlocks-nil : (n : ℕ) (body : Bytes) → 0 < n → body ≡ [] → IsBlocks n body []
unfolding IsBlocks with_rest
IsBlocks-nil n body h e = (([], []), record { whole = sym e; sized = tt; short = h }, refl)

pub IsBlocks-last :
    (n : ℕ) (body : Bytes) → 0 < length body → length body < n → IsBlocks n body (body ∷ [])
unfolding IsBlocks
IsBlocks-last n body h short = (([], body), Split-nil n body short, sym (with_rest_only body h))

pub IsBlocks-cons :
    (n : ℕ) (body : Bytes) (blocks : List Bytes)
    → n ≤ length body
    → IsBlocks n (drop n body) blocks
    → IsBlocks n body (take n body ∷ blocks)
unfolding IsBlocks
IsBlocks-cons n body blocks h (s, a, e) = (
  (take n body ∷ s.0, s.1),
  Split-cons n body s h a,
  ap (λ t. take n body ∷ t) e ∙ sym (with_rest-cons (take n body) s.0 s.1),
)

slices-IsBlocks :
    (fuel n offset : ℕ) (body : Bytes)
    → 0 < n
    → length body ≤ offset + fuel
    → IsBlocks n (drop offset body) (slices fuel n offset body)
slices-IsBlocks zero n offset body h le =
    rw (slices_stop zero n offset body (omega arith))
      (IsBlocks-nil n _ h (drop_short offset body (omega arith)))
slices-IsBlocks (suc fuel) n offset body h le = elim (dec_lt offset (length body)) [
  | no p ↦
      rw (slices_stop (suc fuel) n offset body (omega arith))
        (IsBlocks-nil n _ h (drop_short offset body (omega arith)))
  | yes p ↦ rw (slices_more fuel n offset body p) (elim (dec_lt (length (drop offset body)) n) [
    | yes q ↦
        rw
          (
            take_short n (drop offset body) (omega arith),
            slices_stop fuel n (offset + n) body (omega (arith, length-drop offset body)),
          )
          (IsBlocks-last n _ (omega (arith, length-drop offset body)) q)
    | no q ↦
        IsBlocks-cons n (drop offset body) _ (omega arith)
          (rw (drop-drop n offset body) (slices-IsBlocks fuel n (offset + n) body h (omega arith)))
  ])
]

pub stream-IsBlocks :
    (n : ℕ) (chunks : List Bytes)
    → 0 < n
    → IsBlocks n
        (concat chunks)
        (stream_chunks n (record { blocks = chunks; ending = none })).blocks
unfolding IsBlocks stream_chunks end_stream
stream-IsBlocks n chunks h = (rechunk n [] chunks, rechunk-IsSplit n [] chunks h, refl)

-- `iter_content` yields the same blocks from the Core's stream, however it is cut into chunks, as
-- from a body that was read whole; each of the two ends normally, if the reader does.
pub stream_chunks-eq-slices :
    (n : ℕ) (chunks : List Bytes)
    → 0 < n
    → stream_chunks n (record { blocks = chunks; ending = none })
      ≡ record { blocks = slices (length (concat chunks)) n 0 (concat chunks); ending = none }
unfolding stream_chunks end_stream
stream_chunks-eq-slices n chunks h =
    let e : with_rest (rechunk n [] chunks).0 (rechunk n [] chunks).1
        ≡ slices (length (concat chunks)) n 0 (concat chunks) =
      IsBlocks-unique n (concat chunks) _ _ (stream-IsBlocks n chunks h)
        (slices-IsBlocks (length (concat chunks)) n 0 (concat chunks) h (omega arith)) in
    λ i. record { blocks = e i; ending = none }

pub concat-IsBlocks :
    (n : ℕ) (body : Bytes) (blocks : List Bytes) → IsBlocks n body blocks → concat blocks ≡ body
unfolding IsBlocks with_rest
concat-IsBlocks n body blocks (s, a, e) = ap concat e ∙ concat-with_rest s.0 s.1 ∙ a.whole
  where
    concat-with_rest : (xs : List Bytes) (r : Bytes) → concat (with_rest xs r) ≡ concat xs ++ r
    concat-with_rest xs [] = sym (append-nil (concat xs))
    concat-with_rest xs (b ∷ r) =
        concat-append xs ((b ∷ r) ∷ []) ∙ ap (λ t. concat xs ++ t) (append-nil (b ∷ r))
