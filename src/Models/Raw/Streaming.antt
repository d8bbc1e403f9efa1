-- ===== src/Models/Raw/Streaming.antt =====
-- `RawStream.stream`: the blocks it yields, and that it comes to its end.
use chrome_client.Base.{
  ℕ, zero, suc, ◌≤◌, ◌<◌, ◌≡◌, refl, ap, ◌∙◌, none, some, List, [], ◌∷◌, false, length, arith, take,
  drop, length-drop, take_short, drop_short,
}
use mathlib.Core.Path.{subst}
use native.Mathlib.Decide.{dec_lt}
use chrome_client.Async.State.{Bytes}
use chrome_client.Models.Content.{Result, ok}
use chrome_client.Models.Content.Blocks.{
  IsBlocks, IsBlocks-nil, IsBlocks-last, IsBlocks-cons, IsBlocks-unique,
}
use chrome_client.Models.Raw.{RawStream, read, stream, stream_step, add_block, End, finished}
use chrome_client.Models.Raw.Flat.{Flat}
use chrome_client.Models.Raw.Flat
use chrome_client.Models.Raw.Holds.{Holds}
use chrome_client.Models.Raw.Refine.{read-Agrees}

abbrev Streamed : ℕ → Bytes → List Bytes × End × RawStream → Type 0
Streamed amt body out = IsBlocks amt body out.0 × (out.1 ≡ finished)

read_front :
    (amt : ℕ) (f : Flat)
    → f.closed ≡ false
    → f.ending ≡ none
    → Flat.read (some amt) f ≡ (ok (take amt f.rest), record f { rest = drop amt f.rest })
unfolding Flat.read Flat.read_open Flat.read_last
read_front amt f c e = elim (dec_lt (length f.rest) amt) [
  | yes p ↦
      simp (c, e, take_short amt f.rest (omega arith), drop_short amt f.rest (omega arith))
        (ground arith)
  | no p ↦ simp (c, e) (ground arith)
]

step_some :
    (next : RawStream → List Bytes × End × RawStream) (b : Bytes) (r : RawStream)
    → 0 < length b
    → stream_step next (ok b, r) ≡ (b ∷ (next r).0, (next r).1, (next r).2)
unfolding stream_step add_block
step_some next [] r h = absurd (omega arith)
step_some next (x ∷ b) r h = refl

-- A block was read.
stream_more :
    (fuel amt : ℕ) (body b : Bytes) (r : RawStream)
    → 0 < length b
    → Streamed amt body (b ∷ (stream fuel amt r).0, (stream fuel amt r).1, (stream fuel amt r).2)
    → Streamed amt body (stream_step (stream fuel amt) (ok b, r))
stream_more fuel amt body b r h s = rw (step_some (stream fuel amt) b r h) s

pair_ok : (x : Result Bytes × RawStream) (b : Bytes) → x.0 ≡ ok b → x ≡ (ok b, x.1)
pair_ok (y, r) b e = λ i. (e i, r)

stream_is :
    (fuel amt : ℕ) (r : RawStream) (b : Bytes)
    → (read (some amt) r).0 ≡ ok b
    → stream (suc fuel) amt r ≡ stream_step (stream fuel amt) (ok b, (read (some amt) r).1)
unfolding stream
stream_is fuel amt r b e = ap (stream_step (stream fuel amt)) (pair_ok (read (some amt) r) b e)

-- Nothing was left.
stream_done :
    (fuel amt : ℕ) (body : Bytes) (r : RawStream)
    → 0 < amt
    → length body ≤ 0
    → Streamed amt body (stream_step (stream fuel amt) (ok (take amt body), r))
unfolding stream_step
stream_done fuel amt (b ∷ body) r h le = absurd (omega arith)
stream_done fuel zero [] r h le = absurd (omega arith)
stream_done fuel (suc amt) [] r h le = (IsBlocks-nil (suc amt) [] h refl, refl)

some_taken : (n : ℕ) (xs : Bytes) → 0 < n → 0 < length xs → 0 < length (take n xs)
some_taken zero xs h k = absurd (omega arith)
some_taken (suc n) [] h k = absurd (omega arith)
some_taken (suc n) (x ∷ xs) h k = omega arith

IsBlocks-take :
    (n : ℕ) (body : Bytes) (blocks : List Bytes)
    → 0 < n
    → 0 < length body
    → IsBlocks n (drop n body) blocks
    → IsBlocks n body (take n body ∷ blocks)
IsBlocks-take n body blocks h k i = elim (dec_lt (length body) n) [
  | no p ↦ IsBlocks-cons n body blocks (omega arith) i
  | yes p ↦
      let none_left : blocks ≡ [] =
        IsBlocks-unique n (drop n body) blocks [] i
          (IsBlocks-nil n (drop n body) h (drop_short n body (omega arith))) in
      rw (none_left, take_short n body (omega arith)) (IsBlocks-last n body k p)
]

-- `stream` yields the blocks of what is left, each of `amt` bytes but the last, and comes to its end
-- within one step more than there are bytes. `amt` is positive and the reader does not fail.
pub stream_finishes :
    (fuel amt : ℕ) (r : RawStream) (f : Flat)
    → 0 < amt
    → length f.rest < fuel
    → f.closed ≡ false
    → f.ending ≡ none
    → Holds r f
    → IsBlocks amt f.rest (stream fuel amt r).0 × ((stream fuel amt r).1 ≡ finished)
stream_finishes zero amt r f h le c e held = absurd (omega arith)
stream_finishes (suc fuel) amt r f h le c e held =
    let front = read_front amt f c e in
    let a = read-Agrees (some amt) r f (λ _. e) held in
    let next = (read (some amt) r).1 in
    let after : Holds next (record f { rest = drop amt f.rest }) =
      subst (λ (x : Result Bytes × Flat). Holds next x.1) front a.holds in
    rw
      (stream_is fuel amt r (take amt f.rest)
        (a.reply ∙ ap (λ (x : Result Bytes × Flat). x.0) front))
      (elim (dec_lt 0 (length f.rest)) [
        | no p ↦ stream_done fuel amt f.rest next h (omega arith)
        | yes p ↦
            let fewer : length (drop amt f.rest) < fuel = omega (arith, length-drop amt f.rest) in
            let rest = stream_finishes fuel amt next _ h fewer c e after in
            stream_more fuel amt f.rest (take amt f.rest) next (some_taken amt f.rest h p)
              (IsBlocks-take amt f.rest _ h p rest.0, rest.1)
      ])
