-- ===== src/Models/Lines.antt =====
-- `Response.iter_lines` over the blocks that `iter_content` yields, on bytes: with `splitlines`, or
-- with a delimiter of one byte. `aiter_lines` has the same body.
pub mod Text
pub mod Pending
pub mod Laws
pub mod Delimiter
use chrome_client.Base.{
  ℕ, Option, none, some, List, [], ◌∷◌, ◌++◌, Bool, true, false, ◌==◌, ℕ_eq, if◌then◌else◌,
}
use chrome_client.Base.Text.{split_all, extend_first}
use chrome_client.Async.State.{Bytes}

-- `chunk.splitlines()`: a line ends at a line feed, at a carriage return, or at both in this order.
unfoldable pub split_from : Bool → Bytes → List Bytes
unfolding extend_first ℕ_eq
split_from after_return [] = []
split_from after_return (c ∷ s) =
    let rest = split_from (c == 13) s in
    if c == 10
    then (if after_return then rest else [] ∷ rest)
    else (if c == 13 then [] ∷ rest else extend_first c rest)

unfoldable pub splitlines : Bytes → List Bytes
unfolding split_from
splitlines s = split_from false s

-- `xs[-1]` and what `pop` leaves.
module _ {ℓ} {A : Type ℓ} where
  unfoldable pub last : List A → Option A
  last [] = none
  last (x ∷ []) = some x
  last (x ∷ y ∷ xs) = last (y ∷ xs)

  unfoldable pub init : List A → List A
  init [] = []
  init (x ∷ []) = []
  init (x ∷ y ∷ xs) = x ∷ init (y ∷ xs)

unfoldable pub last_byte : Option Bytes → Option ℕ
unfolding last
last_byte none = none
last_byte (some line) = last line

unfoldable pub alike : Option ℕ → Option ℕ → Bool
unfolding ℕ_eq
alike (some a) (some b) = a == b
alike (some a) none = false
alike none b = false

-- The lines to yield, and the line that is kept as `pending`.
unfoldable pub hold_back : List Bytes → Bytes → List Bytes × Option Bytes
unfolding last init last_byte alike
hold_back lines chunk =
    if alike (last_byte (last lines)) (last chunk) then (init lines, last lines) else (lines, none)

unfoldable pub with_pending : Option Bytes → Bytes → Bytes
with_pending none chunk = chunk
with_pending (some pending) chunk = pending ++ chunk

unfoldable pub lines_of : Option ℕ → Bytes → List Bytes
unfolding splitlines split_all
lines_of none chunk = splitlines chunk
lines_of (some delimiter) chunk = split_all delimiter chunk

unfoldable pub lines_from : Option ℕ → Option Bytes → List Bytes → List Bytes
unfolding hold_back with_pending lines_of
lines_from delimiter none [] = []
lines_from delimiter (some pending) [] = pending ∷ []
lines_from delimiter pending (chunk ∷ chunks) =
    let joined = with_pending pending chunk in
    let (lines, kept) = hold_back (lines_of delimiter joined) joined in
    lines ++ lines_from delimiter kept chunks

unfoldable pub iter_lines : Option ℕ → List Bytes → List Bytes
unfolding lines_from
iter_lines delimiter blocks = lines_from delimiter none blocks
