-- ===== src/Models/Raw/Flat.antt =====
-- What `RawStream` promises: one string of bytes that is read from the front. It does not know of
-- blocks, of a buffer, or of how the Core cut the body.
use chrome_client.Base.{
  ℕ, Option, none, some, List, [], ◌∷◌, Bool, true, length, ltb, if◌then◌else◌, take, drop,
}
use chrome_client.Async.State.{Bytes, Failure}
use chrome_client.Models.Content.{Result, ok, raised, read_failed}

pub record Flat : Type 0 where
  pub rest : Bytes
  pub ending : Option Failure
  pub closed : Bool

-- Too few bytes are left: the end, or once the failure.
unfoldable pub read_last : Option Failure → Flat → Result Bytes × Flat
read_last none f = (ok f.rest, record f { rest = [] })
read_last (some e) f = (raised (read_failed e), record f { ending = none })

unfoldable pub read_all : Option Failure → Flat → Result Bytes × Flat
read_all none f = (ok f.rest, record f { rest = []; closed = true })
read_all (some e) f = (raised (read_failed e), record f { ending = none })

unfoldable pub read_open : Option ℕ → Flat → Result Bytes × Flat
unfolding read_last read_all
read_open none f = read_all f.ending f
read_open (some amt) f =
    if ltb (length f.rest) amt
    then read_last f.ending f
    else (ok (take amt f.rest), record f { rest = drop amt f.rest })

unfoldable pub read : Option ℕ → Flat → Result Bytes × Flat
unfolding read_open
read amt f = if f.closed then (ok [], f) else read_open amt f

unfoldable pub close : Flat → Flat
close f = record f { closed = true }

-- The calls of a client, and what it sees of them.
pub data Op : Type 0 where
  read_op : Option ℕ → Op
  close_op : Op

unfoldable pub run : List Op → Flat → List (Result Bytes)
unfolding read close
run [] f = []
run (read_op amt ∷ ops) f = let (reply, g) = read amt f in reply ∷ run ops g
run (close_op ∷ ops) f = run ops (close f)
