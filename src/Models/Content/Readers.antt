-- ===== src/Models/Content/Readers.antt =====
-- What iterating a reader answers, once and again.
use mathlib.Core.Option
use chrome_client.Base.{◌+◌, ◌≡◌, refl, ap, ◌∙◌, Option, none, some, List, [], ◌∷◌, length, false}
use chrome_client.Async.State.{Bytes, native_error}
use chrome_client.Base.Text.{Text}
use chrome_client.Async.Reader.{
  Turn, Next, chunk, end, broken, SyncReader, sync_reader, iterate, failure_of, iterate_next,
  iterate_again, iterate_closed,
}
use chrome_client.Models.Content.{Script, BodyReader, iterated, joined, ok}

-- The Core answers with chunks, and then with the end or a failure.
abbrev pub chunks_then : List Bytes → Option Text → List Next
chunks_then [] none = end ∷ []
chunks_then [] (some message) = broken message ∷ []
chunks_then (c ∷ cs) message = chunk c ∷ chunks_then cs message

abbrev pub fresh_reader : List Bytes → Option Text → BodyReader
fresh_reader chunks message = record {
  answers = chunks_then chunks message;
  state = sync_reader none;
}

abbrev script_of : List Bytes × Turn × SyncReader → Script
script_of out = record { blocks = out.0; ending = failure_of out.1 }

iterate-chunks_then :
    (chunks : List Bytes) (message : Option Text) (r : SyncReader)
    → r.limit ≡ none
    → r.closed ≡ false
    → script_of (iterate (chunks_then chunks message) r)
      ≡ record { blocks = chunks; ending = Option.map native_error message }
iterate-chunks_then [] none r l o = unfold iterate failure_of in refl
iterate-chunks_then [] (some message) r l o = unfold iterate failure_of in simp o refl
iterate-chunks_then (c ∷ cs) message r l o =
    ap script_of (iterate_next c (chunks_then cs message) r o (simp l refl))
    ∙ ap (λ (s : Script). record s { blocks = c ∷ s.blocks })
        (iterate-chunks_then cs message (record r { total = r.total + length c }) l o)

-- A new reader without a limit yields the chunks of the Core and ends as the Core does.
pub iterated-fresh_reader :
    (chunks : List Bytes) (message : Option Text)
    → (iterated (fresh_reader chunks message)).0
      ≡ record { blocks = chunks; ending = Option.map native_error message }
unfolding iterated sync_reader
iterated-fresh_reader chunks message =
    iterate-chunks_then chunks message (sync_reader none) refl refl

-- A reader that was iterated has nothing more, whether it ended or raised.
pub iterated-iterated : (b : BodyReader) → joined (iterated (iterated b).1).0 ≡ ok []
unfolding iterated joined failure_of
iterated-iterated b =
    ap (λ (out : List Bytes × Turn × SyncReader). joined (script_of out))
      (iterate_again b.answers (iterate b.answers b.state).2 (iterate_closed b.answers b.state))
