-- ===== src/Models/Raw/Filling.antt =====
-- The loop that fills the buffer of a `RawStream`.
use chrome_client.Base.{
  ℕ, ◌≤◌, ◌<◌, ◌≡◌, refl, sym, Option, none, List, [], ◌∷◌, ◌++◌, true, false, length, ltb, inl,
  inr, Bool-cases, append_assoc, append-nil, arith, concat, length-append,
}
use chrome_client.Async.State.{Bytes, Failure}
use chrome_client.Models.Content.{closed_reader}
use chrome_client.Models.Raw.{Filled, fill}

-- What `fill` leaves spells the same bytes: enough of them, or all, with the failure raised.
pub record FillLaw (amt : ℕ) (body : Bytes) (ending : Option Failure) (out : Filled) : Type 0 where
  pub spelt : out.1 ++ concat out.2.blocks ≡ body
  pub enough : amt ≤ length body → (out.0 ≡ none) × (amt ≤ length out.1) × (out.2.ending ≡ ending)
  pub short :
      length body < amt
      → (out.0 ≡ ending) × (out.1 ≡ body) × (out.2.blocks ≡ []) × (out.2.ending ≡ none)

fill_enough :
    (amt : ℕ) (buffer : Bytes) (blocks : List Bytes) (ending : Option Failure)
    → ltb (length buffer) amt ≡ false
    → fill amt buffer blocks ending ≡ (none, buffer, record { blocks = blocks; ending = ending })
unfolding fill
fill_enough amt buffer [] ending h = simp h refl
fill_enough amt buffer (b ∷ bs) ending h = simp h refl

fill_more :
    (amt : ℕ) (buffer block : Bytes) (blocks : List Bytes) (ending : Option Failure)
    → ltb (length buffer) amt ≡ true
    → fill amt buffer (block ∷ blocks) ending ≡ fill amt (buffer ++ block) blocks ending
unfolding fill
fill_more amt buffer block blocks ending h = simp h refl

fill_end :
    (amt : ℕ) (buffer : Bytes) (ending : Option Failure)
    → ltb (length buffer) amt ≡ true
    → fill amt buffer [] ending ≡ (ending, buffer, closed_reader)
unfolding fill
fill_end amt buffer ending h = simp h refl

Fill_kept :
    (amt : ℕ) (buffer : Bytes) (blocks : List Bytes) (ending : Option Failure)
    → amt ≤ length buffer
    → FillLaw amt
        (buffer ++ concat blocks)
        ending
        (none, buffer, record { blocks = blocks; ending = ending })
Fill_kept amt buffer blocks ending h = record {
  spelt = refl;
  enough = λ _. (refl, h, refl);
  short = λ short. absurd (omega (arith, length-append buffer (concat blocks)));
}

pub fill-FillLaw :
    (amt : ℕ) (buffer : Bytes) (blocks : List Bytes) (ending : Option Failure)
    → FillLaw amt (buffer ++ concat blocks) ending (fill amt buffer blocks ending)
fill-FillLaw amt buffer [] ending = elim (Bool-cases (ltb (length buffer) amt)) [
  | inl e ↦ rw (fill_end amt buffer ending e) (record {
    spelt = refl;
    enough = λ h. absurd (ground (arith, length-append buffer []));
    short = λ _. (refl, sym (append-nil buffer), refl, refl);
  })
  | inr e ↦ rw (fill_enough amt buffer [] ending e) (Fill_kept amt buffer [] ending (ground arith))
]
fill-FillLaw amt buffer (b ∷ bs) ending = elim (Bool-cases (ltb (length buffer) amt)) [
  | inl e ↦
      rw (fill_more amt buffer b bs ending e, ← append_assoc buffer b (concat bs))
        (fill-FillLaw amt (buffer ++ b) bs ending)
  | inr e ↦
      rw (fill_enough amt buffer (b ∷ bs) ending e)
        (Fill_kept amt buffer (b ∷ bs) ending (ground arith))
]
