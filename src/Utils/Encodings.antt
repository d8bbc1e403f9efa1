-- ===== src/Utils/Encodings.antt =====
-- `guess_json_utf`: the Unicode encoding of a JSON body, by its first four bytes.
use chrome_client.Base.{
  ℕ, ◌+◌, ◌<◌, ◌≡◌, ◌≢◌, refl, sym, ap, ◌∙◌, Option, none, some, [], ◌∷◌, ◌++◌, false, ◌||◌, ◌==◌,
  ℕ_eq, if◌then◌else◌, arith, take, All, Bool-cases, inl, inr, ==→eq, ==_refl,
}
use mathlib.Core.List.{head-eq_of_cons-eq, tail-eq_of_cons-eq}
use chrome_client.Base.Text.{Text, text_eq}
use chrome_client.Async.State.{Bytes}

pub data Utf : Type 0 where
  utf_8 utf_8_sig utf_16 utf_16_be utf_16_le utf_32 utf_32_be utf_32_le : Utf

-- `sample.count(b"\x00")`
abbrev nulls : Bytes → ℕ
nulls [] = 0
nulls (b ∷ s) = (if b == 0 then 1 else 0) + nulls s

-- `sample[::2]`
abbrev even_bytes : Bytes → Bytes
even_bytes [] = []
even_bytes (b ∷ []) = b ∷ []
even_bytes (b ∷ c ∷ s) = b ∷ even_bytes s

unfoldable pub guess_by_nulls : Bytes → Option Utf
unfolding ℕ_eq text_eq
guess_by_nulls sample =
    if nulls sample == 0
    then some utf_8
    else if nulls sample == 2
    then (if even_bytes sample == 0 ∷ 0 ∷ [] then some utf_16_be else some utf_16_le)
    else if nulls sample == 3
    then (if take 3 sample == 0 ∷ 0 ∷ 0 ∷ [] then some utf_32_be else some utf_32_le)
    else none

unfoldable pub guess_sample : Bytes → Option Utf
unfolding guess_by_nulls text_eq
guess_sample sample =
    if sample == 0xFF ∷ 0xFE ∷ 0 ∷ 0 ∷ [] || sample == 0 ∷ 0 ∷ 0xFE ∷ 0xFF ∷ []
    then some utf_32
    else if take 3 sample == 0xEF ∷ 0xBB ∷ 0xBF ∷ []
    then some utf_8_sig
    else if take 2 sample == 0xFF ∷ 0xFE ∷ [] || take 2 sample == 0xFE ∷ 0xFF ∷ []
    then some utf_16
    else guess_by_nulls sample

unfoldable pub guess_json_utf : Bytes → Option Utf
unfolding guess_sample
guess_json_utf body = guess_sample (take 4 body)

-- The bytes of an ASCII character, and the byte order mark.
abbrev pub unit : Utf → ℕ → Bytes
unit utf_8 c = c ∷ []
unit utf_8_sig c = c ∷ []
unit utf_16 c = c ∷ 0 ∷ []
unit utf_16_be c = 0 ∷ c ∷ []
unit utf_16_le c = c ∷ 0 ∷ []
unit utf_32 c = c ∷ 0 ∷ 0 ∷ 0 ∷ []
unit utf_32_be c = 0 ∷ 0 ∷ 0 ∷ c ∷ []
unit utf_32_le c = c ∷ 0 ∷ 0 ∷ 0 ∷ []

abbrev pub mark : Utf → Bytes
mark utf_8_sig = 0xEF ∷ 0xBB ∷ 0xBF ∷ []
mark utf_16 = 0xFF ∷ 0xFE ∷ []
mark utf_32 = 0xFF ∷ 0xFE ∷ 0 ∷ 0 ∷ []
mark u = []

abbrev pub units : Utf → Text → Bytes
units u [] = []
units u (c ∷ s) = unit u c ++ units u s

abbrev pub encode : Utf → Text → Bytes
encode u s = mark u ++ units u s

-- An ASCII character other than NUL, of which a JSON text is made.
abbrev pub IsAscii : ℕ → Type 0
IsAscii c = (0 < c) × (c < 128)

list_ne : (x y : ℕ) (xs ys : Bytes) → x ≢ y → (x ∷ xs == y ∷ ys) ≡ false
unfolding text_eq
list_ne x y xs ys h = elim (Bool-cases (x ∷ xs == y ∷ ys)) [
  | inl e ↦ absurd (h (head-eq_of_cons-eq (==→eq _ _ e)))
  | inr e ↦ e
]

-- A sample with no byte order mark is judged by its NULs.
no_mark :
    (a : ℕ) (s : Bytes)
    → a ≢ 0xFF
    → a ≢ 0xEF
    → a ≢ 0xFE
    → (a ∷ s == 0 ∷ 0 ∷ 0xFE ∷ 0xFF ∷ []) ≡ false
    → guess_sample (a ∷ s) ≡ guess_by_nulls (a ∷ s)
unfolding guess_sample
no_mark a s h k l e =
    simp
      (
        list_ne a 0xFF s (0xFE ∷ 0 ∷ 0 ∷ []) h,
        e,
        list_ne a 0xEF (take 2 s) (0xBB ∷ 0xBF ∷ []) k,
        list_ne a 0xFF (take 1 s) (0xFE ∷ []) h,
        list_ne a 0xFE (take 1 s) (0xFF ∷ []) l,
      )
      refl

list_ne_tail : (x y : ℕ) (xs ys : Bytes) → (xs == ys) ≡ false → (x ∷ xs == y ∷ ys) ≡ false
unfolding text_eq
list_ne_tail x y xs ys h = elim (Bool-cases (x ∷ xs == y ∷ ys)) [
  | inl e ↦
      let same : xs ≡ ys = tail-eq_of_cons-eq (==→eq (x ∷ xs) (y ∷ ys) e) in
      absurd (cc (h, sym (==_refl ys), ap (λ (t : Bytes). t == ys) same))
  | inr e ↦ e
]

ascii_start : (c : ℕ) (s : Bytes) → IsAscii c → guess_sample (c ∷ s) ≡ guess_by_nulls (c ∷ s)
ascii_start c s h =
    no_mark c s (omega arith) (omega arith) (omega arith) (list_ne c 0 s _ (omega arith))

zero_start :
    (s : Bytes)
    → (s == 0 ∷ 0xFE ∷ 0xFF ∷ []) ≡ false
    → guess_sample (0 ∷ s) ≡ guess_by_nulls (0 ∷ s)
zero_start s h = no_mark 0 s (omega arith) (omega arith) (omega arith) (list_ne_tail 0 0 s _ h)

no_nulls : (s : Bytes) → nulls s ≡ 0 → guess_by_nulls s ≡ some utf_8
unfolding guess_by_nulls
no_nulls s h = simp h refl

two_nulls :
    (s : Bytes)
    → nulls s ≡ 2
    → guess_by_nulls s ≡ (if even_bytes s == 0 ∷ 0 ∷ [] then some utf_16_be else some utf_16_le)
unfolding guess_by_nulls
two_nulls s h = simp h refl

three_nulls :
    (s : Bytes)
    → nulls s ≡ 3
    → guess_by_nulls s ≡ (if take 3 s == 0 ∷ 0 ∷ 0 ∷ [] then some utf_32_be else some utf_32_le)
unfolding guess_by_nulls
three_nulls s h = simp h refl

-- A UTF-16 mark, of either order, with a character that is no NUL behind it.
with_mark : (c : ℕ) → c ≢ 0 → guess_sample (0xFF ∷ 0xFE ∷ c ∷ 0 ∷ []) ≡ some utf_16
unfolding guess_sample
with_mark c h =
    simp
      (
        list_ne_tail 0xFF 0xFF (0xFE ∷ c ∷ 0 ∷ []) (0xFE ∷ 0 ∷ 0 ∷ [])
            (list_ne_tail 0xFE 0xFE (c ∷ 0 ∷ []) (0 ∷ 0 ∷ []) (list_ne c 0 (0 ∷ []) (0 ∷ []) h)),
        list_ne 0xFF 0 (0xFE ∷ c ∷ 0 ∷ []) (0 ∷ 0xFE ∷ 0xFF ∷ []) (omega arith),
      )
      (unfold text_eq in refl)

-- The encoding of a text of at least two ASCII characters is found again, with or without a byte order
-- mark: UTF-8, UTF-16 and UTF-32, in each byte order.
pub guess_json_utf-encode :
    (u : Utf) (c d : ℕ) (s : Text)
    → IsAscii c
    → IsAscii d
    → All IsAscii s
    → guess_json_utf (encode u (c ∷ d ∷ s)) ≡ some u
unfolding guess_json_utf
guess_json_utf-encode utf_8 c d [] h k m =
    ascii_start c (d ∷ []) h ∙ no_nulls (c ∷ d ∷ []) (ground arith)
guess_json_utf-encode utf_8 c d (e ∷ []) h k (m, _) =
    ascii_start c (d ∷ e ∷ []) h ∙ no_nulls (c ∷ d ∷ e ∷ []) (ground arith)
guess_json_utf-encode utf_8 c d (e ∷ f ∷ s) h k (m, (n, _)) =
    ascii_start c (d ∷ e ∷ f ∷ []) h ∙ no_nulls (c ∷ d ∷ e ∷ f ∷ []) (ground arith)
guess_json_utf-encode utf_8_sig c d s h k m = unfold guess_sample text_eq in refl
guess_json_utf-encode utf_16 c d s h k m = with_mark c (omega arith)
guess_json_utf-encode utf_16_be c d s h k m =
    zero_start (c ∷ 0 ∷ d ∷ []) (list_ne c 0 (0 ∷ d ∷ []) (0xFE ∷ 0xFF ∷ []) (omega arith))
    ∙ two_nulls (0 ∷ c ∷ 0 ∷ d ∷ []) (ground arith)
    ∙ unfold text_eq in refl
guess_json_utf-encode utf_16_le c d s h k m =
    ascii_start c (0 ∷ d ∷ 0 ∷ []) h
    ∙ two_nulls (c ∷ 0 ∷ d ∷ 0 ∷ []) (ground arith)
    ∙ simp (list_ne c 0 (d ∷ []) (0 ∷ []) (omega arith)) refl
guess_json_utf-encode utf_32 c d s h k m = unfold guess_sample text_eq in refl
guess_json_utf-encode utf_32_be c d s h k m =
    zero_start (0 ∷ 0 ∷ c ∷ []) (
      list_ne_tail 0 0 (0 ∷ c ∷ []) (0xFE ∷ 0xFF ∷ [])
        (list_ne 0 0xFE (c ∷ []) (0xFF ∷ []) (omega arith)))
    ∙ three_nulls (0 ∷ 0 ∷ 0 ∷ c ∷ []) (ground arith)
    ∙ unfold text_eq in refl
guess_json_utf-encode utf_32_le c d s h k m =
    ascii_start c (0 ∷ 0 ∷ 0 ∷ []) h
    ∙ three_nulls (c ∷ 0 ∷ 0 ∷ 0 ∷ []) (ground arith)
    ∙ simp (list_ne c 0 (0 ∷ 0 ∷ []) (0 ∷ 0 ∷ []) (omega arith)) refl
