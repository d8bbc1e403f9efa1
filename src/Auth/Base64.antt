-- ===== src/Auth/Base64.antt =====
-- `base64.b64encode`, and a decoder for it.
use chrome_client.Base.{
  ℕ, ◌+◌, ◌-◌, ◌*◌, ◌/◌, ◌%◌, ◌<◌, ◌≡◌, refl, ap, ◌∙◌, [], ◌∷◌, ◌++◌, false, ◌&&◌, ◌==◌, ltb, leb,
  ℕ_eq, if◌then◌else◌, All, arith,
}
use mathlib.Core.List.{reverse, reverse-cons, reverse-reverse}
use chrome_client.Base.Text.{Text, is_space, strip, strip_by, strip_start}
use chrome_client.Async.State.{Bytes}

-- The character of six bits.
unfoldable pub digit : ℕ → ℕ
unfolding ℕ_eq
digit n =
    if ltb n 26
    then b'A' + n
    else if ltb n 52
    then b'a' + (n - 26)
    else if ltb n 62
    then b'0' + (n - 52)
    else if n == 62
    then b'+'
    else b'/'

unfoldable pub b64encode : Bytes → Text
unfolding digit
b64encode [] = []
b64encode (a ∷ []) = digit (a / 4) ∷ digit (a % 4 * 16) ∷ b'=' ∷ b'=' ∷ []
b64encode (a ∷ b ∷ []) =
    digit (a / 4) ∷ digit (a % 4 * 16 + b / 16) ∷ digit (b % 16 * 4) ∷ b'=' ∷ []
b64encode (a ∷ b ∷ c ∷ s) =
    digit (a / 4)
    ∷ digit (a % 4 * 16 + b / 16)
    ∷ digit (b % 16 * 4 + c / 64)
    ∷ digit (c % 64)
    ∷ b64encode s

-- The six bits of a character.
unfoldable pub value : ℕ → ℕ
unfolding ℕ_eq
value d =
    if leb b'A' d && leb d b'Z'
    then d - b'A'
    else if leb b'a' d && leb d b'z'
    then d - b'a' + 26
    else if leb b'0' d && leb d b'9'
    then d - b'0' + 52
    else if d == b'+'
    then 62
    else 63

unfoldable pub first_byte : ℕ → ℕ → ℕ
first_byte v w = v * 4 + w / 16

unfoldable pub second_byte : ℕ → ℕ → ℕ
second_byte w x = w % 16 * 16 + x / 4

unfoldable pub third_byte : ℕ → ℕ → ℕ
third_byte x y = x % 4 * 64 + y

-- What a group of four characters stands for, and the rest behind it.
unfoldable pub group : ℕ → ℕ → ℕ → ℕ → Bytes → Bytes
unfolding first_byte second_byte third_byte value ℕ_eq
group p q r s rest =
    let a = first_byte (value p) (value q) in
    if r == b'='
    then a ∷ rest
    else if s == b'='
    then a ∷ second_byte (value q) (value r) ∷ rest
    else a ∷ second_byte (value q) (value r) ∷ third_byte (value r) (value s) ∷ rest

unfoldable pub b64decode : Text → Bytes
unfolding group
b64decode (p ∷ q ∷ r ∷ s ∷ rest) = group p q r s (b64decode rest)
b64decode text = []

abbrev pub IsBytes : Bytes → Type 0
IsBytes s = All (λ (c : ℕ). c < 256) s

value-digit : (n : ℕ) → n < 64 → value (digit n) ≡ n
unfolding value digit
value-digit n h = ground arith

digit-pad : (n : ℕ) → n < 64 → (digit n == b'=') ≡ false
unfolding digit
digit-pad n h = ground arith

pad_space : is_space b'=' ≡ false
unfolding is_space ℕ_eq
pad_space = refl

digit-space : (n : ℕ) → n < 64 → is_space (digit n) ≡ false
unfolding digit is_space
digit-space n h = ground arith

group_one :
    (v w : ℕ) (rest : Bytes)
    → v < 64
    → w < 64
    → group (digit v) (digit w) b'=' b'=' rest ≡ first_byte v w ∷ rest
unfolding group ℕ_eq
group_one v w rest h k = simp (value-digit v h, value-digit w k) refl

group_two :
    (v w x : ℕ) (rest : Bytes)
    → v < 64
    → w < 64
    → x < 64
    → group (digit v) (digit w) (digit x) b'=' rest ≡ first_byte v w ∷ second_byte w x ∷ rest
unfolding group
group_two v w x rest h k l =
    simp (value-digit v h, value-digit w k, value-digit x l, digit-pad x l) (unfold ℕ_eq in refl)

group_three :
    (v w x y : ℕ) (rest : Bytes)
    → v < 64
    → w < 64
    → x < 64
    → y < 64
    → group (digit v) (digit w) (digit x) (digit y) rest
      ≡ first_byte v w ∷ second_byte w x ∷ third_byte x y ∷ rest
unfolding group
group_three v w x y rest h k l m =
    simp
      (
        value-digit v h,
        value-digit w k,
        value-digit x l,
        value-digit y m,
        digit-pad x l,
        digit-pad y m,
      )
      refl

first_again : (a b : ℕ) → b < 256 → first_byte (a / 4) (a % 4 * 16 + b / 16) ≡ a
unfolding first_byte
first_again a b h = omega (arith, h)

second_again :
    (a b c : ℕ)
    → a < 256
    → b < 256
    → c < 256
    → second_byte (a % 4 * 16 + b / 16) (b % 16 * 4 + c / 64) ≡ b
unfolding second_byte
second_again a b c h k l = omega (arith, h, k, l)

third_again : (b c : ℕ) → c < 256 → third_byte (b % 16 * 4 + c / 64) (c % 64) ≡ c
unfolding third_byte
third_again b c h = omega (arith, h)

-- Decoding gives back the bytes that were encoded.
pub b64decode-b64encode : (s : Bytes) → IsBytes s → b64decode (b64encode s) ≡ s
unfolding b64encode b64decode
b64decode-b64encode [] h = refl
b64decode-b64encode (a ∷ []) (ha, _) =
    group_one (a / 4) (a % 4 * 16) [] (omega arith) (omega arith)
    ∙ ap (λ (x : ℕ). x ∷ []) (unfold first_byte in omega arith)
b64decode-b64encode (a ∷ b ∷ []) (ha, (hb, _)) =
    group_two (a / 4) (a % 4 * 16 + b / 16) (b % 16 * 4) [] (omega arith) (omega arith)
      (omega arith)
    ∙ (λ i. first_again a b hb i ∷ last_byte i ∷ [])
  where
    last_byte : second_byte (a % 4 * 16 + b / 16) (b % 16 * 4) ≡ b
    last_byte = unfold second_byte in omega (arith, ha, hb)
b64decode-b64encode (a ∷ b ∷ c ∷ s) (ha, (hb, (hc, hs))) =
    group_three (a / 4) (a % 4 * 16 + b / 16) (b % 16 * 4 + c / 64) (c % 64) _ (omega arith)
      (omega arith) (omega arith) (omega arith)
    ∙ (λ i.
        first_again a b hb i
        ∷ second_again a b c ha hb hc i
        ∷ third_again b c hc i
        ∷ b64decode-b64encode s hs i)

abbrev IsSolid : Text → Type 0
IsSolid s = All (λ (c : ℕ). is_space c ≡ false) s

-- No character of an encoding is a blank.
b64encode-IsSolid : (s : Bytes) → IsBytes s → IsSolid (b64encode s)
unfolding b64encode
b64encode-IsSolid [] h = tt
b64encode-IsSolid (a ∷ []) (ha, _) = (
  digit-space (a / 4) (omega arith),
  (digit-space (a % 4 * 16) (omega arith), (pad_space, (pad_space, tt))),
)
b64encode-IsSolid (a ∷ b ∷ []) (ha, (hb, _)) = (
  digit-space (a / 4) (omega arith),
  (
    digit-space (a % 4 * 16 + b / 16) (omega arith),
    (digit-space (b % 16 * 4) (omega arith), (pad_space, tt)),
  ),
)
b64encode-IsSolid (a ∷ b ∷ c ∷ s) (ha, (hb, (hc, hs))) = (
  digit-space (a / 4) (omega arith),
  (
    digit-space (a % 4 * 16 + b / 16) (omega arith),
    (
      digit-space (b % 16 * 4 + c / 64) (omega arith),
      (digit-space (c % 64) (omega arith), b64encode-IsSolid s hs),
    ),
  ),
)

strip_start_solid : (s : Text) → IsSolid s → strip_start is_space s ≡ s
unfolding strip_start
strip_start_solid [] h = refl
strip_start_solid (c ∷ s) (h, hs) = simp h refl

IsSolid-append : (s t : Text) → IsSolid s → IsSolid t → IsSolid (s ++ t)
IsSolid-append [] t h k = k
IsSolid-append (c ∷ s) t (h, hs) k = (h, IsSolid-append s t hs k)

reverse-IsSolid : (s : Text) → IsSolid s → IsSolid (reverse s)
reverse-IsSolid [] h = tt
reverse-IsSolid (c ∷ s) (h, hs) =
    rw (reverse-cons c s) (IsSolid-append (reverse s) (c ∷ []) (reverse-IsSolid s hs) (h, tt))

pub strip-b64encode : (s : Bytes) → IsBytes s → strip (b64encode s) ≡ b64encode s
unfolding strip strip_by
strip-b64encode s h =
    let solid = b64encode-IsSolid s h in
    rw
      (
        strip_start_solid (b64encode s) solid,
        strip_start_solid (reverse (b64encode s)) (reverse-IsSolid (b64encode s) solid),
      )
      (reverse-reverse (b64encode s))
