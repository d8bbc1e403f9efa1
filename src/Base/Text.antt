-- ===== src/Base/Text.antt =====
-- Python's `str`: a list of code points. `strip` and `split` are exact. `lower` and `is_digit` are
-- exact on Latin-1, the range of what arrives on the wire; other code points have no case here.
use Prim.Native.Nat.{ℕ, ◌+◌}
use Prim.Native.Char.{code}
use Prim.Native.String.{String}
use mathlib.Core.Bool.{Bool, true, false, not, ◌&&◌, ◌||◌}
use mathlib.Core.Option.{Option, none, some}
use mathlib.Core.List.{List, [], ◌∷◌, ◌++◌, map, reverse}
use native.Mathlib.Decide.{ℕ_discrete}
use chrome_client.Base.Tests.{Eq, ◌==◌, ℕ_eq, if◌then◌else◌, leb}

abbrev pub Text : Type 0
Text = List ℕ

abbrev pub codes : String → Text
codes String.[] = []
codes (String.◌∷◌ c s) = code c ∷ codes s

text_dec : Discrete Text
text_dec = hlevel ℕ_discrete

instance unfoldable pub text_eq : Eq Text
unfolding text_dec ℕ_discrete
text_eq = record { dec = text_dec }

unfoldable pub lower_code : ℕ → ℕ
lower_code c =
    if (leb b'A' c && leb c b'Z') || (leb 0xC0 c && leb c 0xDE && not (c == 0xD7))
    then c + 32
    else c

-- `s.lower()`
unfoldable pub lower : Text → Text
unfolding lower_code ℕ_eq
lower = map lower_code

unfoldable pub is_space : ℕ → Bool
is_space c =
    (leb 9 c && leb c 13)
    || (leb 28 c && leb c 32)
    || c == 0x85
    || c == 0xA0
    || c == 0x1680
    || (leb 0x2000 c && leb c 0x200A)
    || c == 0x2028
    || c == 0x2029
    || c == 0x202F
    || c == 0x205F
    || c == 0x3000

unfoldable pub strip_start : (ℕ → Bool) → Text → Text
strip_start p [] = []
strip_start p (c ∷ s) = let rest = strip_start p s in if p c then rest else c ∷ s

-- `s.strip()` and `s.strip(chars)`, by the test for the characters that go.
unfoldable pub strip_by : (ℕ → Bool) → Text → Text
unfolding strip_start
strip_by p s = reverse (strip_start p (reverse (strip_start p s)))

unfoldable pub strip : Text → Text
unfolding strip_by is_space ℕ_eq
strip = strip_by is_space

-- `s.startswith(prefix)`
unfoldable pub starts_with : Text → Text → Bool
unfolding ℕ_eq
starts_with s [] = true
starts_with [] (p ∷ prefix) = false
starts_with (c ∷ s) (p ∷ prefix) = c == p && starts_with s prefix

-- `s.endswith(suffix)`
unfoldable pub ends_with : Text → Text → Bool
unfolding starts_with
ends_with s suffix = starts_with (reverse s) (reverse suffix)

-- `s.split(sep, 1)`: what stands before the first separator, and what follows it if there is one.
unfoldable pub split_once : ℕ → Text → Text × Option Text
unfolding ℕ_eq
split_once sep [] = ([], none)
split_once sep (c ∷ s) =
    let (before, after) = split_once sep s in if c == sep then ([], some s) else (c ∷ before, after)

unfoldable pub extend_first : ℕ → List Text → List Text
extend_first c [] = (c ∷ []) ∷ []
extend_first c (part ∷ parts) = (c ∷ part) ∷ parts

-- `s.split(sep)`; never empty.
unfoldable pub split_all : ℕ → Text → List Text
unfolding extend_first ℕ_eq
split_all sep [] = [] ∷ []
split_all sep (c ∷ s) =
    let parts = split_all sep s in if c == sep then [] ∷ parts else extend_first c parts

-- `sep.join(parts)`
unfoldable pub join : Text → List Text → Text
join sep [] = []
join sep (part ∷ []) = part
join sep (part ∷ parts) = part ++ sep ++ join sep parts

abbrev pub is_decimal : ℕ → Bool
is_decimal c = leb b'0' c && leb c b'9'

abbrev pub is_digit : ℕ → Bool
is_digit c = is_decimal c || (c == 0xB2 || (c == 0xB3 || c == 0xB9))

abbrev pub every : (ℕ → Bool) → Text → Bool
every p [] = true
every p (c ∷ s) = p c && every p s

-- `s.isdigit()`
abbrev pub all_digits : Text → Bool
all_digits [] = false
all_digits (c ∷ s) = every is_digit (c ∷ s)
