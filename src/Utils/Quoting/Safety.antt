-- ===== src/Utils/Quoting/Safety.antt =====
-- The URIs that are refused.
use chrome_client.Base.{ℕ, ◌≡◌, ◌≢◌, ◌<◌, refl, none, some, List, ◌∷◌, ◌++◌, ℕ_eq, arith}
use chrome_client.Base.Text.{Text, split_all, extend_first, is_space}
use chrome_client.Base.Splitting.{Lacks, split_all-cut, split_all_parts}
use chrome_client.Utils.Quoting.{
  requote, requote_uri, unquote_unreserved, unquote_first, join_parts, join_part, join_escape,
  prefix_part, read_escape, two_digits, signed, hex_value, negative,
}

percent_value : (d v : ℕ) → d ≡ b'%' → ¬ (hex_value d ≡ some v)
unfolding hex_value
percent_value d v e h = ground (arith, e, h)

split_negative :
    (d : ℕ) (rest : Text)
    → d ≢ b'%'
    → (p : Text) × (ps : List Text) × (split_all b'%' (b'-' ∷ d ∷ rest) ≡ (b'-' ∷ d ∷ p) ∷ ps)
unfolding split_all extend_first ℕ_eq
split_negative d rest h =
    let (p, ps, e) = split_all_parts b'%' rest in (p, ps, ground (arith, e, h))

read_negative : (d v : ℕ) → hex_value d ≡ some v → 0 < v → read_escape b'-' d ≡ negative
unfolding read_escape two_digits signed is_space hex_value ℕ_eq
read_negative d v h k = ground (arith, h)

-- A percent sign, a minus sign and a hexadecimal digit other than 0 make `requote_uri` raise
-- `ValueError`, where no percent sign stands before them: `int` reads them as a negative number, which
-- `chr` refuses.
pub requote_uri-negative :
    (a rest : Text) (d v : ℕ)
    → Lacks b'%' a
    → hex_value d ≡ some v
    → 0 < v
    → requote_uri (a ++ b'%' ∷ b'-' ∷ d ∷ rest) ≡ none
unfolding requote_uri unquote_unreserved unquote_first join_parts join_part join_escape prefix_part
    requote
requote_uri-negative a rest d v lacks h k =
    let not_percent : d ≢ b'%' = λ e. absurd (percent_value d v e h) in
    let (p, ps, e) = split_negative d rest not_percent in
    rw (split_all-cut b'%' a (b'-' ∷ d ∷ rest) lacks, e) (rw (read_negative d v h k) refl)
