-- ===== src/Auth/Digest/Counting.antt =====
-- The counts of a nonce that the headers carry.
use mathlib.Core.Path.{subst}
use chrome_client.Base.{
  ℕ, zero, suc, ◌+◌, ◌-◌, ◌*◌, ◌/◌, ◌%◌, ◌≡◌, ◌≢◌, ◌≤◌, ◌<◌, refl, sym, ap, ◌∙◌, Option, none, some,
  List, [], ◌∷◌, ◌++◌, length, append_assoc, ltb, ◌==◌, ℕ_eq, if◌then◌else◌, arith, inl, inr,
  Bool-cases,
}
use chrome_client.Base.Dict.{Dict, lookup}
use chrome_client.Base.Text.{Text, codes, join, text_eq}
use chrome_client.Auth.Digest.{HttpDigestAuth}
use chrome_client.Auth.Digest.Answer.{
  nonce_of, algorithm_of, count_nonce, build_if, build_with, build_header, header_parts, part_if,
  hex8, hex_digits, hex_digit, zeros,
}

-- The number that hexadecimal digits stand for, behind others.
unfoldable pub read_hex : ℕ → Text → ℕ
read_hex n [] = n
read_hex n (c ∷ s) = read_hex (n * 16 + (if ltb c b'a' then c - b'0' else c - b'a' + 10)) s

read_hex-hex_digit :
    (n d : ℕ) (s : Text) → d < 16 → read_hex n (hex_digit d ∷ s) ≡ read_hex (n * 16 + d) s
unfolding read_hex hex_digit
read_hex-hex_digit n d s h = ap (λ m. read_hex m s) (ground (arith, h))

read_hex-hex_digits :
    (fuel n : ℕ) (s : Text) → n ≤ fuel → read_hex 0 (hex_digits fuel n s) ≡ read_hex n s
unfolding hex_digits
read_hex-hex_digits zero n s h = ap (λ m. read_hex m s) (omega (arith, h))
read_hex-hex_digits (suc fuel) n s h = elim (Bool-cases (n == 0)) [
  | inl e ↦ simp e (ap (λ m. read_hex m s) (ground (arith, e)))
  | inr e ↦
      let positive : n ≢ 0 = ground (arith, e) in
      let ih =
        read_hex-hex_digits fuel (n / 16) (hex_digit (n % 16) ∷ s) (omega (arith, h, positive)) in
      simp e (
        ih
        ∙ read_hex-hex_digit (n / 16) (n % 16) s (omega arith)
        ∙ ap (λ m. read_hex m s) (omega arith))
]

read_hex-zeros : (k : ℕ) (s : Text) → read_hex 0 (zeros k ++ s) ≡ read_hex 0 s
unfolding zeros read_hex
read_hex-zeros zero s = refl
read_hex-zeros (suc k) s = read_hex-zeros k s

read_hex-hex8 : (n : ℕ) → read_hex 0 (hex8 n) ≡ n
unfolding hex8
read_hex-hex8 n =
    let digits = hex_digits n n [] in
    read_hex-zeros (8 - length digits) digits
    ∙ read_hex-hex_digits n n [] (omega arith)
    ∙ unfold read_hex in refl

-- A list of parts whose last one is known.
record EndsIn (last : Text) (parts : List Text) : Type 0 where
  front : List Text
  split : parts ≡ front ++ last ∷ []

EndsIn-cons :
    (last part : Text) (parts : List Text) → EndsIn last parts → EndsIn last (part ∷ parts)
EndsIn-cons last part parts e = record {
  front = part ∷ e.front;
  split = ap (λ x. part ∷ x) e.split;
}

EndsIn-append : (last : Text) (xs parts : List Text) → EndsIn last parts → EndsIn last (xs ++ parts)
EndsIn-append last [] parts e = e
EndsIn-append last (x ∷ xs) parts e =
    EndsIn-cons last x (xs ++ parts) (EndsIn-append last xs parts e)

join_end :
    (sep last : Text) (front : List Text)
    → (before : Text) × (join sep (front ++ last ∷ []) ≡ before ++ last)
unfolding join
join_end sep last [] = ([], refl)
join_end sep last (x ∷ []) = (x ++ sep, refl)
join_end sep last (x ∷ y ∷ front) =
    let (before, e) = join_end sep last (y ∷ front) in
    (x ++ sep ++ before, ap (λ t. x ++ sep ++ t) e ∙ sym (append_assoc (x ++ sep) before last))

build_if_nonempty :
    {chal : Dict Text Text} (entry : Text × Text) (entries : Dict Text Text)
    (x : Option (Text × HttpDigestAuth))
    → chal ≡ entry ∷ entries
    → build_if chal x ≡ x
unfolding build_if
build_if_nonempty entry entries x c = ap (λ d. build_if d x) c

module _ (hash_of : Text → Option (Text → Text)) (path cnonce method : Text) where
  -- The end of a header that says that its nonce is used for the time that `nc` says.
  abbrev pub ending : Text → Text
  ending nc = codes "qop=\"auth\", nc=" ++ (nc ++ (codes ", cnonce=\"" ++ (cnonce ++ codes "\"")))

  abbrev pub Carries : ℕ → Text → Type 0
  Carries n header =
      (before : Text) × (nc : Text) × (header ≡ before ++ ending nc) × (read_hex 0 nc ≡ n)

  -- The headers carry successive counts.
  abbrev pub Numbered : ℕ → List Text → Type 0
  Numbered n [] = Unit
  Numbered n (header ∷ headers) = Carries n header × Numbered (suc n) headers

  header_parts-EndsIn :
      (hash : Text → Text) (a : HttpDigestAuth) (c : ℕ) (qop : Text)
      → lookup (codes "qop") a.chal ≡ some (c ∷ qop)
      → EndsIn (ending (hex8 a.nonce_count)) (header_parts hash path cnonce method a)
  unfolding header_parts part_if
  header_parts-EndsIn hash a c qop e = EndsIn-cons _ _ _ (
      EndsIn-cons _ _ _ (
        EndsIn-cons _ _ _ (
          EndsIn-cons _ _ _ (
            EndsIn-cons _ _ _ (
              EndsIn-append _ _ _ (
                EndsIn-append _ _ _ (record {
                  front = [];
                  split = ap (λ q. part_if q (λ _. ending (hex8 a.nonce_count))) e;
                })))))))

  header_of : (Text → Text) → HttpDigestAuth → Text
  header_of hash a = codes "Digest " ++ join (codes ", ") (header_parts hash path cnonce method a)

  header_of-Carries :
      (hash : Text → Text) (a : HttpDigestAuth) (c : ℕ) (qop : Text)
      → lookup (codes "qop") a.chal ≡ some (c ∷ qop)
      → Carries a.nonce_count (header_of hash a)
  unfolding header_of
  header_of-Carries hash a c qop e =
      let parts = header_parts-EndsIn hash a c qop e in
      let last = ending (hex8 a.nonce_count) in
      let (before, joined) = join_end (codes ", ") last parts.front in
      (
        codes "Digest " ++ before,
        hex8 a.nonce_count,
        ap (λ x. codes "Digest " ++ join (codes ", ") x) parts.split
            ∙ ap (λ x. codes "Digest " ++ x) joined
            ∙ sym (append_assoc (codes "Digest ") before last),
        read_hex-hex8 a.nonce_count,
      )

  add_header : Text → Option (List Text × HttpDigestAuth) → Option (List Text × HttpDigestAuth)
  add_header header none = none
  add_header header (some (headers, b)) = some (header ∷ headers, b)

  continue :
      Option (Text × HttpDigestAuth)
      → (HttpDigestAuth → Option (List Text × HttpDigestAuth))
      → Option (List Text × HttpDigestAuth)
  unfolding add_header
  continue none more = none
  continue (some (header, b)) more = add_header header (more b)

  -- The headers of some requests with the same challenge, and the handler after them.
  pub requests : ℕ → HttpDigestAuth → Option (List Text × HttpDigestAuth)
  unfolding continue
  requests zero a = some ([], a)
  requests (suc k) a = continue (build_header hash_of path cnonce method a) (requests k)

  module _ (entry : Text × Text) (entries : Dict Text Text) (hash : Text → Text) (d : ℕ)
      (qop : Text) where
    built :
        (a : HttpDigestAuth)
        → a.chal ≡ entry ∷ entries
        → hash_of (algorithm_of a) ≡ some hash
        → build_header hash_of path cnonce method a
          ≡ some (header_of hash (count_nonce (nonce_of a) a), count_nonce (nonce_of a) a)
    unfolding build_header build_with header_of
    built a c h =
        build_if_nonempty entry entries (build_with (hash_of (algorithm_of a)) path cnonce method a)
          c
        ∙ ap (λ o. build_with o path cnonce method a) h

    request :
        (k : ℕ) (a b : HttpDigestAuth) (headers : List Text)
        → a.chal ≡ entry ∷ entries
        → hash_of (algorithm_of a) ≡ some hash
        → requests k (count_nonce (nonce_of a) a) ≡ some (headers, b)
        → requests (suc k) a ≡ some (header_of hash (count_nonce (nonce_of a) a) ∷ headers, b)
    unfolding requests continue add_header
    request k a b headers c h e =
        ap (λ x. continue x (requests k)) (built a c h)
        ∙ ap (add_header (header_of hash (count_nonce (nonce_of a) a))) e

    -- The nonce was used before.
    requests_again :
        (k : ℕ) (a : HttpDigestAuth)
        → a.chal ≡ entry ∷ entries
        → hash_of (algorithm_of a) ≡ some hash
        → lookup (codes "qop") a.chal ≡ some (d ∷ qop)
        → nonce_of a ≡ a.last_nonce
        → (headers : List Text) × (b : HttpDigestAuth) × (requests k a ≡ some (headers, b))
          × (length headers ≡ k)
          × Numbered (suc a.nonce_count) headers
    unfolding requests count_nonce algorithm_of nonce_of
    requests_again zero a c h q same = ([], a, refl, refl, tt)
    requests_again (suc k) a c h q same =
        let next = count_nonce (nonce_of a) a in
        let (headers, b, e, l, numbered) = requests_again k next c h q refl in
        let counted : next.nonce_count ≡ suc a.nonce_count = again in
        (
          header_of hash next ∷ headers,
          b,
          request k a b headers c h e,
          omega (arith, l),
          (
            subst (λ n. Carries n (header_of hash next)) counted
                (header_of-Carries hash next d qop q),
            subst (λ n. Numbered (suc n) headers) counted numbered,
          ),
        )
      where
        again : (count_nonce (nonce_of a) a).nonce_count ≡ suc a.nonce_count
        again = unfold count_nonce in ground (arith, same)

    pub nonce_count-requests :
        (k : ℕ) (a : HttpDigestAuth)
        → a.chal ≡ entry ∷ entries
        → hash_of (algorithm_of a) ≡ some hash
        → lookup (codes "qop") a.chal ≡ some (d ∷ qop)
        → nonce_of a ≢ a.last_nonce
        → (headers : List Text) × (b : HttpDigestAuth) × (requests (suc k) a ≡ some (headers, b))
          × (length headers ≡ suc k)
          × Numbered 1 headers
    unfolding count_nonce algorithm_of nonce_of
    nonce_count-requests k a c h q fresh =
        let next = count_nonce (nonce_of a) a in
        let (headers, b, e, l, numbered) = requests_again k next c h q refl in
        let counted : next.nonce_count ≡ 1 = first in
        (
          header_of hash next ∷ headers,
          b,
          request k a b headers c h e,
          omega (arith, l),
          (
            subst (λ n. Carries n (header_of hash next)) counted
                (header_of-Carries hash next d qop q),
            subst (λ n. Numbered (suc n) headers) counted numbered,
          ),
        )
      where
        first : (count_nonce (nonce_of a) a).nonce_count ≡ 1
        first = ground (arith, fresh)
