-- ===== src/Models/Request/Order.antt =====
-- The order of the headers on the wire.
use chrome_client.Base.{
  ℕ, suc, ◌+◌, ◌≤◌, ◌≡◌, ◌≢◌, refl, ap, ◌∙◌, some, List, [], ◌∷◌, Bool, true, false, keep, ◌==◌,
  ltb, if◌then◌else◌, arith, Bool-cases, inl, inr, length, All, ==→eq,
}
use chrome_client.Base.Text.{Text, lower, text_eq}
use chrome_client.Base.Dict.{Dict, lookup, insert, has, lookup-insert, length-insert, lookup-nil}
use mathlib.Core.Path.{subst}
use chrome_client.Structures.Headers.{multi_items}
use chrome_client.Models.Request.{
  PreparedRequest, rank_of, rank_names, insert_pair, sorted, order_pairs, wire_headers, rank_or,
}

-- The pairs of one name.
abbrev pub named : Text → Text × Text → Bool
named key pair = lower pair.0 == key

module _ (rank : Text × Text → ℕ) where
  -- The rank of a pair is at most that of every later one.
  abbrev pub AllFrom : ℕ → List (Text × Text) → Type 0
  AllFrom n [] = Unit
  AllFrom n (p ∷ pairs) = (n ≤ rank p) × AllFrom n pairs

  abbrev pub IsSorted : List (Text × Text) → Type 0
  IsSorted [] = Unit
  IsSorted (p ∷ pairs) = AllFrom (rank p) pairs × IsSorted pairs

  lower_bound : (m n : ℕ) (pairs : List (Text × Text)) → m ≤ n → AllFrom n pairs → AllFrom m pairs
  lower_bound m n [] h k = tt
  lower_bound m n (p ∷ pairs) h (k, ks) = (omega (arith, h, k), lower_bound m n pairs h ks)

  insert_pair-AllFrom :
      (n : ℕ) (p : Text × Text) (pairs : List (Text × Text))
      → n ≤ rank p
      → AllFrom n pairs
      → AllFrom n (insert_pair rank p pairs)
  unfolding insert_pair
  insert_pair-AllFrom n p [] h k = (h, tt)
  insert_pair-AllFrom n p (q ∷ pairs) h (k, ks) =
      ground (arith, h, k, insert_pair-AllFrom n p pairs h ks)

  insert_pair-IsSorted :
      (p : Text × Text) (pairs : List (Text × Text))
      → IsSorted pairs
      → IsSorted (insert_pair rank p pairs)
  unfolding insert_pair
  insert_pair-IsSorted p [] h = (tt, tt)
  insert_pair-IsSorted p (q ∷ pairs) (h, hs) = elim (Bool-cases (ltb (rank q) (rank p))) [
    | inl e ↦ simp e (
      insert_pair-AllFrom (rank q) p pairs (ground (arith, e)) h,
      insert_pair-IsSorted p pairs hs,
    )
    | inr e ↦
        let low : rank p ≤ rank q = ground (arith, e) in
        simp e ((low, lower_bound (rank p) (rank q) pairs low h), (h, hs))
  ]

  sorted-IsSorted : (pairs : List (Text × Text)) → IsSorted (sorted rank pairs)
  unfolding sorted
  sorted-IsSorted [] = tt
  sorted-IsSorted (p ∷ pairs) = insert_pair-IsSorted p (sorted rank pairs) (sorted-IsSorted pairs)

  module _ (test : Text × Text → Bool)
      (alike : (p q : Text × Text) → test p ≡ true → test q ≡ true → rank p ≡ rank q) where
    keep-insert_pair :
        (p : Text × Text) (pairs : List (Text × Text))
        → keep test (insert_pair rank p pairs) ≡ keep test (p ∷ pairs)
    unfolding insert_pair
    keep-insert_pair p [] = refl
    keep-insert_pair p (q ∷ pairs) = ground (arith, alike p q, keep-insert_pair p pairs)

    keep-sorted : (pairs : List (Text × Text)) → keep test (sorted rank pairs) ≡ keep test pairs
    unfolding sorted
    keep-sorted [] = refl
    keep-sorted (p ∷ pairs) =
        keep-insert_pair p (sorted rank pairs) ∙ ground (arith, keep-sorted pairs)

rank_of-named :
    (names : List Text) (key : Text) (p q : Text × Text)
    → named key p ≡ true
    → named key q ≡ true
    → rank_of (rank_names 0 [] names) p ≡ rank_of (rank_names 0 [] names) q
unfolding rank_of
rank_of-named names key p q h k =
    let same : lower p.0 ≡ lower q.0 = ground (arith, h, k) in
    let ranking = rank_names 0 [] names in
    ap (λ x. rank_or (length ranking) (lookup x ranking)) same

ordered :
    (r : PreparedRequest) (name : Text) (names : List Text)
    → r.header_order ≡ name ∷ names
    → wire_headers r ≡ sorted (rank_of (rank_names 0 [] (name ∷ names))) (multi_items r.headers)
unfolding wire_headers order_pairs
ordered r name names e = ap (λ o. order_pairs o (multi_items r.headers)) e

all_by_place :
    (rank other : Text × Text → ℕ)
    → ((p : Text × Text) → rank p ≡ other p)
    → (n : ℕ) (pairs : List (Text × Text)) → AllFrom rank n pairs
    → AllFrom other n pairs
all_by_place rank other e n [] h = tt
all_by_place rank other e n (p ∷ pairs) (h, hs) =
    (omega (arith, h, e p), all_by_place rank other e n pairs hs)

by_place :
    (rank other : Text × Text → ℕ)
    → ((p : Text × Text) → rank p ≡ other p)
    → (pairs : List (Text × Text)) → IsSorted rank pairs
    → IsSorted other pairs
by_place rank other e [] h = tt
by_place rank other e (p ∷ pairs) (h, hs) = (
  subst (λ n. AllFrom other n pairs) (e p) (all_by_place rank other e (rank p) pairs h),
  by_place rank other e pairs hs,
)

-- The place of a name in a list of names, without regard to case; that of a missing name is behind the
-- last one.
abbrev pub place : List Text → Text × Text → ℕ
place [] pair = 0
place (n ∷ names) pair = if lower pair.0 == lower n then 0 else suc (place names pair)

-- No name stands twice in the list, in whatever case.
abbrev pub AllDiffer : List Text → Type 0
AllDiffer [] = Unit
AllDiffer (n ∷ names) = All (λ (m : Text). lower m ≢ lower n) names × AllDiffer names

abbrev New : Dict Text ℕ → List Text → Type 0
New ranking names = All (λ (n : Text). has (lower n) ranking ≡ false) names

New-insert :
    (i : ℕ) (ranking : Dict Text ℕ) (n : Text) (names : List Text)
    → All (λ (m : Text). lower m ≢ lower n) names
    → New ranking names
    → New (insert (lower n) i ranking) names
New-insert i ranking n [] d f = tt
New-insert i ranking n (m ∷ names) (d, ds) (f, fs) = (
  ground (arith, lookup-insert (lower m) (lower n) i ranking, d, f),
  New-insert i ranking n names ds fs,
)

length-rank_names :
    (i : ℕ) (ranking : Dict Text ℕ) (names : List Text)
    → AllDiffer names
    → New ranking names
    → length (rank_names i ranking names) ≡ length ranking + length names
unfolding rank_names
length-rank_names i ranking [] d f = omega arith
length-rank_names i ranking (n ∷ names) (d, ds) (f, fs) =
    let rest =
      length-rank_names (i + 1) (insert (lower n) i ranking) names ds
        (New-insert i ranking n names d fs) in
    ground (arith, rest, length-insert (lower n) i ranking, f)

place_missing :
    (names : List Text) (pair : Text × Text) (k : Text)
    → All (λ (m : Text). lower m ≢ k) names
    → lower pair.0 ≡ k
    → length names ≤ place names pair
place_missing [] pair k d e = omega arith
place_missing (n ∷ names) pair k (d, ds) e =
    let rest = place_missing names pair k ds e in
    let other : (lower pair.0 == lower n) ≡ false = ground (arith, d, e) in
    simp other (omega (arith, rest))

place_bound : (names : List Text) (pair : Text × Text) → place names pair ≤ length names
place_bound [] pair = omega arith
place_bound (n ∷ names) pair = ground (arith, place_bound names pair)

-- The index that the ranking has for a name, or what it had before.
rank_there :
    (i : ℕ) (ranking : Dict Text ℕ) (names : List Text) (pair : Text × Text)
    → AllDiffer names
    → New ranking names
    → lookup (lower pair.0) (rank_names i ranking names) ≡ (
        if ltb (place names pair) (length names)
        then some (i + place names pair)
        else lookup (lower pair.0) ranking)
unfolding rank_names
rank_there i ranking [] pair d f = refl
rank_there i ranking (n ∷ names) pair (d, ds) (f, fs) =
    let ih =
      rank_there (i + 1) (insert (lower n) i ranking) names pair ds
        (New-insert i ranking n names d fs) in
    elim (Bool-cases (lower pair.0 == lower n)) [
      | inl e ↦
          let last = place_missing names pair (lower n) d (==→eq (lower pair.0) (lower n) e) in
          ground (arith, ih, e, last, lookup-insert (lower pair.0) (lower n) i ranking)
      | inr e ↦ ground (arith, ih, e, lookup-insert (lower pair.0) (lower n) i ranking)
    ]

all-New : (names : List Text) → New [] names
unfolding lookup
all-New [] = tt
all-New (n ∷ names) = (refl, all-New names)

rank_of-eq-place :
    (names : List Text) (pair : Text × Text)
    → AllDiffer names
    → rank_of (rank_names 0 [] names) pair ≡ place names pair
unfolding rank_of rank_or
rank_of-eq-place names pair d =
    let count = length-rank_names 0 [] names d (all-New names) in
    let there = rank_there 0 [] names pair d (all-New names) in
    ap (rank_or (length (rank_names 0 [] names))) there
    ∙ ground (arith, count, place_bound names pair, lookup-nil {V = ℕ} (lower pair.0))

-- With an order of headers in which no name stands twice, the pairs on the wire are sorted by the place
-- of their name in it, in whatever case, those that it does not name coming last; and the fields of
-- each name are those of the request, in the same order: none is lost, added or written twice.
pub wire_headers-IsSorted :
    (r : PreparedRequest) (name : Text) (names : List Text)
    → r.header_order ≡ name ∷ names
    → AllDiffer (name ∷ names)
    → IsSorted (place (name ∷ names)) (wire_headers r)
      × ((key : Text)
          → keep (named key) (wire_headers r) ≡ keep (named key) (multi_items r.headers))
wire_headers-IsSorted r name names e d =
    let rank = rank_of (rank_names 0 [] (name ∷ names)) in
    rw (ordered r name names e) (
      by_place rank (place (name ∷ names)) (λ p. rank_of-eq-place (name ∷ names) p d)
          (sorted rank (multi_items r.headers)) (sorted-IsSorted rank (multi_items r.headers)),
      λ key.
          keep-sorted rank (named key) (rank_of-named (name ∷ names) key) (multi_items r.headers),
    )
