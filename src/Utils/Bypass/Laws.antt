-- ===== src/Utils/Bypass/Laws.antt =====
-- What bypasses a proxy, and what `resolve_proxies` adds.
use chrome_client.Base.{
  ℕ, ◌+◌, ◌-◌, ◌*◌, ◌/◌, ◌^◌, ◌≤◌, ◌<◌, ◌≡◌, ◌↔◌, refl, sym, ap, ◌∙◌, Option, none, some, List, [],
  ◌∷◌, ◌++◌, Bool, true, false, not, ◌&&◌, ◌==◌, leb, ℕ_eq, if◌then◌else◌, arith,
}
use native.Mathlib.Nat.{
  div-mul-le_self, mod-add-div', mod-lt, div-lt_iff_lt-mul, le-div_iff_mul-le, one-le-pow,
}
use chrome_client.Base.Dict.{Dict, lookup, has, lookup-insert}
use chrome_client.Base.Text.{Text, codes, text_eq, split_all, ends_with, extend_first}
use chrome_client.Base.Splitting.{Lacks, split_all-cut, split_all_last}
use chrome_client.Utils.Bypass.{
  Count, count_of, is_ipv4_address, matches, entry_of_name, with_port, entries, chosen,
  environ_proxies, masked, same_network, in_parts, address_in_network, should_bypass_proxies,
  get_environ_proxies, proxy_for, set_default, resolve_proxies,
}

-- The multiples of `k` below two numbers agree exactly if the one lies in the block of the other.
div-block : (n m k : ℕ) → 0 < k → (n / k * k ≡ m / k * k) ↔ ((m / k * k ≤ n) × (n < m / k * k + k))
div-block n m k h = (
  (λ e. (omega (arith, e, div-mul-le_self n k), omega (arith, e, mod-add-div' n k, mod-lt n h))),
  (λ (low, high).
      let below : m / k ≤ n / k = (le-div_iff_mul-le h).1 low in
      let above : n / k < m / k + 1 = (div-lt_iff_lt-mul h).1 (omega (arith, high)) in
      let same : n / k ≡ m / k = omega arith in ap (λ (q : ℕ). q * k) same),
)

masked-block :
    (bits n m : ℕ)
    → (masked bits n ≡ masked bits m)
      ↔ ((masked bits m ≤ n) × (n < masked bits m + 2 ^ (32 - bits)))
unfolding masked
masked-block bits n m =
    div-block n m (2 ^ (32 - bits)) (omega (arith, one-le-pow (32 - bits) 2 (omega arith)))

-- `address_in_network(address, "network/bits")` holds, for a number of bits that is not negative,
-- exactly if the mask has at most 32 bits and the
-- address is one of the `2 ^ (32 - bits)` addresses from the network's first one on. `inet_aton` reads
-- both addresses, `int` the number of bits, and neither part of the network has a slash.
pub address_in_network_iff :
    (inet_aton : Text → Option ℕ) (int_of : Text → Option Count) (address network bits : Text)
    (ip base n : ℕ)
    → Lacks b'/' network
    → Lacks b'/' bits
    → inet_aton address ≡ some ip
    → inet_aton network ≡ some base
    → int_of bits ≡ some (count_of n)
    → (address_in_network inet_aton int_of address (network ++ b'/' ∷ bits) ≡ true)
      ↔ ((n ≤ 32) × (masked n base ≤ ip) × (ip < masked n base + 2 ^ (32 - n)))
unfolding address_in_network in_parts same_network
address_in_network_iff inet_aton int_of address network bits ip base n h k a b c = (
  (λ t.
      let (fits, same) = tests (sym read ∙ t) in
      let (low, high) = (masked-block n ip base).0 same in (fits, low, high)),
  (λ (fits, low, high). read ∙ passes fits ((masked-block n ip base).1 (low, high))),
)
  where
    test : Bool
    test = leb n 32 && masked n ip == masked n base

    read : address_in_network inet_aton int_of address (network ++ b'/' ∷ bits) ≡ test
    read = rw (split_all-cut b'/' network bits h, split_all_last b'/' bits k) (simp (a, b, c) refl)

    tests : test ≡ true → (n ≤ 32) × (masked n ip ≡ masked n base)
    tests t = (ground (arith, t), ground (arith, t))

    passes : n ≤ 32 → masked n ip ≡ masked n base → test ≡ true
    passes fits same = ground (arith, fits, same)

-- A proxy that is not empty, else what was there.
abbrev pub usable : Option Text → Option Text → Option Text
usable none default = default
usable (some []) default = default
usable (some (c ∷ proxy)) default = some (c ∷ proxy)

lookup-set_default :
    (k scheme : Text) (proxy : Option Text) (proxies : Dict Text Text)
    → lookup k (set_default scheme proxy proxies) ≡ (
        if scheme == k && not (has scheme proxies)
        then usable proxy (lookup k proxies)
        else lookup k proxies)
unfolding set_default
lookup-set_default k scheme none proxies = ground arith
lookup-set_default k scheme (some []) proxies = ground arith
lookup-set_default k scheme (some (c ∷ proxy)) proxies =
    ground (arith, lookup-insert k scheme (c ∷ proxy) proxies)

-- `resolve_proxies` keeps every proxy of the caller. It adds at most one, for the scheme of the URL, if
-- the caller has none for it, the environment is trusted and the URL is not bypassed: the one that the
-- environment has for the scheme, else its `all`, if that is not empty.
pub lookup-resolve_proxies :
    (inet_aton : Text → Option ℕ) (int_of : Text → Option Count) (k scheme : Text)
    (host port environment : Option Text) (environ : List (Text × Text)) (proxies : Dict Text Text)
    (trust_env : Bool)
    → let no_proxy = lookup (codes "no_proxy") proxies in
      let bypassed = should_bypass_proxies inet_aton int_of host port no_proxy environment in
      lookup k
        (resolve_proxies inet_aton int_of scheme host port environment environ proxies trust_env)
      ≡ (if (trust_env && not bypassed) && (scheme == k && not (has scheme proxies))
          then usable (proxy_for scheme (environ_proxies environ [])) (lookup k proxies)
          else lookup k proxies)
unfolding resolve_proxies get_environ_proxies
lookup-resolve_proxies inet_aton int_of k scheme host port environment environ proxies trust_env =
    resolved trust_env (
      should_bypass_proxies inet_aton int_of host port (lookup (codes "no_proxy") proxies)
        environment)
  where
    found : Dict Text Text
    found = environ_proxies environ []

    resolved :
        (trust bypassed : Bool)
        → lookup k (
            if trust && not bypassed
            then set_default scheme (proxy_for scheme (if bypassed then [] else found)) proxies
            else proxies)
          ≡ (if (trust && not bypassed) && (scheme == k && not (has scheme proxies))
              then usable (proxy_for scheme found) (lookup k proxies)
              else lookup k proxies)
    resolved true true = refl
    resolved true false = lookup-set_default k scheme (proxy_for scheme found) proxies
    resolved false bypassed = refl

-- A `no_proxy` of `*` bypasses the proxy for no host name, unless the name itself ends with a star.
pub should_bypass_proxies-star :
    (inet_aton : Text → Option ℕ) (int_of : Text → Option Count) (host : Text)
    (environment : Option Text)
    → is_ipv4_address inet_aton host ≡ false
    → ends_with host (codes "*") ≡ false
    → should_bypass_proxies inet_aton int_of (some host) none (some (codes "*")) environment ≡ false
unfolding should_bypass_proxies chosen entries matches entry_of_name with_port split_all
    extend_first ℕ_eq text_eq
should_bypass_proxies-star inet_aton int_of host environment h e = simp (h, e) refl
