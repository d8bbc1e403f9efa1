-- ===== src/Proxies/Precedence.antt =====
-- The order in which proxies are looked for.
use chrome_client.Base.{
  ◌≡◌, refl, sym, ap, ◌∙◌, Option, none, some, List, [], ◌∷◌, not, ◌&&◌, ◌==◌, ==→eq, if◌then◌else◌,
  inl, inr, Bool-cases, arith,
}
use chrome_client.Base.Dict.{lookup, insert, NodupKeys, lookup-insert, lookup-nil, insert-NodupKeys}
use chrome_client.Base.Text.{Text, lower, text_eq}
use chrome_client.Proxies.{
  UrlParts, Mapping, update, lower_items, candidate_keys, first_present, or_rest,
  proxy_from_proxies, or_else, ProxySettings, merged, from_mapping, from_session, from_environment,
  effective_proxy,
}

-- An entry of the one mapping, else of the other.
abbrev pub over : Option (Option Text) → Option (Option Text) → Option (Option Text)
over none other = other
over (some v) other = some v

lookup-update :
    (k : Text) (d items : Mapping)
    → NodupKeys items
    → lookup k (update d items) ≡ over (lookup k items) (lookup k d)
unfolding update lookup
lookup-update k d [] n = refl
lookup-update k d ((j, v) ∷ items) (fresh, n) =
    ground (arith, lookup-update k (insert j v d) items n, lookup-insert k j v d, ==→eq k j)

update-NodupKeys : (d items : Mapping) → NodupKeys d → NodupKeys (update d items)
unfolding update
update-NodupKeys d [] n = n
update-NodupKeys d ((j, v) ∷ items) n =
    update-NodupKeys (insert j v d) items (insert-NodupKeys j v d n)

-- Keys in lower case.
abbrev pub IsLower : Mapping → Type 0
IsLower [] = Unit
IsLower ((k, v) ∷ d) = (lower k ≡ k) × IsLower d

insert-IsLower :
    (k : Text) (v : Option Text) (d : Mapping) → lower k ≡ k → IsLower d → IsLower (insert k v d)
unfolding insert
insert-IsLower k v [] e l = (e, tt)
insert-IsLower k v ((j, w) ∷ d) e (f, l) = elim (Bool-cases (k == j)) [
  | inl same ↦ simp same (f, l)
  | inr other ↦ simp other (f, insert-IsLower k v d e l)
]

update-IsLower : (d items : Mapping) → IsLower d → IsLower items → IsLower (update d items)
unfolding update
update-IsLower d [] l m = l
update-IsLower d ((j, v) ∷ items) l (e, m) =
    update-IsLower (insert j v d) items (insert-IsLower j v d e l) m

lower_items-IsLower : (d : Mapping) → IsLower d → lower_items d ≡ d
unfolding lower_items
lower_items-IsLower [] l = refl
lower_items-IsLower ((k, v) ∷ d) (e, l) = simp (e, lower_items-IsLower d l) refl

-- The value of the first key that has an entry.
abbrev pub pick : (Text → Option (Option Text)) → List Text → Option Text
pick entry [] = none
pick entry (k ∷ ks) = or_rest (entry k) (pick entry ks)

first_present-pick :
    (ks : List Text) (d : Mapping) (entry : Text → Option (Option Text))
    → ((k : Text) → lookup k d ≡ entry k)
    → first_present ks d ≡ pick entry ks
unfolding first_present
first_present-pick [] d entry h = refl
first_present-pick (k ∷ ks) d entry h = simp (h k, first_present-pick ks d entry h) refl

-- A mapping as Python has it, with keys in lower case.
pub record IsPlain (d : Mapping) : Type 0 where
  pub nodup : NodupKeys d
  pub lowered : IsLower d

pick_absent :
    (ks : List Text) (entry : Text → Option (Option Text))
    → ((k : Text) → entry k ≡ none)
    → pick entry ks ≡ none
pick_absent [] entry h = refl
pick_absent (k ∷ ks) entry h = simp (h k) (pick_absent ks entry h)

over-none : (o : Option (Option Text)) → over o none ≡ o
over-none none = refl
over-none (some v) = refl

lookup-lowered :
    (k : Text) (d : Mapping) → IsPlain d → lookup k (update [] (lower_items d)) ≡ lookup k d
lookup-lowered k d p = rw (lower_items-IsLower d p.lowered) (
    lookup-update k [] d p.nodup
    ∙ ap (over (lookup k d)) (lookup-nil {V = Option Text} k)
    ∙ over-none (lookup k d))

from_mapping-pick :
    (u : UrlParts) (d : Mapping) (entry : Text → Option (Option Text))
    → IsPlain d
    → ((k : Text) → lookup k d ≡ entry k)
    → from_mapping u d ≡ pick entry (candidate_keys u)
unfolding from_mapping proxy_from_proxies
from_mapping-pick u [] entry p h =
    sym (pick_absent (candidate_keys u) entry (λ k. sym (h k) ∙ lookup-nil {V = Option Text} k))
from_mapping-pick u (e ∷ d) entry p h =
    first_present-pick (candidate_keys u) _ entry (λ k. lookup-lowered k (e ∷ d) p ∙ h k)

-- The entry of a call's mapping, else the session's.
abbrev pub entry_of : ProxySettings → Option Mapping → Text → Option (Option Text)
entry_of s none k = lookup k s.proxies
entry_of s (some proxies) k = over (lookup k proxies) (lookup k s.proxies)

abbrev pub PlainOrAbsent : Option Mapping → Type 0
PlainOrAbsent none = Unit
PlainOrAbsent (some d) = IsPlain d

merged-entry_of :
    (s : ProxySettings) (proxies : Option Mapping) (k : Text)
    → PlainOrAbsent proxies
    → lookup k (merged s proxies) ≡ entry_of s proxies k
unfolding merged
merged-entry_of s none k p = refl
merged-entry_of s (some proxies) k p = lookup-update k s.proxies proxies p.nodup

merged-IsPlain :
    (s : ProxySettings) (proxies : Option Mapping)
    → IsPlain s.proxies
    → PlainOrAbsent proxies
    → IsPlain (merged s proxies)
unfolding merged
merged-IsPlain s none p q = p
merged-IsPlain s (some proxies) p q = record {
  nodup = update-NodupKeys s.proxies proxies p.nodup;
  lowered = update-IsLower s.proxies proxies p.lowered q.lowered;
}

chain :
    (u : UrlParts) (s : ProxySettings) (selected : Option Text)
    → from_environment u s (from_session s selected)
      ≡ or_else selected (
          or_else s.proxy
            (if s.trust_env && not s.bypass then from_mapping u s.environment else none))
unfolding from_session from_environment
chain u s (some proxy) = refl
chain u s none = ground arith

-- A request goes through the proxy that the call names; else through the value of the first key for
-- its URL, the call's entries taking the place of the session's; where that is missing or `None`,
-- through the session's proxy, and else through the environment's, unless it is not trusted or the
-- URL bypasses it: for mappings that have each key once and in lower case.
pub effective_proxy-precedence :
    (u : UrlParts) (s : ProxySettings) (proxy : Option Text) (proxies : Option Mapping)
    → IsPlain s.proxies
    → PlainOrAbsent proxies
    → IsPlain s.environment
    → effective_proxy u s proxy proxies
      ≡ or_else proxy (
          or_else (pick (entry_of s proxies) (candidate_keys u)) (
            or_else s.proxy (
              if s.trust_env && not s.bypass
              then pick (λ k. lookup k s.environment) (candidate_keys u)
              else none)))
unfolding effective_proxy
effective_proxy-precedence u s (some proxy) proxies p q r = refl
effective_proxy-precedence u s none proxies p q r =
    let called =
      from_mapping-pick u (merged s proxies) (entry_of s proxies) (merged-IsPlain s proxies p q)
        (λ k. merged-entry_of s proxies k q) in
    let env = from_mapping-pick u s.environment (λ k. lookup k s.environment) r (λ k. refl) in
    chain u s (from_mapping u (merged s proxies)) ∙ simp (called, env) refl
