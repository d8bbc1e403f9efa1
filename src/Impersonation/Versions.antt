-- ===== src/Impersonation/Versions.antt =====
-- `HTTP_VERSIONS` and `normalize_http_version`, for a text or `None`.
use chrome_client.Base.{
  ◌≡◌, refl, Option, none, some, List, [], ◌∷◌, Bool, true, ◌&&◌, ◌==◌, inl, inr, Bool-cases, arith,
  ==→eq, option_eq,
}
use chrome_client.Base.Dict.{Dict, lookup}
use chrome_client.Base.Text.{Text, codes, lower, strip, text_eq}

-- A row of the table, by its names.
abbrev named : Option Text → List Text → Dict Text (Option Text) → Dict Text (Option Text)
named v [] rest = rest
named v (k ∷ ks) rest = (k, v) ∷ named v ks rest

-- The entry of `None` is the first case of the function.
unfoldable pub http_versions : Dict Text (Option Text)
http_versions = named none ([] ∷ codes "native" ∷ codes "auto" ∷ []) (
    named (some (codes "v1"))
      (codes "v1"
        ∷ codes "1"
        ∷ codes "1.0"
        ∷ codes "1.1"
        ∷ codes "h1"
        ∷ codes "http/1.1"
        ∷ codes "http1"
        ∷ [])
      (named (some (codes "v2"))
        (codes "v2" ∷ codes "2" ∷ codes "2.0" ∷ codes "h2" ∷ codes "http/2" ∷ codes "http2" ∷ [])
        (named (some (codes "v3"))
          (codes "v3" ∷ codes "3" ∷ codes "3.0" ∷ codes "h3" ∷ codes "http/3" ∷ codes "http3" ∷ [])
          [])))

-- `none` is the `UnsupportedFeature`; `some none` leaves the choice to the Core.
unfoldable pub normalize_http_version : Option Text → Option (Option Text)
normalize_http_version none = some none
normalize_http_version (some value) = lookup (lower (strip value)) http_versions

abbrev stable : Option Text → Bool
stable v = normalize_http_version v == some v

abbrev all_stable : Dict Text (Option Text) → Bool
all_stable [] = true
all_stable ((_, v) ∷ d) = stable v && all_stable d

lookup-all_stable :
    (k : Text) (d : Dict Text (Option Text)) (v : Option Text)
    → all_stable d ≡ true
    → lookup k d ≡ some v
    → stable v ≡ true
unfolding lookup
lookup-all_stable k [] v h e = cc
lookup-all_stable k ((j, w) ∷ d) v h e = elim (Bool-cases (k == j)) [
  | inl same ↦ ground (arith, simp same at e)
  | inr other ↦ lookup-all_stable k d v (ground arith) (simp other at e)
]

http_versions_stable : all_stable http_versions ≡ true
unfolding http_versions normalize_http_version lookup lower strip option_eq text_eq
http_versions_stable = refl

-- A protocol pin that was normalized is one of the table's, and normalizes to itself.
pub normalize_http_version-stable :
    (value pin : Option Text)
    → normalize_http_version value ≡ some pin
    → normalize_http_version pin ≡ some pin
unfolding normalize_http_version
normalize_http_version-stable none none h = refl
normalize_http_version-stable none (some pin) h = cc
normalize_http_version-stable (some value) pin h =
    ==→eq _ _ (lookup-all_stable (lower (strip value)) http_versions pin http_versions_stable h)
