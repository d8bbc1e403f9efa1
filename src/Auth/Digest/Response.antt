-- ===== src/Auth/Digest/Response.antt =====
-- What is hashed for the response of a digest header, beside RFC 2617.
use chrome_client.Base.{
  ◌≡◌, ◌≢◌, ◌↔◌, refl, sym, ◌∙◌, append_assoc, ap, Option, none, some, [], ◌∷◌, ◌++◌, ℕ_eq, arith,
  length, length-append,
}
use mathlib.Core.List.{append_cancel_left}
use chrome_client.Base.Text.{Text, codes, join}
use chrome_client.Auth.Digest.Answer.{digest_input}

-- What RFC 2617, section 3.2.2.1, has hashed for a response to a challenge with these qualities of
-- protection, where a client that is given any picks `auth`. An empty list names none.
abbrev pub rfc_input : Option Text → Text → Text → Text → Text → Text → Text
rfc_input none ha1 nonce nc cnonce ha2 = ha1 ++ b':' ∷ (nonce ++ b':' ∷ ha2)
rfc_input (some []) ha1 nonce nc cnonce ha2 = ha1 ++ b':' ∷ (nonce ++ b':' ∷ ha2)
rfc_input (some (c ∷ qop)) ha1 nonce nc cnonce ha2 =
    ha1 ++ b':' ∷ (nonce ++ b':' ∷ (nc ++ b':' ∷ (cnonce ++ b':' ∷ (codes "auth" ++ b':' ∷ ha2))))

too_long : (ha2 : Text) → ha2 ≢ codes "auth:" ++ ha2
too_long ha2 e = omega (arith, ap length e, length-append (codes "auth:") ha2)

behind : (part s t : Text) → part ++ codes ":" ++ s ≡ part ++ codes ":" ++ t → s ≡ t
behind part s t e = append_cancel_left (part ++ codes ":") s t e

colon : (s t : Text) → s ++ codes ":" ++ t ≡ s ++ b':' ∷ t
colon s t = append_assoc s (codes ":") t

colons : (s : Text) {u v : Text} → u ≡ v → s ++ codes ":" ++ u ≡ s ++ b':' ∷ v
colons s {u = u} e = colon s u ∙ ap (λ x. s ++ b':' ∷ x) e

no_room : (nc cnonce ha2 : Text) → nc ++ codes ":" ++ (cnonce ++ codes ":" ++ ha2) ≢ ha2
no_room nc cnonce ha2 e = omega (
  arith,
  ap length e,
  length-append (nc ++ codes ":") (cnonce ++ codes ":" ++ ha2),
  length-append nc (codes ":"),
  length-append (cnonce ++ codes ":") ha2,
)

-- The text whose hash is the response is the one of RFC 2617 exactly if the challenge has no `qop`: with
-- one, empty or not, it is another text, whatever the parts are.
pub digest_input-rfc :
    (qop : Option Text) (ha1 nonce nc cnonce ha2 : Text)
    → (digest_input qop ha1 nonce nc cnonce ha2 ≡ rfc_input qop ha1 nonce nc cnonce ha2)
      ↔ (qop ≡ none)
unfolding digest_input join
digest_input-rfc none ha1 nonce nc cnonce ha2 = (λ e. refl, λ e. colons ha1 (colon nonce ha2))
digest_input-rfc (some []) ha1 nonce nc cnonce ha2 = (
  λ e. absurd (
      no_room nc cnonce ha2
        (behind nonce _ _ (behind ha1 _ _ (e ∙ sym (colons ha1 (colon nonce ha2)))))),
  λ e. cc e,
)
digest_input-rfc (some (c ∷ qop)) ha1 nonce nc cnonce ha2 = (
  λ e. absurd (
      too_long ha2 (
        behind cnonce _ _ (
          behind nc _ _ (
            behind nonce _ _ (
              behind ha1 _ _ (
                e
                ∙ sym (
                    colons ha1
                      (colons nonce (colons nc (colons cnonce (colon (codes "auth") ha2))))))))))),
  λ e. cc e,
)
