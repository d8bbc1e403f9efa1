-- ===== src/Utils/Tests.antt =====
-- Concrete URIs, proxies, headers and bodies.
use chrome_client.Base.{
  ℕ, ◌≡◌, ◌↔◌, refl, Option, none, some, List, [], ◌∷◌, ◌++◌, true, false, not, ◌&&◌, ◌==◌, arith,
  if◌then◌else◌, ℕ_eq,
}
use chrome_client.Base.Dict.{lookup, has}
use chrome_client.Base.Text.{Text, codes, text_eq, is_space, split_all, extend_first}
use chrome_client.Utils.Quoting.{
  requote_uri, requote, unquote_unreserved, unquote_first, join_parts, join_part, join_escape,
  prefix_part, read_escape, two_digits, signed, hex_value, is_unreserved, is_alphanumeric, quote,
  escape_bytes, hex_digit, utf8,
}
use chrome_client.Utils.Quoting.Safety.{requote_uri-negative}
use chrome_client.Utils.Bypass.{
  Count, count_of, below_zero, address_in_network, should_bypass_proxies, resolve_proxies,
  proxy_for, environ_proxies,
}
use chrome_client.Utils.Bypass.Laws.{usable, lookup-resolve_proxies}
use chrome_client.Utils.Values.{IsGiven, check_header_validity, check_header_validity_iff}

-- A blank and a letter beyond ASCII.
abbrev uri : Text
uri = codes "https://a/%7e b" ++ 0xC5 ∷ []

abbrev quoted_uri : Text
quoted_uri = codes "https://a/~%20b%C3%85"

uri_quoted : requote_uri uri ≡ some quoted_uri
unfolding requote_uri requote unquote_unreserved unquote_first join_parts join_part join_escape
    prefix_part read_escape two_digits signed hex_value is_unreserved is_alphanumeric quote
    escape_bytes hex_digit utf8 split_all extend_first is_space ℕ_eq
uri_quoted = refl

requote_uri-negative_example : requote_uri (codes "https://a/?b=%-1") ≡ none
requote_uri-negative_example =
    requote_uri-negative (codes "https://a/?b=") [] b'1' 1 (omega arith) (unfold hex_value in refl)
      (omega arith)

-- An `inet_aton` and an `int` for the addresses of the tests.
abbrev lan : Text
lan = codes "192.168.1.7"

abbrev lan_net : Text
lan_net = codes "192.168.0.0"

abbrev aton : Text → Option ℕ
aton s = if s == lan then some 3_232_235_783 else if s == lan_net then some 3_232_235_520 else none

abbrev bits_of : Text → Option Count
bits_of s =
    if s == codes "16"
    then some (count_of 16)
    else if s == codes "-1"
    then some below_zero
    else none

-- With a negative number of bits every address is in the network.
everything : address_in_network aton bits_of lan (codes "192.168.0.0/-1") ≡ true
unfolding address_in_network split_all extend_first ℕ_eq text_eq
everything = refl

abbrev environ : List (Text × Text)
environ = (codes "HTTPS_PROXY", codes "http://p:1") ∷ []

lookup-resolve_proxies_example :
    lookup (codes "https") (
      resolve_proxies aton bits_of (codes "https") (some (codes "a.org")) none none environ [] true)
    ≡ (if (true
            && not (
                should_bypass_proxies aton bits_of
                  (some (codes "a.org"))
                  none
                  (lookup (codes "no_proxy") [])
                  none))
          && (codes "https" == codes "https" && not (has {V = Text} (codes "https") []))
        then usable
            (proxy_for (codes "https") (environ_proxies environ []))
            (lookup (codes "https") [])
        else lookup (codes "https") [])
lookup-resolve_proxies_example =
    lookup-resolve_proxies aton bits_of (codes "https") (codes "https") (some (codes "a.org")) none
      none environ [] true

check_header_validity_iff_example :
    (check_header_validity (some (codes "X-A")) (some (codes "b\r\nX-C: d")) ≡ true)
    ↔ (IsGiven (some (codes "X-A")) × IsGiven (some (codes "b\r\nX-C: d")))
check_header_validity_iff_example =
    check_header_validity_iff (some (codes "X-A")) (some (codes "b\r\nX-C: d"))

nameless : check_header_validity none (some (codes "b")) ≡ false
unfolding check_header_validity
nameless = refl
