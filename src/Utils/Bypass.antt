-- ===== src/Utils/Bypass.antt =====
-- Which URLs bypass a proxy: `is_ipv4_address`, `address_in_network`, `should_bypass_proxies`,
-- `get_environ_proxies` and `resolve_proxies`. `inet_aton` is the C library's, as a 32-bit number or
-- `none` for `OSError`; `int_of` is Python's `int` of a text, `none` for `ValueError`. The host, port and scheme of a URL and the environment are arguments; a host is
-- not empty. `proxy_bypass` always answers False.
pub mod Laws
use chrome_client.Base.{
  ℕ, ◌+◌, ◌-◌, ◌*◌, ◌/◌, ◌^◌, Option, none, some, List, [], ◌∷◌, ◌++◌, Bool, true, false, ◌&&◌,
  ◌==◌, leb, contains, keep, not, length, take, option_eq, ℕ_eq, if◌then◌else◌,
}
use chrome_client.Base.Dict.{Dict, lookup, insert, has}
use chrome_client.Base.Text.{Text, codes, lower, split_all, starts_with, ends_with, text_eq}

abbrev count : ℕ → Text → ℕ
count c [] = 0
count c (d ∷ s) = (if d == c then 1 else 0) + count c s

-- `n & netmask`, for the mask that `bits` stands for: the low bits are cleared.
unfoldable pub masked : ℕ → ℕ → ℕ
masked bits n = n / 2 ^ (32 - bits) * 2 ^ (32 - bits)

-- What `int` reads.
pub data Count : Type 0 where
  count_of : ℕ → Count
  below_zero : Count

-- A shift by a negative count, of a mask with more than 32 bits, raises `ValueError`; with a negative
-- number of bits the shift leaves a netmask of 0, under which all addresses agree.
unfoldable pub same_network : Option ℕ → Option Count → Option ℕ → Bool
unfolding masked ℕ_eq
same_network (some ip) (some below_zero) (some network) = true
same_network (some ip) (some (count_of bits)) (some network) =
    leb bits 32 && masked bits ip == masked bits network
same_network ip bits network = false

-- The entries of `no_proxy`: blanks removed, empty entries left out.
unfoldable pub entries : Text → List Text
unfolding split_all ℕ_eq text_eq
entries no_proxy =
    keep (λ (e : Text). not (e == [])) (split_all b',' (keep (λ (c : ℕ). not (c == b' ')) no_proxy))

-- `host_with_port`; `print_port` is `"%d" % port`.
unfoldable pub with_port : Text → Option Text → Text
with_port host none = host
with_port host (some port) = host ++ b':' ∷ port

unfoldable pub entry_of_name : Text → Option Text → Text → Bool
unfolding ends_with with_port
entry_of_name host port entry =
    if ends_with host entry then true else ends_with (with_port host port) entry

abbrev any : (Text → Bool) → List Text → Bool
any p [] = false
any p (e ∷ es) = if p e then true else any p es

-- `no_proxy` is the argument, else what the environment holds.
unfoldable pub chosen : Option Text → Option Text → Text
chosen (some no_proxy) environment = no_proxy
chosen none (some no_proxy) = no_proxy
chosen none none = []

-- `name[:-6]` of a variable that ends with `_proxy` and is not empty; the last one of a name wins.
unfoldable pub environ_entry : Dict Text Text → Text × Text → Dict Text Text
unfolding lower ends_with text_eq
environ_entry proxies (name, value) =
    if ends_with (lower name) (codes "_proxy") && not (value == [])
    then insert (take (length (lower name) - 6) (lower name)) value proxies
    else proxies

unfoldable pub environ_proxies : List (Text × Text) → Dict Text Text → Dict Text Text
unfolding environ_entry
environ_proxies [] proxies = proxies
environ_proxies (item ∷ items) proxies = environ_proxies items (environ_entry proxies item)

-- `environment.get(scheme, environment.get("all"))`
unfoldable pub proxy_for : Text → Dict Text Text → Option Text
unfolding text_eq
proxy_for scheme proxies = elim (lookup scheme proxies) [
  | none ↦ lookup (codes "all") proxies
  | some proxy ↦ some proxy
]

-- `if proxy: proxies.setdefault(scheme, proxy)`
unfoldable pub set_default : Text → Option Text → Dict Text Text → Dict Text Text
unfolding text_eq
set_default scheme none proxies = proxies
set_default scheme (some []) proxies = proxies
set_default scheme (some (c ∷ proxy)) proxies =
    if has scheme proxies then proxies else insert scheme (c ∷ proxy) proxies

unfoldable pub is_ipv4_address : (Text → Option ℕ) → Text → Bool
unfolding ℕ_eq
is_ipv4_address inet_aton value = elim (inet_aton value) [
  | none ↦ false
  | some n ↦ count b'.' value == 3
]

module _ (inet_aton : Text → Option ℕ) (int_of : Text → Option Count) where
  unfoldable pub in_parts : Text → List Text → Bool
  unfolding same_network
  in_parts address (network ∷ bits ∷ []) =
      same_network (inet_aton address) (int_of bits) (inet_aton network)
  in_parts address parts = false

  unfoldable pub address_in_network : Text → Text → Bool
  unfolding in_parts split_all
  address_in_network address network = in_parts address (split_all b'/' network)

  unfoldable pub entry_of_address : Text → Text → Bool
  unfolding address_in_network ℕ_eq text_eq
  entry_of_address host entry =
      if contains entry b'/' then address_in_network host entry else host == entry

  unfoldable pub matches : Text → Option Text → Text → Bool
  unfolding is_ipv4_address entry_of_address entry_of_name
  matches host port entry =
      if is_ipv4_address inet_aton host
      then entry_of_address host entry
      else entry_of_name host port entry

  unfoldable pub should_bypass_proxies :
      Option Text → Option Text → Option Text → Option Text → Bool
  unfolding chosen entries matches any
  should_bypass_proxies none port no_proxy environment = true
  should_bypass_proxies (some host) port no_proxy environment =
      any (matches host port) (entries (chosen no_proxy environment))

  unfoldable pub get_environ_proxies :
      Option Text → Option Text → Option Text → Option Text → List (Text × Text) → Dict Text Text
  unfolding should_bypass_proxies environ_proxies
  get_environ_proxies host port no_proxy environment environ =
      if should_bypass_proxies host port no_proxy environment
      then []
      else environ_proxies environ []

  unfoldable pub resolve_proxies :
      Text
      → Option Text
      → Option Text
      → Option Text
      → List (Text × Text)
      → Dict Text Text
      → Bool
      → Dict Text Text
  unfolding should_bypass_proxies get_environ_proxies proxy_for set_default text_eq
  resolve_proxies scheme host port environment environ proxies trust_env =
      let no_proxy = lookup (codes "no_proxy") proxies in
      if trust_env && not (should_bypass_proxies host port no_proxy environment)
      then set_default scheme
          (proxy_for scheme (get_environ_proxies host port no_proxy environment environ)) proxies
      else proxies
