-- ===== src/Errors/Classes.antt =====
-- `exceptions.py`: the classes, and their bases as the `class` lines state them. Of Python's own classes
-- the five that are named as bases are here.
use chrome_client.Base.{ℕ, suc, zero, Bool, false, List, [], ◌∷◌, ◌||◌, ◌==◌, Eq}

pub data Class : Type 0 where
  os_error value_error runtime_error type_error not_implemented_error : Class
  request_exception invalid_json_error json_decode_error http_error connection_error : Class
  proxy_error ssl_error certificate_verify_error dns_error timeout connect_timeout : Class
  read_timeout url_required too_many_redirects missing_schema invalid_schema invalid_url : Class
  invalid_header invalid_proxy_url chunked_encoding_error content_decoding_error : Class
  stream_consumed_error retry_error unrewindable_body_error incomplete_read : Class
  interface_error session_closed impersonate_error cookie_conflict_error : Class
  response_too_large web_socket_error web_socket_closed web_socket_timeout : Class
  unsupported_feature : Class

class_dec : Discrete Class
class_dec = hlevel

instance unfoldable pub class_eq : Eq Class
unfolding class_dec
class_eq = record { dec = class_dec }

unfoldable pub bases : Class → List Class
bases os_error = []
bases value_error = []
bases runtime_error = []
bases type_error = []
bases not_implemented_error = []
bases request_exception = os_error ∷ []
bases invalid_json_error = request_exception ∷ []
bases json_decode_error = invalid_json_error ∷ value_error ∷ []
bases http_error = request_exception ∷ []
bases connection_error = request_exception ∷ []
bases proxy_error = connection_error ∷ []
bases ssl_error = connection_error ∷ []
bases certificate_verify_error = ssl_error ∷ []
bases dns_error = connection_error ∷ []
bases timeout = request_exception ∷ []
bases connect_timeout = connection_error ∷ timeout ∷ []
bases read_timeout = timeout ∷ []
bases url_required = request_exception ∷ []
bases too_many_redirects = request_exception ∷ []
bases missing_schema = request_exception ∷ value_error ∷ []
bases invalid_schema = request_exception ∷ value_error ∷ []
bases invalid_url = request_exception ∷ value_error ∷ []
bases invalid_header = request_exception ∷ value_error ∷ []
bases invalid_proxy_url = invalid_url ∷ []
bases chunked_encoding_error = request_exception ∷ []
bases content_decoding_error = request_exception ∷ []
bases stream_consumed_error = request_exception ∷ type_error ∷ []
bases retry_error = request_exception ∷ []
bases unrewindable_body_error = request_exception ∷ []
bases incomplete_read = request_exception ∷ []
bases interface_error = request_exception ∷ []
bases session_closed = request_exception ∷ []
bases impersonate_error = request_exception ∷ value_error ∷ []
bases cookie_conflict_error = request_exception ∷ runtime_error ∷ []
bases response_too_large = request_exception ∷ []
bases web_socket_error = request_exception ∷ []
bases web_socket_closed = web_socket_error ∷ []
bases web_socket_timeout = web_socket_error ∷ timeout ∷ []
bases unsupported_feature = request_exception ∷ not_implemented_error ∷ []

abbrev any_of : (Class → Class → Bool) → List Class → Class → Bool
any_of p [] d = false
any_of p (b ∷ bs) d = p b d || any_of p bs d

-- `issubclass`, up to so many levels; no chain of bases is longer than five.
unfoldable pub subclass_within : ℕ → Class → Class → Bool
unfolding bases class_eq
subclass_within zero c d = c == d
subclass_within (suc n) c d = c == d || any_of (subclass_within n) (bases c) d

abbrev pub is_subclass : Class → Class → Bool
is_subclass c d = subclass_within 5 c d
