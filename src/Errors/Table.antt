-- ===== src/Errors/Table.antt =====
-- The tables of `exceptions.py`: the net errors of Chromium, and the categories of the Core.
use chrome_client.Base.{ℕ, Option, none, some, List, [], ◌∷◌, Eq}
use native.Mathlib.Decide.{ℕ_discrete}
use chrome_client.Base.Dict.{Dict}
use chrome_client.Base.Text.{Text, codes}
use chrome_client.Errors.Classes.{
  Class, certificate_verify_error, chunked_encoding_error, connect_timeout, connection_error,
  content_decoding_error, dns_error, impersonate_error, incomplete_read, invalid_header,
  invalid_schema, invalid_url, proxy_error, request_exception, ssl_error, timeout,
  too_many_redirects,
}

-- An `int`; `negative n` is -n, and zero is `positive 0`.
pub data Code : Type 0 where
  positive negative : ℕ → Code

code_dec : Discrete Code
code_dec = hlevel ℕ_discrete

instance unfoldable pub code_eq : Eq Code
unfolding code_dec ℕ_discrete
code_eq = record { dec = code_dec }

-- `_NET_ERRORS`
unfoldable pub net_errors : Dict Code (Text × Option Class)
net_errors =
    (negative 2, (codes "ERR_FAILED", none))
    ∷ (negative 3, (codes "ERR_ABORTED", none))
    ∷ (negative 7, (codes "ERR_TIMED_OUT", some timeout))
    ∷ (negative 15, (codes "ERR_SOCKET_NOT_CONNECTED", none))
    ∷ (negative 21, (codes "ERR_NETWORK_CHANGED", none))
    ∷ (negative 100, (codes "ERR_CONNECTION_CLOSED", none))
    ∷ (negative 101, (codes "ERR_CONNECTION_RESET", none))
    ∷ (negative 102, (codes "ERR_CONNECTION_REFUSED", none))
    ∷ (negative 103, (codes "ERR_CONNECTION_ABORTED", none))
    ∷ (negative 104, (codes "ERR_CONNECTION_FAILED", none))
    ∷ (negative 105, (codes "ERR_NAME_NOT_RESOLVED", some dns_error))
    ∷ (negative 106, (codes "ERR_INTERNET_DISCONNECTED", none))
    ∷ (negative 107, (codes "ERR_SSL_PROTOCOL_ERROR", some ssl_error))
    ∷ (negative 108, (codes "ERR_ADDRESS_INVALID", some invalid_url))
    ∷ (negative 109, (codes "ERR_ADDRESS_UNREACHABLE", none))
    ∷ (negative 110, (codes "ERR_SSL_CLIENT_AUTH_CERT_NEEDED", some ssl_error))
    ∷ (negative 113, (codes "ERR_SSL_VERSION_OR_CIPHER_MISMATCH", some ssl_error))
    ∷ (negative 118, (codes "ERR_CONNECTION_TIMED_OUT", some connect_timeout))
    ∷ (negative 121, (codes "ERR_SOCKS_CONNECTION_HOST_UNREACHABLE", some proxy_error))
    ∷ (negative 130, (codes "ERR_PROXY_CONNECTION_FAILED", some proxy_error))
    ∷ (negative 137, (codes "ERR_NAME_RESOLUTION_FAILED", some dns_error))
    ∷ (negative 200, (codes "ERR_CERT_COMMON_NAME_INVALID", some certificate_verify_error))
    ∷ (negative 201, (codes "ERR_CERT_DATE_INVALID", some certificate_verify_error))
    ∷ (negative 202, (codes "ERR_CERT_AUTHORITY_INVALID", some certificate_verify_error))
    ∷ (negative 203, (codes "ERR_CERT_CONTAINS_ERRORS", some certificate_verify_error))
    ∷ (negative 204, (codes "ERR_CERT_NO_REVOCATION_MECHANISM", some certificate_verify_error))
    ∷ (negative 206, (codes "ERR_CERT_REVOKED", some certificate_verify_error))
    ∷ (negative 207, (codes "ERR_CERT_INVALID", some certificate_verify_error))
    ∷ (negative 208, (codes "ERR_CERT_WEAK_SIGNATURE_ALGORITHM", some certificate_verify_error))
    ∷ (negative 210, (codes "ERR_CERT_NON_UNIQUE_NAME", some certificate_verify_error))
    ∷ (negative 211, (codes "ERR_CERT_WEAK_KEY", some certificate_verify_error))
    ∷ (negative 212, (codes "ERR_CERT_NAME_CONSTRAINT_VIOLATION", some certificate_verify_error))
    ∷ (negative 213, (codes "ERR_CERT_VALIDITY_TOO_LONG", some certificate_verify_error))
    ∷ (negative 214, (codes "ERR_CERTIFICATE_TRANSPARENCY_REQUIRED", some certificate_verify_error))
    ∷ (negative 217, (codes "ERR_CERT_KNOWN_INTERCEPTION_BLOCKED", some certificate_verify_error))
    ∷ (negative 300, (codes "ERR_INVALID_URL", some invalid_url))
    ∷ (negative 301, (codes "ERR_DISALLOWED_URL_SCHEME", some invalid_schema))
    ∷ (negative 302, (codes "ERR_UNKNOWN_URL_SCHEME", some invalid_schema))
    ∷ (negative 310, (codes "ERR_TOO_MANY_REDIRECTS", some too_many_redirects))
    ∷ (negative 311, (codes "ERR_UNSAFE_REDIRECT", some too_many_redirects))
    ∷ (negative 312, (codes "ERR_UNSAFE_PORT", some invalid_url))
    ∷ (negative 320, (codes "ERR_INVALID_RESPONSE", some connection_error))
    ∷ (negative 321, (codes "ERR_INVALID_CHUNKED_ENCODING", some chunked_encoding_error))
    ∷ (negative 324, (codes "ERR_EMPTY_RESPONSE", some connection_error))
    ∷ (negative 325, (codes "ERR_RESPONSE_HEADERS_TOO_BIG", some invalid_header))
    ∷ (negative 336, (codes "ERR_NO_SUPPORTED_PROXIES", some proxy_error))
    ∷ (negative 337, (codes "ERR_HTTP2_PROTOCOL_ERROR", some connection_error))
    ∷ (negative 348, (codes "ERR_PAC_NOT_IN_DHCP", some proxy_error))
    ∷ (negative 350, (codes "ERR_RESPONSE_HEADERS_MULTIPLE_LOCATION", some content_decoding_error))
    ∷ (negative 354, (codes "ERR_CONTENT_LENGTH_MISMATCH", some incomplete_read))
    ∷ (negative 358, (codes "ERR_QUIC_HANDSHAKE_FAILED", some connection_error))
    ∷ (negative 371, (codes "ERR_CONTENT_DECODING_INIT_FAILED", some content_decoding_error))
    ∷ (negative 400, (codes "ERR_CACHE_MISS", none))
    ∷ (negative 111, (codes "ERR_TUNNEL_CONNECTION_FAILED", some proxy_error))
    ∷ (negative 115, (codes "ERR_PROXY_AUTH_UNSUPPORTED", some proxy_error))
    ∷ (negative 120, (codes "ERR_SOCKS_CONNECTION_FAILED", some proxy_error))
    ∷ (negative 127, (codes "ERR_PROXY_AUTH_REQUESTED", some proxy_error))
    ∷ (negative 131, (codes "ERR_MANDATORY_PROXY_CONFIGURATION_FAILED", some proxy_error))
    ∷ (negative 136, (codes "ERR_PROXY_CERTIFICATE_INVALID", some proxy_error))
    ∷ (negative 375, (codes "ERR_TOO_MANY_RETRIES", some proxy_error))
    ∷ []

-- `_NATIVE_ERRORS`
unfoldable pub native_errors : List (Text × Class)
native_errors =
    (codes "ProfileUnsupported", impersonate_error)
    ∷ (codes "ProfileConflict", impersonate_error)
    ∷ (codes "InvalidArgument", invalid_url)
    ∷ (codes "UnsupportedAbi", request_exception)
    ∷ (codes "OutOfMemory", request_exception)
    ∷ (codes "InitializationFailed", request_exception)
    ∷ (codes "InvalidState", request_exception)
    ∷ (codes "Timeout", timeout)
    ∷ (codes "Canceled", request_exception)
    ∷ (codes "Tls", ssl_error)
    ∷ (codes "Proxy", proxy_error)
    ∷ (codes "Protocol", connection_error)
    ∷ (codes "Redirect", too_many_redirects)
    ∷ (codes "CacheMiss", request_exception)
    ∷ (codes "CallbackPanic", request_exception)
    ∷ (codes "BufferLimit", request_exception)
    ∷ (codes "Network", connection_error)
    ∷ []
