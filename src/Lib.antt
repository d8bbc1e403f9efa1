-- ===== src/Lib.antt =====
-- A model of the Python client of chrome_client, an HTTP client with a requests-like interface over a
-- native Core (Chromium's network stack), and proofs about it. The code is under
-- bindings/python/chrome_client/_python_impl; a file name below is relative to that folder.
--
-- How the parts meet: a session prepares a request, takes an engine from its engine cache, gives the
-- request to the Core, reads the answer synchronously or through a per-request state on the event
-- loop, retries and follows redirects, and keeps cookies in a jar; failures of the Core become
-- exceptions.
--
-- - Base: Python's tests, lists, dictionaries in insertion order, and text.
-- - Structures (structures.py): CaseInsensitive is `CaseInsensitiveDict`, Headers is `Headers`, whose
--   methods are the functions of the same names (`__setitem__` is `set_item`, `_refresh` `refresh`).
-- - Cookies (cookies.py): Cookie is `create_cookie`, Store the nested dictionaries of
--   `http.cookiejar.CookieJar`, Jar the methods of `RequestsCookieJar` that change it, Reading those
--   that read it, Merging `update`, `copy`, `merge_cookies` and `absorb_set_cookie`.
-- - Engine (engine.py): Config is `EngineConfig`, Cache is `EngineCache`.
-- - Async (sessions.py): State is `_AsyncState`, one function for each method; Reader is
--   `_AsyncBodyReader` and `_SyncBodyReader`.
-- - Errors (exceptions.py): Classes is the hierarchy, Table the two tables, Mapping the functions
--   `describe_net_error`, `name_net_error` and `map_native_error`.
-- - Models (models.py, status_codes.py): Content is how `Response` and `AsyncResponse` hold and iterate
--   a body, Raw is `RawStream`, Lines `iter_lines`, Head `parse_raw_headers` and what is read off the
--   status line, Reasons the table `REASONS`, and Request `PreparedRequest`.
-- - WebSockets (websockets.py): Blocking is `WebSocket`, Asynchronous is `AsyncWebSocket`; the parent has
--   `recv` and the iteration, whose text the two classes share.
-- - Utils (utils.py): Quoting is `requote_uri`, Bypass the choice of proxies by `NO_PROXY` and the
--   environment, Values `check_header_validity` and the parameters of `Content-Type`, Encodings
--   `guess_json_utf`.
-- - Auth (auth.py): the parent is the basic handlers and `build_auth`, Digest is `HTTPDigestAuth`, with
--   `build_header` and `handle_401` in Answer.
-- - Multipart (multipart.py): the parent is `Part` and `CurlMime.encode`, Files `addpart` and
--   `encode_multipart`, Params `encode_params`.
-- - Sending (sessions.py): Retry is `RetryStrategy` and the loop of `send`, Cookies is
--   `_resolve_cookies` and `_slot`, Options the redirect options of `_prepare_call` and
--   `_with_session_defaults`, Redirects is `_next_hop` and `_follow_in_python`.
-- - Proxies (sessions.py): `proxy_from_proxies` and `_effective_proxy`.
-- - Impersonation (impersonate.py): Versions is `normalize_http_version`, Profiles
--   `normalize_impersonate` and `available_profiles`, Fingerprints `validate_extra_fp` and
--   `reject_fingerprint_overrides`.
--
-- State is passed explicitly, and each method is one function of the state. A method that runs on the
-- event loop without an await is one step; Async.State.Soundness has the step relation. Fallible code
-- returns an Option or a result type of its own. Loops recurse on their data, on the hops that are
-- left, or on fuel: the retry loop has `count + 1` rounds of fuel, one for each attempt that the loop
-- can make, reading a body to the end has one turn for each chunk and one more,
-- a raw stream one read for each byte and one more, and a WebSocket one round for each event and one
-- more.
--
-- The Core, with the cookies that the store of an engine sends, the clock, random draws, the parts of
-- a URL and what the environment says of proxies enter as arguments, and so do the hash functions and
-- the client nonce of digest authentication. Text is a list of code points; its case conversion is
-- exact on Latin-1. The order in which a cookie jar is read is that of Python 3.11. Times are whole
-- numbers of a unit. Not modelled: locks and
-- the interleaving of threads inside a method, codecs, `__repr__`, the cookie policy of
-- `http.cookiejar`, the Core itself, and the modules adapters.py and api.py; of models.py `build_url`,
-- `Request`, the cookies and hooks of a request, `text`, `json` and the decoding iterators; of
-- multipart.py `json_body` and the reading of files; of websockets.py the sending methods,
-- `run_forever` and the deadline of the handshake; of utils.py `super_len`, `parse_header_links`,
-- `.netrc` and the helpers that only rearrange a parsed URL.
pub mod Base
pub mod Structures
pub mod Cookies
pub mod Engine
pub mod Async
pub mod Errors
pub mod Models
pub mod WebSockets
pub mod Utils
pub mod Auth
pub mod Multipart
pub mod Sending
pub mod Proxies
pub mod Impersonation
