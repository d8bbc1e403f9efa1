-- ===== src/Errors/Tests.antt =====
-- Messages of the Core, and the theorems at one of them.
use chrome_client.Base.{◌≡◌, refl, some, true}
use chrome_client.Base.Dict.{lookup}
use chrome_client.Base.Text.{Text, codes}
use chrome_client.Errors.Classes.{
  is_subclass, subclass_within, certificate_verify_error, connection_error, connect_timeout,
  timeout, request_exception,
}
use chrome_client.Errors.Table.{Code, net_errors, native_errors, code_eq}
use chrome_client.Errors.Mapping.{search_code, named_message, map_native_error}
use chrome_client.Errors.Laws.{map_native_error-requests}

abbrev bad_date : Text
bad_date = codes "Tls (net error -201)"

abbrev named_date : Text
named_date = codes "ERR_CERT_DATE_INVALID (net error -201)"

-- The code names the class, over the category.
certificate : map_native_error bad_date ≡ (certificate_verify_error, named_date)
unfolding map_native_error search_code net_errors native_errors lookup code_eq named_message
certificate = refl

-- A code with no class leaves the category's.
reset :
    map_native_error (codes "Network (net error -101)")
    ≡ (connection_error, codes "ERR_CONNECTION_RESET (net error -101)")
unfolding map_native_error search_code net_errors native_errors lookup code_eq named_message
reset = refl

-- No code and no category: the wording.
worded : map_native_error (codes "request timed out") ≡ (timeout, codes "request timed out")
unfolding map_native_error search_code net_errors native_errors lookup code_eq named_message
worded = refl

-- The words `net error` with no number behind them name no code.
no_number : search_code (codes "net error -x, net error 7") ≡ some (Code.positive 7)
unfolding search_code
no_number = refl

both : is_subclass connect_timeout timeout ≡ true
unfolding subclass_within
both = refl

map_native_error-requests_example :
    is_subclass (map_native_error bad_date).0 request_exception ≡ true
map_native_error-requests_example = map_native_error-requests bad_date
