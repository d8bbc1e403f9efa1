-- ===== src/Sending/OptionTests.antt =====
-- A session that follows no redirects, by both ways of sending.
use chrome_client.Base.{◌≡◌, refl, none, some, true, false, ◌&&◌, ◌||◌}
use chrome_client.Sending.Options.{
  Defaults, SendOptions, prepare_drive, with_session_defaults, valid, invalid,
}
use chrome_client.Sending.Options.Follow.{
  followed, prepare_drive-exclusive, with_session_defaults-followed,
}

abbrev strict : Defaults
strict = record {
  allow_redirects = false;
  max_redirects = 3;
  max_response_bytes = some 100;
  timeout = none;
  stream = false;
}

abbrev unset : SendOptions
unset = record {
  max_response_bytes = none;
  timeout = some 5;
  stream = none;
  native_redirects = none;
  python_redirects = none;
  max_redirects = none;
}

abbrev direct : SendOptions
direct = record {
  max_response_bytes = some (valid 100);
  timeout = some 5;
  stream = some false;
  native_redirects = some true;
  python_redirects = some false;
  max_redirects = some (some 3);
}

direct_send : with_session_defaults strict unset ≡ some direct
unfolding with_session_defaults
direct_send = refl

refused_limit :
    with_session_defaults strict (record unset { max_response_bytes = some invalid }) ≡ none
unfolding with_session_defaults
refused_limit = refl

by_python : (prepare_drive strict (some true) (some 2)).python ≡ true
unfolding prepare_drive
by_python = refl

prepare_drive-exclusive_example :
    let d = prepare_drive strict none (some 2) in
    ((d.native || d.python) ≡ false)
    × ((d.native && d.python) ≡ false)
    × ((prepare_drive strict none none).python ≡ false)
    × (d.limit ≡ 2)
prepare_drive-exclusive_example = prepare_drive-exclusive strict none (some 2)

with_session_defaults-followed_example : followed direct ≡ true
with_session_defaults-followed_example =
    with_session_defaults-followed strict unset direct refl refl direct_send
