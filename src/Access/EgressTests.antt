-- ===== src/Access/EgressTests.antt =====
-- A vendor host that resolves to a public address, and one that resolves to the metadata service.
use mathlib.Core.Path.{◌≡◌, refl}
use ai_powered_security_inve.Base.{
  String, Option, true, false, some, none, List, [], ◌∷◌, All, if◌then◌else◌, ◌==◌,
}
use ai_powered_security_inve.Base.Exec.{ok, err}
use ai_powered_security_inve.Base.Sets.{is_in}
use ai_powered_security_inve.Access.Egress.{
  Address, Lookups, dotted, allowed_hosts, or_empty, is_blocked_ip, assert_allowed_url,
}
use ai_powered_security_inve.Access.Outside.{IsOutside, assert_allowed_url-IsOutside}

abbrev resolve : String → Option (List Address)
resolve host =
    if host == "isc.sans.edu"
    then some (record { is_v6 = false; value = dotted 45 60 31 34 } ∷ [])
    else if host == "api.greynoise.io"
    then some (record { is_v6 = false; value = dotted 169 254 169 254 } ∷ [])
    else none

abbrev names : Lookups
names = record {
  scheme = λ url. "https";
  hostname = λ url. some url;
  getaddrinfo = resolve;
  is_private = λ ip. false;
  is_loopback = λ ip. false;
  is_link_local = λ ip. false;
  is_reserved = λ ip. false;
}

metadata_blocked :
    assert_allowed_url names "api.greynoise.io" ≡ err "Host resolves to a blocked address range"
unfolding assert_allowed_url is_blocked_ip
metadata_blocked = refl

abbrev feed : String
feed = "isc.sans.edu"

feed_allowed : assert_allowed_url names feed ≡ ok feed
unfolding assert_allowed_url is_blocked_ip
feed_allowed = refl

assert_allowed_url-IsOutside_example :
    (feed ≡ feed)
    × (names.scheme feed ≡ "https")
    × (is_in (or_empty names (names.hostname feed)) allowed_hosts ≡ true)
    × (infos : List Address) × (resolve (or_empty names (names.hostname feed)) ≡ some infos)
    × All (IsOutside names) infos
assert_allowed_url-IsOutside_example = assert_allowed_url-IsOutside names feed feed feed_allowed
