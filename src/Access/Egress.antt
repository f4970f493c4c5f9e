-- ===== src/Access/Egress.antt =====
-- `assert_allowed_url` of backend/app/core/ssrf.py. What urlparse finds in a URL, the addresses that a
-- name resolves to and the classes of addresses that ipaddress knows are parameters.
use Prim.Native.Nat.{◌^◌}
use Prim.Native.String.{◌++◌ as cat}
use ai_powered_security_inve.Base.{
  ℕ, ◌+◌, ◌-◌, ◌*◌, ◌/◌, String, Bool, true, false, not, ◌&&◌, ◌||◌, Option, none, some, List, [],
  ◌∷◌, if◌then◌else◌, eqb, any, ◌==◌,
}
use ai_powered_security_inve.Base.Exec.{Result, ok, err}
use ai_powered_security_inve.Base.Sets.{is_in}

-- an address, of 32 bits or of 128
pub record Address : Type 0 where
  pub is_v6 : Bool
  pub value : ℕ

pub record Network : Type 0 where
  pub is_v6 : Bool
  pub base : ℕ
  pub prefix : ℕ

pub record Lookups : Type 0 where
  pub scheme : String → String
  pub hostname : String → Option String
  pub getaddrinfo : String → Option (List Address)
  pub is_private : Address → Bool
  pub is_loopback : Address → Bool
  pub is_link_local : Address → Bool
  pub is_reserved : Address → Bool

abbrev pub allowed_hosts : List String
allowed_hosts =
    "www.virustotal.com" ∷ "api.abuseipdb.com" ∷ "api.greynoise.io" ∷ "otx.alienvault.com"
    ∷ "isc.sans.edu" ∷ "hashlookup.circl.lu" ∷ []

-- `a.b.c.d`
abbrev pub dotted : ℕ → ℕ → ℕ → ℕ → ℕ
dotted a b c d = ((a * 256 + b) * 256 + c) * 256 + d

abbrev pub network_v4 : ℕ → ℕ → Network
network_v4 base prefix = record { is_v6 = false; base = base; prefix = prefix }

abbrev pub network_v6 : ℕ → ℕ → Network
network_v6 base prefix = record { is_v6 = true; base = base; prefix = prefix }

abbrev pub blocked_nets : List Network
blocked_nets =
    network_v4 (dotted 10 0 0 0) 8
    ∷ network_v4 (dotted 172 16 0 0) 12
    ∷ network_v4 (dotted 192 168 0 0) 16
    ∷ network_v4 (dotted 127 0 0 0) 8
    ∷ network_v4 (dotted 169 254 0 0) 16
    ∷ network_v6 1 128
    ∷ network_v6 (64512 * 2 ^ 112) 7
    ∷ network_v6 (65152 * 2 ^ 112) 10
    ∷ []

abbrev pub width : Bool → ℕ
width is_v6 = if is_v6 then 128 else 32

abbrev pub same_version : Bool → Bool → Bool
same_version a b = if a then b else not b

-- `ip in net`
abbrev pub is_within : Address → Network → Bool
is_within ip net =
    let size = 2 ^ (width net.is_v6 - net.prefix) in
    same_version ip.is_v6 net.is_v6 && eqb (ip.value / size) (net.base / size)

module _ (lib : Lookups) where
  abbrev pub is_internal : Address → Bool
  is_internal ip =
      lib.is_private ip
      || lib.is_loopback ip
      || lib.is_link_local ip
      || lib.is_reserved ip
      || any (is_within ip) blocked_nets

  abbrev pub any_blocked : Option (List Address) → Bool
  any_blocked none = true
  any_blocked (some infos) = any is_internal infos

  unfoldable pub is_blocked_ip : String → Bool
  is_blocked_ip host = any_blocked (lib.getaddrinfo host)

  abbrev pub or_empty : Option String → String
  or_empty none = ""
  or_empty (some host) = host

  unfoldable pub assert_allowed_url : String → Result String String
  assert_allowed_url url =
      let host = or_empty (lib.hostname url) in
      if not (lib.scheme url == "https")
      then err (cat "Scheme not allowed: " (lib.scheme url))
      else if not (is_in host allowed_hosts)
      then err (cat "Host not on egress allow-list: " host)
      else if is_blocked_ip host
      then err "Host resolves to a blocked address range"
      else ok url
