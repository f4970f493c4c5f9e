-- ===== src/Access/Outside.antt =====
-- What `assert_allowed_url` of backend/app/core/ssrf.py lets through.
use ai_powered_security_inve.Base.{
  ℕ, String, Bool, true, false, not, ◌&&◌, ◌||◌, some, none, List, [], ◌∷◌, ◌≡◌, refl, leb, any,
  arith, All, Option, if◌then◌else◌, eq_iff, ◌==◌,
}
use ai_powered_security_inve.Base.Exec.{ok, err}
use ai_powered_security_inve.Base.Sets.{is_in}
use ai_powered_security_inve.Access.Egress.{
  Address, Lookups, allowed_hosts, dotted, is_internal, is_within, blocked_nets, is_blocked_ip,
  assert_allowed_url, or_empty, any_blocked,
}

-- an address of 32 bits from the first to the last
abbrev pub is_between : ℕ → ℕ → Address → Bool
is_between first last ip = not ip.is_v6 && leb first ip.value && leb ip.value last

-- an address of the private networks, of the loopback or of the links
abbrev pub is_inside : Address → Bool
is_inside ip =
    is_between (dotted 10 0 0 0) (dotted 10 255 255 255) ip
    || is_between (dotted 172 16 0 0) (dotted 172 31 255 255) ip
    || is_between (dotted 192 168 0 0) (dotted 192 168 255 255) ip
    || is_between (dotted 127 0 0 0) (dotted 127 255 255 255) ip
    || is_between (dotted 169 254 0 0) (dotted 169 254 255 255) ip

inside_nets : (ip : Address) → any (is_within ip) blocked_nets ≡ false → is_inside ip ≡ false
inside_nets ip h = ground arith

module _ (lib : Lookups) where
  -- an address that the guard lets through
  pub record IsOutside (ip : Address) : Type 0 where
    pub outside : is_inside ip ≡ false
    pub not_private : lib.is_private ip ≡ false
    pub not_link_local : lib.is_link_local ip ≡ false

  All-IsOutside : (infos : List Address) → any (is_internal lib) infos ≡ false → All IsOutside infos
  All-IsOutside [] h = tt
  All-IsOutside (ip ∷ infos) h =
      let flags : ((lib.is_private ip
              || lib.is_loopback ip
              || lib.is_link_local ip
              || lib.is_reserved ip)
            ≡ false)
          × (any (is_within ip) blocked_nets ≡ false)
          × (any (is_internal lib) infos ≡ false) =
        none_of (lib.is_private ip) (lib.is_loopback ip) (lib.is_link_local ip) (lib.is_reserved ip)
          (any (is_within ip) blocked_nets) (any (is_internal lib) infos) h in
      (
        record {
          outside = inside_nets ip flags.1;
          not_private = ground (arith, flags.0);
          not_link_local = ground (arith, flags.0);
        },
        All-IsOutside infos (flags.2),
      )
    where
      none_of :
          (p q r v b c : Bool)
          → ((p || q || r || v || b) || c) ≡ false
          → ((p || q || r || v) ≡ false) × (b ≡ false) × (c ≡ false)
      none_of p q r v b c k = (ground arith, ground arith, ground arith)

  let_through :
      (first second third url out : String) (is_https is_listed is_blocked : Bool)
      → (if not is_https
          then err first
          else if not is_listed
          then err second
          else if is_blocked
          then err third
          else ok url)
        ≡ ok out
      → (out ≡ url) × (is_https ≡ true) × (is_listed ≡ true) × (is_blocked ≡ false)
  let_through first second third url out false b c h = cc
  let_through first second third url out true false c h = cc
  let_through first second third url out true true true h = cc
  let_through first second third url out true true false h = (cc, refl, refl, refl)

  resolved_to :
      (found : Option (List Address))
      → any_blocked lib found ≡ false
      → (infos : List Address) × (found ≡ some infos) × (any (is_internal lib) infos ≡ false)
  resolved_to none h = cc
  resolved_to (some infos) h = (infos, refl, h)

  -- A URL that is let through is returned as it is; its scheme is https, its host is on the allow-list
  -- and resolves, and none of the addresses that it resolves to is private or of a link by ipaddress, or
  -- in the private networks, the loopback or the link-local network of the 32-bit addresses.
  pub assert_allowed_url-IsOutside :
      (url out : String)
      → assert_allowed_url lib url ≡ ok out
      → (out ≡ url)
        × (lib.scheme url ≡ "https")
        × (is_in (or_empty lib (lib.hostname url)) allowed_hosts ≡ true)
        × (infos : List Address) × (lib.getaddrinfo (or_empty lib (lib.hostname url)) ≡ some infos)
        × All IsOutside infos
  unfolding assert_allowed_url is_blocked_ip
  assert_allowed_url-IsOutside url out h =
      let host : String = or_empty lib (lib.hostname url) in
      let (same, https, listed, free) : (out ≡ url)
          × ((lib.scheme url == "https") ≡ true)
          × (is_in host allowed_hosts ≡ true)
          × (is_blocked_ip lib host ≡ false) =
        let_through _ _ _ url out (lib.scheme url == "https") (is_in host allowed_hosts)
          (is_blocked_ip lib host) h in
      let (infos, resolved, public) : (infos : List Address) × (lib.getaddrinfo host ≡ some infos)
          × (any (is_internal lib) infos ≡ false) =
        resolved_to (lib.getaddrinfo host) free in
      (
        same,
        (eq_iff (lib.scheme url) "https").0 https,
        listed,
        infos,
        resolved,
        All-IsOutside infos public,
      )
