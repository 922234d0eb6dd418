-- ===== src/Jid/Samples.antt =====
-- Data for the tests: preparation of ASCII texts, and an address.
use xmpp.Prelude.{
  index_by, index_by-none, ℕ, ◌+◌, ◌≤◌, ltb, leb, if◌then◌else◌, Bool, true, ◌&&◌, none, some, [],
  ◌∷◌, map, ◌≡◌, refl, Option, Bytes, codes, text_eq, text_eq_iff, length, ok, arith,
}
use xmpp.Jid.{
  Ip, v4, v6, Jid, Prep, is_slash, is_at, split_string, new_unsafe, equal, localpart, domainpart,
  resourcepart, normalize_domainpart, string, bare, domain, new, parse, with_local, with_domain,
  with_resource, local_checks, trim_dot, append_prepared, resource_checks, is_forbidden,
}
use xmpp.Jid.WellFormed.{PrepLaws, IsValid, new-IsValid}
use xmpp.Jid.RoundTrip.{IsStable, IsUncut, parse-string}

unfoldable pub is_ascii : Bytes → Bool
is_ascii [] = true
is_ascii (c ∷ s) = ltb c 128 && is_ascii s

unfoldable pub lower : ℕ → ℕ
lower c = if leb b'A' c && leb c b'Z' then c + 32 else c

unfoldable pub ip_of : Bytes → Option Ip
ip_of s =
    if text_eq s (codes "127.0.0.1")
    then some v4
    else if text_eq s (codes "::1")
    then some v6
    else none

-- Preparation of ASCII texts.
abbrev pub ascii : Prep
ascii = record {
  valid_utf8 = is_ascii;
  username_case_mapped = λ s. ok (map lower s);
  opaque_string = λ s. ok s;
  parse_ip = ip_of;
  to_unicode = λ s. ok (map lower s);
}

ip_of_bounds : (s : Bytes) {k : Ip} → ip_of s ≡ some k → (1 ≤ length s) × (length s ≤ 45)
unfolding ip_of
ip_of_bounds s h = ground (arith, text_eq_iff s (codes "127.0.0.1"), text_eq_iff s (codes "::1"))

pub ascii-laws : PrepLaws ascii
ascii-laws = record { ip_bounds = ip_of_bounds }

abbrev pub juliet : Jid
juliet = record { locallen = 6; domainlen = 11; octets = codes "julietexample.netbalcony" }

-- What a run has to see through.
unfoldable pub runs : Bool
unfolding parse new split_string append_prepared normalize_domainpart local_checks resource_checks
    trim_dot is_ascii lower ip_of is_forbidden index_by text_eq with_local with_domain with_resource
    bare domain string equal localpart domainpart resourcepart new_unsafe
runs = true

pub juliet-IsValid : IsValid juliet
juliet-IsValid =
    new-IsValid ascii ascii-laws (codes "juliet") (codes "example.net") (codes "balcony")
      (unfold runs in refl)

pub juliet-IsStable : IsStable ascii juliet
unfolding runs
juliet-IsStable = record {
  local_utf8 = refl;
  resource_utf8 = refl;
  local_stable = refl;
  domain_stable = refl;
  resource_stable = refl;
}

pub juliet-IsUncut : IsUncut juliet
unfolding runs
juliet-IsUncut = record {
  domain_slash = index_by-none is_slash (codes "example.net") refl;
  domain_at = λ _. index_by-none is_at (codes "example.net") refl;
}

pub juliet_read_back : parse ascii (string juliet) ≡ ok juliet
juliet_read_back = parse-string ascii juliet juliet-IsValid juliet-IsStable juliet-IsUncut
