-- ===== src/Jid/Tests.antt =====
-- Runs of the address code, and its theorems at concrete addresses.
use xmpp.Prelude.{true, [], ◌≡◌, refl, ◌↔◌, Bytes, codes, ok, err}
use xmpp.Jid.{
  no_resourcepart, no_localpart, forbidden_localpart, invalid_domain_len, Jid, split_string,
  new_unsafe, string, new, parse,
}
use xmpp.Jid.Split.{AreParts, join_parts}
use xmpp.Jid.Build.{Built}
use xmpp.Jid.WellFormed.{IsValid, new-IsValid}
use xmpp.Jid.RoundTrip.{parse-string, parse_iff}
use xmpp.Jid.Samples.{
  ascii, ascii-laws, juliet, runs, juliet-IsValid, juliet-IsStable, juliet-IsUncut,
}

parse-juliet : parse ascii (codes "Juliet@example.net/balcony") ≡ ok juliet
unfolding runs
parse-juliet = refl

no_resource : parse ascii (codes "juliet@example.net/") ≡ err no_resourcepart
unfolding runs
no_resource = refl

no_local : parse ascii (codes "@example.net") ≡ err no_localpart
unfolding runs
no_local = refl

-- The first slash is cut before the first at sign.
at_in_resource :
    parse ascii (codes "example.net/a@b") ≡ ok (new_unsafe [] (codes "example.net") (codes "a@b"))
unfolding runs
at_in_resource = refl

forbidden : new ascii (codes "a:b") (codes "example.net") [] ≡ err forbidden_localpart
unfolding runs
forbidden = refl

ipv6_domain : parse ascii (codes "[::1]") ≡ ok (new_unsafe [] (codes "[::1]") [])
unfolding runs
ipv6_domain = refl

only_dot : parse ascii (codes ".") ≡ err invalid_domain_len
unfolding runs
only_dot = refl

print_juliet : string juliet ≡ codes "juliet@example.net/balcony"
unfolding runs
print_juliet = refl

split_juliet :
    split_string (codes "juliet@example.net/balcony") true
    ≡ ok (codes "juliet", codes "example.net", codes "balcony")
unfolding runs
split_juliet = refl

new-IsValid_example : IsValid juliet
new-IsValid_example =
    new-IsValid ascii ascii-laws (codes "Juliet") (codes "Example.net") (codes "balcony")
      (unfold runs in refl)

abbrev romeo : Jid
romeo = new_unsafe (codes "romeo") (codes "example.net") (codes "balcony")

abbrev moved : Jid
moved = new_unsafe (codes "juliet") (codes "127.0.0.1") (codes "balcony")

parse-string_example : parse ascii (string juliet) ≡ ok juliet
parse-string_example = parse-string ascii juliet juliet-IsValid juliet-IsStable juliet-IsUncut

parse_iff_example : (parse ascii (codes "Juliet@example.net/balcony") ≡ ok juliet) ↔ (
    (l : Bytes) × (d : Bytes) × (r : Bytes) × (codes "Juliet@example.net/balcony"
      ≡ join_parts l d r)
    × AreParts l d r
    × Built ascii l d r juliet)
parse_iff_example = parse_iff ascii (codes "Juliet@example.net/balcony") juliet
