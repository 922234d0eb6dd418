-- ===== src/Jid.antt =====
-- jid/jid.go and jid/unsafe.go: addresses, how they are parsed, changed and printed.
-- A `JID` is its two lengths and its bytes, `octets` (the field `data`); `data[:n]`
-- and `data[n:]` are `take` and `drop`.
-- The libraries that prepare the parts (utf8, precis, idna, net.ParseIP) are a parameter, `Prep`.
pub mod Split
pub mod Parts
pub mod WellFormed
pub mod RoundTrip
pub mod Build
pub mod Escape
pub mod Samples
pub mod Tests
use xmpp.Prelude.{
  ℕ, suc, ◌+◌, ◌-◌, ◌==◌, ltb, if◌then◌else◌, Bool, true, false, not, ◌&&◌, ◌||◌, Option, none,
  some, [], ◌∷◌, ◌++◌, Bytes, codes, text_eq, is_empty, index_by, length, take, drop, get_elem?,
  Result, ok, err, ◌>>=◌,
}

pub data Error : Type 0 where
  forbidden_localpart invalid_domain_len invalid_utf8 long_localpart : Error
  long_resourcepart no_localpart no_resourcepart : Error
  -- An error of precis or idna.
  foreign : ℕ → Error

pub record Jid : Type 0 where
  pub locallen : ℕ
  pub domainlen : ℕ
  pub octets : Bytes

-- What `net.ParseIP` finds: an address for which `To4` is not nil, or another.
pub data Ip : Type 0 where
  v4 v6 : Ip

-- The code that is not in the repository. `Append(data, s)` of a precis profile is
-- `data ++ o` where the profile turns `s` into `o`.
pub record Prep : Type 0 where
  pub valid_utf8 : Bytes → Bool
  pub username_case_mapped : Bytes → Result Error Bytes
  pub opaque_string : Bytes → Result Error Bytes
  pub parse_ip : Bytes → Option Ip
  pub to_unicode : Bytes → Result Error Bytes

abbrev pub is_slash : ℕ → Bool
is_slash c = c == b'/'

abbrev pub is_at : ℕ → Bool
is_at c = c == b'@'

-- A byte of `"&'/:<>@`.
unfoldable pub is_forbidden : ℕ → Bool
is_forbidden c =
    c == 0x22
    || (c == b'&'
        || (c == 0x27 || (c == b'/' || (c == b':' || (c == b'<' || (c == b'>' || c == b'@'))))))

-- Step 2 of the split: `s` is what is left of the text in front of the resource.
split_local : Bool → Bytes → Bytes → Result Error (Bytes × Bytes × Bytes)
split_local safe s resource = elim (index_by is_at s) [
  | none ↦ ok ([], s, resource)
  | some sep ↦
      if safe && sep == 0 then err no_localpart else ok (take sep s, drop (suc sep) s, resource)
]

unfoldable pub split_string : Bytes → Bool → Result Error (Bytes × Bytes × Bytes)
unfolding split_local
split_string s safe = elim (index_by is_slash s) [
  | none ↦ split_local safe s []
  | some sep ↦
      if safe && sep == length s - 1
      then err no_resourcepart
      else split_local safe (take sep s) (drop (suc sep) s)
]

unfoldable pub local_checks : Bytes → Option Error
local_checks local =
    if ltb 1023 (length local)
    then some long_localpart
    else elim (index_by is_forbidden local) [ some _ ↦ some forbidden_localpart | none ↦ none ]

unfoldable pub resource_checks : Bytes → Option Error
resource_checks resource = if ltb 1023 (length resource) then some long_resourcepart else none

-- `strings.TrimSuffix(s, ".")`.
unfoldable pub trim_dot : Bytes → Bytes
trim_dot s = if text_eq (drop (length s - 1) s) (codes ".") then take (length s - 1) s else s

-- `return e` where `e` is an error: the error, or the value if it is nil.
abbrev pub unless {ℓ} : {A : Type ℓ} → Option Error → A → Result Error A
unless none a = ok a
unless (some e) a = err e

-- `if s != "" { data, err = profile.Append(data, s) }`.
unfoldable pub append_prepared : (Bytes → Result Error Bytes) → Bytes → Bytes → Result Error Bytes
append_prepared profile buf s = if is_empty s then ok buf else (do o ← profile s; ok (buf ++ o))

unfoldable pub localpart : Jid → Bytes
localpart j = take j.locallen j.octets

unfoldable pub domainpart : Jid → Bytes
domainpart j = take j.domainlen (drop j.locallen j.octets)

unfoldable pub resourcepart : Jid → Bytes
resourcepart j = drop (j.locallen + j.domainlen) j.octets

-- `JID{}`.
abbrev pub zero_jid : Jid
zero_jid = record { locallen = 0; domainlen = 0; octets = [] }

unfoldable pub bare : Jid → Jid
bare j = record j { octets = take (j.domainlen + j.locallen) j.octets }

unfoldable pub domain : Jid → Jid
domain j = record {
  locallen = 0;
  domainlen = j.domainlen;
  octets = take j.domainlen (drop j.locallen j.octets);
}

-- `String`: `local@` in front of the domain, and the rest behind it if the lengths differ.
unfoldable pub string : Jid → Bytes
string j =
    let d = take j.domainlen (drop j.locallen j.octets) in
    let s = if ltb 0 j.locallen then take j.locallen j.octets ++ (b'@' ∷ d) else d in
    let addsep = if ltb 0 j.locallen then 1 else 0 in
    if length s == length j.octets + addsep
    then s
    else s ++ (b'/' ∷ drop (j.locallen + j.domainlen) j.octets)

-- `Equal`: the lengths of the data, its bytes one by one, and the two lengths.
unfoldable pub equal : Jid → Jid → Bool
equal j k =
    if not (length j.octets == length k.octets)
    then false
    else text_eq j.octets k.octets && (j.locallen == k.locallen && j.domainlen == k.domainlen)

-- `NewUnsafe`.
unfoldable pub new_unsafe : Bytes → Bytes → Bytes → Jid
new_unsafe l d r = record { locallen = length l; domainlen = length d; octets = l ++ (d ++ r) }

module _ (p : Prep) where
  open p use {valid_utf8, username_case_mapped, opaque_string, parse_ip, to_unicode}

  -- A text in brackets that holds an IPv6 address.
  is_ipv6 : Bytes → Bool
  is_ipv6 s =
      let l = length s - 1 in
      if ltb 1 l && (text_eq (take 1 s) (codes "[") && text_eq (drop l s) (codes "]"))
      then elim (parse_ip (take (l - 1) (drop 1 s))) [ some v6 ↦ true | _ ↦ false ]
      else false

  is_ipv4 : Bytes → Bool
  is_ipv4 s = elim (parse_ip s) [ some v4 ↦ true | _ ↦ false ]

  domain_length_checks : Bytes → Result Error Bytes
  domain_length_checks s =
      if ltb (length s) 1 || ltb 1023 (length s) then err invalid_domain_len else ok s

  unfoldable pub normalize_domainpart : Bytes → Result Error Bytes
  unfolding is_ipv6 is_ipv4 domain_length_checks
  normalize_domainpart s =
      if not (valid_utf8 s)
      then err invalid_utf8
      else if is_ipv6 s
      then ok s
      else if is_ipv4 s
      then ok s
      else do s' ← to_unicode (trim_dot s); domain_length_checks s'

  unfoldable pub new : Bytes → Bytes → Bytes → Result Error Jid
  new l d r = if not (valid_utf8 l) || not (valid_utf8 r) then err invalid_utf8 else do
    d' ← normalize_domainpart d
    local ← append_prepared username_case_mapped [] l
    let lenlocal = length local
    buf ← append_prepared opaque_string (local ++ d') r
    a ← unless (local_checks (take lenlocal buf)) buf
    b ← unless (resource_checks (drop (lenlocal + length d') buf)) buf
    ok (record { locallen = lenlocal; domainlen = length d'; octets = buf })

  unfoldable pub parse : Bytes → Result Error Jid
  parse s = do (l, d, r) ← split_string s true; new l d r

  -- Each of these returns a JID beside its error.
  unfoldable pub with_local : Jid → Bytes → Jid × Option Error
  with_local j l =
      if not (is_empty l) && not (valid_utf8 l)
      then (j, some invalid_utf8)
      else elim (append_prepared username_case_mapped [] l) [
        | err e ↦ (j, some e)
        | ok local ↦
            let buf = local ++ drop j.locallen j.octets in
            (
              record j { locallen = length local; octets = buf },
              local_checks (take (length local) buf),
            )
      ]

  unfoldable pub with_domain : Jid → Bytes → Jid × Option Error
  with_domain j s = elim (normalize_domainpart s) [
    | err e ↦ (j, some e)
    | ok d ↦ (
      record j {
        domainlen = length d;
        octets = take j.locallen j.octets ++ (d ++ drop (j.locallen + j.domainlen) j.octets);
      },
      none,
    )
  ]

  unfoldable pub with_resource : Jid → Bytes → Jid × Option Error
  with_resource j r =
      if not (is_empty r) && not (valid_utf8 r)
      then (zero_jid, some invalid_utf8)
      else elim (append_prepared opaque_string (bare j).octets r) [
        | err e ↦ (zero_jid, some e)
        | ok buf ↦ (
          record (bare j) { octets = buf },
          resource_checks (drop (j.locallen + j.domainlen) buf),
        )
      ]
