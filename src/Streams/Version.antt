-- ===== src/Streams/Version.antt =====
-- stream/version.go: versions and their text. strconv.ParseUint to base 10 and `%d` are written
-- out for
-- numbers of 8 bits.
use xmpp.Prelude.{
  ℕ, suc, ◌+◌, ◌-◌, ◌*◌, ◌/◌, ◌%◌, ◌<◌, ◌==◌, ltb, leb, if◌then◌else◌, Bool, true, ◌&&◌, ◌||◌,
  Option, none, some, [], ◌∷◌, ◌++◌, ◌≡◌, refl, Bytes, index_by, take, drop, arith, if-cases, Lacks,
  index_by_hit, index_by-Lacks, take_prefix, drop_past, ap, ◌∙◌,
}

pub record Version : Type 0 where
  pub major : ℕ
  pub minor : ℕ

abbrev pub default_version : Version
default_version = record { major = 1; minor = 0 }

abbrev pub is_digit : ℕ → Bool
is_digit c = leb b'0' c && leb c b'9'

-- The digits behind a number.
unfoldable pub digits_value : ℕ → Bytes → Option ℕ
digits_value n [] = some n
digits_value n (c ∷ s) = if is_digit c then digits_value (10 * n + (c - b'0')) s else none

unfoldable pub parse_uint8 : Bytes → Option ℕ
parse_uint8 [] = none
parse_uint8 (c ∷ s) = elim (digits_value 0 (c ∷ s)) [
  | none ↦ none
  | some n ↦ if ltb n 256 then some n else none
]

unfoldable pub format_uint8 : ℕ → Bytes
format_uint8 n =
    if ltb n 10
    then (48 + n) ∷ []
    else if ltb n 100
    then (48 + n / 10) ∷ (48 + n % 10) ∷ []
    else (48 + n / 100) ∷ (48 + n / 10 % 10) ∷ (48 + n % 10) ∷ []

abbrev pub is_dot : ℕ → Bool
is_dot c = c == b'.'

-- `ParseVersion`: there is one dot. An error is `none`.
unfoldable pub parse_version : Bytes → Option Version
parse_version s = elim (index_by is_dot s) [
  | none ↦ none
  | some i ↦ elim (index_by is_dot (drop (suc i) s)) [
    | some _ ↦ none
    | none ↦ elim (parse_uint8 (take i s)) [
      | none ↦ none
      | some major ↦ elim (parse_uint8 (drop (suc i) s)) [
        | none ↦ none
        | some minor ↦ some (record { major = major; minor = minor })
      ]
    ]
  ]
]

unfoldable pub version_string : Version → Bytes
version_string v = format_uint8 v.major ++ (b'.' ∷ format_uint8 v.minor)

-- `Less`.
unfoldable pub less : Version → Version → Bool
less v b = ltb v.major b.major || (v.major == b.major && ltb v.minor b.minor)

digits_step :
    (n x : ℕ) (s : Bytes) → x < 10 → digits_value n ((48 + x) ∷ s) ≡ digits_value (10 * n + x) s
unfolding digits_value
digits_step n x s digit =
    let yes : is_digit (48 + x) ≡ true = ground arith in
    let same : 10 * n + (48 + x - 48) ≡ 10 * n + x = omega arith in
    rw yes (ap (λ k. digits_value k s) same)

value_read :
    (c n : ℕ) (s : Bytes) → digits_value 0 (c ∷ s) ≡ some n → n < 256 → parse_uint8 (c ∷ s) ≡ some n
unfolding parse_uint8
value_read c n s e word =
    let small : ltb n 256 ≡ true = ground arith in rw (e, parse_uint8) (rw small refl)

value_is : (k n : ℕ) → k ≡ n → digits_value k [] ≡ some n
unfolding digits_value
value_is k n e = ap some e

parse_uint8-format_uint8 : (n : ℕ) → n < 256 → parse_uint8 (format_uint8 n) ≡ some n
unfolding format_uint8
parse_uint8-format_uint8 n word =
    if-cases Reads (ltb n 10)
      (λ e.
        value_read (48 + n) n []
          (digits_step 0 n [] (ground arith) ∙ value_is (10 * 0 + n) n (omega arith)) word)
      (λ e.
        if-cases Reads (ltb n 100)
          (λ f.
            value_read (48 + n / 10) n ((48 + n % 10) ∷ [])
              (digits_step 0 (n / 10) ((48 + n % 10) ∷ []) (ground arith)
                ∙ digits_step (10 * 0 + n / 10) (n % 10) [] (omega arith)
                ∙ value_is (10 * (10 * 0 + n / 10) + n % 10) n (omega arith))
              word)
          (λ f.
            value_read (48 + n / 100) n ((48 + n / 10 % 10) ∷ (48 + n % 10) ∷ [])
              (digits_step 0 (n / 100) ((48 + n / 10 % 10) ∷ (48 + n % 10) ∷ [])
                  (omega (arith, word))
                ∙ digits_step (10 * 0 + n / 100) (n / 10 % 10) ((48 + n % 10) ∷ []) (omega arith)
                ∙ digits_step (10 * (10 * 0 + n / 100) + n / 10 % 10) (n % 10) [] (omega arith)
                ∙ value_is (10 * (10 * (10 * 0 + n / 100) + n / 10 % 10) + n % 10) n (omega arith))
              word))
  where
    Reads : Bytes → Type 0
    Reads s = parse_uint8 s ≡ some n

format_uint8-Lacks : (n : ℕ) → Lacks is_dot (format_uint8 n)
unfolding format_uint8
format_uint8-Lacks n =
    if-cases (Lacks is_dot) (ltb n 10) (λ e. (ground arith, tt))
      (λ e.
        if-cases (Lacks is_dot) (ltb n 100) (λ f. (ground arith, (ground arith, tt)))
          (λ f. (ground arith, (ground arith, (ground arith, tt)))))

-- A version of two numbers of 8 bits is parsed from its own text.
pub parse_version-version_string :
    (v : Version) → v.major < 256 → v.minor < 256 → parse_version (version_string v) ≡ some v
unfolding version_string parse_version
parse_version-version_string v major_word minor_word =
    let a = format_uint8 v.major in
    let b = format_uint8 v.minor in
    let first = index_by_hit is_dot a b'.' b (format_uint8-Lacks v.major) refl in
    rw (first, parse_version, version_string)
      (rw
        (
          drop_past a b'.' b,
          index_by-Lacks is_dot b (format_uint8-Lacks v.minor),
          take_prefix a (b'.' ∷ b),
        )
        (rw
          (
            parse_uint8-format_uint8 v.major major_word,
            version_string,
            drop_past a b'.' b,
            parse_uint8-format_uint8 v.minor minor_word,
          )
          refl))
