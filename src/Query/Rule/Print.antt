-- ===== src/Query/Rule/Print.antt =====
-- `Display` of a query rule against `from_str`, on ASCII text.
use teamy_mft.Common.{
  ℕ, ◌<◌, ◌≡◌, refl, sym, ap, ◌∙◌, true, Option, none, some, [], ◌∷◌, ◌++◌, map, ◌==◌, arith,
  Bool-cases, Option-cases, inl, inr,
}
use teamy_mft.Common.Bytes.{Bytes}
use teamy_mft.Common.Result.{ok}
use teamy_mft.Query.Needle
use teamy_mft.Query.Needle.{
  QueryNeedle, ascii_lower, normalized_bytes, is_ascii, to_ascii_lowercase, bytes_eq,
}
use teamy_mft.Query.Needle.Windows.{bytes_eq_iff, length-map}
use teamy_mft.Query.Rule.{
  QueryRule, match_all, strip_last, exact_or_prefix, suffix_or_contains, from_str, to_string,
}

abbrev pub lowered : Bytes → Bytes
lowered = map to_ascii_lowercase

lowercase_twice : (b : ℕ) → to_ascii_lowercase (to_ascii_lowercase b) ≡ to_ascii_lowercase b
unfolding to_ascii_lowercase
lowercase_twice b = ground arith

lowered_twice : (bytes : Bytes) → lowered (lowered bytes) ≡ lowered bytes
lowered_twice [] = refl
lowered_twice (b ∷ bytes) = rw (lowercase_twice b, lowered_twice bytes)

is_ascii-lowered : (bytes : Bytes) → is_ascii (lowered bytes) ≡ is_ascii bytes
unfolding is_ascii to_ascii_lowercase
is_ascii-lowered [] = refl
is_ascii-lowered (b ∷ bytes) = ground (arith, is_ascii-lowered bytes)

-- `<` and `>` are no letters.
bracket_kept : (b c : ℕ) → c < b'A' → (to_ascii_lowercase b == c) ≡ (b == c)
unfolding to_ascii_lowercase
bracket_kept b c h = ground arith

abbrev lowered_front : Option Bytes → Option Bytes
lowered_front none = none
lowered_front (some front) = some (lowered front)

strip_last-lowered :
    (c : ℕ) (bytes : Bytes)
    → c < b'A'
    → strip_last c (lowered bytes) ≡ lowered_front (strip_last c bytes)
unfolding strip_last
strip_last-lowered c [] h = refl
strip_last-lowered c (b ∷ []) h = ground (arith, bracket_kept b c h)
strip_last-lowered c (b ∷ d ∷ bytes) h = ground (arith, strip_last-lowered c (d ∷ bytes) h)

strip_last-some :
    (c : ℕ) (bytes front : Bytes) → strip_last c bytes ≡ some front → bytes ≡ front ++ c ∷ []
unfolding strip_last
strip_last-some c [] front h = cc
strip_last-some c (b ∷ []) front h = ground arith
strip_last-some c (b ∷ d ∷ bytes) front h = elim (Option-cases (strip_last c (d ∷ bytes))) [
  | inl e ↦ ground arith
  | inr (tail, e) ↦ ground (arith, strip_last-some c (d ∷ bytes) tail e)
]

is_ascii-append : (xs ys : Bytes) → is_ascii (xs ++ ys) ≡ true → is_ascii xs ≡ true
unfolding is_ascii
is_ascii-append [] ys h = refl
is_ascii-append (x ∷ xs) ys h = ground (arith, is_ascii-append xs ys)

lowered-append : (front : Bytes) → lowered (front ++ b'>' ∷ []) ≡ lowered front ++ b'>' ∷ []
unfolding to_ascii_lowercase
lowered-append [] = refl
lowered-append (b ∷ front) = ap (λ l. to_ascii_lowercase b ∷ l) (lowered-append front)

is_ascii-tail : (b : ℕ) (rest : Bytes) → is_ascii (b ∷ rest) ≡ true → is_ascii rest ≡ true
unfolding is_ascii
is_ascii-tail b rest h = ground arith

match_all_lowered :
    (raw : Bytes) → bytes_eq (lowered raw) (b'<' ∷ b'>' ∷ []) ≡ bytes_eq raw (b'<' ∷ b'>' ∷ [])
unfolding bytes_eq
match_all_lowered [] = refl
match_all_lowered (a ∷ []) = ground (arith, bracket_kept a b'<')
match_all_lowered (a ∷ b ∷ []) = ground (arith, bracket_kept a b'<', bracket_kept b b'>')
match_all_lowered (a ∷ b ∷ c ∷ raw) = ground (arith, bracket_kept a b'<', bracket_kept b b'>')

front_ascii :
    (bytes front : Bytes)
    → is_ascii bytes ≡ true
    → strip_last b'>' bytes ≡ some front
    → is_ascii front ≡ true
front_ascii bytes front h e =
    is_ascii-append front (b'>' ∷ []) (rw (strip_last-some b'>' bytes front e) at h)

module _ (to_lowercase : Bytes → Bytes) where
  new_ascii :
      (value : Bytes)
      → is_ascii value ≡ true
      → Needle.new to_lowercase value ≡ ascii_lower (lowered value)
  unfolding Needle.new
  new_ascii value h = rw h

  -- A needle of ASCII text does not depend on the case of its letters.
  new-lowered :
      (value : Bytes)
      → is_ascii value ≡ true
      → Needle.new to_lowercase (lowered value) ≡ Needle.new to_lowercase value
  new-lowered value h =
      new_ascii (lowered value) (is_ascii-lowered value ∙ h)
      ∙ ap ascii_lower (lowered_twice value)
      ∙ sym (new_ascii value h)

  -- The two helpers of `from_str` do not depend on the case of the letters either.
  exact_or_prefix-lowered :
      (o : Option Bytes) (inner : Bytes)
      → is_ascii inner ≡ true
      → strip_last b'>' inner ≡ o
      → exact_or_prefix to_lowercase (lowered_front o) (lowered inner)
        ≡ exact_or_prefix to_lowercase o inner
  unfolding exact_or_prefix
  exact_or_prefix-lowered none inner h e =
      rw (length-map to_ascii_lowercase inner, new-lowered inner h)
  exact_or_prefix-lowered (some []) inner h e = refl
  exact_or_prefix-lowered (some (b ∷ front)) inner h e =
      rw (new-lowered (b ∷ front) (front_ascii inner (b ∷ front) h e))

  suffix_or_contains-lowered :
      (o : Option Bytes) (raw : Bytes)
      → is_ascii raw ≡ true
      → strip_last b'>' raw ≡ o
      → suffix_or_contains to_lowercase (lowered_front o) (lowered raw)
        ≡ suffix_or_contains to_lowercase o raw
  unfolding suffix_or_contains
  suffix_or_contains-lowered none raw h e = rw (new-lowered raw h)
  suffix_or_contains-lowered (some []) raw h e = refl
  suffix_or_contains-lowered (some (b ∷ front)) raw h e =
      rw (new-lowered (b ∷ front) (front_ascii raw (b ∷ front) h e))

  -- Parsing an ASCII term does not depend on the case of its letters, errors included.
  pub from_str-lowered :
      (raw : Bytes)
      → is_ascii raw ≡ true
      → from_str to_lowercase (lowered raw) ≡ from_str to_lowercase raw
  unfolding from_str
  from_str-lowered [] h = refl
  from_str-lowered (b ∷ rest) h = rw (
    match_all_lowered (b ∷ rest),
    bracket_kept b b'<' (omega arith),
    strip_last-lowered b'>' rest (omega arith),
    strip_last-lowered b'>' (b ∷ rest) (omega arith),
    exact_or_prefix-lowered _ rest (is_ascii-tail b rest h) refl,
    suffix_or_contains-lowered _ (b ∷ rest) h refl,
  )

  normalized-new :
      (value : Bytes)
      → is_ascii value ≡ true
      → normalized_bytes (Needle.new to_lowercase value) ≡ lowered value
  unfolding normalized_bytes
  normalized-new value h = rw (new_ascii value h)

  exact_or_prefix-to_string :
      (o : Option Bytes) (inner : Bytes) (rule : QueryRule)
      → is_ascii inner ≡ true
      → strip_last b'>' inner ≡ o
      → exact_or_prefix to_lowercase o inner ≡ ok rule
      → to_string rule ≡ b'<' ∷ lowered inner
  unfolding exact_or_prefix to_string
  exact_or_prefix-to_string none inner rule h e k = ground (arith, normalized-new inner h)
  exact_or_prefix-to_string (some []) inner rule h e k = cc
  exact_or_prefix-to_string (some (b ∷ front)) inner rule h e k = ground (
    arith,
    normalized-new (b ∷ front) (front_ascii inner (b ∷ front) h e),
    strip_last-some b'>' inner (b ∷ front) e,
    lowered-append (b ∷ front),
  )

  suffix_or_contains-to_string :
      (o : Option Bytes) (raw : Bytes) (rule : QueryRule)
      → is_ascii raw ≡ true
      → strip_last b'>' raw ≡ o
      → suffix_or_contains to_lowercase o raw ≡ ok rule
      → to_string rule ≡ lowered raw
  unfolding suffix_or_contains to_string
  suffix_or_contains-to_string none raw rule h e k = ground (arith, normalized-new raw h)
  suffix_or_contains-to_string (some []) raw rule h e k = cc
  suffix_or_contains-to_string (some (b ∷ front)) raw rule h e k = ground (
    arith,
    normalized-new (b ∷ front) (front_ascii raw (b ∷ front) h e),
    strip_last-some b'>' raw (b ∷ front) e,
    lowered-append (b ∷ front),
  )

  -- A rule prints as the lower-case form of the ASCII term that it was parsed from.
  pub to_string-from_str :
      (raw : Bytes) (rule : QueryRule)
      → is_ascii raw ≡ true
      → from_str to_lowercase raw ≡ ok rule
      → to_string rule ≡ lowered raw
  unfolding from_str
  to_string-from_str [] rule h k = cc
  to_string-from_str (b ∷ rest) rule h k =
      elim (Bool-cases (bytes_eq (b ∷ rest) (b'<' ∷ b'>' ∷ []))) [
        | inl all ↦
            let e : b ∷ rest ≡ b'<' ∷ b'>' ∷ [] = (bytes_eq_iff _ _).0 all in
            let r : match_all ≡ rule = ground arith in
            ap to_string (sym r) ∙ (unfold to_string to_ascii_lowercase in ap lowered (sym e))
        | inr other ↦ elim (Bool-cases (b == b'<')) [
          | inl bracket ↦
              let r : exact_or_prefix to_lowercase (strip_last b'>' rest) rest ≡ ok rule =
                ground arith in
              exact_or_prefix-to_string _ rest rule (is_ascii-tail b rest h) refl r
              ∙ unfold to_ascii_lowercase in ground arith
          | inr plain ↦
              let r : suffix_or_contains to_lowercase (strip_last b'>' (b ∷ rest)) (b ∷ rest)
                  ≡ ok rule =
                ground arith in
              suffix_or_contains-to_string _ (b ∷ rest) rule h refl r
        ]
      ]

  -- Printing a rule that was parsed from an ASCII term and parsing it again gives the rule back.
  pub from_str-to_string :
      (raw : Bytes) (rule : QueryRule)
      → is_ascii raw ≡ true
      → from_str to_lowercase raw ≡ ok rule
      → from_str to_lowercase (to_string rule) ≡ ok rule
  from_str-to_string raw rule h k =
      rw (to_string-from_str raw rule h k) (from_str-lowered raw h ∙ k)
