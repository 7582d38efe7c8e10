-- ===== src/Query/Lookup/Suffixes.antt =====
-- A segment ends with a suffix of one dot exactly if this is its extension.
use teamy_mft.Common.{
  ℕ, ◌<◌, ◌≡◌, refl, sym, ap, ◌∙◌, Bool, true, false, Option, none, some, [], ◌∷◌, ◌++◌, ◌==◌,
  length, ltb, arith, inl, inr, Bool-cases, Option-cases,
}
use teamy_mft.Common.Bytes.{Bytes}
use teamy_mft.Common.Dict.{text_eq, text_eq_iff}
use teamy_mft.Common.Sorted.{contains}
use teamy_mft.Index.{from_last_dot, normalized_extension_suffix}
use teamy_mft.Query.Needle.{str_ends_with}
use teamy_mft.Query.Needle.Find.{HasSuffix, str_ends_with_iff}

abbrev pub dot : ℕ
dot = b'.'

from_last_dot-none : (text : Bytes) → contains text dot ≡ false → from_last_dot text ≡ none
unfolding from_last_dot
from_last_dot-none [] h = refl
from_last_dot-none (b ∷ text) h =
    let rest : from_last_dot text ≡ none = from_last_dot-none text (ground arith) in
    let other : b == dot ≡ false = ground arith in rw (rest, other) refl

-- The last dot of a text that ends with a dot and bytes that are no dots.
from_last_dot-append :
    (before after : Bytes)
    → contains after dot ≡ false
    → from_last_dot (before ++ (dot ∷ after)) ≡ some (dot ∷ after)
unfolding from_last_dot
from_last_dot-append [] after h = rw (from_last_dot-none after h) refl
from_last_dot-append (b ∷ before) after h = rw (from_last_dot-append before after h) refl

from_last_dot-HasSuffix :
    (text suffix : Bytes) → from_last_dot text ≡ some suffix → HasSuffix text suffix
unfolding from_last_dot
from_last_dot-HasSuffix [] suffix h = cc
from_last_dot-HasSuffix (b ∷ text) suffix h = elim (Option-cases (from_last_dot text)) [
  | inr (later, e) ↦
      let same : some later ≡ some suffix = rw e at h in
      let same' : later ≡ suffix = cc in
      let (before, split) = from_last_dot-HasSuffix text later e in
      (b ∷ before, ap (λ l. b ∷ l) split ∙ ap (λ s. b ∷ (before ++ s)) same')
  | inl none_later ↦ elim (Bool-cases (b == dot)) [
    | inl here ↦
        let same : some (b ∷ text) ≡ some suffix = rw (none_later, here) at h in
        let same' : b ∷ text ≡ suffix = cc in ([], same')
    | inr other ↦ let bad : none ≡ some suffix = rw (none_later, other) at h in absurd (cc)
  ]
]

-- Whether a segment's extension is the suffix.
abbrev pub extension_is : Bytes → Option Bytes → Bool
extension_is suffix none = false
extension_is suffix (some extension) = text_eq extension suffix

extension_of_suffix :
    (segment after : Bytes)
    → contains after dot ≡ false
    → 0 < length after
    → HasSuffix segment (dot ∷ after)
    → normalized_extension_suffix segment ≡ some (dot ∷ after)
unfolding normalized_extension_suffix
extension_of_suffix segment after plain given (before, e) =
    let cut : from_last_dot segment ≡ some (dot ∷ after) =
      rw e (from_last_dot-append before after plain) in
    let long : ltb 1 (length (dot ∷ after)) ≡ true = ground arith in rw (cut, long) refl

suffix_of_extension :
    (segment suffix : Bytes)
    → normalized_extension_suffix segment ≡ some suffix
    → HasSuffix segment suffix
unfolding normalized_extension_suffix
suffix_of_extension segment suffix h = elim (Option-cases (from_last_dot segment)) [
  | inl gone ↦ let bad : none ≡ some suffix = rw gone at h in absurd (cc)
  | inr (last, e) ↦ elim (Bool-cases (ltb 1 (length last))) [
    | inl long ↦
        let same : some last ≡ some suffix = rw (e, long) at h in
        let same' : last ≡ suffix = cc in from_last_dot-HasSuffix segment suffix (rw (← same') e)
    | inr short ↦ let bad : none ≡ some suffix = rw (e, short) at h in absurd (cc)
  ]
]

pub extension_is-str_ends_with :
    (segment after : Bytes)
    → contains after dot ≡ false
    → 0 < length after
    → extension_is (dot ∷ after) (normalized_extension_suffix segment)
      ≡ str_ends_with segment (dot ∷ after)
extension_is-str_ends_with segment after plain given =
    elim (Bool-cases (str_ends_with segment (dot ∷ after))) [
      | inl ends ↦
          let e =
            extension_of_suffix segment after plain given
              ((str_ends_with_iff segment (dot ∷ after)).0 ends) in
          rw (e, ends) ((text_eq_iff (dot ∷ after) (dot ∷ after)).1 refl)
      | inr apart ↦ rw apart (elim (Option-cases (normalized_extension_suffix segment)) [
        | inl gone ↦ rw gone refl
        | inr (extension, e) ↦ rw e (elim (Bool-cases (text_eq extension (dot ∷ after))) [
          | inr other ↦ other
          | inl same ↦
              let same' : extension ≡ dot ∷ after = (text_eq_iff extension (dot ∷ after)).0 same in
              let ends : str_ends_with segment (dot ∷ after) ≡ true =
                (str_ends_with_iff segment (dot ∷ after)).1
                  (rw same' at (suffix_of_extension segment extension e)) in
              absurd (let bad : true ≡ false = sym ends ∙ apart in cc)
        ])
      ])
    ]
