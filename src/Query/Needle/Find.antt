-- ===== src/Query/Needle/Find.antt =====
-- The tests on a normalized haystack as statements about the text around the needle.
use teamy_mft.Common.{
  ℕ, zero, suc, ◌-◌, ◌≡◌, refl, sym, ap, ◌∙◌, true, false, ◌↔◌, [], ◌∷◌, ◌++◌, length, take, drop,
  ltb, leb, ◌==◌, arith, length-append, Bool-cases, ltb→lt, inl, inr,
}
use teamy_mft.Common.Bytes.{Bytes}
use teamy_mft.Query.Needle.{
  bytes_eq, str_starts_with, str_contains, str_ends_with, contains_ascii_in_normalized_haystack,
  starts_with_ascii_in_normalized_haystack, ends_with_ascii_in_normalized_haystack,
}
use teamy_mft.Query.Needle.Windows.{
  bytes_eq_iff, any-windows, bytes_eq-take, str_starts_with_long, str_contains_long,
}

abbrev pub HasPrefix : Bytes → Bytes → Type 0
HasPrefix haystack needle = (after : Bytes) × (haystack ≡ needle ++ after)

abbrev pub HasSuffix : Bytes → Bytes → Type 0
HasSuffix haystack needle = (before : Bytes) × (haystack ≡ before ++ needle)

abbrev pub Occurs : Bytes → Bytes → Type 0
Occurs haystack needle =
    (before : Bytes) × (after : Bytes) × (haystack ≡ before ++ (needle ++ after))

str_starts_with-HasPrefix :
    (haystack needle : Bytes) → str_starts_with haystack needle ≡ true → HasPrefix haystack needle
unfolding str_starts_with
str_starts_with-HasPrefix haystack [] h = (haystack, refl)
str_starts_with-HasPrefix [] (n ∷ needle) h = cc
str_starts_with-HasPrefix (b ∷ haystack) (n ∷ needle) h =
    let both : (b ≡ n) × (str_starts_with haystack needle ≡ true) = ground arith in
    let (after, e) = str_starts_with-HasPrefix haystack needle both.1 in (after, cc (both.0, e))

str_starts_with-append : (needle after : Bytes) → str_starts_with (needle ++ after) needle ≡ true
unfolding str_starts_with
str_starts_with-append [] after = refl
str_starts_with-append (n ∷ needle) after = ground (arith, str_starts_with-append needle after)

str_contains-Occurs :
    (haystack needle : Bytes) → str_contains haystack needle ≡ true → Occurs haystack needle
str_contains-Occurs [] needle h =
    let (after, e) = str_starts_with-HasPrefix [] needle (unfold str_contains in h) in
    ([], after, e)
str_contains-Occurs (b ∷ haystack) needle h =
    elim (Bool-cases (str_starts_with (b ∷ haystack) needle)) [
      | inl here ↦
          let (after, e) = str_starts_with-HasPrefix (b ∷ haystack) needle here in ([], after, e)
      | inr there ↦
          let later : str_contains haystack needle ≡ true = unfold str_contains in ground arith in
          let (before, after, e) = str_contains-Occurs haystack needle later in
          (b ∷ before, after, ap (λ l. b ∷ l) e)
    ]

str_contains-append :
    (before needle after : Bytes) → str_contains (before ++ (needle ++ after)) needle ≡ true
unfolding str_contains
str_contains-append [] [] [] = unfold str_starts_with in refl
str_contains-append [] [] (a ∷ after) = unfold str_starts_with in refl
str_contains-append [] (n ∷ needle) after =
    ground (arith, str_starts_with-append (n ∷ needle) after)
str_contains-append (b ∷ before) needle after =
    ground (arith, str_contains-append before needle after)

-- The three tests on a normalized haystack are the standard library's searches.
pub contains_ascii-str_contains :
    (haystack needle : Bytes)
    → contains_ascii_in_normalized_haystack haystack needle ≡ str_contains haystack needle
unfolding contains_ascii_in_normalized_haystack
contains_ascii-str_contains haystack [] = sym (str_contains-append [] [] haystack)
contains_ascii-str_contains haystack (n ∷ needle) =
    let some_needle : (length (n ∷ needle) == 0) ≡ false = ground arith in
    elim (Bool-cases (ltb (length haystack) (length (n ∷ needle)))) [
      | inl short ↦
          rw (some_needle, short) (sym (str_contains_long haystack (n ∷ needle) (ltb→lt _ _ short)))
      | inr fits ↦ rw (some_needle, fits) (any-windows (n ∷ needle) haystack (omega arith))
    ]

pub starts_with_ascii-str_starts_with :
    (haystack needle : Bytes)
    → starts_with_ascii_in_normalized_haystack haystack needle ≡ str_starts_with haystack needle
starts_with_ascii-str_starts_with haystack needle =
    unfold starts_with_ascii_in_normalized_haystack in
    ground (arith, bytes_eq-take haystack needle, str_starts_with_long haystack needle)

drop_all : (xs : Bytes) → drop (length xs) xs ≡ []
drop_all [] = refl
drop_all (x ∷ xs) = drop_all xs

pub ends_with_ascii-str_ends_with :
    (haystack needle : Bytes)
    → ends_with_ascii_in_normalized_haystack haystack needle ≡ str_ends_with haystack needle
ends_with_ascii-str_ends_with haystack [] =
    unfold ends_with_ascii_in_normalized_haystack str_ends_with in
    ground (arith, drop_all haystack, bytes_eq_iff [] [])
ends_with_ascii-str_ends_with haystack (n ∷ needle) =
    unfold ends_with_ascii_in_normalized_haystack str_ends_with in ground arith

-- The standard library finds a needle exactly where the haystack is some text, the needle and some text.
pub str_contains_iff :
    (haystack needle : Bytes) → (str_contains haystack needle ≡ true) ↔ Occurs haystack needle
str_contains_iff haystack needle = (
  str_contains-Occurs haystack needle,
  λ (before, after, e). rw e (str_contains-append before needle after),
)

pub str_starts_with_iff :
    (haystack needle : Bytes) → (str_starts_with haystack needle ≡ true) ↔ HasPrefix haystack needle
str_starts_with_iff haystack needle = (
  str_starts_with-HasPrefix haystack needle,
  λ (after, e). rw e (str_starts_with-append needle after),
)

pub drop_length-append : (before needle : Bytes) → drop (length before) (before ++ needle) ≡ needle
drop_length-append [] needle = refl
drop_length-append (b ∷ before) needle = drop_length-append before needle

pub take-append-drop : (n : ℕ) (xs : Bytes) → take n xs ++ drop n xs ≡ xs
take-append-drop zero xs = refl
take-append-drop (suc n) [] = refl
take-append-drop (suc n) (x ∷ xs) = rw (take-append-drop n xs)

str_ends_with-append : (before needle : Bytes) → str_ends_with (before ++ needle) needle ≡ true
unfolding str_ends_with
str_ends_with-append before needle =
    let cut : length (before ++ needle) - length needle ≡ length before =
      omega (arith, length-append before needle) in
    let fits : leb (length needle) (length (before ++ needle)) ≡ true =
      ground (arith, length-append before needle) in
    rw (fits, cut, drop_length-append, (bytes_eq_iff needle needle).1 refl)

pub str_ends_with_iff :
    (haystack needle : Bytes) → (str_ends_with haystack needle ≡ true) ↔ HasSuffix haystack needle
unfolding str_ends_with
str_ends_with_iff haystack needle = (
  λ h.
      let same : bytes_eq (drop (length haystack - length needle) haystack) needle ≡ true =
        ground arith in
      let e = (bytes_eq_iff (drop (length haystack - length needle) haystack) needle).0 same in
      let n = length haystack - length needle in
      (take n haystack, sym (take-append-drop n haystack) ∙ ap (λ l. take n haystack ++ l) e),
  λ (before, e). rw e (str_ends_with-append before needle),
)

-- On a normalized haystack, each of the three tests answers true exactly where its needle stands:
-- anywhere, at the start, and at the end.
pub ascii_in_normalized_iff :
    (haystack needle : Bytes)
    → ((contains_ascii_in_normalized_haystack haystack needle ≡ true) ↔ Occurs haystack needle)
      × ((starts_with_ascii_in_normalized_haystack haystack needle ≡ true)
          ↔ HasPrefix haystack needle)
      × ((ends_with_ascii_in_normalized_haystack haystack needle ≡ true)
          ↔ HasSuffix haystack needle)
ascii_in_normalized_iff haystack needle =
    rw
      (
        contains_ascii-str_contains, starts_with_ascii-str_starts_with,
        ends_with_ascii-str_ends_with,
      )
      (
        str_contains_iff haystack needle,
        str_starts_with_iff haystack needle,
        str_ends_with_iff haystack needle,
      )
