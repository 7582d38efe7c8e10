-- ===== src/Query/Needle/Windows.antt =====
-- Lemmas on the byte loops of query_needle.rs: slices, windows and their comparison.
use teamy_mft.Common.{
  ℕ, zero, suc, ◌≤◌, ◌<◌, ◌≡◌, refl, ap, Bool, true, false, ◌&&◌, ◌||◌, ◌↔◌, ◌≢◌, List, [], ◌∷◌,
  map, length, take, drop, Bool-cases, All, length-take, inl, inr, ◌∙◌, leb, if◌then◌else◌, arith,
}
use teamy_mft.Common.Bytes.{Bytes}
use teamy_mft.Query.Needle.{
  to_ascii_lowercase, bytes_eq, windows, any, zip_all_lowercase, str_starts_with, str_contains,
}

pub bytes_eq_iff : (xs ys : Bytes) → (bytes_eq xs ys ≡ true) ↔ (xs ≡ ys)
unfolding bytes_eq
bytes_eq_iff [] [] = (λ _. refl, λ _. refl)
bytes_eq_iff [] (y ∷ ys) = (λ h. cc, λ h. cc)
bytes_eq_iff (x ∷ xs) [] = (λ h. cc, λ h. cc)
bytes_eq_iff (x ∷ xs) (y ∷ ys) =
    let (to, from) = bytes_eq_iff xs ys in (λ h. ground (arith, to), λ h. ground (arith, from))

pub bytes_eq_lengths : (xs ys : Bytes) → length xs ≢ length ys → bytes_eq xs ys ≡ false
unfolding bytes_eq
bytes_eq_lengths [] [] h = absurd (h refl)
bytes_eq_lengths [] (y ∷ ys) h = refl
bytes_eq_lengths (x ∷ xs) [] h = refl
bytes_eq_lengths (x ∷ xs) (y ∷ ys) h = ground (arith, bytes_eq_lengths xs ys (λ e. h (ap suc e)))

pub length-map : (f : ℕ → ℕ) (xs : Bytes) → length (map f xs) ≡ length xs
length-map f [] = refl
length-map f (x ∷ xs) = ap suc (length-map f xs)

pub take-map : (f : ℕ → ℕ) (n : ℕ) (xs : Bytes) → take n (map f xs) ≡ map f (take n xs)
take-map f zero xs = refl
take-map f (suc n) [] = refl
take-map f (suc n) (x ∷ xs) = ap (λ l. f x ∷ l) (take-map f n xs)

pub drop-map : (f : ℕ → ℕ) (n : ℕ) (xs : Bytes) → drop n (map f xs) ≡ map f (drop n xs)
drop-map f zero xs = refl
drop-map f (suc n) [] = refl
drop-map f (suc n) (x ∷ xs) = drop-map f n xs

-- Comparing lowercased bytes one by one is comparing the lowercased text.
pub zip_all_lowercase-bytes_eq :
    (actual expected : Bytes)
    → length actual ≡ length expected
    → zip_all_lowercase actual expected ≡ bytes_eq (map to_ascii_lowercase actual) expected
unfolding zip_all_lowercase bytes_eq
zip_all_lowercase-bytes_eq [] [] e = refl
zip_all_lowercase-bytes_eq [] (x ∷ expected) e = absurd (omega arith)
zip_all_lowercase-bytes_eq (a ∷ actual) [] e = absurd (omega arith)
zip_all_lowercase-bytes_eq (a ∷ actual) (x ∷ expected) e =
    rw (zip_all_lowercase-bytes_eq actual expected (omega arith))

-- A slice of the needle's length that equals the needle is a prefix, and the other way round.
pub bytes_eq-take :
    (haystack needle : Bytes)
    → length needle ≤ length haystack
    → bytes_eq (take (length needle) haystack) needle ≡ str_starts_with haystack needle
unfolding bytes_eq str_starts_with
bytes_eq-take haystack [] h = refl
bytes_eq-take [] (n ∷ needle) h = absurd (omega arith)
bytes_eq-take (b ∷ haystack) (n ∷ needle) h = rw (bytes_eq-take haystack needle (omega arith))

pub str_starts_with_long :
    (haystack needle : Bytes)
    → length haystack < length needle
    → str_starts_with haystack needle ≡ false
unfolding str_starts_with
str_starts_with_long haystack [] h = elim h [ ]
str_starts_with_long [] (n ∷ needle) h = refl
str_starts_with_long (b ∷ haystack) (n ∷ needle) h =
    ground (arith, str_starts_with_long haystack needle)

pub str_contains_long :
    (haystack needle : Bytes)
    → length haystack < length needle
    → str_contains haystack needle ≡ false
unfolding str_contains
str_contains_long [] needle h = str_starts_with_long [] needle h
str_contains_long (b ∷ haystack) needle h =
    ground (arith, str_starts_with_long (b ∷ haystack) needle, str_contains_long haystack needle)

any_if {ℓ} :
    {A : Type ℓ} (test : A → Bool) (b : Bool) (x : A) (later : List A)
    → any test (if b then x ∷ later else []) ≡ (b && (test x || any test later))
unfolding any
any_if test true x later = refl
any_if test false x later = refl

-- A window loop finds what a search for a prefix at every place finds.
pub any-windows :
    (needle haystack : Bytes)
    → 0 < length needle
    → any (λ window. bytes_eq window needle) (windows (length needle) haystack)
      ≡ str_contains haystack needle
any-windows [] haystack h = elim h [ ]
any-windows (n ∷ needle) [] h = unfold any windows str_contains in refl
any-windows (n ∷ needle) (b ∷ haystack) h =
    windows_step
    ∙ ground (
      arith,
      any-windows (n ∷ needle) haystack h,
      bytes_eq-take (b ∷ haystack) (n ∷ needle),
      str_starts_with_long (b ∷ haystack) (n ∷ needle),
      str_contains_long haystack (n ∷ needle),
      str_contains_step,
    )
  where
    windows_step :
        any (λ window. bytes_eq window (n ∷ needle)) (windows (length (n ∷ needle)) (b ∷ haystack))
        ≡ (leb (length (n ∷ needle)) (length (b ∷ haystack))
            && (bytes_eq (take (length (n ∷ needle)) (b ∷ haystack)) (n ∷ needle)
                || any
                    (λ window. bytes_eq window (n ∷ needle))
                    (windows (length (n ∷ needle)) haystack)))
    windows_step = unfold windows in any_if _ _ _ _

    str_contains_step :
        str_contains (b ∷ haystack) (n ∷ needle)
        ≡ (str_starts_with (b ∷ haystack) (n ∷ needle) || str_contains haystack (n ∷ needle))
    str_contains_step = unfold str_contains in refl

windows-map :
    (f : ℕ → ℕ) (size : ℕ) (haystack : Bytes)
    → windows size (map f haystack) ≡ map (map f) (windows size haystack)
unfolding windows
windows-map f size [] = refl
windows-map f size (b ∷ haystack) = elim (Bool-cases (leb size (length (b ∷ haystack)))) [
  | inl fits ↦ simp (length-map, fits, windows-map f size haystack, take-map f size (b ∷ haystack))
  | inr short ↦ simp (length-map, short)
]

-- Every window has the size that was asked for.
windows-length :
    (size : ℕ) (haystack : Bytes) → All (λ window. length window ≡ size) (windows size haystack)
unfolding windows
windows-length size [] = tt
windows-length size (b ∷ haystack) =
    ground (arith, length-take size (b ∷ haystack), windows-length size haystack)

any-windows_lowercase_on :
    (needle : Bytes) (ws : List Bytes)
    → All (λ window. length window ≡ length needle) ws
    → any (λ window. zip_all_lowercase window needle) ws
      ≡ any (λ window. bytes_eq window needle) (map (map to_ascii_lowercase) ws)
unfolding any
any-windows_lowercase_on needle [] h = refl
any-windows_lowercase_on needle (w ∷ ws) h =
    rw (zip_all_lowercase-bytes_eq w needle h.0, any-windows_lowercase_on needle ws h.1)

pub any-windows_lowercase :
    (needle haystack : Bytes)
    → any (λ window. zip_all_lowercase window needle) (windows (length needle) haystack)
      ≡ any
          (λ window. bytes_eq window needle)
          (windows (length needle) (map to_ascii_lowercase haystack))
any-windows_lowercase needle haystack =
    any-windows_lowercase_on needle _ (windows-length (length needle) haystack) ∙ rw windows-map
