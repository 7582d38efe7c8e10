-- ===== src/Index/Build/Trigrams.antt =====
-- The trigrams of a segment: the sorted windows without duplicates are those that its text contains.
use teamy_mft.Common.{◌≡◌, refl, sym, ap, ◌∙◌, ◌||◌, List, [], ◌∷◌, length, arith}
use teamy_mft.Common.Bytes.{Bytes}
use teamy_mft.Common.Dict.{text_eq}
use teamy_mft.Texts.{has_text, has_text-trigrams}
use teamy_mft.Query.Needle.{any, bytes_eq, windows, str_contains}
use teamy_mft.Query.Needle.Windows.{any-windows}
use teamy_mft.Index.Build.{text_trigrams}
use teamy_mft.Index.Build.Segments.{has_text_trigram}

text_eq-bytes_eq : (xs ys : Bytes) → text_eq xs ys ≡ bytes_eq xs ys
unfolding bytes_eq
text_eq-bytes_eq [] [] = refl
text_eq-bytes_eq [] (y ∷ ys) = refl
text_eq-bytes_eq (x ∷ xs) [] = refl
text_eq-bytes_eq (x ∷ xs) (y ∷ ys) = ground (arith, text_eq-bytes_eq xs ys)

has_text-any :
    (trigram : Bytes) (texts : List Bytes)
    → has_text trigram texts ≡ any (λ t. bytes_eq t trigram) texts
unfolding any
has_text-any trigram [] = refl
has_text-any trigram (text ∷ texts) =
    rw (text_eq-bytes_eq text trigram, has_text-any trigram texts) refl

any-has_text :
    (trigram : Bytes) (texts : List Bytes)
    → any (λ t. text_eq t trigram) texts ≡ has_text trigram texts
unfolding any
any-has_text trigram [] = refl
any-has_text trigram (text ∷ texts) =
    ap (λ b. text_eq text trigram || b) (any-has_text trigram texts)

pub has_text_trigram_lem :
    (trigram text : Bytes)
    → length trigram ≡ 3
    → has_text_trigram trigram text ≡ str_contains text trigram
unfolding text_trigrams
has_text_trigram_lem trigram text three =
    any-has_text trigram (text_trigrams text)
    ∙ has_text-trigrams trigram (windows 3 text)
    ∙ has_text-any trigram (windows 3 text)
    ∙ ap (λ n. any (λ t. bytes_eq t trigram) (windows n text)) (sym three)
    ∙ any-windows trigram text (omega (arith, three))
