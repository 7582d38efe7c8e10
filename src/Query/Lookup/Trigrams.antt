-- ===== src/Query/Lookup/Trigrams.antt =====
-- A text that contains a needle has all its trigrams.
use teamy_mft.Common.{
  ℕ, ◌≤◌, ◌≡◌, ◌≢◌, refl, sym, ap, ◌∙◌, true, List, [], ◌∷◌, ◌++◌, length, take, drop, leb, All,
  arith, inl, inr, Bool-cases, append_assoc,
}
use teamy_mft.Common.Bytes.{Bytes}
use teamy_mft.Texts.{
  sort_by, All-sort_by, All-dedup_texts, itself, dedup_texts-ne-nil, sort_by-ne-nil,
}
use teamy_mft.Query.Needle.{
  QueryNeedle, windows, normalized_bytes, normalized_trigrams, str_contains,
}
use teamy_mft.Query.Needle.Find.{Occurs, str_contains_iff, take-append-drop}

-- A trigram of the text: three bytes in a row.
abbrev pub IsTrigramOf : Bytes → Bytes → Type 0
IsTrigramOf text trigram = (length trigram ≡ 3) × Occurs text trigram

Occurs-cons : (b : ℕ) (text part : Bytes) → Occurs text part → Occurs (b ∷ text) part
Occurs-cons b text part (before, after, e) = (b ∷ before, after, ap (λ l. b ∷ l) e)

All-IsTrigramOf_cons :
    (b : ℕ) (text : Bytes) (trigrams : List Bytes)
    → All (IsTrigramOf text) trigrams
    → All (IsTrigramOf (b ∷ text)) trigrams
All-IsTrigramOf_cons b text [] h = tt
All-IsTrigramOf_cons b text (t ∷ trigrams) h =
    ((h.0.0, Occurs-cons b text t h.0.1), All-IsTrigramOf_cons b text trigrams h.1)

length-take_three : (text : Bytes) → 3 ≤ length text → length (take 3 text) ≡ 3
length-take_three [] h = absurd (omega arith)
length-take_three (a ∷ []) h = absurd (omega arith)
length-take_three (a ∷ b ∷ []) h = absurd (omega arith)
length-take_three (a ∷ b ∷ c ∷ text) h = refl

windows-IsTrigramOf : (text : Bytes) → All (IsTrigramOf text) (windows 3 text)
unfolding windows
windows-IsTrigramOf [] = tt
windows-IsTrigramOf (b ∷ text) = elim (Bool-cases (leb 3 (length (b ∷ text)))) [
  | inl long ↦ rw long (
    (
      length-take_three (b ∷ text) (ground (arith, long)),
      ([], drop 3 (b ∷ text), sym (take-append-drop 3 (b ∷ text))),
    ),
    All-IsTrigramOf_cons b text (windows 3 text) (windows-IsTrigramOf text),
  )
  | inr short ↦ rw short tt
]

windows-ne-nil : (text : Bytes) → 3 ≤ length text → windows 3 text ≢ []
unfolding windows
windows-ne-nil [] h e = absurd (omega arith)
windows-ne-nil (b ∷ text) h e =
    let long : leb 3 (length (b ∷ text)) ≡ true = ground arith in
    let e' : take 3 (b ∷ text) ∷ windows 3 text ≡ [] = rw long at e in cc

pub normalized_trigrams-IsTrigramOf :
    (needle : QueryNeedle)
    → All (IsTrigramOf (normalized_bytes needle)) (normalized_trigrams needle)
unfolding normalized_trigrams
normalized_trigrams-IsTrigramOf needle =
    let text = normalized_bytes needle in
    All-dedup_texts (IsTrigramOf text) (sort_by itself (windows 3 text))
      (All-sort_by itself (IsTrigramOf text) (windows 3 text) (windows-IsTrigramOf text))

pub normalized_trigrams-ne-nil :
    (needle : QueryNeedle) → 3 ≤ length (normalized_bytes needle) → normalized_trigrams needle ≢ []
unfolding normalized_trigrams
normalized_trigrams-ne-nil needle long =
    let text = normalized_bytes needle in
    dedup_texts-ne-nil (sort_by itself (windows 3 text))
      (sort_by-ne-nil (windows 3 text) (windows-ne-nil text long))

Occurs-trans : (a b c : Bytes) → Occurs a b → Occurs b c → Occurs a c
Occurs-trans a b c (before, after, e) (before', after', e') = (
  before ++ before',
  after' ++ after,
  e ∙ ap (λ l. before ++ (l ++ after)) e' ∙ regroup before before' c after' after,
)
  where
    regroup : (u v c w x : Bytes) → u ++ ((v ++ (c ++ w)) ++ x) ≡ (u ++ v) ++ (c ++ (w ++ x))
    regroup u v c w x = simp append_assoc

-- A text with the needle has every trigram of the needle.
pub str_contains-trigram :
    (text part trigram : Bytes)
    → str_contains text part ≡ true
    → IsTrigramOf part trigram
    → str_contains text trigram ≡ true
str_contains-trigram text part trigram found h =
    (str_contains_iff text trigram).1
      (Occurs-trans text part trigram ((str_contains_iff text part).0 found) h.1)
