-- ===== src/Common/Dict.antt =====
-- The hash maps of the source as association lists, and the equality of keys as an instance.
use teamy_mft.Common.Tests.{Bool-cases, if◌then◌else◌, ==_iff}
use teamy_mft.Common.Tests as Tests
use Prim.Native.Nat.{ℕ}
use mathlib.Core.Path.{◌≡◌, refl}
use mathlib.Core.Logic.{◌↔◌, ◌⊎◌, ◌≢◌, inl, inr}
use mathlib.Core.Bool.{Bool, true, false, ◌&&◌}
use mathlib.Core.List.{List, [], ◌∷◌}
use mathlib.Core.Option.{Option, none, some}
use native.Mathlib.Omega.{arith}

pub record Eq {ℓ} (A : Type ℓ) : Type ℓ where
  pub beq : A → A → Bool
  pub beq_iff : (a b : A) → (beq a b ≡ true) ↔ (a ≡ b)

abbrev pub text_eq : List ℕ → List ℕ → Bool
text_eq [] [] = true
text_eq [] (y ∷ ys) = false
text_eq (x ∷ xs) [] = false
text_eq (x ∷ xs) (y ∷ ys) = Tests.◌==◌ x y && text_eq xs ys

pub text_eq_iff : (s t : List ℕ) → (text_eq s t ≡ true) ↔ (s ≡ t)
text_eq_iff [] [] = ground arith
text_eq_iff [] (y ∷ ys) = ground arith
text_eq_iff (x ∷ xs) [] = ground arith
text_eq_iff (x ∷ xs) (y ∷ ys) = ground (arith, text_eq_iff xs ys)

instance abbrev pub nat_eq : Eq ℕ
nat_eq = record { beq = Tests.◌==◌; beq_iff = ==_iff }

instance abbrev pub string_eq : Eq (List ℕ)
string_eq = record { beq = text_eq; beq_iff = text_eq_iff }

abbrev pub Dict {ℓ κ} : Type ℓ → Type κ → Type (ℓ ⊔ κ)
Dict K V = List (K × V)

module _ {ℓ κ} {K : Type ℓ} {V : Type κ} ⦃e : Eq K⦄ where
  unfoldable pub get : K → Dict K V → Option V
  get k [] = none
  get k ((j, v) ∷ m) = if e.beq j k then some v else get k m

  -- `map.entry(k).and_modify(..).or_insert_with(..)`: the value from the one that was there.
  unfoldable pub entry : K → (Option V → V) → Dict K V → Dict K V
  entry k f [] = (k, f none) ∷ []
  entry k f ((j, v) ∷ m) = if e.beq j k then (j, f (some v)) ∷ m else (j, v) ∷ entry k f m

  pub get-entry :
      (k j : K) (f : Option V → V) (m : Dict K V)
      → get j (entry k f m) ≡ (if e.beq k j then some (f (get k m)) else get j m)
  unfolding get entry
  get-entry k j f [] = refl
  get-entry k j f ((i, v) ∷ m) =
      ground (arith, e.beq_iff k j, e.beq_iff i k, e.beq_iff i j, get-entry k j f m)

  -- No key stands twice.
  abbrev pub IsDistinct : Dict K V → Type κ
  IsDistinct [] = Unit
  IsDistinct ((k, v) ∷ m) = (get k m ≡ none) × IsDistinct m

  pub entry-IsDistinct :
      (k : K) (f : Option V → V) (m : Dict K V) → IsDistinct m → IsDistinct (entry k f m)
  unfolding entry get
  entry-IsDistinct k f [] d = (refl, tt)
  entry-IsDistinct k f ((j, v) ∷ m) d =
      ground (arith, e.beq_iff j k, e.beq_iff k j, get-entry k j f m, entry-IsDistinct k f m d.1)

  abbrev pub AllEntries : (K → V → Type 0) → Dict K V → Type 0
  AllEntries P [] = Unit
  AllEntries P ((k, v) ∷ m) = P k v × AllEntries P m

  pub AllEntries-entry :
      (P : K → V → Type 0) (k : K) (f : Option V → V) (m : Dict K V)
      → P k (f none)
      → ((v : V) → P k v → P k (f (some v)))
      → AllEntries P m
      → AllEntries P (entry k f m)
  unfolding entry
  AllEntries-entry P k f [] fresh kept h = (fresh, tt)
  AllEntries-entry P k f ((j, v) ∷ m) fresh kept h = elim (Bool-cases (e.beq j k)) [
    | inl same ↦
        let eq : j ≡ k = (e.beq_iff j k).0 same in rw same (rw eq (kept v (rw eq at h.0)), h.1)
    | inr other ↦ rw other (h.0, AllEntries-entry P k f m fresh kept h.1)
  ]

  -- A key of a map is its first one or one of the others.
  pub get-cons :
      (j k : K) (v found : V) (m : Dict K V)
      → get k ((j, v) ∷ m) ≡ some found
      → (j ≡ k) ⊎ (get k m ≡ some found)
  unfolding get
  get-cons j k v found m h = elim (Bool-cases (e.beq j k)) [
    | inl same ↦ inl ((e.beq_iff j k).0 same)
    | inr other ↦ inr (rw other at h)
  ]

  pub get_nil : (k : K) (found : V) → get k [] ≢ some found
  unfolding get
  get_nil k found h = cc
