-- ===== src/Mft/Fixup/Buffer.antt =====
-- `apply_fixups_parallel`: the entries of a whole buffer. The counters stay below the number of
-- entries, so they are plain numbers.
use teamy_mft.Common.{
  ℕ, zero, suc, ◌+◌, ◌*◌, ◌/◌, ◌%◌, ◌≤◌, ◌<◌, ◌≡◌, refl, ap, ◌∙◌, false, ◌||◌, List, [], ◌∷◌, ◌++◌,
  ltb, ◌==◌, if◌then◌else◌, not, length, take, drop, map, length-append, length-take, length-drop,
  arith,
}
use native.Mathlib.Nat.{div-add-mod, mul_comm, le_of_eq}
use teamy_mft.Common.Bytes.{Bytes}
use teamy_mft.Mft.Fixup.{
  FixupState, FixupStats, applied, already_applied, invalid, no_stats, count_state,
  apply_fixup_in_place,
}
use teamy_mft.Mft.Fixup.Sectors.{apply_fixup-keeps}

-- `par_chunks_mut(entry_size)` on a buffer of `count` entries
pub entry_chunks : ℕ → ℕ → Bytes → List Bytes
entry_chunks zero entry_size buf = []
entry_chunks (suc count) entry_size buf =
    take entry_size buf ∷ entry_chunks count entry_size (drop entry_size buf)

fix_chunk : ℕ → Bytes → FixupState × Bytes
fix_chunk entry_size entry =
    if ltb (length entry) entry_size then (invalid, entry) else apply_fixup_in_place entry

pub fold_states : FixupStats → List FixupState → FixupStats
fold_states stats [] = stats
fold_states stats (state ∷ states) = fold_states (count_state state stats) states

add_stats : FixupStats → FixupStats → FixupStats
add_stats a b = record {
  applied = a.applied + b.applied;
  already_applied = a.already_applied + b.already_applied;
  invalid = a.invalid + b.invalid;
}

-- How the pool splits the entries: runs that one worker folds, and joins of their counts.
pub data Split : Type 0 where
  run : List FixupState → Split
  join : Split → Split → Split

unfoldable pub states_of : Split → List FixupState
states_of (run states) = states
states_of (join l r) = states_of l ++ states_of r

pub split_stats : Split → FixupStats
unfolding no_stats
split_stats (run states) = fold_states no_stats states
split_stats (join l r) = add_stats (split_stats l) (split_stats r)

flatten : List Bytes → Bytes
flatten [] = []
flatten (entry ∷ entries) = entry ++ flatten entries

-- The stats and the buffer, where `pool` splits the states of the entries in order.
pub apply_fixups_parallel : (List FixupState → Split) → Bytes → ℕ → FixupStats × Bytes
apply_fixups_parallel pool buf entry_size =
    let fixed =
      map (fix_chunk entry_size) (entry_chunks (length buf / entry_size) entry_size buf) in
    if entry_size == 0 || not (length buf % entry_size == 0)
    then (no_stats, buf)
    else (split_stats (pool (map (λ f. f.0) fixed)), flatten (map (λ f. f.1) fixed))

-- The pool hands out every entry once, and keeps their order.
abbrev pub IsPool : (List FixupState → Split) → Type 0
IsPool pool = (states : List FixupState) → states_of (pool states) ≡ states

add_stats-count :
    (state : FixupState) (a b : FixupStats)
    → add_stats a (count_state state b) ≡ count_state state (add_stats a b)
unfolding add_stats count_state
add_stats-count applied a b = ground arith
add_stats-count already_applied a b = ground arith
add_stats-count invalid a b = ground arith

add_stats-fold :
    (states : List FixupState) (a b : FixupStats)
    → add_stats a (fold_states b states) ≡ fold_states (add_stats a b) states
unfolding fold_states
add_stats-fold [] a b = refl
add_stats-fold (state ∷ states) a b =
    add_stats-fold states a (count_state state b)
    ∙ ap (λ s. fold_states s states) (add_stats-count state a b)

add_stats-none : (a : FixupStats) → add_stats a no_stats ≡ a
unfolding add_stats no_stats
add_stats-none a = ground arith

fold_states-append :
    (xs ys : List FixupState) (s : FixupStats)
    → fold_states s (xs ++ ys) ≡ fold_states (fold_states s xs) ys
unfolding fold_states
fold_states-append [] ys s = refl
fold_states-append (x ∷ xs) ys s = fold_states-append xs ys (count_state x s)

-- However the entries are split, the joined counts are those of one pass over them.
split_stats-fold : (split : Split) → split_stats split ≡ fold_states no_stats (states_of split)
split_stats-fold (run states) = unfold split_stats states_of in refl
split_stats-fold (join l r) =
    let joined : split_stats (join l r) ≡ add_stats (split_stats l) (split_stats r) =
      unfold split_stats in refl in
    let parts : states_of (join l r) ≡ states_of l ++ states_of r = unfold states_of in refl in
    joined
    ∙ rw (
      parts,
      split_stats-fold l,
      split_stats-fold r,
      add_stats-fold (states_of r) (fold_states no_stats (states_of l)) no_stats,
      add_stats-none,
      fold_states-append,
    )

abbrev pub total : FixupStats → ℕ
total s = s.applied + s.already_applied + s.invalid

fold_states-total :
    (states : List FixupState) (s : FixupStats)
    → total (fold_states s states) ≡ total s + length states
unfolding fold_states count_state
fold_states-total [] s = omega arith
fold_states-total (applied ∷ states) s =
    omega (arith, fold_states-total states (count_state applied s))
fold_states-total (already_applied ∷ states) s =
    omega (arith, fold_states-total states (count_state already_applied s))
fold_states-total (invalid ∷ states) s =
    omega (arith, fold_states-total states (count_state invalid s))

length-fix_chunk :
    (entry_size : ℕ) (entry : Bytes) → length (fix_chunk entry_size entry).1 ≡ length entry
unfolding fix_chunk
length-fix_chunk entry_size entry = ground (arith, (apply_fixup-keeps entry).0)

-- Every chunk is a whole entry.
fix_chunk-whole :
    (count entry_size : ℕ) (buf : Bytes)
    → count * entry_size ≤ length buf
    → map (fix_chunk entry_size) (entry_chunks count entry_size buf)
      ≡ map apply_fixup_in_place (entry_chunks count entry_size buf)
unfolding entry_chunks
fix_chunk-whole zero entry_size buf h = refl
fix_chunk-whole (suc count) entry_size buf h =
    let whole : fix_chunk entry_size (take entry_size buf)
        ≡ apply_fixup_in_place (take entry_size buf) =
      unfold fix_chunk in ground (arith, length-take entry_size buf) in
    rw (
      whole,
      fix_chunk-whole count entry_size (drop entry_size buf)
          (omega (arith, length-drop entry_size buf)),
    )

length-fixed :
    (count entry_size : ℕ) (buf : Bytes)
    → count * entry_size ≤ length buf
    → (length (map (λ f. f.0) (map (fix_chunk entry_size) (entry_chunks count entry_size buf)))
        ≡ count)
      × (length (
            flatten
              (map (λ f. f.1) (map (fix_chunk entry_size) (entry_chunks count entry_size buf))))
          ≡ count * entry_size)
unfolding entry_chunks flatten
length-fixed zero entry_size buf h = (refl, omega arith)
length-fixed (suc count) entry_size buf h =
    let (states, bytes) =
      length-fixed count entry_size (drop entry_size buf)
        (omega (arith, length-drop entry_size buf)) in
    (
      omega (arith, states),
      omega (
        arith,
        bytes,
        length-append (fix_chunk entry_size (take entry_size buf)).1 (
            flatten (
              map (λ f. f.1)
                (map (fix_chunk entry_size)
                  (entry_chunks count entry_size (drop entry_size buf))))),
        length-fix_chunk entry_size (take entry_size buf),
        length-take entry_size buf,
      ),
    )

pool_counts :
    (pool : List FixupState → Split)
    → IsPool pool
    → (states : List FixupState) → split_stats (pool states) ≡ fold_states no_stats states
pool_counts pool in_order states =
    split_stats-fold (pool states) ∙ ap (fold_states no_stats) (in_order states)

-- On a buffer of whole entries, with a pool that hands out every entry once and in order, the
-- counts are those of one pass over the entries in order,
-- however the pool splits them, they add up to the number of entries, and the buffer keeps its
-- length.
pub apply_fixups_parallel_lem :
    (pool : List FixupState → Split) (buf : Bytes) (entry_size : ℕ)
    → IsPool pool
    → 0 < entry_size
    → length buf % entry_size ≡ 0
    → ((apply_fixups_parallel pool buf entry_size).0
        ≡ fold_states no_stats (
            map
              (λ f. f.0)
              (map apply_fixup_in_place (entry_chunks (length buf / entry_size) entry_size buf))))
      × (total (apply_fixups_parallel pool buf entry_size).0 ≡ length buf / entry_size)
      × (length (apply_fixups_parallel pool buf entry_size).1 ≡ length buf)
unfolding apply_fixups_parallel
apply_fixups_parallel_lem pool buf entry_size in_order pos exact =
    let count = length buf / entry_size in
    let cover : count * entry_size ≡ length buf =
      omega (arith, div-add-mod (length buf) entry_size, mul_comm count entry_size) in
    let runs : (entry_size == 0 || not (length buf % entry_size == 0)) ≡ false = ground arith in
    let whole = fix_chunk-whole count entry_size buf (le_of_eq cover) in
    let (states, bytes) = length-fixed count entry_size buf (le_of_eq cover) in
    let counts =
      pool_counts pool in_order
        (map (λ f. f.0) (map (fix_chunk entry_size) (entry_chunks count entry_size buf))) in
    rw runs (
      counts ∙ rw whole,
      ap total counts ∙ fold_states-total _ no_stats ∙ unfold no_stats in omega (arith, states),
      bytes ∙ cover,
    )
