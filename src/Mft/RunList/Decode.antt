-- ===== src/Mft/RunList/Decode.antt =====
-- Decoding a run list ends on every input.
use teamy_mft.Common.{
  ℕ, zero, suc, ◌+◌, ◌/◌, ◌%◌, ◌≤◌, ◌<◌, ◌≡◌, refl, ap, Option, none, some, List, [], ◌∷◌, length,
  get_or, arith,
}
use teamy_mft.Common.Bytes.{Bytes}
use teamy_mft.Common.Result.{Result, ok, err}
use teamy_mft.Mft.RunList.{
  RunListEntry, RunListIter, RunError, next, next_offset, read_bytes, collect, collect_item,
  decode_all, iter,
}

-- A run that is read moves the iterator on, inside the same bytes.
next_offset-moves :
    (offset_size run_length : ℕ) (it : RunListIter) (entry : RunListEntry)
    → it.pos ≤ length it.raw
    → (next_offset offset_size run_length it).0 ≡ some (ok entry)
    → ((next_offset offset_size run_length it).1.raw ≡ it.raw)
      × (it.pos ≤ (next_offset offset_size run_length it).1.pos)
      × ((next_offset offset_size run_length it).1.pos ≤ length it.raw)
unfolding next_offset
next_offset-moves offset_size run_length it entry inside h = ground arith

next-moves :
    (it : RunListIter) (entry : RunListEntry)
    → (next it).0 ≡ some (ok entry)
    → ((next it).1.raw ≡ it.raw)
      × (it.pos + 2 ≤ (next it).1.pos)
      × ((next it).1.pos ≤ length it.raw)
unfolding next
next-moves it entry h =
    let behind = record it { pos = it.pos + 1 + get_or it.raw it.pos 0 % 16 } in
    ground (
      arith,
      next_offset-moves (get_or it.raw it.pos 0 / 16 % 16)
          (read_bytes (get_or it.raw it.pos 0 % 16) 0 it.raw (it.pos + 1) 0) behind entry,
    )

collect_item-ends :
    (item : Option (Result RunError RunListEntry))
    (rest : Option (Result RunError (List RunListEntry)))
    → ((entry : RunListEntry)
        → item ≡ some (ok entry)
        → (r : Result RunError (List RunListEntry)) × (rest ≡ some r))
    → (r : Result RunError (List RunListEntry)) × (collect_item item rest ≡ some r)
unfolding collect_item
collect_item-ends none rest h = (ok [], refl)
collect_item-ends (some (err e)) rest h = (err e, refl)
collect_item-ends (some (ok entry)) none h = h entry refl
collect_item-ends (some (ok entry)) (some (err e)) h = (err e, refl)
collect_item-ends (some (ok entry)) (some (ok entries)) h = (ok (entry ∷ entries), refl)

collect-ends :
    (fuel : ℕ) (it : RunListIter)
    → 0 < fuel
    → length it.raw < fuel + it.pos
    → (r : Result RunError (List RunListEntry)) × (collect fuel it ≡ some r)
unfolding collect
collect-ends zero it some_left enough = absurd (omega arith)
collect-ends (suc fuel) it some_left enough =
    collect_item-ends (next it).0 (collect fuel (next it).1) (λ entry h.
      let (same, on, inside) = next-moves it entry h in
      let shorter : length (next it).1.raw ≡ length it.raw = ap length same in
      collect-ends fuel (next it).1 (omega arith) (omega arith))

-- Decoding a run list gives a list of runs or an error for every sequence of bytes: it never
-- runs for ever, as the first error ends it and a run takes two bytes at least.
pub decode_all-ends :
    (raw : Bytes) → (r : Result RunError (List RunListEntry)) × (decode_all raw ≡ some r)
unfolding decode_all
decode_all-ends raw =
    collect-ends (suc (length raw)) (iter raw) (omega arith) (unfold iter in omega arith)
