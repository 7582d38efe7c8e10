-- ===== src/Mft/RunList.antt =====
-- src/mft/mft_record_attribute_run_list.rs: the run list of a non-resident attribute. Words are
-- 64-bit patterns; a shift takes its amount modulo 64, as in a release build (a debug build panics
-- on a larger amount).
pub mod Words
pub mod Decode
pub mod Encode
pub mod RoundTrip
pub mod Inverse
pub mod Layout
use teamy_mft.Common.{
  ℕ, zero, suc, ◌+◌, ◌-◌, ◌*◌, ◌/◌, ◌%◌, ◌^◌, Bool, true, false, Option, none, some, List, [], ◌∷◌,
  ◌++◌, ltb, leb, ◌==◌, if◌then◌else◌, length, get_or,
}
use Prim.Native.Nat.{bit_or}
use teamy_mft.Common.Bytes.{Bytes}
use teamy_mft.Common.Result.{Result, ok, err}

pub record RunListEntry : Type 0 where
  pub length_clusters : ℕ
  pub local_cluster_network_start_entry_index : Option ℕ

pub data RunError : Type 0 where
  zero_length_size length_exceeds_buffer offset_exceeds_buffer : RunError

pub record RunListIter : Type 0 where
  pub raw : Bytes
  pub pos : ℕ
  pub last_lcn : ℕ

unfoldable pub iter : Bytes → RunListIter
iter raw = record { raw = raw; pos = 0; last_lcn = 0 }

-- `value << amount` on 64 bits
unfoldable pub shl64 : ℕ → ℕ → ℕ
shl64 value amount = value * 2 ^ (amount % 64) % 2 ^ 64

-- `for i in 0..size { acc |= raw[pos + i] << (8 * i) }`, with the rounds left first.
unfoldable pub read_bytes : ℕ → ℕ → Bytes → ℕ → ℕ → ℕ
unfolding shl64
read_bytes zero i raw pos acc = acc
read_bytes (suc rounds) i raw pos acc =
    read_bytes rounds (i + 1) raw pos (bit_or acc (shl64 (get_or raw (pos + i) 0) (8 * i)))

-- The sign bit of the field spreads upwards.
unfoldable pub sign_extend : ℕ → ℕ → ℕ
unfolding shl64
sign_extend size delta =
    if delta / 2 ^ ((size * 8 - 1) % 64) % 2 == 1
    then bit_or delta (shl64 (2 ^ 64 - 1) (size * 8))
    else delta

-- The part of `next` behind the run's length.
unfoldable pub next_offset :
    ℕ → ℕ → RunListIter → Option (Result RunError RunListEntry) × RunListIter
next_offset offset_size run_length it =
    let delta = sign_extend offset_size (read_bytes offset_size 0 it.raw it.pos 0) in
    let lcn = (it.last_lcn + delta) % 2 ^ 64 in
    if offset_size == 0
    then (
      some (
          ok (record {
            length_clusters = run_length;
            local_cluster_network_start_entry_index = none;
          })),
      it,
    )
    else if ltb (length it.raw) (it.pos + offset_size)
    then (some (err offset_exceeds_buffer), it)
    else (
      some (
          ok (record {
            length_clusters = run_length;
            local_cluster_network_start_entry_index = some lcn;
          })),
      record it { pos = it.pos + offset_size; last_lcn = lcn },
    )

unfoldable pub next : RunListIter → Option (Result RunError RunListEntry) × RunListIter
unfolding next_offset
next it =
    let header = get_or it.raw it.pos 0 in
    let offset_size = header / 16 % 16 in
    let length_size = header % 16 in
    let run_length = read_bytes length_size 0 it.raw (it.pos + 1) 0 in
    if leb (length it.raw) it.pos
    then (none, it)
    else if header == 0
    then (none, it)
    else if length_size == 0
    then (some (err zero_length_size), it)
    else if ltb (length it.raw) (it.pos + 1 + length_size)
    then (some (err length_exceeds_buffer), record it { pos = it.pos + 1 })
    else next_offset offset_size run_length (record it { pos = it.pos + 1 + length_size })

-- What `collect` into a `Result` makes of an item and of the items behind it: an error ends it.
unfoldable pub collect_item :
    Option (Result RunError RunListEntry)
    → Option (Result RunError (List RunListEntry))
    → Option (Result RunError (List RunListEntry))
collect_item none rest = some (ok [])
collect_item (some (err e)) rest = some (err e)
collect_item (some (ok entry)) none = none
collect_item (some (ok entry)) (some (err e)) = some (err e)
collect_item (some (ok entry)) (some (ok entries)) = some (ok (entry ∷ entries))

-- `none` is fuel that ran out.
unfoldable pub collect : ℕ → RunListIter → Option (Result RunError (List RunListEntry))
collect zero it = none
collect (suc fuel) it = collect_item (next it).0 (collect fuel (next it).1)

-- A run takes two bytes at least.
unfoldable pub decode_all : Bytes → Option (Result RunError (List RunListEntry))
unfolding iter
decode_all raw = collect (suc (length raw)) (iter raw)
