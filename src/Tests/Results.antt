-- ===== src/Tests/Results.antt =====
-- src/read/physical_read_results.rs: a device of bytes that count up, and two entries read of it.
use teamy_mft.Common.{ℕ, ◌≡◌, refl, List, [], ◌∷◌, some, All, arith, zero, suc, ◌+◌, ◌<◌, get_or}
use teamy_mft.Common.Result.{ok}
use teamy_mft.Read.Logical.{LogicalReadPlan, physical, sparse}
use teamy_mft.Read.Results.{PhysicalReadResultEntry, iter, step_of, floor, chunk_of, to_vec}
use teamy_mft.Read.Results.Steps.{IsRead}
use teamy_mft.Read.Results.Parts.{parts_of, Follows}
use teamy_mft.Read.Results.Placed.{iter-Follows}

abbrev device : ℕ → ℕ
device p = p

abbrev first_entry : PhysicalReadResultEntry
first_entry = record { request = record { offset = 10; length = 2 }; bytes = 10 ∷ 11 ∷ [] }

abbrev second_entry : PhysicalReadResultEntry
second_entry = record { request = record { offset = 12; length = 1 }; bytes = 12 ∷ [] }

abbrev entries : List PhysicalReadResultEntry
entries = first_entry ∷ second_entry ∷ []

first_bytes : (j : ℕ) → j < 2 → get_or first_entry.bytes j 0 ≡ device (10 + j)
first_bytes zero h = refl
first_bytes (suc zero) h = refl
first_bytes (suc (suc j)) h = absurd (omega arith)

second_bytes : (j : ℕ) → j < 1 → get_or second_entry.bytes j 0 ≡ device (12 + j)
second_bytes zero h = refl
second_bytes (suc j) h = absurd (omega arith)

entries-IsRead : All (IsRead device) entries
entries-IsRead = ((refl, omega arith, first_bytes), ((refl, omega arith, second_bytes), tt))

abbrev plan : LogicalReadPlan
plan = record {
  segments =
      record { logical_offset = 0; length = 2; kind = sparse }
      ∷ record { logical_offset = 2; length = 3; kind = physical 10 }
      ∷ [];
}

iter-Follows_example : Follows device entries 3 (parts_of plan.segments) (iter entries plan)
iter-Follows_example =
    iter-Follows device entries plan 3 entries-IsRead (tt, ((omega arith, omega arith), tt))

to_vec_run : to_vec entries plan ≡ some (ok (0 ∷ 0 ∷ 10 ∷ 11 ∷ 12 ∷ []))
unfolding to_vec floor chunk_of step_of
to_vec_run = refl
