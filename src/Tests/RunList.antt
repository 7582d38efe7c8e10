-- ===== src/Tests/RunList.antt =====
-- src/mft/mft_record_attribute_run_list.rs: three runs, one of them sparse and one before the first.
use teamy_mft.Common.{◌≡◌, some, List, [], ◌∷◌, ◌++◌, map, arith, inl, inr}
use teamy_mft.Common.Result.{Result, ok}
use teamy_mft.Mft.RunList.{RunListEntry, RunError, decode_all}
use teamy_mft.Mft.RunList.Decode.{decode_all-ends}
use teamy_mft.Mft.RunList.Encode.{DataRun, sparse, placed, encode, entry_of, AreRuns}
use teamy_mft.Mft.RunList.Inverse.{decode_all-encode}

abbrev runs : List DataRun
runs = placed 1 16 2 5000 ∷ sparse 1 3 ∷ placed 2 300 2 4000 ∷ []

runs-AreRuns : AreRuns 0 runs
runs-AreRuns = (
  (
    (omega arith, omega arith, omega arith),
    (omega arith, omega arith, inl (omega arith)),
    omega arith,
    omega arith,
  ),
  (
    (omega arith, omega arith, omega arith),
    (
      (
        (omega arith, omega arith, omega arith),
        (omega arith, omega arith, inr (omega arith)),
        omega arith,
        omega arith,
      ),
      tt,
    ),
  ),
)

decode_all-encode_example : decode_all (encode 0 runs ++ 7 ∷ []) ≡ some (ok (map entry_of runs))
decode_all-encode_example = decode_all-encode runs (7 ∷ []) runs-AreRuns (omega arith, tt)

decode_all-ends_example :
    (r : Result RunError (List RunListEntry)) × (decode_all (0x13 ∷ 1 ∷ []) ≡ some r)
decode_all-ends_example = decode_all-ends (0x13 ∷ 1 ∷ [])
