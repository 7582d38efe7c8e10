-- ===== src/Tests/Record.antt =====
-- src/mft: a reference, a record with one attribute, and the layout of three runs.
use teamy_mft.Common.{
  ◌≡◌, ◌<◌, ◌%◌, ◌^◌, ◌/◌, ◌==◌, some, none, List, [], ◌∷◌, replicate, set, arith,
}
use teamy_mft.Mft.Reference.{
  from_parts, get_record_number, get_sequence_number, from_parts_lem, from_parts-get, is_in_use,
  is_deleted, is_directory, flags_lem,
}
use teamy_mft.Mft.Record.{MftRecord, MftRecordAttribute, attributes}
use teamy_mft.Mft.Record.Attributes.{Tiles, attributes-Tiles}
use teamy_mft.Mft.RunList.{RunListEntry}
use teamy_mft.Mft.RunList.Layout.{into_logical_read_plan, into_logical_read_plan_lem, laid_out}
use teamy_mft.Read.Logical.{total_logical_size}

from_parts_lem_example :
    (get_record_number (from_parts 123 77) ≡ 123)
    × (get_sequence_number (from_parts 123 77) ≡ 77)
    × (from_parts 123 77 < 2 ^ 64)
from_parts_lem_example = from_parts_lem 123 77 (omega arith)

from_parts-get_example :
    from_parts (get_record_number 0xABCDFFFFFFFFFFFF) (get_sequence_number 0xABCDFFFFFFFFFFFF)
    ≡ 0xABCDFFFFFFFFFFFF
from_parts-get_example = from_parts-get 0xABCDFFFFFFFFFFFF (omega arith)

flags_lem_example :
    (is_in_use 3 ≡ (3 % 2 == 1))
    × (is_deleted 3 ≡ (3 % 2 == 0))
    × (is_directory 3 ≡ (3 / 2 % 2 == 1))
flags_lem_example = flags_lem 3

-- A record of 80 bytes in use, with a data attribute of 24 bytes at 48 and the sentinel behind it.
abbrev one_attribute : MftRecord
one_attribute = record {
  bytes =
      set
        (set
          (set (set (set (set (set (set (replicate 96 0) 20 48) 24 80) 48 0x80) 52 24) 72 255) 73
            255)
          74 255)
        75 255;
}

attributes-Tiles_example :
    (attrs : List MftRecordAttribute) × (attributes one_attribute ≡ some attrs)
    × Tiles one_attribute.bytes 48 80 attrs
attributes-Tiles_example = attributes-Tiles one_attribute (omega arith) (omega arith)

abbrev entries : List RunListEntry
entries =
    record { length_clusters = 16; local_cluster_network_start_entry_index = some 5000 }
    ∷ record { length_clusters = 3; local_cluster_network_start_entry_index = none }
    ∷ record { length_clusters = 0; local_cluster_network_start_entry_index = some 7 }
    ∷ []

into_logical_read_plan_lem_example :
    ((into_logical_read_plan entries 4096).segments ≡ laid_out 4096 entries 0)
    × (total_logical_size (into_logical_read_plan entries 4096) ≡ 77824)
into_logical_read_plan_lem_example =
    into_logical_read_plan_lem entries 4096 (omega arith) (omega arith)
