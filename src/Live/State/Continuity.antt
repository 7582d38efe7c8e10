-- ===== src/Live/State/Continuity.antt =====
-- When a checkpoint can be continued from the journal.
use teamy_mft.Common.{
  ℕ, ◌<◌, ◌≤◌, ◌≡◌, ◌≢◌, refl, Option, none, some, ◌==◌, ltb, arith, inl, inr, Bool-cases,
}
use teamy_mft.Common.Result.{Result, ok, err}
use teamy_mft.Live.Graph.{JournalCursor}
use teamy_mft.Live.State.{
  PublishedCheckpoint, LiveError, missing_replay_cursor, missing_journal_id, validate_active_cursor,
  validate_journal_continuity,
}

-- What a verdict on three positions and a journal says of them.
abbrev pub Explains :
    (snapshot_usn journal_id current_usn : ℕ) → JournalCursor → Result LiveError (Unit {0}) → Type 0
Explains snapshot_usn journal_id current_usn cursor (ok _) =
    (cursor.journal_id ≡ journal_id)
    × (cursor.lowest_valid_usn ≤ snapshot_usn)
    × (current_usn ≤ cursor.next_usn)
Explains snapshot_usn journal_id current_usn cursor (err LiveError.journal_reset) =
    cursor.journal_id ≢ journal_id
Explains snapshot_usn journal_id current_usn cursor (err LiveError.replay_gap) =
    (cursor.journal_id ≡ journal_id) × (snapshot_usn < cursor.lowest_valid_usn)
Explains snapshot_usn journal_id current_usn cursor (err LiveError.ahead_of_journal) =
    (cursor.journal_id ≡ journal_id)
    × (cursor.lowest_valid_usn ≤ snapshot_usn)
    × (cursor.next_usn < current_usn)
Explains snapshot_usn journal_id current_usn cursor (err other) = ⊥

-- Of a checkpoint: the position to replay from is the snapshot's or else the last published one,
-- and the current position is the last published one or else the former.
abbrev pub ExplainsCheckpoint :
    (journal_id snapshot_usn last_usn : Option ℕ)
    → JournalCursor
    → Result LiveError (Unit {0})
    → Type 0
ExplainsCheckpoint journal_id none none cursor verdict = verdict ≡ err missing_replay_cursor
ExplainsCheckpoint none (some snapshot) last cursor verdict = verdict ≡ err missing_journal_id
ExplainsCheckpoint none none (some last) cursor verdict = verdict ≡ err missing_journal_id
ExplainsCheckpoint (some id) none (some last) cursor verdict = Explains last id last cursor verdict
ExplainsCheckpoint (some id) (some snapshot) none cursor verdict =
    Explains snapshot id snapshot cursor verdict
ExplainsCheckpoint (some id) (some snapshot) (some last) cursor verdict =
    Explains snapshot id last cursor verdict

pub validate_active_cursor-Explains :
    (snapshot_usn journal_id current_usn : ℕ) (cursor : JournalCursor)
    → Explains snapshot_usn journal_id current_usn cursor
        (validate_active_cursor snapshot_usn journal_id current_usn cursor)
unfolding validate_active_cursor
validate_active_cursor-Explains snapshot_usn journal_id current_usn cursor =
    elim (Bool-cases (cursor.journal_id == journal_id)) [
      | inr other ↦ rw other (ground (arith, other))
      | inl same ↦ elim (Bool-cases (ltb snapshot_usn cursor.lowest_valid_usn)) [
        | inl gap ↦ rw (same, gap) (ground (arith, same, gap))
        | inr held ↦ elim (Bool-cases (ltb cursor.next_usn current_usn)) [
          | inl ahead ↦ rw (same, held, ahead) (ground (arith, same, held, ahead))
          | inr behind ↦ rw (same, held, behind) (ground (arith, same, held, behind))
        ]
      ]
    ]

continuity-Explains :
    (journal_id snapshot_usn last_usn : Option ℕ) (count : ℕ) (cursor : JournalCursor)
    → ExplainsCheckpoint journal_id snapshot_usn last_usn cursor (
        validate_journal_continuity
          (record {
            checkpoint_journal_id = journal_id;
            checkpoint_snapshot_usn = snapshot_usn;
            last_usn = last_usn;
            overlay_row_count = count;
          })
          cursor)
unfolding validate_journal_continuity
continuity-Explains journal_id none none count cursor = refl
continuity-Explains none (some snapshot) last count cursor = refl
continuity-Explains none none (some last) count cursor = refl
continuity-Explains (some id) none (some last) count cursor =
    validate_active_cursor-Explains last id last cursor
continuity-Explains (some id) (some snapshot) none count cursor =
    validate_active_cursor-Explains snapshot id snapshot cursor
continuity-Explains (some id) (some snapshot) (some last) count cursor =
    validate_active_cursor-Explains snapshot id last cursor

-- A checkpoint is accepted exactly if it has a position to replay from and a journal's number, the
-- journal has that number and still holds the position, and has come to the current position;
-- each error is for the first of these conditions that fails.
pub validate_journal_continuity-ExplainsCheckpoint :
    (checkpoint : PublishedCheckpoint) (cursor : JournalCursor)
    → ExplainsCheckpoint checkpoint.checkpoint_journal_id checkpoint.checkpoint_snapshot_usn
        checkpoint.last_usn cursor
        (validate_journal_continuity checkpoint cursor)
validate_journal_continuity-ExplainsCheckpoint checkpoint cursor =
    continuity-Explains checkpoint.checkpoint_journal_id checkpoint.checkpoint_snapshot_usn
      checkpoint.last_usn checkpoint.overlay_row_count cursor
