-- ===== src/Wal/Writer/First.antt =====
-- The first write to a log in an empty directory.
use chono_db.Prelude.{ℕ, ◌/◌, ◌^◌, ◌≤◌, ◌<◌, List, [], ◌≡◌, refl, arith, true}
use chono_db.Prelude.Assoc.{number_key}
use chono_db.Error.{ok}
use chono_db.Wal.Entry.{WalEntry, Codec, encode}
use chono_db.Wal.Writer.{
  WalWriter, WalSegmentConfig, should_rotate, rotate, put, write_bytes, write, with_config,
  find_latest_segment, find_loop,
}

opened_at_zero :
    (now : ℕ) (config : WalSegmentConfig)
    → ((with_config now [] config).segment_created_at ≡ 0)
      × ((with_config now [] config).current_segment ≡ 0)
      × ((with_config now [] config).config ≡ config)
unfolding with_config find_latest_segment find_loop
opened_at_zero now config = (refl, refl, refl)

rotate_next :
    (now : ℕ) (writer : WalWriter)
    → writer.current_segment ≡ 0
    → (rotate now writer).1.current_segment ≡ 1
unfolding rotate
rotate_next now writer h = ground (arith, h)

write_bytes-old :
    (now : ℕ) (encoded : List ℕ) (writer : WalWriter)
    → writer.segment_created_at ≡ 0
    → writer.current_segment ≡ 0
    → 0 < writer.config.max_segment_duration_secs
    → writer.config.max_segment_duration_secs ≤ now / 1000
    → now / 1000 < 2 ^ 64
    → (write_bytes now encoded writer).1.current_segment ≡ 1
unfolding write_bytes put should_rotate
write_bytes-old now encoded writer opened first limit old time =
    let due : should_rotate now (put encoded writer) ≡ true = ground (arith, opened) in
    rw due (rotate_next now (put encoded writer) first)

-- A log in an empty directory takes its first segment for opened in 1970: where its segments have a
-- limit of time, `max_segment_duration_secs` above 0, and the clock shows at least that many seconds
-- since 1970, which fit a `u64`, the first write of an entry that the codec encodes is followed by a
-- rotation.
pub write-first_rotates :
    (codec : Codec) (now later : ℕ) (config : WalSegmentConfig) (entry : WalEntry)
    (encoded : List ℕ)
    → 0 < config.max_segment_duration_secs
    → config.max_segment_duration_secs ≤ later / 1000
    → later / 1000 < 2 ^ 64
    → encode codec entry ≡ ok encoded
    → (write codec later entry (with_config now [] config)).1.current_segment ≡ 1
unfolding write with_config
write-first_rotates codec now later config entry encoded limit old time e =
    let (opened, first, same) = opened_at_zero now config in
    rw (write, e)
      (write_bytes-old later encoded (with_config now [] config) opened first limit old time)
