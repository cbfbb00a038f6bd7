-- ===== src/Rw/Ends.antt =====
-- `check_bot_eot` and `validate` of ftape/lowlevel/ftape-rw.c: the location at the ends of a
-- track, and whether a segment is near the track. `none` is the track -1, which is not known.
pub mod Laws
use ftape.Prelude.{
  ℕ, ◌+◌, ◌-◌, ◌*◌, ◌%◌, bit_and, ◌==◌, ltb, leb, if◌then◌else◌, Bool, true, false, not, ◌&&◌,
  Option, none, some,
}
use ftape.Prelude.Int.{ℤ, pos, negsuc, sub_ℕ}

-- The fields of `location` that the ends of a track set.
pub record Location : Type 0 where
  pub track : Option ℕ
  pub segment : ℤ
  pub sector : ℤ
  pub bot : Bool
  pub eot : Bool
  pub known : Bool

-- QIC_STATUS_AT_BOT, QIC_STATUS_AT_EOT
abbrev pub at_bot : ℕ
at_bot = 0x40

abbrev pub at_eot : ℕ
at_eot = 0x80

-- `track & 1` is 0. The track -1 is odd.
unfoldable pub is_even : Option ℕ → Bool
is_even none = false
is_even (some track) = bit_and track 1 == 0

-- The segment in front of the next one that passes the head.
unfoldable pub segment_before : Option ℕ → (bot : Bool) → (segments_per_track : ℕ) → ℤ
segment_before none bot segments_per_track = if bot then negsuc segments_per_track else negsuc 0
segment_before (some track) bot segments_per_track =
    sub_ℕ ((track + (if bot then 0 else 1)) * segments_per_track) 1

unfoldable pub check_bot_eot : (segments_per_track : ℕ) → Location → (status : ℕ) → Location
unfolding is_even segment_before
check_bot_eot segments_per_track l status =
    let bot = not (bit_and status (if is_even l.track then at_bot else at_eot) == 0) in
    if bit_and status (at_bot + at_eot) == 0 then record l { known = false } else record l {
      segment = segment_before l.track bot segments_per_track;
      sector = negsuc 0;
      bot = bot;
      eot = not bot;
      known = true;
    }

-- `id >= lo` is written without the negative `lo` of the track 0.
unfoldable pub validate : (segments_per_track : ℕ) → Option ℕ → (id : ℕ) → Bool
validate segments_per_track none id = true
validate segments_per_track (some track) id =
    leb (track * segments_per_track) (id + segments_per_track)
    && ltb id ((track + 2) * segments_per_track)
