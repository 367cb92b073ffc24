-- ===== src/Snarf/Log.antt =====
-- `hrclock_print`, `loghim` and `logwss` (src/wssnarf.c): the lines that go to the log file.
-- `logwss` works in place: each line is moved to the front of the buffer, behind the stamp, which
-- is never past where it stood, and what is left is for the caller to move.
pub mod Chunks
use coins.Prelude.{ℕ, zero, suc, Option, none, some, List, [], ◌∷◌, ◌++◌, Bytes, length, drop}
use coins.Libc.{memchr, print_ulong, print_padded}

-- What `clock_gettime` sets `tsp` to.
pub record Timespec : Type 0 where
  pub tv_sec : ℕ
  pub tv_nsec : ℕ

-- "%ld.%09li"
unfoldable pub hrclock_print : Timespec → Bytes
unfolding print_ulong print_padded
hrclock_print t = print_ulong t.tv_sec ++ b'.' ∷ print_padded 9 t.tv_nsec

-- A line of the snarfer's own.
unfoldable pub loghim : Timespec → Bytes → Bytes
unfolding hrclock_print
loghim t buf = hrclock_print t ++ b'\t' ∷ (buf ++ b'\n' ∷ [])

-- One round, at what `memchr` found: the record of the line, and then the later ones.
unfoldable pub on_line :
    (Bytes → Bytes)
    → (Bytes → List Bytes × Bytes)
    → Bytes
    → Option (Bytes × Bytes)
    → List Bytes × Bytes
on_line record_of later s none = ([], s)
on_line record_of later s (some (line, eol)) =
    let more = later (drop 1 eol) in (record_of (line ++ b'\n' ∷ []) ∷ more.0, more.1)

-- A round takes at least a newline away, so that the length of the text is fuel enough.
unfoldable pub log_lines : (Bytes → Bytes) → ℕ → Bytes → List Bytes × Bytes
unfolding on_line memchr
log_lines record_of zero s = ([], s)
log_lines record_of (suc fuel) s = on_line record_of (log_lines record_of fuel) s (memchr b'\n' s)

-- The records that are written, and the text behind the last newline.
unfoldable pub logwss : (Bytes → Bytes) → Timespec → Bytes → List Bytes × Bytes
unfolding log_lines hrclock_print
logwss massage t buf = log_lines (λ line. hrclock_print t ++ b'\t' ∷ massage line) (length buf) buf
