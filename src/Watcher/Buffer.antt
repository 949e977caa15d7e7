-- ===== src/Watcher/Buffer.antt =====
-- src/watcher_linux.go: `process`, for what one read of inotify returns, and `readLoop`.
use rclonewatch.Prelude.{
  ℕ, zero, suc, ◌+◌, ◌*◌, Bool, true, false, Option, none, some, Text, List, [], ◌∷◌, if◌then◌else◌,
  ◌==◌, ltb, length, take, drop, reverse, trim_left,
}
use rclonewatch.Effect.{text}
use rclonewatch.Watcher.State.{Kernel, Watcher, fail_with}
use rclonewatch.Watcher.Handle.{handle}

-- `SizeofInotifyEvent`: the descriptor, the mask, the cookie, and the length of the name.
abbrev pub header_size : ℕ
header_size = 16

abbrev pub byte_at : ℕ → Text → ℕ
byte_at n [] = 0
byte_at zero (b ∷ s) = b
byte_at (suc n) (b ∷ s) = byte_at n s

-- A 32-bit field of the header. A descriptor is kept as its bit pattern.
abbrev pub field_at : ℕ → Text → ℕ
field_at n s =
    byte_at n s + 256 * (byte_at (n + 1) s + 256 * (byte_at (n + 2) s + 256 * byte_at (n + 3) s))

-- `bytes.TrimRight(name, "\x00")`
unfoldable pub trim_zeros : Text → Text
unfolding trim_left
trim_zeros s = reverse (trim_left (λ c. c == 0) (reverse s))

abbrev pub event_name : Text → Text
event_name rest = trim_zeros (take (field_at 12 rest) (drop header_size rest))

module _ {K : Kernel} where
  abbrev pub handle_next : Text → Watcher K → Watcher K
  handle_next rest w = handle (field_at 0 rest) (field_at 4 rest) (event_name rest) w

  -- The loop of `process` over `buffer[offset:]`; `none` says that the fuel ran out. A new instance of
  -- inotify ends it.
  unfoldable pub process_loop : ℕ → Text → Watcher K → Option (Bool × Watcher K)
  unfolding handle trim_zeros
  process_loop zero rest w = none
  process_loop (suc fuel) rest w =
      let size = header_size + field_at 12 rest in
      let next = handle_next rest w in
      let more = process_loop fuel (drop size rest) next in
      if ltb (length rest) header_size
      then some (true, w)
      else (if ltb (length rest) size
          then some (false, fail_with (text "truncated inotify event") w)
          else (if next.watches.fd == w.watches.fd then more else some (true, next)))

  abbrev or_stopped : Watcher K → Option (Bool × Watcher K) → Bool × Watcher K
  or_stopped w none = (false, w)
  or_stopped w (some r) = r

  -- `process`. The fuel is one more than the buffer's length, since an event takes a byte or more.
  unfoldable pub process : Text → Watcher K → Bool × Watcher K
  unfolding process_loop
  process buffer w = or_stopped w (process_loop (suc (length buffer)) buffer w)

-- What a read gives: the next events, or an error. `interrupted` and `drained` come from the reads
-- after the deadline alone.
pub data Read : Type 0 where
  bytes : Text → Read
  deadline : Read
  interrupted : Read
  drained : Read
  broken : Read

module _ {K : Kernel} where
  abbrev read_failed : Watcher K → Watcher K
  read_failed w = fail_with (text "read inotify events") w

  abbrev pub continue_if : (Watcher K → Bool × Watcher K) → Bool × Watcher K → Bool × Watcher K
  continue_if more (true, w) = more w
  continue_if more (false, w) = (true, w)

  -- The loop after `Close`: what the kernel has queued is still handled. The result says whether the
  -- loop has ended within the given reads; its end closes the channels.
  unfoldable pub drain_reads : List Read → Watcher K → Bool × Watcher K
  unfolding process
  drain_reads [] w = (false, w)
  drain_reads (bytes b ∷ rs) w = continue_if (λ u. drain_reads rs u) (process b w)
  drain_reads (interrupted ∷ rs) w = drain_reads rs w
  drain_reads (drained ∷ rs) w = (true, w)
  drain_reads (_ ∷ rs) w = (true, read_failed w)

  -- `readLoop`, over the reads that it makes.
  unfoldable pub read_loop : List Read → Watcher K → Bool × Watcher K
  unfolding process drain_reads
  read_loop [] w = (false, w)
  read_loop (bytes b ∷ rs) w = continue_if (λ u. read_loop rs u) (process b w)
  read_loop (deadline ∷ rs) w = drain_reads rs w
  read_loop (_ ∷ rs) w = (true, read_failed w)
