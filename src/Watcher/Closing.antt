-- ===== src/Watcher/Closing.antt =====
-- What is handled after `Close`.
use rclonewatch.Prelude.{true, Option, none, some, List, [], ◌∷◌, ◌≡◌, refl, All}
use rclonewatch.Watcher.State.{Kernel, Watcher}
use rclonewatch.Watcher.Buffer.{Read, bytes, deadline, drained, interrupted, drain_reads, read_loop}
use rclonewatch.Watcher.Events.{Event, IsEvent, encode_all, deliver, process-encode_all}

-- What the kernel has queued, read by read; `none` is a read that a signal interrupts.
abbrev pub Queued : Type 0
Queued = List (Option (List Event))

abbrev pub reads_of : Queued → List Read → List Read
reads_of [] rest = rest
reads_of (none ∷ qs) rest = interrupted ∷ reads_of qs rest
reads_of (some es ∷ qs) rest = bytes (encode_all es) ∷ reads_of qs rest

abbrev pub AreEvents : Option (List Event) → Type 0
AreEvents none = Unit
AreEvents (some es) = All IsEvent es

module _ {K : Kernel} where
  abbrev pub deliver_queued : Queued → Watcher K → Watcher K
  deliver_queued [] w = w
  deliver_queued (none ∷ qs) w = deliver_queued qs w
  deliver_queued (some es ∷ qs) w = deliver_queued qs (deliver es w)

  drain_reads-reads_of :
      (qs : Queued) (rest : List Read) (w : Watcher K)
      → All AreEvents qs
      → drain_reads (reads_of qs (drained ∷ rest)) w ≡ (true, deliver_queued qs w)
  unfolding drain_reads
  drain_reads-reads_of [] rest w v = refl
  drain_reads-reads_of (none ∷ qs) rest w v = drain_reads-reads_of qs rest w v.1
  drain_reads-reads_of (some es ∷ qs) rest w v =
      rw (process-encode_all es w v.0) (drain_reads-reads_of qs rest (deliver es w) v.1)

  -- Once the watcher has been closed, the events that the kernel has queued are all handled, in order
  -- and over any number of reads, interrupted ones included; the loop ends where none is left, with
  -- no failure of its own.
  pub read_loop_closed :
      (qs : Queued) (rest : List Read) (w : Watcher K)
      → All AreEvents qs
      → read_loop (deadline ∷ reads_of qs (drained ∷ rest)) w ≡ (true, deliver_queued qs w)
  unfolding read_loop
  read_loop_closed qs rest w v = drain_reads-reads_of qs rest w v
