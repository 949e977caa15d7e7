-- ===== src/Watcher/Total.antt =====
-- `process` on any bytes.
use rclonewatch.Prelude.{
  ℕ, zero, suc, ◌+◌, ◌-◌, ◌<◌, none, Text, [], ◌∷◌, ◌≡◌, ◌≢◌, arith, length, drop,
}
use rclonewatch.Watcher.State.{Kernel, Watcher}
use rclonewatch.Watcher.Buffer.{header_size, field_at, handle_next, process_loop}

length-drop : (n : ℕ) (s : Text) → length (drop n s) ≡ length s - n
length-drop zero s = omega arith
length-drop (suc n) [] = omega arith
length-drop (suc n) (x ∷ s) = omega (arith, length-drop n s)

module _ {K : Kernel} where
  -- The fuel that `process` gives its loop is enough for every buffer.
  pub process_loop_total :
      (fuel : ℕ) (s : Text) (w : Watcher K) → length s < fuel → process_loop fuel s w ≢ none
  unfolding process_loop
  process_loop_total zero s w h = absurd (omega arith)
  process_loop_total (suc fuel) s w h =
      let size = header_size + field_at 12 s in
      ground (arith, length-drop size s, process_loop_total fuel (drop size s) (handle_next s w))
