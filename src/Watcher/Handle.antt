-- ===== src/Watcher/Handle.antt =====
-- src/watcher_linux.go: `handle`, for one inotify event.
use rclonewatch.Prelude.{
  ℕ, ◌/◌, ◌%◌, Bool, true, false, ◌&&◌, ◌||◌, Option, none, some, Text, if◌then◌else◌, text_eq,
  is_empty, ◌==◌,
}
use rclonewatch.Effect.{Error, text, wrap}
use rclonewatch.Path.Clean.{dot, join}
use rclonewatch.Watcher.Maps.{descriptor_key, path_key, find, delete}
use rclonewatch.Watcher.State.{Kernel, Watcher, send, fail_with, close_watcher, relative}
use rclonewatch.Watcher.Tree.{add_tree, remove_tree, rebuild}

-- The bits of an event's mask.
abbrev pub in_modify : ℕ
in_modify = 0x2

abbrev pub in_attrib : ℕ
in_attrib = 0x4

abbrev pub in_close_write : ℕ
in_close_write = 0x8

abbrev pub in_moved_from : ℕ
in_moved_from = 0x40

abbrev pub in_moved_to : ℕ
in_moved_to = 0x80

abbrev pub in_create : ℕ
in_create = 0x100

abbrev pub in_delete : ℕ
in_delete = 0x200

abbrev pub in_delete_self : ℕ
in_delete_self = 0x400

abbrev pub in_move_self : ℕ
in_move_self = 0x800

abbrev pub in_q_overflow : ℕ
in_q_overflow = 0x4000

abbrev pub in_ignored : ℕ
in_ignored = 0x8000

abbrev pub in_isdir : ℕ
in_isdir = 0x40000000

-- `mask&bit != 0`, for one bit.
abbrev pub has : ℕ → ℕ → Bool
has bit mask = mask / bit % 2 == 1

abbrev pub has_removal : ℕ → Bool
has_removal mask = has in_delete mask || has in_moved_from mask

abbrev pub has_arrival : ℕ → Bool
has_arrival mask = has in_create mask || has in_moved_to mask

-- The bits of an event that reports a change of the payload.
abbrev pub has_change : ℕ → Bool
has_change mask =
    has in_attrib mask
    || has in_close_write mask
    || has in_create mask
    || has in_delete mask
    || has in_modify mask
    || has in_moved_from mask
    || has in_moved_to mask

-- The path that an event of a directory is about.
unfoldable pub event_path : Text → Text → Text
unfolding join
event_path base name = if is_empty name then base else join base name

module _ {K : Kernel} where
  abbrev pub overflowed : Option Error × Watcher K → Watcher K
  overflowed (some e, w) = close_watcher (fail_with (wrap "rebuild watches after overflow" e) w)
  overflowed (none, w) = send (record { path = dot; is_dir = true; removed = false }) w

  abbrev pub arrived : Option Error × Watcher K → Watcher K
  arrived (some e, w) = close_watcher (fail_with e w)
  arrived (none, w) = w

  abbrev forget : ℕ → Text → Watcher K → Watcher K
  forget descriptor base w = record w {
    watches = record w.watches {
      by_descriptor = delete descriptor w.watches.by_descriptor;
      by_path = delete base w.watches.by_path;
    };
  }

  -- The rest of `handle`, for a path at a descriptor that is known, once a removed directory is no
  -- longer watched.
  abbrev pub handle_path : ℕ → ℕ → Text → Text → Watcher K → Watcher K
  handle_path descriptor mask base path w =
      if has in_isdir mask && has_arrival mask
      then arrived (add_tree path true w)
      else (if has in_ignored mask
          then forget descriptor base w
          else (if has_change mask
              then send
                  (record {
                    path = relative w.watches.root path;
                    is_dir = has in_isdir mask;
                    removed = has_removal mask;
                  })
                  w
              else w))

  abbrev pub handle_known : ℕ → ℕ → Text → Text → Watcher K → Watcher K
  handle_known descriptor mask base path w =
      if (has in_delete_self mask || has in_move_self mask) && text_eq path w.watches.root
      then close_watcher (fail_with (text "source folder was removed or moved") w)
      else handle_path descriptor mask base path
          (if has in_isdir mask && has_removal mask then remove_tree path w else w)

  abbrev pub handle_at : ℕ → ℕ → Text → Option Text → Watcher K → Watcher K
  handle_at descriptor mask name none w = w
  handle_at descriptor mask name (some base) w =
      handle_known descriptor mask base (event_path base name) w

  -- `handle`
  unfoldable pub handle : ℕ → ℕ → Text → Watcher K → Watcher K
  unfolding event_path relative add_tree remove_tree rebuild find delete text_eq
  handle descriptor mask name w =
      if has in_q_overflow mask
      then overflowed (rebuild w)
      else handle_at descriptor mask name (find descriptor w.watches.by_descriptor) w
