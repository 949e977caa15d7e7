-- ===== src/Main/Terminal.antt =====
-- src/terminal_linux.go: the wait for a command that has the terminal. What the kernel does to the
-- terminal's foreground group is the parameter `Tty`; what other processes have done by the time a
-- wait ends comes with the wait.
use rclonewatch.Prelude.{
  ℕ, Bool, true, false, Option, none, some, List, [], ◌∷◌, ◌++◌, ◌≡◌, ◌≢◌, ap, sym, All, arith,
  if◌then◌else◌, ◌==◌, inl, inr, Option-cases,
}
use rclonewatch.Main.ExitCode.{is_stopped, wait_status_exit_code}

pub record Tty : Type 1 where
  pub World : Type 0
  -- `tcgetpgrp` and `tcsetpgrp`
  pub get_group : World → Option ℕ
  pub set_group : ℕ → World → World
  -- whether this process ignores SIGTSTP
  pub ignores_stop : World → Bool
  -- SIGTSTP to the own group: whether it could be sent
  pub stop_group : World → Bool × World
  -- the wait for SIGCONT
  pub wait_continued : World → World
  -- SIGCONT to the command's group
  pub continue_command : World → World

-- How `Wait4` ends.
pub data Wait : Type 0 where
  interrupted : Wait
  failed : Wait
  status : ℕ → Wait

module _ (T : Tty) (pid pgrp : ℕ) where
  open T use {World}

  -- A wait, and the terminal when it ends.
  abbrev pub Waited : Type 0
  Waited = Wait × (World → World)

  abbrev pub is_group : ℕ → Option ℕ → Bool
  is_group g none = false
  is_group g (some h) = h == g

  -- `foregroundTerminal`: whether this process is in the foreground of its terminal.
  unfoldable pub foreground_terminal : World → Bool
  foreground_terminal w = is_group pgrp (T.get_group w)

  -- `reclaim`
  unfoldable pub reclaim : World → World
  reclaim w = if is_group pid (T.get_group w) then T.set_group pgrp w else w

  -- `suspend`
  unfoldable pub suspend : World → World
  suspend w =
      let (sent, v) = T.stop_group w in
      if T.ignores_stop w then w else (if sent then T.wait_continued v else v)

  abbrev give_back : World → World
  give_back w = if is_group pgrp (T.get_group w) then T.set_group pid w else w

  -- What is done about a command that has stopped.
  unfoldable pub job_stopped : World → World
  unfolding reclaim suspend
  job_stopped w = T.continue_command (give_back (suspend (reclaim w)))

  -- The loop of `wait`, over the waits that the kernel answers; `none` says that the command is still
  -- waited for.
  unfoldable pub wait_command : List Waited → World → Option ℕ × World
  unfolding job_stopped reclaim wait_status_exit_code
  wait_command [] w = (none, w)
  wait_command ((interrupted, meanwhile) ∷ xs) w = wait_command xs (meanwhile w)
  wait_command ((failed, meanwhile) ∷ xs) w = (some 1, reclaim (meanwhile w))
  wait_command ((status s, meanwhile) ∷ xs) w =
      let v = meanwhile w in
      let next = wait_command xs (job_stopped v) in
      if is_stopped s then next else (some (wait_status_exit_code s), reclaim v)

  -- A wait that does not end the loop, and one that does, with its exit status.
  abbrev pub GoesOn : Waited → Type 0
  GoesOn (interrupted, _) = Unit
  GoesOn (failed, _) = ⊥
  GoesOn (status s, _) = is_stopped s ≡ true

  abbrev pub Ends : Wait → ℕ → Type 0
  Ends interrupted code = ⊥
  Ends failed code = code ≡ 1
  Ends (status s) code = (is_stopped s ≡ false) × (code ≡ wait_status_exit_code s)

  module _ (k : (g : ℕ) (w : World) → T.get_group (T.set_group g w) ≡ some g) (n : pid ≢ pgrp) where
    reclaim-group : (w : World) → T.get_group (reclaim w) ≢ some pid
    unfolding reclaim
    reclaim-group w e = elim (Option-cases (T.get_group w)) [
      | inl p ↦ ground (arith, p)
      | inr (g, p) ↦ ground (arith, p, k pgrp w, n)
    ]

    -- Once the command has ended, or can no longer be waited for, the wait returns its exit status,
    -- however often the command was stopped and continued and the wait interrupted before that; and
    -- the command's group no longer has the terminal, if `tcsetpgrp` sets what `tcgetpgrp` reads.
    pub wait_command_returns :
        (xs : List Waited) (x : Waited) (rest : List Waited) (code : ℕ) (w : World)
        → All GoesOn xs
        → Ends x.0 code
        → ((wait_command (xs ++ (x ∷ rest)) w).0 ≡ some code)
          × (T.get_group (wait_command (xs ++ (x ∷ rest)) w).1 ≢ some pid)
    unfolding wait_command
    wait_command_returns [] (interrupted, f) rest code w g e = absurd e
    wait_command_returns [] (failed, f) rest code w g e = (ap some (sym e), reclaim-group (f w))
    wait_command_returns [] (status s, f) rest code w g e =
        rw e.0 (ap some (sym e.1), reclaim-group (f w))
    wait_command_returns ((interrupted, f) ∷ xs) x rest code w g e =
        wait_command_returns xs x rest code (f w) g.1 e
    wait_command_returns ((failed, f) ∷ xs) x rest code w g e = absurd g.0
    wait_command_returns ((status s, f) ∷ xs) x rest code w g e =
        rw g.0 (wait_command_returns xs x rest code (job_stopped (f w)) g.1 e)
