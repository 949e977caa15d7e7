-- ===== src/Config/Invariant.antt =====
-- What reading the options leaves as it is.
use rclonewatch.Prelude.{
  ◌≡◌, refl, sym, ◌∙◌, ℕ, Bool, true, false, Option, none, some, Text, List, [], ◌∷◌, text_eq,
  if◌then◌else◌, codes, subst, ap, ◌||◌, arith, inl, inr, ◌⊎◌, ◌≢◌,
}
use rclonewatch.Prelude.Int.{pos}
use rclonewatch.Effect.{Result, ok, err, Result-cases}
use rclonewatch.Config.Flags.{
  FlagName, lock_ttl, lock_wait, persistent_lock, ParsedConfig, default_lock_ttl, no_wait,
  set_value, flag_text, all_flags, is_bool_flag,
}
use rclonewatch.Config.FlagSet.{
  FlagSet, Parsed, parsed, help, bad, Step, stop, stop_behind, ask_help, refuse, done, needs,
  parse_loop, parse_one, set_flag, Argument, find_flag, argument_of, flagged, of_set, use_flag,
  step_found, unknown, step_at, positional, terminator, bad_syntax, flag,
}
use rclonewatch.Config.Parse.{is_set}
use rclonewatch.Config.Kept.{Other, set_value-Kept}

-- The command is the one that was split off, and an option that was not given has its default.
pub record IsUntouched (command : List Text) (s : FlagSet) : Type 0 where
  pub has_command : s.config.command ≡ command
  pub has_lock_ttl : is_set lock_ttl s.given ≡ false → s.config.lock_timeout ≡ pos default_lock_ttl
  pub has_lock_wait : is_set lock_wait s.given ≡ false → s.config.lock_wait ≡ no_wait
  pub has_persistent_lock : is_set persistent_lock s.given ≡ false → s.config.persistent_lock ≡ []

or_false : (a b : Bool) → (a || b) ≡ false → (a ≡ false) × (b ≡ false)
or_false a b e = ground arith

flagged_ok :
    (f : FlagName) (s t : FlagSet) (r : Result ParsedConfig)
    → flagged f s r ≡ ok t
    → (r ≡ ok t.config) × (t.given ≡ f ∷ s.given)
flagged_ok f s t (err x) e = absurd cc
flagged_ok f s t (ok c) e =
    let p : record { config = c; given = f ∷ s.given } ≡ t = cc in rw (sym p) (refl, refl)

of_set_done : (r : Result FlagSet) (t : FlagSet) → of_set r ≡ done t → r ≡ ok t
of_set_done (ok s) t e = cc
of_set_done (err x) t e = absurd cc

by_default :
    (f : FlagName) (b : Bool) (r : Result FlagSet) (t : FlagSet)
    → (if b then of_set r else needs f) ≡ done t
    → r ≡ ok t
by_default f true r t e = of_set_done r t e
by_default f false r t e = absurd cc

unknown_not_done : (name : Text) (t : FlagSet) → unknown name ≢ done t
unfolding text_eq
unknown_not_done name t e = ground arith

parsed_inj : (s t : FlagSet) (xs ys : List Text) → parsed s xs ≡ parsed t ys → s ≡ t
parsed_inj s t xs ys e = cc

unset_both :
    (g f : FlagName) (s t : FlagSet)
    → t.given ≡ f ∷ s.given
    → is_set g t.given ≡ false
    → Other g f × (is_set g s.given ≡ false)
unfolding is_set
unset_both g f s t q n =
    or_false (text_eq (flag_text g) (flag_text f)) (is_set g s.given) (sym (ap (is_set g) q) ∙ n)

module _ (fraction_of : ℕ → ℕ → ℕ → ℕ) where
  set_flag-IsUntouched :
      {command : List Text} (f : FlagName) (v : Text) (s t : FlagSet)
      → set_flag fraction_of f v s ≡ ok t
      → IsUntouched command s
      → IsUntouched command t
  unfolding set_flag is_set
  set_flag-IsUntouched f v s t e h =
      let (p, q) = flagged_ok f s t (set_value fraction_of f v s.config) e in
      let k = set_value-Kept fraction_of f v s.config t.config p in
      record {
        has_command = k.0 ∙ h.has_command;
        has_lock_ttl = λ n. let u = unset_both lock_ttl f s t q n in k.1 u.0 ∙ h.has_lock_ttl u.1;
        has_lock_wait =
            λ n. let u = unset_both lock_wait f s t q n in k.2 u.0 ∙ h.has_lock_wait u.1;
        has_persistent_lock = λ n.
            let u = unset_both persistent_lock f s t q n in k.3 u.0 ∙ h.has_persistent_lock u.1;
      }

  use_flag-IsUntouched :
      {command : List Text} (s t : FlagSet) (f : FlagName) (value : Option Text)
      → use_flag fraction_of s f value ≡ done t
      → IsUntouched command s
      → IsUntouched command t
  use_flag-IsUntouched s t f (some v) e h =
      set_flag-IsUntouched f v s t (of_set_done (set_flag fraction_of f v s) t e) h
  use_flag-IsUntouched s t f none e h =
      let r = set_flag fraction_of f (codes "true") s in
      set_flag-IsUntouched f (codes "true") s t (by_default f (is_bool_flag f) r t e) h

  found-IsUntouched :
      {command : List Text} (s t : FlagSet) (name : Text) (value : Option Text)
      (o : Option FlagName)
      → step_found fraction_of s name value o ≡ done t
      → IsUntouched command s
      → IsUntouched command t
  found-IsUntouched s t name value none e h = absurd (unknown_not_done name t e)
  found-IsUntouched s t name value (some f) e h = use_flag-IsUntouched s t f value e h

  step_at-IsUntouched :
      {command : List Text} (s t : FlagSet) (a : Argument)
      → step_at fraction_of s a ≡ done t
      → IsUntouched command s
      → IsUntouched command t
  step_at-IsUntouched s t positional e h = absurd cc
  step_at-IsUntouched s t terminator e h = absurd cc
  step_at-IsUntouched s t bad_syntax e h = absurd cc
  step_at-IsUntouched s t (flag name value) e h =
      found-IsUntouched s t name value (find_flag all_flags name) e h

  -- How the loop goes on behind an option's place, and behind the place of a value.
  unfoldable pub loop_on : FlagSet → Text → List Text → Step → Parsed
  loop_on s a args stop = parsed s (a ∷ args)
  loop_on s a args stop_behind = parsed s args
  loop_on s a args ask_help = help
  loop_on s a args (refuse e) = bad e
  loop_on s a args (done t) = parse_loop fraction_of none t args
  loop_on s a args (needs f) = parse_loop fraction_of (some f) s args

  unfoldable pub set_on : List Text → Result FlagSet → Parsed
  set_on args (err e) = bad e
  set_on args (ok u) = parse_loop fraction_of none u args

  pub option_place :
      (s : FlagSet) (a : Text) (args : List Text)
      → parse_loop fraction_of none s (a ∷ args) ≡ loop_on s a args (parse_one fraction_of s a)
  unfolding parse_loop loop_on
  option_place s a args = refl

  pub value_place :
      (f : FlagName) (s : FlagSet) (a : Text) (args : List Text)
      → parse_loop fraction_of (some f) s (a ∷ args) ≡ set_on args (set_flag fraction_of f a s)
  unfolding parse_loop set_on
  value_place f s a args = refl

  waiting_step :
      (f : FlagName) (s t : FlagSet) (a : Text) (args rest : List Text)
      → parse_loop fraction_of (some f) s (a ∷ args) ≡ parsed t rest
      → (u : FlagSet) × (set_flag fraction_of f a s ≡ ok u)
        × (parse_loop fraction_of none u args ≡ parsed t rest)
  unfolding set_on
  waiting_step f s t a args rest e =
      let e' = sym (value_place f s a args) ∙ e in
      elim (Result-cases (set_flag fraction_of f a s)) [
        | inl (u, p) ↦ (u, p, ap (set_on args) (sym p) ∙ e')
        | inr (x, p) ↦ let q = ap (set_on args) (sym p) ∙ e' in absurd cc
      ]

  -- An argument where an option may stand: the loop goes on from a state that is as good, or it ends.
  option_step :
      {command : List Text} (s t : FlagSet) (a : Text) (args rest : List Text)
      → IsUntouched command s
      → (x : Step) → parse_one fraction_of s a ≡ x
      → loop_on s a args x ≡ parsed t rest
      → ((w : Option FlagName) × (u : FlagSet) × IsUntouched command u
          × (parse_loop fraction_of w u args ≡ parsed t rest))
        ⊎ (s ≡ t)
  unfolding parse_one loop_on
  option_step s t a args rest h stop p q = inr (parsed_inj s t (a ∷ args) rest q)
  option_step s t a args rest h stop_behind p q = inr (parsed_inj s t args rest q)
  option_step s t a args rest h ask_help p q = absurd cc
  option_step s t a args rest h (refuse x) p q = absurd cc
  option_step s t a args rest h (done u) p q =
      inl (none, u, step_at-IsUntouched s u (argument_of a) p h, q)
  option_step s t a args rest h (needs f) p q = inl (some f, s, h, q)

  -- The loop over the arguments.
  pub parse_loop-IsUntouched :
      {command : List Text} (waiting : Option FlagName) (s t : FlagSet) (args rest : List Text)
      → parse_loop fraction_of waiting s args ≡ parsed t rest
      → IsUntouched command s
      → IsUntouched command t
  unfolding parse_loop loop_on
  parse_loop-IsUntouched none s t [] rest e h = let p : s ≡ t = cc in subst (IsUntouched _) p h
  parse_loop-IsUntouched (some f) s t [] rest e h = absurd cc
  parse_loop-IsUntouched (some f) s t (a ∷ args) rest e h =
      let (u, p, q) = waiting_step f s t a args rest e in
      parse_loop-IsUntouched none u t args rest q (set_flag-IsUntouched f a s u p h)
  parse_loop-IsUntouched none s t (a ∷ args) rest e h =
      elim (option_step s t a args rest h (parse_one fraction_of s a) refl
        (sym (option_place s a args) ∙ e)) [
          | inl (w, u, k, q) ↦ parse_loop-IsUntouched w u t args rest q k
          | inr p ↦ subst (IsUntouched _) p h
        ]
