-- ===== src/Watcher/Events.antt =====
-- What `process` makes of the bytes that the kernel writes for a row of events.
use mathlib.Core.List.{reverse-append, reverse-reverse, append_assoc}
use rclonewatch.Prelude.{
  ℕ, zero, suc, ◌+◌, ◌/◌, ◌%◌, ◌≤◌, ◌<◌, true, false, some, Text, List, [], ◌∷◌, ◌++◌, ◌≡◌, ◌≢◌,
  refl, ap, ◌∙◌, arith, if◌then◌else◌, ◌==◌, ltb, length, length-append, take, sym, drop, reverse,
  trim_left, All, All-append,
}
use rclonewatch.Watcher.State.{Kernel, Watcher}
use rclonewatch.Watcher.Handle.{handle}
use rclonewatch.Watcher.Buffer.{
  header_size, field_at, trim_zeros, event_name, process_loop, process, handle_next,
}

-- An event as the kernel writes it: the name is filled up with zeros.
pub record Event : Type 0 where
  pub descriptor : ℕ
  pub mask : ℕ
  pub cookie : ℕ
  pub name : Text
  pub padding : ℕ

abbrev pub zeros : ℕ → Text
zeros zero = []
zeros (suc n) = 0 ∷ zeros n

-- A 32-bit number, the low byte first, before what follows.
abbrev pub word : ℕ → Text → Text
word n s = (n % 256) ∷ (n / 256 % 256) ∷ (n / 65536 % 256) ∷ (n / 16777216) ∷ s

abbrev pub encode : Event → Text → Text
encode e rest = word e.descriptor (
    word e.mask
      (word e.cookie (word (length e.name + e.padding) (e.name ++ (zeros e.padding ++ rest)))))

abbrev pub encode_all : List Event → Text
encode_all [] = []
encode_all (e ∷ es) = encode e (encode_all es)

-- The fields fit in 32 bits, and the name has no zero byte.
pub record IsEvent (e : Event) : Type 0 where
  pub descriptor_fits : e.descriptor < 4294967296
  pub mask_fits : e.mask < 4294967296
  pub size_fits : length e.name + e.padding < 4294967296
  pub name_bytes : All (λ b. b ≢ 0) e.name

module _ {K : Kernel} where
  -- The events one by one; a new instance of inotify voids what follows.
  unfoldable pub deliver : List Event → Watcher K → Watcher K
  unfolding handle
  deliver [] w = w
  deliver (e ∷ es) w =
      let next = handle e.descriptor e.mask e.name w in
      let rest = deliver es next in if next.watches.fd == w.watches.fd then rest else next

drop_nil : (n : ℕ) → drop {A = ℕ} n [] ≡ []
drop_nil zero = refl
drop_nil (suc n) = refl

drop-add : (a b : ℕ) (s : Text) → drop (a + b) s ≡ drop b (drop a s)
drop-add zero b s = let e : zero + b ≡ b = omega arith in rw e
drop-add (suc a) b [] = drop_nil (suc a + b) ∙ sym (drop_nil b)
drop-add (suc a) b (x ∷ s) = let e : suc a + b ≡ suc (a + b) = omega arith in rw e (drop-add a b s)

take-append : (s t : Text) → take (length s) (s ++ t) ≡ s
take-append [] t = refl
take-append (x ∷ s) t = ap (λ (u : Text). x ∷ u) (take-append s t)

drop-append : (s t : Text) → drop (length s) (s ++ t) ≡ t
drop-append [] t = refl
drop-append (x ∷ s) t = drop-append s t

length-zeros : (n : ℕ) → length (zeros n) ≡ n
length-zeros zero = refl
length-zeros (suc n) = ap suc (length-zeros n)

zeros_snoc : (n : ℕ) → zeros n ++ (0 ∷ []) ≡ 0 ∷ zeros n
zeros_snoc zero = refl
zeros_snoc (suc n) = ap (λ (u : Text). 0 ∷ u) (zeros_snoc n)

reverse-zeros : (n : ℕ) → reverse (zeros n) ≡ zeros n
reverse-zeros zero = refl
reverse-zeros (suc n) =
    reverse-append (0 ∷ []) (zeros n)
    ∙ ap (λ (u : Text). u ++ (0 ∷ [])) (reverse-zeros n)
    ∙ zeros_snoc n

trim_left-zeros :
    (n : ℕ) (s : Text) → trim_left (λ c. c == 0) (zeros n ++ s) ≡ trim_left (λ c. c == 0) s
unfolding trim_left
trim_left-zeros zero s = refl
trim_left-zeros (suc n) s = trim_left-zeros n s

trim_left_nonzero : (s : Text) → All (λ b. b ≢ 0) s → trim_left (λ c. c == 0) s ≡ s
unfolding trim_left
trim_left_nonzero [] h = refl
trim_left_nonzero (c ∷ s) h = ground (arith, h.0)

All-reverse : (s : Text) → All (λ b. b ≢ 0) s → All (λ b. b ≢ 0) (reverse s)
All-reverse [] h = tt
All-reverse (c ∷ s) h =
    rw (reverse-append (c ∷ []) s)
      (All-append (λ b. b ≢ 0) (reverse s) (c ∷ []) (All-reverse s h.1) (h.0, tt))

trim_zeros_padded :
    (name : Text) (n : ℕ) → All (λ b. b ≢ 0) name → trim_zeros (name ++ zeros n) ≡ name
unfolding trim_zeros
trim_zeros_padded name n h =
    rw (reverse-append name (zeros n), reverse-zeros n, trim_left-zeros n (reverse name))
      (rw (trim_left_nonzero (reverse name) (All-reverse name h)) (reverse-reverse name))

word_at : (n : ℕ) (s : Text) → n < 4294967296 → field_at 0 (word n s) ≡ n
word_at n s h = omega arith

module _ (e : Event) (v : IsEvent e) (rest : Text) where
  size_at : field_at 12 (encode e rest) ≡ length e.name + e.padding
  size_at = word_at (length e.name + e.padding) [] v.size_fits

  body_eq : e.name ++ (zeros e.padding ++ rest) ≡ (e.name ++ zeros e.padding) ++ rest
  body_eq = sym (append_assoc e.name (zeros e.padding) rest)

  body_length : length (e.name ++ zeros e.padding) ≡ length e.name + e.padding
  body_length = length-append e.name (zeros e.padding) ∙ omega (arith, length-zeros e.padding)

  event_name-encode : event_name (encode e rest) ≡ e.name
  event_name-encode =
      rw (size_at, body_eq, ← body_length, take-append (e.name ++ zeros e.padding) rest)
        (trim_zeros_padded e.name e.padding v.name_bytes)

  drop-encode : drop (header_size + field_at 12 (encode e rest)) (encode e rest) ≡ rest
  drop-encode =
      rw (size_at, drop-add 16 (length e.name + e.padding) (encode e rest), body_eq, ← body_length)
        (drop-append (e.name ++ zeros e.padding) rest)

  length-encode : length (encode e rest) ≡ header_size + (length e.name + e.padding) + length rest
  length-encode = omega (
    arith,
    ap (length {A = ℕ}) body_eq,
    length-append (e.name ++ zeros e.padding) rest,
    body_length,
  )

module _ {K : Kernel} where
  handle_next-encode :
      (e : Event)
      → IsEvent e
      → (rest : Text) (w : Watcher K)
      → handle_next (encode e rest) w ≡ handle e.descriptor e.mask e.name w
  handle_next-encode e v rest w = rw (
    event_name-encode e v rest,
    word_at e.descriptor [] v.descriptor_fits,
    word_at e.mask [] v.mask_fits,
  )

  process_loop_step :
      (fuel : ℕ) (s rest : Text) (w next : Watcher K)
      → header_size + field_at 12 s ≤ length s
      → handle_next s w ≡ next
      → drop (header_size + field_at 12 s) s ≡ rest
      → process_loop (suc fuel) s w ≡ (
          if next.watches.fd == w.watches.fd
          then process_loop fuel rest next
          else some (true, next))
  unfolding process_loop
  process_loop_step fuel s rest w next b h d =
      rw (← h, ← d)
        (let p : ltb (length s) header_size ≡ false = ground (arith, b) in
          let q : ltb (length s) (header_size + field_at 12 s) ≡ false = ground (arith, b) in
          rw (p, q))

  process_loop-encode_all :
      (es : List Event) (fuel : ℕ) (w : Watcher K)
      → All IsEvent es
      → length (encode_all es) < fuel
      → process_loop fuel (encode_all es) w ≡ some (true, deliver es w)
  unfolding process_loop deliver
  process_loop-encode_all es zero w v b = absurd (omega arith)
  process_loop-encode_all [] (suc fuel) w v b = refl
  process_loop-encode_all (e ∷ es) (suc fuel) w v b =
      let rest = encode_all es in
      let next = handle e.descriptor e.mask e.name w in
      rw
        (process_loop_step fuel (encode e rest) rest w next
          (omega (arith, length-encode e v.0 rest, size_at e v.0 rest))
          (handle_next-encode e v.0 rest w) (drop-encode e v.0 rest))
        (ground (arith, process_loop-encode_all es fuel next v.1, length-encode e v.0 rest))

  -- What the kernel writes for a row of events, `process` handles event by event, in order and with
  -- their fields and names, up to a rebuild, after which it drops what belongs to the old instance;
  -- and it asks for the next read.
  pub process-encode_all :
      (es : List Event) (w : Watcher K)
      → All IsEvent es
      → process (encode_all es) w ≡ (true, deliver es w)
  unfolding process
  process-encode_all es w v =
      rw (process_loop-encode_all es (suc (length (encode_all es))) w v (omega arith))
