-- ===== src/Path/Clean.antt =====
-- Go's path.Clean, Join, Dir, Base and filepath.Rel on Linux, over the elements between slashes.
use rclonewatch.Prelude.{
  ℕ, ◌≡◌, refl, Bool, true, false, not, ◌&&◌, ◌||◌, Option, none, some, Text, List, [], ◌∷◌, ◌++◌,
  map, codes, text_eq, split, if◌then◌else◌, is_empty, ◌==◌,
}
use mathlib.Core.List.{reverse}

abbrev pub slash : ℕ
slash = b'/'

abbrev pub dot : Text
dot = b'.' ∷ []

abbrev pub dot_dot : Text
dot_dot = b'.' ∷ b'.' ∷ []

abbrev pub is_abs : Text → Bool
is_abs [] = false
is_abs (c ∷ _) = c == slash

-- `strings.Join(parts, "/")`
unfoldable pub join_parts : List Text → Text
join_parts [] = []
join_parts (p ∷ []) = p
join_parts (p ∷ q ∷ ps) = p ++ (slash ∷ join_parts (q ∷ ps))

-- One `..` element, over the elements kept so far, the last one first.
abbrev up : Bool → List Text → List Text
up rooted [] = if rooted then [] else dot_dot ∷ []
up rooted (top ∷ kept) = if text_eq top dot_dot then dot_dot ∷ top ∷ kept else kept

unfoldable pub clean_parts : Bool → List Text → List Text → List Text
clean_parts rooted kept [] = reverse kept
clean_parts rooted kept (p ∷ ps) =
    clean_parts rooted
      (if is_empty p || text_eq p dot
        then kept
        else (if text_eq p dot_dot then up rooted kept else p ∷ kept))
      ps

unfoldable pub render : Bool → List Text → Text
unfolding join_parts
render true ps = slash ∷ join_parts ps
render false [] = dot
render false (p ∷ ps) = join_parts (p ∷ ps)

-- `path.Clean`
unfoldable pub clean : Text → Text
unfolding render clean_parts split
clean p = render (is_abs p) (clean_parts (is_abs p) [] (split slash p))

-- `path.Join` of two elements: an empty one is left out.
unfoldable pub join : Text → Text → Text
unfolding clean
join [] [] = []
join [] (c ∷ q) = clean (c ∷ q)
join (c ∷ p) [] = clean (c ∷ p)
join (c ∷ p) (d ∷ q) = clean ((c ∷ p) ++ (slash ∷ d ∷ q))

-- Everything up to the last slash, that slash included: `path.Split`.
unfoldable pub dir_part : Text → Text
dir_part [] = []
dir_part (c ∷ p) =
    let rest = dir_part p in if is_empty rest then (if c == slash then c ∷ [] else []) else c ∷ rest

-- `path.Dir`
unfoldable pub dir : Text → Text
unfolding clean dir_part
dir p = clean (dir_part p)

unfoldable pub drop_slashes : Text → Text
drop_slashes [] = []
drop_slashes (c ∷ p) = let rest = drop_slashes p in if c == slash then rest else c ∷ p

unfoldable pub last_part : List Text → Text
last_part [] = []
last_part (p ∷ []) = p
last_part (p ∷ q ∷ ps) = last_part (q ∷ ps)

-- `path.Base`
unfoldable pub base : Text → Text
unfolding drop_slashes last_part split
base p =
    if is_empty p
    then dot
    else (let stripped = reverse (drop_slashes (reverse p)) in
        if is_empty stripped then slash ∷ [] else last_part (split slash stripped))

-- What is left of two lists of elements behind their common front.
unfoldable pub strip_common : List Text → List Text → List Text × List Text
strip_common [] ts = ([], ts)
strip_common (b ∷ bs) [] = (b ∷ bs, [])
strip_common (b ∷ bs) (t ∷ ts) =
    let rest = strip_common bs ts in if text_eq b t then rest else (b ∷ bs, t ∷ ts)

abbrev starts_up : List Text → Bool
starts_up [] = false
starts_up (b ∷ _) = text_eq b dot_dot

-- The elements of a cleaned path, without its root.
abbrev elements : Text → List Text
elements [] = []
elements (c ∷ p) =
    if c == slash then (if is_empty p then [] else split slash p) else split slash (c ∷ p)

-- `filepath.Rel`, `none` for its error.
unfoldable pub rel : Text → Text → Option Text
unfolding clean strip_common split join_parts
rel from target =
    let b = clean from in
    let t = clean target in
    if text_eq b t
    then some dot
    else (if not (is_abs b && is_abs t || (not (is_abs b) && not (is_abs t)))
        then none
        else (let (bs, ts) = strip_common (if text_eq b dot then [] else elements b) (elements t) in
            if starts_up bs then none else some (join_parts (map (λ _. dot_dot) bs ++ ts))))

clean_messy : clean (codes "a//./b/../c/") ≡ codes "a/c"
unfolding clean text_eq
clean_messy = refl

clean_rooted : clean (codes "/../a/..") ≡ codes "/"
unfolding clean text_eq
clean_rooted = refl

clean_up : clean (codes "../../a") ≡ codes "../../a"
unfolding clean text_eq
clean_up = refl

dir_of : dir (codes "a/b/c") ≡ codes "a/b"
unfolding dir text_eq
dir_of = refl

base_of : base (codes "a/b//") ≡ codes "b"
unfolding base
base_of = refl

rel_of : rel (codes "/a/b") (codes "/a/c/d") ≡ some (codes "../c/d")
unfolding rel text_eq
rel_of = refl
