-- ===== src/Paths.antt =====
-- What internal/catalog uses of Go's packages path and strings, on rooted and relative paths.
pub mod Length
pub mod Joined
mod Tests
use torbox_fuse_go.Base.{
  ◌≡◌, ℕ, Bool, true, false, ◌||◌, List, [], ◌∷◌, ◌++◌, Str, str, str_eq, if◌then◌else◌, ◌==◌,
  reverse,
}

abbrev pub slash : ℕ
slash = b'/'

-- strings.Split(p, "/")
abbrev pub push : ℕ → List Str → List Str
push c [] = (c ∷ []) ∷ []
push c (s ∷ ss) = (c ∷ s) ∷ ss

unfoldable pub segments : Str → List Str
segments [] = [] ∷ []
segments (c ∷ cs) = let rest = segments cs in if c == slash then [] ∷ rest else push c rest

-- strings.HasPrefix(p, prefix)
unfoldable pub has_prefix : Str → Str → Bool
has_prefix p [] = true
has_prefix [] (c ∷ cs) = false
has_prefix (d ∷ ds) (c ∷ cs) = let rest = has_prefix ds cs in if d == c then rest else false

-- One element of a path in path.Clean; the stack has the last element first.
abbrev pub go_up : Bool → List Str → List Str
go_up true [] = []
go_up false [] = str ".." ∷ []
go_up rooted (s ∷ ss) = if str_eq s (str "..") then str ".." ∷ s ∷ ss else ss

abbrev pub resolve : Bool → List Str → Str → List Str
resolve rooted stack s =
    if str_eq s [] || str_eq s (str ".")
    then stack
    else if str_eq s (str "..")
    then go_up rooted stack
    else s ∷ stack

unfoldable pub resolve_all : Bool → List Str → List Str → List Str
resolve_all rooted stack [] = stack
resolve_all rooted stack (s ∷ ss) = resolve_all rooted (resolve rooted stack s) ss

-- strings.Join(ss, "/")
unfoldable pub join_slash : List Str → Str
join_slash [] = []
join_slash (s ∷ []) = s
join_slash (s ∷ t ∷ ss) = s ++ (slash ∷ join_slash (t ∷ ss))

abbrev pub or_dot : Str → Str
or_dot [] = str "."
or_dot (c ∷ cs) = c ∷ cs

-- path.Clean
unfoldable pub clean : Str → Str
clean [] = str "."
clean (c ∷ cs) =
    if c == slash
    then slash ∷ join_slash (reverse (resolve_all true [] (segments cs)))
    else or_dot (join_slash (reverse (resolve_all false [] (segments (c ∷ cs)))))

-- The path up to its last slash, and without the slashes at its end.
abbrev pub keep_slash : ℕ → Str → Str
keep_slash c [] = if c == slash then c ∷ [] else []
keep_slash c (d ∷ ds) = c ∷ d ∷ ds

unfoldable pub upto_slash : Str → Str
upto_slash [] = []
upto_slash (c ∷ cs) = keep_slash c (upto_slash cs)

abbrev pub drop_slash : ℕ → Str → Str
drop_slash c [] = if c == slash then [] else c ∷ []
drop_slash c (d ∷ ds) = c ∷ d ∷ ds

unfoldable pub strip_slashes : Str → Str
strip_slashes [] = []
strip_slashes (c ∷ cs) = drop_slash c (strip_slashes cs)

unfoldable pub last_segment : List Str → Str
last_segment [] = []
last_segment (s ∷ []) = s
last_segment (s ∷ t ∷ ss) = last_segment (t ∷ ss)

-- path.Dir
unfoldable pub dir : Str → Str
dir p = clean (upto_slash p)

abbrev pub or_slash : Str → Str
or_slash [] = str "/"
or_slash (c ∷ cs) = c ∷ cs

-- path.Base
unfoldable pub base : Str → Str
base [] = str "."
base (c ∷ cs) = or_slash (last_segment (segments (strip_slashes (c ∷ cs))))

abbrev pub nonempty : List Str → List Str
nonempty [] = []
nonempty ([] ∷ ss) = nonempty ss
nonempty ((c ∷ cs) ∷ ss) = (c ∷ cs) ∷ nonempty ss

abbrev pub clean_joined : List Str → Str
clean_joined [] = []
clean_joined (s ∷ ss) = clean (join_slash (s ∷ ss))

-- path.Join
unfoldable pub join : List Str → Str
join ss = clean_joined (nonempty ss)

-- A path from the root.
abbrev pub Rooted : Str → Type 0
Rooted p = (cs : Str) × (p ≡ slash ∷ cs)
