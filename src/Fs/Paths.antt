-- ===== src/Fs/Paths.antt =====
-- kernel/fs.c: path names.
use os_proc_lap02_system_cal.Prelude.{
  ℕ, zero, suc, Bool, true, false, ◌&&◌, Option, none, some, List, [], ◌∷◌, ◌==◌, if◌then◌else◌,
  length, get_or, take, ◌>>=◌,
}
use os_proc_lap02_system_cal.Fs.{Fs, dir_siz, root_dev, root_ino, t_dir}
use os_proc_lap02_system_cal.Fs.Inodes.{iget, idup, ilock, iunlock}
use os_proc_lap02_system_cal.Fs.Content.{iput, iunlockput}
use os_proc_lap02_system_cal.Fs.Dirs.{dirlookup}

-- The character `/`
abbrev pub slash : ℕ
slash = 47

-- The loops of `skipelem` over a path without its terminator: past slashes, to the next slash, and from
-- there on.
unfoldable pub skip_slashes : List ℕ → List ℕ
skip_slashes [] = []
skip_slashes (c ∷ cs) = let rest = skip_slashes cs in if c == slash then rest else c ∷ cs

unfoldable pub element : List ℕ → List ℕ
element [] = []
element (c ∷ cs) = let rest = element cs in if c == slash then [] else c ∷ rest

unfoldable pub after_element : List ℕ → List ℕ
after_element [] = []
after_element (c ∷ cs) = let rest = after_element cs in if c == slash then c ∷ cs else rest

-- The name, which is cut to DIRSIZ bytes, and the path after it; `none` where there is no element.
unfoldable pub skipelem : List ℕ → Option (List ℕ × List ℕ)
unfolding skip_slashes element after_element
skipelem path = elim (skip_slashes path) [
  | [] ↦ none
  | c ∷ cs ↦ some (take dir_siz (element (c ∷ cs)), skip_slashes (after_element (c ∷ cs)))
]

-- The array `name`: what follows a name of less than DIRSIZ bytes is 0.
abbrev pub name_array : List ℕ → ℕ → ℕ
name_array bs i = get_or bs i 0

abbrev pub at_end : List ℕ → Bool
at_end [] = true
at_end (c ∷ cs) = false

-- The body of the loop of `namex` for an element and the rest after it, and then `next_round`.
unfoldable pub one_element :
    ℕ
    → ℕ
    → Bool
    → List ℕ
    → List ℕ
    → (ℕ → Fs → Option (Option ℕ × List ℕ × Fs))
    → Fs
    → Option (Option ℕ × List ℕ × Fs)
unfolding ilock iunlock iunlockput dirlookup
one_element me ip parent elem rest next_round s = ilock me (some ip) s >>= λ t.
    elim ((t.itable ip).type == t_dir) [
      | false ↦ iunlockput me ip t >>= λ u. some (none, elem, u)
      | true ↦ elim (parent && at_end rest) [
        | true ↦ iunlock me (some ip) t >>= λ u. some (some ip, elem, u)
        | false ↦ dirlookup ip (name_array elem) t >>= λ (found, u). elim found [
          | none ↦ iunlockput me ip u >>= λ v. some (none, elem, v)
          | some (next, _) ↦ iunlockput me ip u >>= next_round next
        ]
      ]
    ]

-- The loop of `namex` and what follows it. Each round takes a character of the path, so `fuel` rounds do
-- for a path of less than `fuel` characters.
unfoldable pub namex_from :
    ℕ → ℕ → ℕ → List ℕ → Bool → List ℕ → Fs → Option (Option ℕ × List ℕ × Fs)
unfolding skipelem one_element iput
namex_from zero me ip path parent name s = none
namex_from (suc fuel) me ip path parent name s = elim (skipelem path) [
  | none ↦ if parent then (iput me ip s >>= λ t. some (none, name, t)) else some (some ip, name, s)
  | some (elem, rest) ↦
      one_element me ip parent elem rest (λ next. namex_from fuel me next rest parent elem) s
]

abbrev pub is_absolute : List ℕ → Bool
is_absolute [] = false
is_absolute (c ∷ cs) = c == slash

-- `cwd` is the current directory of the process; `name` is what the caller's array holds before.
unfoldable pub namex : ℕ → ℕ → List ℕ → Bool → List ℕ → Fs → Option (Option ℕ × List ℕ × Fs)
unfolding iget idup namex_from
namex me cwd path parent name s =
    (if is_absolute path then iget root_dev root_ino s else some (idup cwd s)) >>= λ (ip, t).
    namex_from (suc (length path)) me ip path parent name t

unfoldable pub namei : ℕ → ℕ → List ℕ → Fs → Option (Option ℕ × Fs)
unfolding namex
namei me cwd path s = namex me cwd path false [] s >>= λ (ip, name, t). some (ip, t)

unfoldable pub nameiparent : ℕ → ℕ → List ℕ → Fs → Option (Option ℕ × List ℕ × Fs)
unfolding namex
nameiparent me cwd path s = namex me cwd path true [] s
