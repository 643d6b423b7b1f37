-- ===== src/Fs/Dirs.antt =====
-- kernel/fs.c: directories.
use os_proc_lap02_system_cal.Prelude.{
  ℕ, zero, suc, ◌+◌, ◌-◌, ◌*◌, ◌/◌, ◌%◌, Bool, true, false, not, Option, none, some, List, [], ◌∷◌,
  ◌++◌, ltb, ◌==◌, if◌then◌else◌, get_or, take, drop, ◌>>=◌,
}
use os_proc_lap02_system_cal.Prelude.Int.{ℤ, pos, negsuc}
use os_proc_lap02_system_cal.Bytes.{strncmp, strncpy}
use os_proc_lap02_system_cal.Vm.Copy.{get_bytes}
use os_proc_lap02_system_cal.Fs.{Fs, dir_siz, t_dir}
use os_proc_lap02_system_cal.Fs.Inodes.{iget}
use os_proc_lap02_system_cal.Fs.Content.{iput}
use os_proc_lap02_system_cal.Fs.Data.{readi, writei}

-- `either_copyout` and `either_copyin` for a buffer of the kernel: the bytes that came into it, and the
-- bytes that it holds.
abbrev pub to_kernel : ℕ → List ℕ → List ℕ → Option (Bool × List ℕ)
to_kernel dst bs m = some (true, m ++ bs)

abbrev pub from_kernel : ℕ → ℕ → List ℕ → Option (Bool × List ℕ)
from_kernel src n m = some (true, take n (drop src m))

-- Two arrays of DIRSIZ bytes, one after the other.
abbrev pub side_by_side : (ℕ → ℕ) → (ℕ → ℕ) → ℕ → ℕ
side_by_side s t a = if ltb a dir_siz then s a else t (a - dir_siz)

unfoldable pub namecmp : (ℕ → ℕ) → (ℕ → ℕ) → ℤ
unfolding strncmp
namecmp s t = strncmp 0 dir_siz dir_siz (side_by_side s t)

abbrev pub is_pos_zero : ℤ → Bool
is_pos_zero (pos zero) = true
is_pos_zero (pos (suc n)) = false
is_pos_zero (negsuc n) = false

-- The bytes of a `struct dirent`: `inum`, and `name` as `strncpy` fills it.
unfoldable pub dirent_bytes : ℕ → (ℕ → ℕ) → List ℕ
unfolding strncpy
dirent_bytes inum name =
    inum % 256
    ∷ inum / 256 % 256
    ∷ get_bytes dir_siz 0 (strncpy 0 dir_siz dir_siz (side_by_side (λ _. 0) name))

abbrev pub dirent_inum : List ℕ → ℕ
dirent_inum bs = get_or bs 0 0 + 256 * get_or bs 1 0

abbrev pub dirent_name : List ℕ → ℕ → ℕ
dirent_name bs j = get_or bs (j + 2) 0

-- `readi(dp, 0, &de, off, sizeof(de)) != sizeof(de)` is a panic.
unfoldable pub read_dirent : ℕ → ℕ → Fs → Option (List ℕ × Fs)
unfolding readi
read_dirent dp off s = readi (List ℕ) to_kernel from_kernel dp 0 off 16 [] s >>= λ (tot, (de, t)).
    elim tot [ none ↦ none | some n ↦ if n == 16 then some (de, t) else none ]

-- The loop of `dirlookup` with `left` entries left: the inode and the offset of its entry.
unfoldable pub look_from : ℕ → ℕ → ℕ → (ℕ → ℕ) → Fs → Option (Option (ℕ × ℕ) × Fs)
unfolding read_dirent namecmp iget
look_from zero off dp name s = some (none, s)
look_from (suc left) off dp name s = read_dirent dp off s >>= λ (de, t).
    elim (dirent_inum de == 0) [
      | true ↦ look_from left (off + 16) dp name t
      | false ↦ elim (is_pos_zero (namecmp name (dirent_name de))) [
        | false ↦ look_from left (off + 16) dp name t
        | true ↦ iget (t.itable dp).dev (dirent_inum de) t >>= λ (ip, u). some (some (ip, off), u)
      ]
    ]

-- The rounds of a loop over the entries of a directory
abbrev pub entries : ℕ → ℕ
entries size = (size + 15) / 16

unfoldable pub dirlookup : ℕ → (ℕ → ℕ) → Fs → Option (Option (ℕ × ℕ) × Fs)
dirlookup dp name s =
    if not ((s.itable dp).type == t_dir)
    then none
    else look_from (entries (s.itable dp).size) 0 dp name s

-- The loop of `dirlink`: the offset of the first free entry, or of the end.
unfoldable pub free_entry : ℕ → ℕ → ℕ → Fs → Option (ℕ × Fs)
unfolding read_dirent
free_entry zero off dp s = some (off, s)
free_entry (suc left) off dp s = read_dirent dp off s >>= λ (de, t). elim (dirent_inum de == 0) [
  | true ↦ some (off, t)
  | false ↦ free_entry left (off + 16) dp t
]

-- Whether all went well; `false` is -1.
unfoldable pub dirlink : ℕ → ℕ → (ℕ → ℕ) → ℕ → Fs → Option (Bool × Fs)
unfolding dirlookup free_entry iput writei dirent_bytes
dirlink me dp name inum s = dirlookup dp name s >>= λ (found, t). elim found [
  | some (ip, _) ↦ iput me ip t >>= λ u. some (false, u)
  | none ↦ free_entry (entries (t.itable dp).size) 0 dp t >>= λ (off, u).
      writei (List ℕ) to_kernel from_kernel dp 0 off 16 (dirent_bytes inum name) u >>= λ (tot, v).
      elim tot [ none ↦ some (false, v) | some n ↦ some (n == 16, v) ]
]
