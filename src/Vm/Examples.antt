-- ===== src/Vm/Examples.antt =====
-- Page tables at a concrete memory: a root and two tables below it, and two pages of data.
use mathlib.Core.Path.{subst}
use os_proc_lap02_system_cal.Prelude.{
  ℕ, ◌+◌, ◌/◌, ◌%◌, ◌≤◌, ◌<◌, ◌≡◌, refl, false, none, some, [], ◌∷◌, arith, ℕ_discrete, update,
  update_ne,
}
use os_proc_lap02_system_cal.Kalloc.FreeList.{FreeList}
use os_proc_lap02_system_cal.Vm.{Phys, is_v, leaf, mappages}
use os_proc_lap02_system_cal.Vm.Space.{uvmunmap, put_bytes}
use os_proc_lap02_system_cal.Vm.Copy.{copyin, copyout, copyinstr}
use os_proc_lap02_system_cal.Vm.Tree.{Tags, Tree, entry_from}
use os_proc_lap02_system_cal.Vm.Attach.{attached, attached-Tree}
use os_proc_lap02_system_cal.Vm.Mapping.{stored-Tree, entry_from-page}
use os_proc_lap02_system_cal.Vm.Mapped.{MappedBy, mappages-Mapped}
use os_proc_lap02_system_cal.Vm.Unmapping.{Unmapped, IsLeaf, uvmunmap-Unmapped}
use os_proc_lap02_system_cal.Vm.User.{user_page, user_bytes, prepend}
use os_proc_lap02_system_cal.Vm.Access.{copyin-user}
use os_proc_lap02_system_cal.Vm.Strings.{user_string, copyinstr-user}
use os_proc_lap02_system_cal.Vm.Storing.{write_page, store_user}
use os_proc_lap02_system_cal.Vm.Copyout.{copyout-user}

abbrev root : ℕ
root = 0x8003_0000

abbrev middle : ℕ
middle = 0x8003_1000

abbrev lowest : ℕ
lowest = 0x8003_2000

abbrev page_a : ℕ
page_a = 0x8003_3000

abbrev page_b : ℕ
page_b = 0x8003_4000

abbrev no_tags : Tags
no_tags = update (λ _. none) root (some (2, 0))

abbrev no_words : ℕ → ℕ
no_words _ = 0

empty-Tree : Tree root no_tags no_words
empty-Tree = record {
  root_tag = refl;
  aligned = λ p l v e. elim (ℕ_discrete root p) [
    | yes z ↦ subst (λ q. q % 4096 ≡ 0) z refl
    | no ne ↦ let z : no_tags p ≡ none = update_ne (λ _. none) root p (some (2, 0)) ne in cc (e, z)
  ];
  positive = λ p l v e. elim (ℕ_discrete root p) [
    | yes z ↦ subst (λ q. 0 < q) z (omega arith)
    | no ne ↦ let z : no_tags p ≡ none = update_ne (λ _. none) root p (some (2, 0)) ne in cc (e, z)
  ];
  child = λ p l v i e lt valid. cc valid;
}

abbrev middle_tags : Tags
middle_tags = update no_tags middle (some (1, 0))

abbrev middle_words : ℕ → ℕ
middle_words = attached root middle no_words

middle-Tree : Tree root middle_tags middle_words
middle-Tree =
    attached-Tree root no_tags no_words empty-Tree root 1 0 0 middle refl (omega arith) refl refl
      refl (omega arith) (omega arith)

abbrev tags : Tags
tags = update middle_tags lowest (some (0, 0))

abbrev table_words : ℕ → ℕ
table_words = attached middle lowest middle_words

table-Tree : Tree root tags table_words
table-Tree =
    attached-Tree root middle_tags middle_words middle-Tree middle 0 0 0 lowest refl (omega arith)
      refl refl refl (omega arith) (omega arith)

-- Page 1 is readable and writable, page 2 only readable, both by user code.
abbrev words : ℕ → ℕ
words = update (update table_words (lowest + 8) (leaf page_a 22)) (lowest + 16) (leaf page_b 18)

words-Tree : Tree root tags words
words-Tree =
    stored-Tree root tags lowest 0 2 (leaf page_b 18)
      (update table_words (lowest + 8) (leaf page_a 22))
      (stored-Tree root tags lowest 0 1 (leaf page_a 22) table_words table-Tree refl (omega arith))
      refl (omega arith)

abbrev memory : Phys
memory = record {
  kmem = record { freelist = 0; next = λ _. 0 };
  words = words;
  bytes = put_bytes (page_a + 4094) (104 ∷ 105 ∷ []) (put_bytes page_b (33 ∷ 0 ∷ 7 ∷ []) (λ _. 0));
}

abbrev kernel_end : ℕ
kernel_end = 0x8002_1a30

-- Three free pages, for two tables and one more.
abbrev fresh_memory : Phys
fresh_memory = record {
  kmem = record { freelist = middle; next = update (update (λ _. 0) middle lowest) lowest page_a };
  words = no_words;
  bytes = λ _. 0;
}

fresh_memory-FreeList : FreeList kernel_end fresh_memory.kmem (middle ∷ lowest ∷ page_a ∷ [])
fresh_memory-FreeList = record {
  chain = (refl, (refl, (refl, refl)));
  pages = (
    record { aligned = refl; above = omega arith; below = omega arith },
    (
      record { aligned = refl; above = omega arith; below = omega arith },
      (record { aligned = refl; above = omega arith; below = omega arith }, tt),
    ),
  );
  distinct = ((omega arith, (omega arith, tt)), ((omega arith, tt), (tt, tt)));
}

no_entries : (x : ℕ) → is_v (entry_from 2 root x no_words) ≡ false
unfolding entry_from
no_entries x = refl

first-IsLeaf :
    (x : ℕ)
    → 0x1000 / 4096 ≤ x / 4096
    → x / 4096 < 0x1000 / 4096 + 1
    → IsLeaf (entry_from 2 root x words)
unfolding entry_from
first-IsLeaf x lo hi =
    subst IsLeaf (entry_from-page 2 root 0x1000 x words (omega arith)) (refl, omega arith)

mappages-Mapped_example :
    MappedBy kernel_end root 2 0x1000 page_b 22 fresh_memory
      (mappages root 0x1000 8192 page_b 22 fresh_memory)
mappages-Mapped_example =
    mappages-Mapped kernel_end root (omega arith) no_tags 2 0x1000 page_b 22 fresh_memory
      (middle ∷ lowest ∷ page_a ∷ []) empty-Tree fresh_memory-FreeList (refl, (refl, (refl, tt)))
      refl (omega arith) (omega arith) (λ x lo hi. no_entries x)

uvmunmap-Unmapped_example :
    (m1 : Phys) × (uvmunmap kernel_end root 0x1000 1 false memory ≡ some m1)
    × Unmapped root tags 1 0x1000 memory m1
uvmunmap-Unmapped_example =
    uvmunmap-Unmapped kernel_end root tags 1 0x1000 memory words-Tree refl (omega arith)
      first-IsLeaf

copyin-user_example : copyin root 0x1ffe 4 memory ≡ some (user_bytes root 0x1ffe 4 memory)
copyin-user_example = copyin-user root tags 0x1ffe 4 memory words-Tree

-- The four bytes lie in two pages that are far apart.
read_bytes : user_bytes root 0x1ffe 4 memory ≡ some (104 ∷ 105 ∷ 33 ∷ 0 ∷ [])
unfolding user_bytes user_page prepend entry_from
read_bytes = refl

read_string : user_string root 0x1ffe 8 memory ≡ some (104 ∷ 105 ∷ 33 ∷ [])
unfolding user_string user_page prepend entry_from
read_string = refl

copyout-user_example :
    copyout root 0x1ffe (1 ∷ 2 ∷ 3 ∷ []) memory
    ≡ some (store_user root 0x1ffe (1 ∷ 2 ∷ 3 ∷ []) memory)
copyout-user_example = copyout-user root tags 0x1ffe (1 ∷ 2 ∷ 3 ∷ []) memory words-Tree

-- The third byte is in a page that is not writable.
partial_write : (store_user root 0x1ffe (1 ∷ 2 ∷ 3 ∷ []) memory).0 ≡ false
unfolding store_user write_page user_page entry_from
partial_write = refl

copyinstr-user_example : copyinstr root 0x1ffe 8 memory ≡ some (user_string root 0x1ffe 8 memory)
copyinstr-user_example = copyinstr-user root tags 0x1ffe 8 memory words-Tree
