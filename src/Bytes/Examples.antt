-- ===== src/Bytes/Examples.antt =====
-- Byte operations at concrete memories.
use os_proc_lap02_system_cal.Prelude.{◌≡◌, refl, some, update}
use os_proc_lap02_system_cal.Prelude.Int.{pos, negsuc}
use os_proc_lap02_system_cal.Bytes.{
  Bytes, memset, memcmp, memmove, copy_up, copy_down, strncmp, strncpy, pad, safestrcpy, safe_from,
  strlen,
}
use os_proc_lap02_system_cal.Bytes.Moving.{Moved, memmove-Moved}

-- The string "sh" at 10 and the string "she" at 20.
abbrev words : Bytes
words = update (update (update (update (update (λ _. 0) 10 115) 11 104) 20 115) 21 104) 22 101

memmove-Moved_example : Moved 11 10 3 words (memmove 11 10 3 words)
memmove-Moved_example = memmove-Moved 11 10 3 words

moved_up : memmove 11 10 3 words 12 ≡ 104
unfolding memmove copy_up copy_down
moved_up = refl

compared : (strncmp 10 20 2 words ≡ pos 0) × (strncmp 10 20 3 words ≡ negsuc 100)
unfolding strncmp
compared = (refl, refl)

cut :
    (strlen 9 30 (safestrcpy 30 20 (pos 3) words) ≡ some 2)
    × (strlen 9 30 (strncpy 30 20 14 words) ≡ some 3)
unfolding strlen safestrcpy safe_from strncpy pad
cut = (refl, refl)

filled : (memset 40 511 2 words 41 ≡ 255) × (memcmp 10 20 3 words ≡ negsuc 100)
unfolding memset memcmp
filled = (refl, refl)
