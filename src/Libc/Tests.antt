-- ===== src/Libc/Tests.antt =====
-- Blocks that overlap, and two strings.
use project_k.Base.{◌+◌, ◌≡◌, refl, arith, if◌then◌else◌, ◌==◌, inl, inr, some}
use project_k.Libc.{
  Memory, copy_down, memmove, memset, memchr, strnlen, strnlen_loop, strcpy, strcat, strncpy,
  strncpy_loop,
}
use project_k.Libc.Blocks.{block, memmove-block}
use project_k.Base.Int.{ℤ, pos}
use project_k.Libc.Compare.{minus, tolower, memcmp, strcmp, strncmp, strcasecmp, strncasecmp}
use project_k.Libc.Order.{Bytes, Same, strcmp-Same, memcmp-Same}
use project_k.Libc.Texts.{IsString, Copied, strcpy-Copied, strcat-Copied}

-- "ab" at 10, "c" at 20, and what the addresses are elsewhere.
abbrev memory : Memory
memory a =
    if a == 10
    then b'a'
    else if a == 11
    then b'b'
    else if a == 12
    then 0
    else if a == 20
    then b'c'
    else if a == 21
    then 0
    else a

ab : IsString memory 10 2
ab = record { ends = refl; goes_on = λ j h. ground arith }

c : IsString memory 20 1
c = record { ends = refl; goes_on = λ j h. ground arith }

memmove-block_example : memmove 11 10 3 memory 12 ≡ block 11 3 (λ j. memory (10 + j)) memory 12
memmove-block_example = memmove-block 11 10 3 memory 12

memmove_run : memmove 11 10 3 memory 12 ≡ b'b'
unfolding memmove copy_down
memmove_run = refl

strcpy-Copied_test : (m' : Memory) × (strcpy 9 40 10 memory ≡ some m') × Copied 40 10 2 memory m'
strcpy-Copied_test = strcpy-Copied 9 40 10 2 memory ab (inr (omega arith)) (omega arith)

strcat-Copied_example : (m' : Memory) × (strcat 9 10 20 memory ≡ some m') × Copied 12 20 1 memory m'
strcat-Copied_example =
    strcat-Copied 9 10 2 20 1 memory ab c (inl (omega arith)) (omega arith) (omega arith)

memchr_run : memchr 10 0x162 3 memory ≡ some 11
unfolding memchr
memchr_run = refl

strnlen_run : strnlen 10 5 memory ≡ 2
unfolding strnlen strnlen_loop
strnlen_run = refl

-- The bytes behind the copied string are filled with zeros.
strncpy_run : strncpy 60 10 4 memory 63 ≡ 0
unfolding strncpy strncpy_loop memset
strncpy_run = refl

-- "aB" at 0 and "Ab" behind it at 3.
abbrev letters : Memory
letters a =
    if a == 0
    then b'a'
    else if a == 1
    then b'B'
    else if a == 3
    then b'A'
    else if a == 4
    then b'b'
    else 0

letters-Bytes : Bytes letters
letters-Bytes a = ground arith

letters-IsString : IsString letters 0 2
letters-IsString = record { ends = refl; goes_on = λ j h. ground arith }

strcmp-Same_example :
    (r : ℤ) × (strcmp 9 0 3 letters ≡ some r)
    × (r ≡ pos 0 → Same letters 0 3 3)
    × (Same letters 0 3 3 → r ≡ pos 0)
strcmp-Same_example = strcmp-Same 9 0 3 2 letters letters-Bytes letters-IsString (omega arith)

memcmp-Same_test :
    (memcmp 0 3 2 letters ≡ pos 0 → Same letters 0 3 2)
    × (Same letters 0 3 2 → memcmp 0 3 2 letters ≡ pos 0)
memcmp-Same_test = memcmp-Same 0 3 2 letters letters-Bytes

-- The first letters differ, but not without their case.
strncmp_run : strncmp 0 3 1 letters ≡ pos 32
unfolding strncmp minus
strncmp_run = refl

strcasecmp_run : strcasecmp 9 0 3 letters ≡ some (pos 0)
unfolding strcasecmp tolower minus
strcasecmp_run = refl

strncasecmp_run : strncasecmp 0 3 2 letters ≡ pos 0
unfolding strncasecmp tolower minus
strncasecmp_run = refl
