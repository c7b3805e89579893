-- ===== src/Libc/Compare.antt =====
-- The comparisons of libs/libc: `memcmp`, `strcmp`, `strncmp`, `strcasecmp` and `strncasecmp`.
use project_k.Base.{
  ℕ, zero, suc, ◌+◌, ◌-◌, ◌%◌, leb, ◌==◌, ◌&&◌, not, if◌then◌else◌, Option, none, some,
}
use project_k.Base.Int.{ℤ, pos, negsuc}
use project_k.Libc.{Memory}

-- `a - b`.
unfoldable pub minus : ℕ → ℕ → ℤ
minus a b = if leb b a then pos (a - b) else negsuc (b - a - 1)

-- `*s1 - *s2`: a `char` is signed, so that the bytes from 128 on come before the others.
abbrev pub difference : ℕ → ℕ → ℤ
difference c d = minus ((c + 128) % 256) ((d + 128) % 256)

-- On the bytes from 128 on, which are negative, it changes nothing.
unfoldable pub tolower : ℕ → ℕ
tolower c = if leb b'A' c && leb c b'Z' then c + 32 else c

unfoldable pub memcmp : (s1 s2 n : ℕ) → Memory → ℤ
memcmp s1 s2 zero m = pos 0
memcmp s1 s2 (suc n) m =
    let rest = memcmp (s1 + 1) (s2 + 1) n m in
    if not (m s1 == m s2) then difference (m s1) (m s2) else rest

unfoldable pub strcmp : (fuel s1 s2 : ℕ) → Memory → Option ℤ
strcmp zero s1 s2 m = none
strcmp (suc fuel) s1 s2 m =
    let rest = strcmp fuel (s1 + 1) (s2 + 1) m in
    if m s1 == m s2 && not (m s1 == 0) then rest else some (difference (m s1) (m s2))

unfoldable pub strncmp : (s1 s2 n : ℕ) → Memory → ℤ
strncmp s1 s2 zero m = pos 0
strncmp s1 s2 (suc n) m =
    let rest = strncmp (s1 + 1) (s2 + 1) n m in
    if m s1 == m s2 && not (m s1 == 0) then rest else difference (m s1) (m s2)

unfoldable pub strcasecmp : (fuel s1 s2 : ℕ) → Memory → Option ℤ
strcasecmp zero s1 s2 m = none
strcasecmp (suc fuel) s1 s2 m =
    let result = some (difference (tolower (m s1)) (tolower (m s2))) in
    let rest = strcasecmp fuel (s1 + 1) (s2 + 1) m in
    if m s1 == 0 then result else if not (tolower (m s1) == tolower (m s2)) then result else rest

unfoldable pub strncasecmp : (s1 s2 n : ℕ) → Memory → ℤ
strncasecmp s1 s2 zero m = pos 0
strncasecmp s1 s2 (suc n) m =
    let result = difference (tolower (m s1)) (tolower (m s2)) in
    let rest = strncasecmp (s1 + 1) (s2 + 1) n m in
    if m s1 == 0 then result else if not (tolower (m s1) == tolower (m s2)) then result else rest
