-- ===== src/Libc.antt =====
-- The memory and string functions of libs/libc. Memory is a function of the address; a loop that
-- only a zero byte ends runs on fuel, and `none` is a loop that the fuel does not end.
pub mod Blocks
pub mod Texts
pub mod Compare
pub mod Order
mod Tests
use project_k.Base.{
  ℕ, zero, suc, ◌+◌, ◌-◌, ◌*◌, ◌%◌, ◌^◌, ltb, ◌==◌, ◌&&◌, ◌||◌, not, if◌then◌else◌, Option, none,
  some, u8,
}

abbrev pub Memory : Type 0
Memory = ℕ → ℕ

-- `*p = v`.
abbrev pub put : Memory → (p v : ℕ) → Memory
put m p v a = if a == p then v else m a

-- The loop of `memcpy`, after `n` rounds.
unfoldable pub memcpy : (dest src n : ℕ) → Memory → Memory
memcpy dest src zero m = m
memcpy dest src (suc n) m = let m = memcpy dest src n m in put m (dest + n) (m (src + n))

-- `while (n-- > 0) d[n] = s[n]`.
unfoldable pub copy_down : (d s n : ℕ) → Memory → Memory
copy_down d s zero m = m
copy_down d s (suc n) m = copy_down d s n (put m (d + n) (m (s + n)))

unfoldable pub memmove : (dest src n : ℕ) → Memory → Memory
memmove dest src n m =
    if ltb src dest && ltb dest (src + n) then copy_down dest src n m else memcpy dest src n m

-- The loop of `memset`, after `n` rounds.
unfoldable pub memset : (s c n : ℕ) → Memory → Memory
memset s c zero m = m
memset s c (suc n) m = put (memset s c n m) (s + n) (u8 c)

-- The pointer to the first byte that is `c`, among `n`.
unfoldable pub memchr : (s c n : ℕ) → Memory → Option ℕ
memchr s c zero m = none
memchr s c (suc n) m = let rest = memchr (s + 1) c n m in if m s == u8 c then some s else rest

-- The end of a string: the loop of `strlen`.
unfoldable pub text_end : (fuel p : ℕ) → Memory → Option ℕ
text_end zero p m = none
text_end (suc fuel) p m = let rest = text_end fuel (p + 1) m in if m p == 0 then some p else rest

infixl 5 ◌>>=◌
abbrev pub ◌>>=◌ {ℓ κ} : {A : Type ℓ} {B : Type κ} → Option A → (A → Option B) → Option B
none >>= f = none
some a >>= f = f a

unfoldable pub strlen : (fuel s : ℕ) → Memory → Option ℕ
strlen fuel s m = text_end fuel s m >>= λ p. some (p - s)

-- The loop of `strnlen`, from index `i` on with `left` rounds to go.
unfoldable pub strnlen_loop : (left s i : ℕ) → Memory → ℕ
strnlen_loop zero s i m = i
strnlen_loop (suc left) s i m =
    let rest = strnlen_loop left s (i + 1) m in if m (s + i) == 0 then i else rest

unfoldable pub strnlen : (s maxlen : ℕ) → Memory → ℕ
strnlen s maxlen m = strnlen_loop maxlen s 0 m

-- The loop of `strcpy` and the zero behind it.
unfoldable pub strcpy : (fuel p src : ℕ) → Memory → Option Memory
strcpy zero p src m = none
strcpy (suc fuel) p src m =
    let rest = strcpy fuel (p + 1) (src + 1) (put m p (m src)) in
    if m src == 0 then some (put m p 0) else rest

unfoldable pub strcat : (fuel dest src : ℕ) → Memory → Option Memory
strcat fuel dest src m = strlen fuel dest m >>= λ n. strcpy fuel (dest + n) src m

-- The loop of `strncpy` from index `i` on, with `left` rounds to go, and the `memset` behind it.
unfoldable pub strncpy_loop : (left dest src i : ℕ) → Memory → Memory
strncpy_loop zero dest src i m = memset (dest + i) 0 0 m
strncpy_loop (suc left) dest src i m =
    let rest = strncpy_loop left dest src (i + 1) (put m (dest + i) (m (src + i))) in
    if m (src + i) == 0 then memset (dest + i) 0 (suc left) m else rest

unfoldable pub strncpy : (dest src n : ℕ) → Memory → Memory
strncpy dest src n m = strncpy_loop n dest src 0 m
