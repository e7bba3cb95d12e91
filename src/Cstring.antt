-- ===== src/Cstring.antt =====
-- The string functions of libraries/string.c, over the byte memory. A loop that runs to the
-- terminator is a recursion on fuel; `none` means that the fuel ran out before the code returned.
pub mod Holds
pub mod Compare
pub mod Copy
pub mod Token
mod Examples
use test_os.Base.{
  ℕ, zero, suc, ◌+◌, ◌-◌, ◌%◌, Bool, true, false, not, ◌&&◌, Option, none, some, ◌>>=◌, ltb, ◌==◌,
  if◌then◌else◌,
}
use test_os.Base.Memory.{Memory, store}
use test_os.Block.{promote}
use mathlib.Core.Option

-- `while (*p++);`: the value of `p` behind the loop.
unfoldable pub strlen_loop : ℕ → Memory → ℕ → Option ℕ
strlen_loop zero m p = none
strlen_loop (suc fuel) m p =
    let rest = strlen_loop fuel m (p + 1) in if m p == 0 then some (p + 1) else rest

unfoldable pub strlen : ℕ → Memory → ℕ → Option ℕ
unfolding strlen_loop
strlen fuel m str = Option.map (λ p. p - str - 1) (strlen_loop fuel m str)

-- The `char` that `strcmp` returns: -1, 0 or 1.
pub data Order : Type 0 where
  less same more : Order

-- `<` on two `char`s, which are signed.
abbrev pub char_lt : ℕ → ℕ → Bool
char_lt a b = ltb ((a + 128) % 256) ((b + 128) % 256)

abbrev pub char_order : ℕ → ℕ → Order
char_order a b = if char_lt a b then Order.less else if char_lt b a then Order.more else Order.same

unfoldable pub strcmp_loop : ℕ → Memory → ℕ → ℕ → Option Order
strcmp_loop zero m str1 str2 = none
strcmp_loop (suc fuel) m str1 str2 =
    let rest = strcmp_loop fuel m (str1 + 1) (str2 + 1) in
    if not (m str1 == 0) && m str1 == m str2 then rest else some (char_order (m str1) (m str2))

unfoldable pub strcmp : ℕ → Memory → ℕ → ℕ → Option Order
unfolding strcmp_loop
strcmp fuel m str1 str2 = if str1 == str2 then some Order.same else strcmp_loop fuel m str1 str2

-- `for (; (*str1 = *str2); ++str2, ++str1);`. The function returns its first argument.
unfoldable pub strcpy : ℕ → Memory → ℕ → ℕ → Option Memory
strcpy zero m str1 str2 = none
strcpy (suc fuel) m str1 str2 =
    let m' = store m str1 (m str2) in
    let rest = strcpy fuel m' (str1 + 1) (str2 + 1) in if m str2 == 0 then some m' else rest

-- `while (--n != 0) *d++ = 0;`, with `n` the rounds that are left.
unfoldable pub pad_zero : ℕ → Memory → ℕ → Memory
pad_zero zero m d = m
pad_zero (suc n) m d = pad_zero n (store m d 0) (d + 1)

-- The function returns its first argument.
unfoldable pub strncpy : Memory → ℕ → ℕ → ℕ → Memory
unfolding pad_zero
strncpy m d s zero = m
strncpy m d s (suc n) =
    let m' = store m d (m s) in
    let rest = strncpy m' (d + 1) (s + 1) n in if m s == 0 then pad_zero n m' (d + 1) else rest

-- `ret` is the last match so far, 0 for `NULL`.
unfoldable pub strrchr_loop : ℕ → Memory → ℕ → ℕ → ℕ → Option ℕ
strrchr_loop zero m str c ret = none
strrchr_loop (suc fuel) m str c ret =
    let ret' = if promote (m str) == c then str else ret in
    let rest = strrchr_loop fuel m (str + 1) c ret' in if m str == 0 then some ret' else rest

unfoldable pub strrchr : ℕ → Memory → ℕ → ℕ → Option ℕ
unfolding strrchr_loop
strrchr fuel m str c = strrchr_loop fuel m str c 0

-- `for (spanp = delim; (sc = *spanp++) != 0;) if (c == sc) goto cont;`: whether `c` is found.
unfoldable pub strtok_in_delim : ℕ → Memory → ℕ → ℕ → Option Bool
strtok_in_delim zero m spanp c = none
strtok_in_delim (suc fuel) m spanp c =
    let rest = strtok_in_delim fuel m (spanp + 1) c in
    if m spanp == 0 then some false else if c == m spanp then some true else rest

-- The loop around `cont`: the address of the first byte that is no delimiter (`str - 1` in the code).
-- Each walk over the delimiters has `span` rounds.
unfoldable pub strtok_skip : ℕ → ℕ → Memory → ℕ → ℕ → Option ℕ
strtok_skip span zero m str delim = none
strtok_skip span (suc fuel) m str delim =
    let next = strtok_skip span fuel m (str + 1) delim in
    strtok_in_delim span m delim (m str) >>= λ hit. if hit then next else some str

-- `do { if ((sc = *spanp++) == c) …; } while (sc != 0);`: the terminator counts as a delimiter.
unfoldable pub strtok_in_span : ℕ → Memory → ℕ → ℕ → Option Bool
strtok_in_span zero m spanp c = none
strtok_in_span (suc fuel) m spanp c =
    let rest = strtok_in_span fuel m (spanp + 1) c in
    if m spanp == c then some true else if m spanp == 0 then some false else rest

-- The loop over the token: the address of the byte that ends it.
unfoldable pub strtok_end : ℕ → ℕ → Memory → ℕ → ℕ → Option ℕ
strtok_end span zero m str delim = none
strtok_end span (suc fuel) m str delim =
    let next = strtok_end span fuel m (str + 1) delim in
    strtok_in_span span m delim (m str) >>= λ hit. if hit then some str else next

-- The returned pointer, the static `last`, and the memory.
pub record Tokenizer : Type 0 where
  pub tok : ℕ
  pub last : ℕ
  pub memory : Memory

-- The token ends at `end`: at the terminator, or at a delimiter that is overwritten by one.
unfoldable pub strtok_cut : Memory → ℕ → ℕ → Tokenizer
strtok_cut m tok end =
    if m end == 0
    then record { tok = tok; last = 0; memory = m }
    else record { tok = tok; last = end + 1; memory = store m end 0 }

-- From the first byte that is no delimiter on.
unfoldable pub strtok_from : ℕ → ℕ → Memory → ℕ → ℕ → Option Tokenizer
unfolding strtok_in_span strtok_end strtok_cut
strtok_from span fuel m tok delim =
    if m tok == 0
    then some (record { tok = 0; last = 0; memory = m })
    else strtok_end span fuel m (tok + 1) delim >>= λ end. some (strtok_cut m tok end)

-- `NULL` is 0.
unfoldable pub strtok : ℕ → ℕ → Memory → ℕ → ℕ → ℕ → Option Tokenizer
unfolding strtok_in_delim strtok_skip strtok_from
strtok span fuel m last str delim =
    let str' = if str == 0 then last else str in
    if str' == 0
    then some (record { tok = 0; last = last; memory = m })
    else strtok_skip span fuel m str' delim >>= λ tok. strtok_from span fuel m tok delim
