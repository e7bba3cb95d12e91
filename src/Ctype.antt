-- ===== src/Ctype.antt =====
-- libraries/ctype.c on the codes of bytes. A `char` from 128 on arrives as a negative `int`, which no
-- test of this file accepts, as none accepts its code.
pub mod Laws
use test_os.Base.{ℕ, ◌&&◌, ◌||◌, bit_and, bit_or, leb, ◌==◌, if◌then◌else◌}

-- The `int` -1; stored in a `char` it is 0xff.
abbrev pub minus_one : ℕ
minus_one = 0xffff_ffff

unfoldable pub toupper : ℕ → ℕ
toupper c = if leb b'a' c && leb c b'z' then bit_and c b'_' else minus_one

unfoldable pub tolower : ℕ → ℕ
tolower c = if leb b'A' c && leb c b'Z' then bit_or c b' ' else minus_one

unfoldable pub isspace : ℕ → ℕ
isspace c = if c == 9 || c == 10 || c == 11 || c == 12 || c == 13 || c == b' ' then 1 else 0

unfoldable pub isprint : ℕ → ℕ
isprint c = if leb b' ' c && leb c b'~' then 1 else 0
