-- ===== src/Tools/Patterns.antt =====
-- The regular expressions of backend/app/tools/registry.py, as tests on code points.
pub mod Safety
use cyberlab_kali.Base.{
  ℕ, zero, suc, ◌-◌, leb, ltb, ◌==◌, if◌then◌else◌, Bool, true, false, not, ◌&&◌, ◌||◌, List, [],
  ◌∷◌, ◌++◌, Text, length, any, all,
}

-- `UNSAFE_CHARS`: ; & | ` $ < > newline, carriage return, backslash
unfoldable pub unsafe_char : ℕ → Bool
unsafe_char c =
    c == b';'
    || c == b'&'
    || c == b'|'
    || c == 96
    || c == b'$'
    || c == b'<'
    || c == b'>'
    || c == 10
    || c == 13
    || c == 92

-- `UNSAFE_CHARS.search`
unfoldable pub unsafe_search : Text → Bool
unfolding unsafe_char
unsafe_search s = any unsafe_char s

unfoldable pub is_alnum : ℕ → Bool
is_alnum c = leb b'A' c && leb c b'Z' || leb b'a' c && leb c b'z' || leb b'0' c && leb c b'9'

unfoldable pub is_digit : ℕ → Bool
is_digit c = leb b'0' c && leb c b'9'

-- [A-Za-z0-9.\-:]
unfoldable pub is_host_char : ℕ → Bool
unfolding is_alnum
is_host_char c = is_alnum c || c == b'.' || c == b'-' || c == b':'

-- [A-Za-z0-9.\-:_,/]
unfoldable pub is_string_char : ℕ → Bool
unfolding is_host_char
is_string_char c = is_host_char c || c == b'_' || c == b',' || c == b'/'

-- `$` matches at the end and before a newline at the end, so one such newline is passed over.
unfoldable pub drop_newline : Text → Text
drop_newline [] = []
drop_newline (c ∷ []) = if c == 10 then [] else c ∷ []
drop_newline (c ∷ d ∷ s) = c ∷ drop_newline (d ∷ s)

-- The text before and from the first `/`: no class of the host part has that character.
before_slash : Text → Text
before_slash [] = []
before_slash (c ∷ s) = if c == b'/' then [] else c ∷ before_slash s

from_slash : Text → Text
from_slash [] = []
from_slash (c ∷ s) = if c == b'/' then c ∷ s else from_slash s

ends_alnum : Text → Bool
ends_alnum [] = false
ends_alnum (c ∷ []) = is_alnum c
ends_alnum (c ∷ d ∷ s) = ends_alnum (d ∷ s)

starts_alnum : Text → Bool
starts_alnum [] = false
starts_alnum (c ∷ s) = is_alnum c

-- [A-Za-z0-9]([A-Za-z0-9.\-:]{0,251}[A-Za-z0-9])?
host_match : Text → Bool
unfolding starts_alnum ends_alnum
host_match s = starts_alnum s && ends_alnum s && all is_host_char s && leb (length s) 253

-- (/[0-9]{1,3})?
suffix_match : Text → Bool
suffix_match [] = true
suffix_match (c ∷ s) = c == b'/' && all is_digit s && leb 1 (length s) && leb (length s) 3

-- `TARGET_PATTERN.match`
unfoldable pub target_pattern : Text → Bool
unfolding drop_newline before_slash from_slash host_match suffix_match is_host_char is_digit
target_pattern s =
    let line = drop_newline s in host_match (before_slash line) && suffix_match (from_slash line)

-- `STRING_ARG_PATTERN.match`
unfoldable pub string_arg_pattern : Text → Bool
unfolding drop_newline is_string_char
string_arg_pattern s =
    let line = drop_newline s in
    all is_string_char line && leb 1 (length line) && leb (length line) 256
