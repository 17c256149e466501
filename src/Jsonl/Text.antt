-- ===== src/Jsonl/Text.antt =====
-- What `read_jsonl` uses of the standard library's strings: `str::from_utf8`, `str::lines` and
-- `trim().is_empty()`. A text is the list of its code points.
pub mod Laws
use triggerlane.Common.{
  ℕ, zero, suc, ◌+◌, ◌-◌, ◌*◌, ◌%◌, ◌≡◌, refl, Bool, true, false, ◌&&◌, ◌||◌, Option, none, some,
  List, [], ◌∷◌, ◌++◌, leb, ◌==◌, nat_eq, if◌then◌else◌, all, contains,
}

-- What a first byte announces: the bytes that follow, the range of the next, and its own bits.
unfoldable pub lead : ℕ → Option (ℕ × ℕ × ℕ × ℕ)
lead b =
    if leb b 0x7f
    then some (0, 0, 0, b)
    else if leb 0xc2 b && leb b 0xdf
    then some (1, 0x80, 0xbf, b % 32)
    else if b == 0xe0
    then some (2, 0xa0, 0xbf, b % 16)
    else if b == 0xed
    then some (2, 0x80, 0x9f, b % 16)
    else if leb 0xe1 b && leb b 0xef
    then some (2, 0x80, 0xbf, b % 16)
    else if b == 0xf0
    then some (3, 0x90, 0xbf, b % 8)
    else if leb 0xf1 b && leb b 0xf3
    then some (3, 0x80, 0xbf, b % 8)
    else if b == 0xf4
    then some (3, 0x80, 0x8f, b % 8)
    else none

abbrev pub prepend : List ℕ → Option (List ℕ) → Option (List ℕ)
prepend t none = none
prepend t (some u) = some (t ++ u)

-- A code point is complete when no more bytes follow.
abbrev pub emit : ℕ → ℕ → Option (List ℕ) → Option (List ℕ)
emit zero c rest = prepend (c ∷ []) rest
emit (suc more) c rest = rest

-- The decoder inside a character that wants `more` bytes, the next one from `lo` to `hi`.
unfoldable pub utf8 : ℕ → ℕ → ℕ → ℕ → List ℕ → Option (List ℕ)
utf8 zero lo hi acc [] = some []
utf8 (suc more) lo hi acc [] = none
utf8 zero lo hi acc (b ∷ bytes) = elim (lead b) [
  | none ↦ none
  | some (more, lo', hi', bits) ↦ emit more bits (utf8 more lo' hi' bits bytes)
]
utf8 (suc more) lo hi acc (b ∷ bytes) =
    let c = acc * 64 + b % 64 in
    let rest = emit more c (utf8 more 0x80 0xbf c bytes) in
    if leb lo b && leb b hi then rest else none

-- `str::from_utf8`
unfoldable pub from_utf8 : List ℕ → Option (List ℕ)
unfolding utf8 lead
from_utf8 = utf8 0 0 0 0

-- `strip_suffix('\r')`, on the text before a line feed.
unfoldable pub strip_cr : List ℕ → List ℕ
strip_cr [] = []
strip_cr (c ∷ []) = if c == b'\r' then [] else c ∷ []
strip_cr (c ∷ d ∷ line) = c ∷ strip_cr (d ∷ line)

-- A last line without a line feed is a line if it is not empty.
abbrev pub last_line : List ℕ → List (List ℕ)
last_line [] = []
last_line (c ∷ line) = (c ∷ line) ∷ []

-- `str::lines`, behind the part `line` of the current line.
unfoldable pub lines_from : List ℕ → List ℕ → List (List ℕ)
unfolding strip_cr
lines_from line [] = last_line line
lines_from line (c ∷ text) =
    let rest = lines_from (if c == b'\n' then [] else line ++ c ∷ []) text in
    if c == b'\n' then strip_cr line ∷ rest else rest

unfoldable pub lines : List ℕ → List (List ℕ)
unfolding lines_from
lines = lines_from []

-- `char::is_whitespace`: the code points with the property White_Space.
unfoldable pub is_whitespace : ℕ → Bool
is_whitespace c =
    leb 9 c && leb c 13
    || contains (0x20 ∷ 0x85 ∷ 0xa0 ∷ 0x1680 ∷ 0x2028 ∷ 0x2029 ∷ 0x202f ∷ 0x205f ∷ 0x3000 ∷ []) c
    || leb 0x2000 c && leb c 0x200a

-- `line.trim().is_empty()`
unfoldable pub is_blank : List ℕ → Bool
unfolding is_whitespace
is_blank = all is_whitespace
