-- ===== src/Aml/Text.antt =====
-- kernel/drivers/acpi-aml/src/ast.rs: the text of name paths, and `AmlValueExt`. Texts are lists of
-- characters' codes.
use mars.Prelude.{
  ℕ, zero, suc, ◌+◌, ◌-◌, ◌*◌, ◌/◌, ◌%◌, ◌^◌, ◌&&◌, ◌||◌, Option, none, some, List, [], ◌∷◌, ◌++◌,
  map, ltb, leb, ◌==◌, if◌then◌else◌, length, get_or, take, drop,
}
use mars.Aml.Types.{AmlValue, string, integer, name_path, value_zero, value_one, value_ones}

-- The first loop of `fmt`: the root and parent characters, and what is left behind them.
unfoldable pub path_prefix : List ℕ → List ℕ × List ℕ
path_prefix [] = ([], [])
path_prefix (b ∷ bs) =
    let (more, rest) = path_prefix bs in
    if b == 0x5C || b == 0x5E then (b ∷ more, rest) else ([], b ∷ bs)

-- The number of name segments, and the bytes that they are in.
unfoldable pub segments : List ℕ → ℕ × List ℕ
segments [] = (0, [])
segments (b ∷ bs) =
    if b == 0x00
    then (0, [])
    else if b == 0x2E
    then (2, bs)
    else if b == 0x2F
    then (if leb 1 (length bs) then (get_or bs 0 0, drop 1 bs) else (0, []))
    else (1, b ∷ bs)

-- The loop that leaves off underscores at the end, from `actual_len` on; one character stays.
unfoldable pub actual_len : List ℕ → ℕ → ℕ
actual_len seg zero = 0
actual_len seg (suc k) =
    let shorter = actual_len seg k in
    if get_or seg k 0 == b'_' then (if k == 0 then 1 else shorter) else suc k

-- What is written for a byte of a segment; `is_ascii_graphic` is 0x21 to 0x7E.
abbrev pub shown : ℕ → ℕ
shown b = if (leb 0x21 b && leb b 0x7E) || b == 0x20 || b == b'_' then b else 0x3F

-- The text of a segment of four bytes.
unfoldable pub segment_text : List ℕ → List ℕ
unfolding actual_len
segment_text seg = map shown (take (actual_len seg 4) seg)

abbrev pub dot : ℕ → List ℕ
dot i = if ltb 0 i then 0x2E ∷ [] else []

-- The loop over the segments from number `i` on; `left` are left.
unfoldable pub segment_texts : ℕ → ℕ → List ℕ → List ℕ
unfolding segment_text
segment_texts zero i seg_bytes = []
segment_texts (suc left) i seg_bytes =
    let rest = segment_texts left (i + 1) seg_bytes in
    if ltb (length seg_bytes) (i * 4 + 4)
    then dot i ++ 0x3F ∷ 0x3F ∷ 0x3F ∷ 0x3F ∷ []
    else dot i ++ segment_text (take 4 (drop (i * 4) seg_bytes)) ++ rest

-- `Display` of `AmlNamePath`, as `to_string` gives it.
unfoldable pub path_to_string : List ℕ → List ℕ
unfolding path_prefix segments segment_texts
path_to_string raw =
    let (front, rest) = path_prefix raw in
    let (num_segs, seg_bytes) = segments rest in front ++ segment_texts num_segs 0 seg_bytes

abbrev pub hex_digit : ℕ → ℕ
hex_digit d = if ltb d 10 then 0x30 + d else 0x37 + d

-- `{:04X}` of a number below 2 ^ 16.
abbrev pub hex : ℕ → List ℕ
hex p =
    hex_digit (p / 4096 % 16)
    ∷ hex_digit (p / 256 % 16)
    ∷ hex_digit (p / 16 % 16)
    ∷ hex_digit (p % 16)
    ∷ []

-- `AmlValue::as_string`.
unfoldable pub as_string : AmlValue → Option (List ℕ)
unfolding path_to_string
as_string (string s) = some s
as_string (name_path raw) = some (path_to_string raw)
as_string (integer v) = some (
    (0x40 + v / 2 ^ 26 % 32)
    ∷ (0x40 + v / 2 ^ 21 % 32)
    ∷ (0x40 + v / 2 ^ 16 % 32)
    ∷ hex (v % 2 ^ 16))
as_string _ = none

-- `AmlValue::as_u64`, for the function that `str::parse` is at `u64`.
unfoldable pub as_u64 : (parse : List ℕ → Option ℕ) → AmlValue → Option ℕ
as_u64 parse value_zero = some 0
as_u64 parse value_one = some 1
as_u64 parse value_ones = some (2 ^ 64 - 1)
as_u64 parse (integer v) = some v
as_u64 parse (string s) = parse s
as_u64 parse _ = none
