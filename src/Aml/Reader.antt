-- ===== src/Aml/Reader.antt =====
-- kernel/drivers/acpi-aml/src/parser.rs, lines 211 to 309: the cursor and what is read at it.
use mars.Prelude.{
  ℕ, zero, suc, ◌+◌, ◌-◌, ◌*◌, ◌/◌, ◌%◌, ◌^◌, Bool, ◌||◌, none, some, List, [], ◌∷◌, ltb, leb, ◌==◌,
  if◌then◌else◌, length, get_elem?, take, drop,
}
use mars.Aml.Types.{
  ◌>>◌, M, AmlParser, got, failed, pure, ◌>>=◌, AmlError, underflow, overflow, fail,
}

-- `AmlParser::is_empty`.
abbrev pub is_empty : AmlParser → Bool
is_empty p = leb (length p.bytes) p.cursor

abbrev pub get_cursor : M ℕ
get_cursor p = (got p.cursor, p)

-- `AmlParser::read_u8`.
unfoldable pub read_u8 : M ℕ
read_u8 p = elim (get_elem? p.bytes p.cursor) [
  | none ↦ (failed underflow, p)
  | some b ↦ (got b, record p { cursor = p.cursor + 1 })
]

-- `AmlParser::take_bytes`.
unfoldable pub take_bytes : ℕ → M (List ℕ)
take_bytes len p =
    if leb (p.cursor + len) (length p.bytes)
    then (got (take len (drop p.cursor p.bytes)), record p { cursor = p.cursor + len })
    else (failed overflow, p)

-- `from_le_bytes`.
unfoldable pub from_le_bytes : List ℕ → ℕ
from_le_bytes [] = 0
from_le_bytes (b ∷ bs) = b + 256 * from_le_bytes bs

-- `read_u16_le`, `read_u32_le` and `read_u64_le`, for their number of bytes.
unfoldable pub read_le : ℕ → M ℕ
unfolding take_bytes from_le_bytes
read_le n = do bs ← take_bytes n; pure (from_le_bytes bs)

-- The loop of `read_pkg_length`: `more` bytes are left, and the next one goes to bit `shift` of `length`,
-- which has no bit there or above, so that `|=` adds.
unfoldable pub pkg_length_bytes : ℕ → ℕ → ℕ → M ℕ
unfolding read_u8
pkg_length_bytes zero shift len = pure len
pkg_length_bytes (suc more) shift len = do
  next ← read_u8
  pkg_length_bytes more (shift + 8) (len + next * 2 ^ shift)

unfoldable pub pkg_length_rest : ℕ → M ℕ
unfolding pkg_length_bytes
pkg_length_rest lead =
    if lead / 64 == 0 then pure (lead % 64) else pkg_length_bytes (lead / 64) 4 (lead % 16)

-- `AmlParser::read_pkg_length`.
unfoldable pub read_pkg_length : M ℕ
unfolding read_u8 pkg_length_rest
read_pkg_length = read_u8 >>= pkg_length_rest

-- The number of root and parent characters at the front.
unfoldable pub count_prefix : List ℕ → ℕ
count_prefix [] = 0
count_prefix (b ∷ bs) =
    let more = suc (count_prefix bs) in if b == 0x5C || b == 0x5E then more else 0

-- The first loop of `read_name_path`.
unfoldable pub skip_prefix : M (Unit {0})
unfolding count_prefix
skip_prefix p = (got tt, record p { cursor = p.cursor + count_prefix (drop p.cursor p.bytes) })

-- The name segments behind the first byte.
unfoldable pub name_segments : ℕ → M (List ℕ)
unfolding take_bytes read_u8
name_segments prefix =
    if prefix == 0
    then pure []
    else if prefix == 0x2E
    then take_bytes 8
    else if prefix == 0x2F
    then (read_u8 >>= λ count. take_bytes (count * 4))
    else take_bytes 3

abbrev pub slice_from : ℕ → M (List ℕ)
slice_from start p = (got (take (p.cursor - start) (drop start p.bytes)), p)

-- `AmlParser::read_name_path`. The slice of the result lies in the bytes, so its `get` does not fail.
unfoldable pub read_name_path : M (List ℕ)
unfolding skip_prefix read_u8 name_segments
read_name_path = do
  start ← get_cursor
  skip_prefix
  prefix ← read_u8
  segments ← name_segments prefix
  slice_from start

-- The rest of a package whose length was read at `start`: `checked_sub`, then `take_bytes`.
unfoldable pub package_rest : ℕ → ℕ → AmlError → M (List ℕ)
unfolding take_bytes
package_rest start pkg_len e = do
  here ← get_cursor
  (if ltb pkg_len (here - start) then fail e else take_bytes (pkg_len - (here - start)))
