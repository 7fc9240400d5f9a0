-- ===== src/Aml/Parser.antt =====
-- kernel/drivers/acpi-aml/src/parser.rs, lines 16 to 209: `parse_next` and `parse_data_object`.
use mars.Prelude.{
  ℕ, zero, suc, ◌+◌, ◌-◌, max, Bool, ◌&&◌, ◌||◌, Option, none, some, List, [], ◌∷◌, leb, ◌==◌,
  if◌then◌else◌, length, drop,
}
use mars.Aml.Types.{
  ◌>>◌, M, got, AmlValue, AmlTerm, failed, fail, underflow, out_of_fuel, string, pure, ◌>>=◌,
  invalid_utf8, value_zero, op_region, value_one, field_length, scope_length, value_ones,
  device_length, scope, integer, device, new, buffer_length, unsupported_opcode, method_length,
  buffer, method, package_length, name_path,
}
use mars.Aml.Reader.{
  read_u8, read_le, read_name_path, read_pkg_length, is_empty, package_rest, get_cursor,
}

-- The bytes up to the first zero, if there is one.
unfoldable pub until_zero : List ℕ → Option (List ℕ)
until_zero [] = none
until_zero (b ∷ bs) =
    let more : Option (List ℕ) = elim (until_zero bs) [ none ↦ none | some s ↦ some (b ∷ s) ] in
    if b == 0 then some [] else more

-- The characters at which a name path starts.
abbrev pub starts_name : ℕ → Bool
starts_name op =
    op == 0x5C
    || op == 0x5E
    || op == 0x2E
    || op == 0x2F
    || op == b'_'
    || (leb b'A' op && leb op b'Z')

-- `self.cursor -= 1`.
abbrev pub step_back : M (Unit {0})
step_back p = (got tt, record p { cursor = p.cursor - 1 })

-- `valid_utf8` tells whether `core::str::from_utf8` accepts the bytes.
module _ (valid_utf8 : List ℕ → Bool) where
  -- A string, read up to its zero.
  unfoldable pub read_string : M AmlValue
  unfolding until_zero
  read_string p = elim (until_zero (drop p.cursor p.bytes)) [
    | none ↦ (failed underflow, record p { cursor = max p.cursor (length p.bytes) })
    | some s ↦
        let p' = record p { cursor = p.cursor + length s + 1 } in
        if valid_utf8 s then (got (string s), p') else (failed invalid_utf8, p')
  ]

  -- The value that starts with `op`, but for a name path; `nested` reads a value inside.
  unfoldable pub read_value : M AmlValue → ℕ → M AmlValue
  unfolding read_string read_le read_u8 read_pkg_length package_rest
  read_value nested op =
      if op == 0x00
      then pure value_zero
      else if op == 0x01
      then pure value_one
      else if op == 0xFF
      then pure value_ones
      else if op == 0x0A
      then (read_u8 >>= λ v. pure (integer v))
      else if op == 0x0B
      then (read_le 2 >>= λ v. pure (integer v))
      else if op == 0x0C
      then (read_le 4 >>= λ v. pure (integer v))
      else if op == 0x0E
      then (read_le 8 >>= λ v. pure (integer v))
      else if op == 0x0D
      then read_string
      else if op == 0x11
      then (do
        start ← get_cursor
        len ← read_pkg_length
        size ← nested
        body ← package_rest start len buffer_length
        pure (buffer body))
      else if op == 0x12
      then (do
        start ← get_cursor
        len ← read_pkg_length
        count ← read_u8
        body ← package_rest start len package_length
        pure (buffer body))
      else if op == 0x13
      then (do
        start ← get_cursor
        len ← read_pkg_length
        count ← nested
        body ← package_rest start len package_length
        pure (buffer body))
      else if op == 0x5B
      then (read_u8 >>= λ ext. pure (integer 0x5B))
      else pure (integer op)

  unfoldable pub value_at : M AmlValue → ℕ → M AmlValue
  unfolding read_value read_name_path
  value_at nested op =
      if starts_name op
      then (do step_back; path ← read_name_path; pure (name_path path))
      else read_value nested op

  -- `AmlParser::parse_data_object`. The fuel bounds the depth of nesting.
  unfoldable pub parse_data_object : ℕ → M AmlValue
  unfolding read_u8 value_at
  parse_data_object zero = fail out_of_fuel
  parse_data_object (suc fuel) = read_u8 >>= value_at (parse_data_object fuel)

  -- A fuel that is more than the bytes.
  unfoldable pub data_object : M AmlValue
  unfolding parse_data_object
  data_object p = parse_data_object (suc (length p.bytes)) p

  unfoldable pub extended_term : ℕ → M AmlTerm
  unfolding read_name_path read_u8 data_object read_pkg_length package_rest
  extended_term op =
      if op == 0x80
      then (do
        path ← read_name_path
        space ← read_u8
        offset ← data_object
        len ← data_object
        pure (op_region path))
      else if op == 0x81
      then (do
        start ← get_cursor
        len ← read_pkg_length
        region ← read_name_path
        flags ← read_u8
        body ← package_rest start len field_length
        pure AmlTerm.field)
      else if op == 0x82
      then (do
        start ← get_cursor
        len ← read_pkg_length
        path ← read_name_path
        body ← package_rest start len device_length
        pure (device path (new body)))
      else pure (unsupported_opcode op)

  unfoldable pub read_term : ℕ → M AmlTerm
  unfolding read_name_path read_u8 data_object read_pkg_length package_rest extended_term
  read_term op =
      if op == 0x10
      then (do
        start ← get_cursor
        len ← read_pkg_length
        path ← read_name_path
        body ← package_rest start len scope_length
        pure (scope path (new body)))
      else if op == 0x08
      then (do path ← read_name_path; value ← data_object; pure (AmlTerm.name path value))
      else if op == 0x14
      then (do
        start ← get_cursor
        len ← read_pkg_length
        path ← read_name_path
        flags ← read_u8
        code ← package_rest start len method_length
        pure (method path flags code))
      else if op == 0x5B
      then (read_u8 >>= extended_term)
      else pure (unsupported_opcode op)

  -- `AmlParser::parse_next`.
  unfoldable pub parse_next : M (Option AmlTerm)
  unfolding read_u8 read_term
  parse_next p =
      if is_empty p
      then (got none, p)
      else (do op ← read_u8; term ← read_term op; pure (some term)) p
