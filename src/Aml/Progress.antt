-- ===== src/Aml/Progress.antt =====
-- kernel/drivers/acpi-aml/src/parser.rs, `parse_data_object` and `parse_next`: they end, and advance.
use mars.Aml.Reader.{read_u8, get_cursor, read_pkg_length, package_rest, read_name_path, is_empty}
use mars.Aml.Moves.{
  Moves, weaker, if-Moves, read_u8-Moves, pure-Moves, >>=-Moves, read_le-Moves, get_cursor-Moves,
  read_pkg_length-Moves, package_rest-Moves, settles, Moved, stays, read_name_path-Moves,
}
use mars.Aml.Types.{
  M, AmlError, ◌>>=◌, AmlValue, out_of_fuel, pure, integer, buffer_length, buffer, package_length,
  failed, AmlParser, underflow, got, string, invalid_utf8, Read, name_path, op_region, scope_length,
  AmlTerm, field_length, scope, device_length, new, device, method_length, unsupported_opcode,
  method, after,
}
use mars.Aml.Parser.{
  until_zero, read_string, read_value, value_at, parse_data_object, starts_name, data_object,
  extended_term, read_term, parse_next,
}
use mars.Prelude.{
  ℕ, zero, suc, ◌+◌, ◌-◌, ◌≤◌, ◌<◌, max, ◌≡◌, refl, ap, ◌≢◌, ◌↔◌, inl, inr, Bool, true, false,
  Option, none, some, List, [], ◌∷◌, arith, dec_lt, ◌==◌, Bool-cases, Option-cases, length,
  get_elem?, drop, length-drop, get_elem?-lt,
}

until_zero-lt : (bs : List ℕ) {s : List ℕ} → until_zero bs ≡ some s → length s < length bs
unfolding until_zero
until_zero-lt [] e = cc
until_zero-lt (b ∷ bs) {s} e = elim (Option-cases (until_zero bs)) [
  | inl missing ↦ ground arith
  | inr (more, found) ↦ let rest = until_zero-lt bs found in ground arith
]

module _ (valid_utf8 : List ℕ → Bool) where
  module _ {bytes : List ℕ} {c : ℕ} where
    read_string-Moves : Moves bytes c 0 (read_string valid_utf8)
    unfolding read_string
    read_string-Moves p e lt = elim (Option-cases (until_zero (drop p.cursor p.bytes))) [
      | inl missing ↦
          rw (read_string, missing)
            (settles p (failed underflow) (max p.cursor (length p.bytes)) (omega arith)
              (omega arith) λ e. cc)
      | inr (s, found) ↦
          let shorter = until_zero-lt (drop p.cursor p.bytes) found in
          let rest = length-drop p.cursor p.bytes in
          elim (Bool-cases (valid_utf8 s)) [
            | inl valid ↦
                rw (read_string, found, valid)
                  (settles p (got (string s)) (p.cursor + length s + 1) (omega arith) (omega arith)
                    λ e. cc)
            | inr invalid ↦
                rw (read_string, found, invalid)
                  (settles p (failed invalid_utf8) (p.cursor + length s + 1) (omega arith)
                    (omega arith) λ e. cc)
          ]
    ]

    -- A value whose package length is read, then its size by `size`.
    package-Moves :
        {A : Type 0} (size : M A) (e : AmlError)
        → e ≢ out_of_fuel
        → Moves bytes c 0 size
        → Moves bytes c 0 (do
          start ← get_cursor
          len ← read_pkg_length
          n ← size
          body ← package_rest start len e
          pure (buffer body))
    package-Moves size e ne moves = >>=-Moves 0 0 get_cursor-Moves λ start.
        >>=-Moves 0 0 (λ p e lt. weaker (read_pkg_length-Moves p e lt))
          λ len.
            >>=-Moves 0 0 moves λ n.
              >>=-Moves 0 0 (package_rest-Moves start len e ne) λ body. pure-Moves (buffer body)

    integer-Moves : (m : M ℕ) → Moves bytes c 0 m → Moves bytes c 0 (m >>= λ v. pure (integer v))
    integer-Moves m moves = >>=-Moves 0 0 moves λ v. pure-Moves (integer v)

    u8-Moves : Moves bytes c 0 read_u8
    u8-Moves p e lt = weaker (read_u8-Moves p e lt)

    read_value-Moves :
        (nested : M AmlValue) (op : ℕ)
        → Moves bytes c 0 nested
        → Moves bytes c 0 (read_value valid_utf8 nested op)
    unfolding read_value
    read_value-Moves nested op moves = if-Moves (op == 0x00) (pure-Moves _) (
        if-Moves (op == 0x01) (pure-Moves _) (
          if-Moves (op == 0xFF) (pure-Moves _) (
            if-Moves (op == 0x0A) (integer-Moves _ u8-Moves) (
              if-Moves (op == 0x0B) (integer-Moves _ (read_le-Moves 2)) (
                if-Moves (op == 0x0C) (integer-Moves _ (read_le-Moves 4)) (
                  if-Moves (op == 0x0E) (integer-Moves _ (read_le-Moves 8)) (
                    if-Moves (op == 0x0D) read_string-Moves (
                      if-Moves (op == 0x11) (package-Moves nested buffer_length (λ e. cc) moves) (
                        if-Moves (op == 0x12)
                          (package-Moves read_u8 package_length (λ e. cc) u8-Moves)
                          (if-Moves (op == 0x13)
                            (package-Moves nested package_length (λ e. cc) moves)
                            (if-Moves (op == 0x5B)
                              (>>=-Moves 0 0 u8-Moves λ ext. pure-Moves (integer 0x5B))
                              (pure-Moves (integer op)))))))))))))

  behind :
      {A : Type 0} {p : AmlParser} {out : Read A × AmlParser}
      → p.cursor < length p.bytes
      → Moved 0 (record p { cursor = p.cursor + 1 }) out
      → Moved 1 p out
  behind there moved = record {
    same = moved.same;
    forward = omega (arith, moved.forward);
    inside = omega (arith, moved.inside);
    gains = λ a e. omega (arith, moved.gains a e);
    enough = moved.enough;
  }

  value_at-name :
      (nested : M AmlValue) (op : ℕ) (p : AmlParser)
      → starts_name op ≡ true
      → value_at valid_utf8 nested op (record p { cursor = p.cursor + 1 })
        ≡ (read_name_path >>= λ path. pure (name_path path)) p
  unfolding value_at
  value_at-name nested op p name =
      let back : p.cursor + 1 - 1 ≡ p.cursor = omega arith in
      rw (value_at, name)
        (ap
          (λ cursor.
            (read_name_path >>= λ path. pure (name_path path)) (record p { cursor = cursor }))
          back)

  -- With the cursor behind the byte of the operator, as `parse_data_object` calls it.
  value_at-Moved :
      (nested : M AmlValue) (op : ℕ) (p : AmlParser)
      → p.cursor < length p.bytes
      → Moves p.bytes (p.cursor + 1) 0 nested
      → Moved 1 p (value_at valid_utf8 nested op (record p { cursor = p.cursor + 1 }))
  unfolding value_at
  value_at-Moved nested op p there moves = elim (Bool-cases (starts_name op)) [
    | inl name ↦ rw (value_at-name nested op p name) (
        >>=-Moves {c = p.cursor} 1 0 read_name_path-Moves (λ path. pure-Moves (name_path path)) p
          refl (omega arith))
    | inr other ↦
        rw (value_at, other)
          (behind there (
            read_value-Moves nested op moves (record p { cursor = p.cursor + 1 }) refl
              (omega arith)))
  ]

  -- A fuel that is more than the bytes left is enough.
  parse_data_object-Moved :
      (fuel : ℕ) (p : AmlParser)
      → 0 < fuel
      → length p.bytes < p.cursor + fuel
      → Moved 1 p (parse_data_object valid_utf8 fuel p)
  unfolding parse_data_object read_u8
  parse_data_object-Moved zero p pos lt = absurd (omega arith)
  parse_data_object-Moved (suc fuel) p pos lt = elim (Option-cases (get_elem? p.bytes p.cursor)) [
    | inl missing ↦ rw (parse_data_object, read_u8, missing) (stays 1 p underflow λ e. cc)
    | inr (b, here) ↦
        let there = get_elem?-lt p.bytes p.cursor here in
        rw (parse_data_object, read_u8, here)
          (value_at-Moved (parse_data_object valid_utf8 fuel) b p there λ q same behind.
            let lengths = ap length same in
            weaker (parse_data_object-Moved fuel q (omega arith) (omega arith)))
  ]

  module _ {bytes : List ℕ} {c : ℕ} where
    data_object-Moves : Moves bytes c 0 (data_object valid_utf8)
    unfolding data_object
    data_object-Moves p e lt =
        weaker (parse_data_object-Moved (suc (length p.bytes)) p (omega arith) (omega arith))

    path-Moves : Moves bytes c 0 read_name_path
    path-Moves p e lt = weaker (read_name_path-Moves p e lt)

    pkg-Moves : Moves bytes c 0 read_pkg_length
    pkg-Moves p e lt = weaker (read_pkg_length-Moves p e lt)

    -- The parts that a term has behind its package length.
    named-Moves :
        {A : Type 0} (rest : ℕ → ℕ → List ℕ → M A)
        → ((start len : ℕ) (path : List ℕ) → Moves bytes c 0 (rest start len path))
        → Moves bytes c 0 (do
          start ← get_cursor
          len ← read_pkg_length
          path ← read_name_path
          rest start len path)
    named-Moves rest moves = >>=-Moves 0 0 get_cursor-Moves λ start.
        >>=-Moves 0 0 pkg-Moves λ len. >>=-Moves 0 0 path-Moves λ path. moves start len path

    extended_term-Moves : (op : ℕ) → Moves bytes c 0 (extended_term valid_utf8 op)
    unfolding extended_term
    extended_term-Moves op =
        if-Moves (op == 0x80)
          (>>=-Moves 0 0 path-Moves λ path. >>=-Moves 0 0 u8-Moves λ space.
            >>=-Moves 0 0 data_object-Moves
              λ offset. >>=-Moves 0 0 data_object-Moves λ len. pure-Moves (op_region path))
          (if-Moves (op == 0x81)
            (named-Moves _ λ start len region. >>=-Moves 0 0 u8-Moves λ flags.
              >>=-Moves 0 0 (package_rest-Moves start len field_length λ e. cc)
                λ body. pure-Moves AmlTerm.field)
            (if-Moves (op == 0x82)
              (named-Moves _ λ start len path.
                >>=-Moves 0 0 (package_rest-Moves start len device_length λ e. cc)
                  λ body. pure-Moves (device path (new body)))
              (pure-Moves (unsupported_opcode op))))

    read_term-Moves : (op : ℕ) → Moves bytes c 0 (read_term valid_utf8 op)
    unfolding read_term
    read_term-Moves op =
        if-Moves (op == 0x10)
          (named-Moves _ λ start len path.
            >>=-Moves 0 0 (package_rest-Moves start len scope_length λ e. cc)
              λ body. pure-Moves (scope path (new body)))
          (if-Moves (op == 0x08)
            (>>=-Moves 0 0 path-Moves
              λ path. >>=-Moves 0 0 data_object-Moves λ value. pure-Moves (AmlTerm.name path value))
            (if-Moves (op == 0x14)
              (named-Moves _ λ start len path. >>=-Moves 0 0 u8-Moves λ flags.
                >>=-Moves 0 0 (package_rest-Moves start len method_length λ e. cc)
                  λ code. pure-Moves (method path flags code))
              (if-Moves (op == 0x5B) (>>=-Moves 0 0 u8-Moves extended_term-Moves)
                (pure-Moves (unsupported_opcode op)))))

  -- `parse_next` behind its first test.
  abbrev term : M (Option AmlTerm)
  term = do op ← read_u8; term ← read_term valid_utf8 op; pure (some term)

  term-Moved : (p : AmlParser) → Moved 1 p (term p)
  term-Moved p =
      >>=-Moves {c = p.cursor} 1 0 read_u8-Moves
        (λ op. >>=-Moves 0 0 (read_term-Moves op) λ t. pure-Moves (some t)) p refl (omega arith)

  some_term : (out : Read AmlTerm × AmlParser) → (after out λ t. pure (some t)).0 ≢ got none
  some_term (got t, q) e = cc
  some_term (failed e, q) e' = cc

  read_some :
      (out : Read ℕ × AmlParser)
      → (after out λ op. read_term valid_utf8 op >>= λ t. pure (some t)).0 ≢ got none
  read_some (got op, q) = some_term (read_term valid_utf8 op q)
  read_some (failed e, q) = λ e'. cc

  term-some : (p : AmlParser) → (term p).0 ≢ got none
  term-some p = read_some (read_u8 p)

  -- `parse_next` always ends. From a cursor in the bytes it keeps the bytes and moves the cursor
  -- forward, and not beyond the end, whether it fails or not; a term that it gives has moved it by a
  -- byte at least; and it gives none exactly at the end.
  pub parse_next-advances :
      (p : AmlParser)
      → p.cursor ≤ length p.bytes
      → let (result, after) = parse_next valid_utf8 p in
        (result ≢ failed out_of_fuel)
        × (after.bytes ≡ p.bytes)
        × (p.cursor ≤ after.cursor)
        × (after.cursor ≤ length p.bytes)
        × ((term : AmlTerm) → result ≡ got (some term) → p.cursor < after.cursor)
        × ((result ≡ got none) ↔ (p.cursor ≡ length p.bytes))
  unfolding parse_next
  parse_next-advances p le = elim (dec_lt p.cursor (length p.bytes)) [
    | yes more ↦
        let moved = term-Moved p in
        let not_empty : is_empty p ≡ false = ground arith in
        rw (parse_next, not_empty)
          (
            moved.enough,
            moved.same,
            moved.forward,
            omega (arith, moved.inside),
            (λ t e. omega (arith, moved.gains (some t) e)),
            ((λ e. absurd (term-some p e)), λ e. absurd (omega arith)),
          )
    | no end ↦ ground arith
  ]
