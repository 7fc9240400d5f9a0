-- ===== src/Aml/Moves.antt =====
-- kernel/drivers/acpi-aml/src/parser.rs: where a method of the parser leaves the cursor.
use mars.Aml.Reader.{
  get_cursor, read_u8, take_bytes, read_le, pkg_length_bytes, read_pkg_length, from_le_bytes,
  pkg_length_rest, count_prefix, skip_prefix, name_segments, slice_from, read_name_path,
  package_rest,
}
use mars.Aml.Types.{
  AmlParser, M, pure, AmlError, Read, ◌>>=◌, out_of_fuel, got, failed, after, fail, underflow,
  overflow,
}
use mars.Prelude.{
  ℕ, zero, suc, ◌+◌, ◌-◌, ◌*◌, ◌/◌, ◌%◌, ◌^◌, ◌≤◌, max, ◌≡◌, refl, ap, ◌∙◌, ◌≢◌, inl, inr, Bool,
  true, false, List, [], ◌∷◌, arith, ltb, leb, ◌==◌, if◌then◌else◌, leb→le, Bool-cases,
  Option-cases, length, get_elem?, take, drop, get_elem?-lt, length-drop,
}

-- The method keeps the bytes, never moves the cursor back or beyond the end, moves it by at least `k`
-- if it gives a result, and does not run out of fuel.
pub record Moved {A : Type 0} (k : ℕ) (p : AmlParser) (out : Read A × AmlParser) : Type 0 where
  pub same : out.1.bytes ≡ p.bytes
  pub forward : p.cursor ≤ out.1.cursor
  pub inside : out.1.cursor ≤ max p.cursor (length p.bytes)
  pub gains : (a : A) → out.0 ≡ got a → p.cursor + k ≤ out.1.cursor
  pub enough : out.0 ≢ failed out_of_fuel

-- The same of each call on these bytes with the cursor at `c` or behind.
abbrev pub Moves : {A : Type 0} → List ℕ → ℕ → ℕ → M A → Type 0
Moves bytes c k m = (p : AmlParser) → p.bytes ≡ bytes → c ≤ p.cursor → Moved k p (m p)

pub after-Moved :
    {A B : Type 0} (j k : ℕ) (p : AmlParser) (out : Read A × AmlParser) (f : A → M B)
    → Moved j p out
    → ((a : A) → out.0 ≡ got a → Moved k out.1 (f a out.1))
    → Moved (j + k) p (after out f)
after-Moved j k p (got a, q) f first rest =
    let second = rest a refl in
    record {
      same = second.same ∙ first.same;
      forward = omega (arith, first.forward, second.forward);
      inside = omega (arith, first.inside, second.inside, ap length first.same);
      gains = λ b e. omega (arith, first.gains a refl, second.gains b e);
      enough = second.enough;
    }
after-Moved j k p (failed e, q) f first rest = record {
  same = first.same;
  forward = first.forward;
  inside = first.inside;
  gains = λ b e. cc;
  enough = λ e. first.enough (cc);
}

pub goes_on :
    {A : Type 0} (k : ℕ) (p : AmlParser) (a : A) (c : ℕ)
    → p.cursor + k ≤ c
    → c ≤ max p.cursor (length p.bytes)
    → Moved k p (got a, record p { cursor = c })
goes_on k p a c le le' = record {
  same = refl;
  forward = omega arith;
  inside = le';
  gains = λ b e. le;
  enough = λ e. cc;
}

pub settles :
    {A : Type 0} (p : AmlParser) (r : Read A) (c : ℕ)
    → p.cursor ≤ c
    → c ≤ max p.cursor (length p.bytes)
    → r ≢ failed out_of_fuel
    → Moved 0 p (r, record p { cursor = c })
settles p r c le le' ne = record {
  same = refl;
  forward = le;
  inside = le';
  gains = λ a e. omega arith;
  enough = ne;
}

pub stays :
    {A : Type 0} (k : ℕ) (p : AmlParser) (e : AmlError)
    → e ≢ out_of_fuel
    → Moved {A = A} k p (failed e, p)
stays k p e ne = record {
  same = refl;
  forward = omega arith;
  inside = omega arith;
  gains = λ b e. cc;
  enough = λ e. ne (cc);
}

pub weaker :
    {A : Type 0} {k : ℕ} {p : AmlParser} {out : Read A × AmlParser} → Moved k p out → Moved 0 p out
weaker moved = record {
  same = moved.same;
  forward = moved.forward;
  inside = moved.inside;
  gains = λ a e. omega (arith, moved.forward);
  enough = moved.enough;
}

count_prefix-le : (bs : List ℕ) → count_prefix bs ≤ length bs
unfolding count_prefix
count_prefix-le [] = omega arith
count_prefix-le (b ∷ bs) = let rest = count_prefix-le bs in ground arith

module _ {bytes : List ℕ} {c : ℕ} where
  pub >>=-Moves :
      {A B : Type 0} {m : M A} {f : A → M B} (j k : ℕ)
      → Moves bytes c j m
      → ((a : A) → Moves bytes c k (f a))
      → Moves bytes c (j + k) (m >>= f)
  >>=-Moves {m = m} {f} j k first rest p e lt =
      let moved = first p e lt in
      after-Moved j k p (m p) f moved
        λ a got_a. rest a (m p).1 (moved.same ∙ e) (omega (arith, moved.forward))

  pub if-Moves :
      {A : Type 0} {m n : M A} {k : ℕ} (b : Bool)
      → Moves bytes c k m
      → Moves bytes c k n
      → Moves bytes c k (if b then m else n)
  if-Moves true first second = first
  if-Moves false first second = second

  pub pure-Moves : {A : Type 0} (a : A) → Moves bytes c 0 (pure a)
  pure-Moves a p e lt = goes_on 0 p a p.cursor (omega arith) (omega arith)

  pub fail-Moves :
      {A : Type 0} (k : ℕ) (e : AmlError) → e ≢ out_of_fuel → Moves {A = A} bytes c k (fail e)
  fail-Moves k e ne p same lt = stays k p e ne

  pub get_cursor-Moves : Moves bytes c 0 get_cursor
  get_cursor-Moves p = pure-Moves p.cursor p

  pub read_u8-Moves : Moves bytes c 1 read_u8
  unfolding read_u8
  read_u8-Moves p e lt = elim (Option-cases (get_elem? p.bytes p.cursor)) [
    | inl missing ↦ rw (read_u8, missing) (stays 1 p underflow (λ e. cc))
    | inr (b, here) ↦
        let there = get_elem?-lt p.bytes p.cursor here in
        rw (read_u8, here) (goes_on 1 p b (p.cursor + 1) (omega arith) (omega arith))
  ]

  pub take_bytes-Moves : (len : ℕ) → Moves bytes c 0 (take_bytes len)
  unfolding take_bytes
  take_bytes-Moves len p e lt = elim (Bool-cases (leb (p.cursor + len) (length p.bytes))) [
    | inl fits ↦
        let within = leb→le (p.cursor + len) (length p.bytes) fits in
        rw (take_bytes, fits) (goes_on 0 p _ (p.cursor + len) (omega arith) (omega arith))
    | inr short ↦ rw (take_bytes, short) (stays 0 p overflow (λ e. cc))
  ]

  pub read_le-Moves : (n : ℕ) → Moves bytes c 0 (read_le n)
  unfolding read_le
  read_le-Moves n = >>=-Moves 0 0 (take_bytes-Moves n) λ bs. pure-Moves (from_le_bytes bs)

  pub pkg_length_bytes-Moves :
      (more shift len : ℕ) → Moves bytes c 0 (pkg_length_bytes more shift len)
  unfolding pkg_length_bytes
  pkg_length_bytes-Moves zero shift len = pure-Moves len
  pkg_length_bytes-Moves (suc more) shift len =
      >>=-Moves 0 0 (λ p e lt. weaker (read_u8-Moves p e lt))
        λ next. pkg_length_bytes-Moves more (shift + 8) (len + next * 2 ^ shift)

  pub read_pkg_length-Moves : Moves bytes c 1 read_pkg_length
  unfolding read_pkg_length pkg_length_rest
  read_pkg_length-Moves = >>=-Moves 1 0 read_u8-Moves λ lead.
      if-Moves (lead / 64 == 0) (pure-Moves (lead % 64))
        (pkg_length_bytes-Moves (lead / 64) 4 (lead % 16))

  skip_prefix-Moves : Moves bytes c 0 skip_prefix
  unfolding skip_prefix
  skip_prefix-Moves p e lt =
      goes_on 0 p tt (p.cursor + count_prefix (drop p.cursor p.bytes)) (omega arith)
        (omega (arith, count_prefix-le (drop p.cursor p.bytes), length-drop p.cursor p.bytes))

  name_segments-Moves : (prefix : ℕ) → Moves bytes c 0 (name_segments prefix)
  unfolding name_segments
  name_segments-Moves prefix = if-Moves (prefix == 0) (pure-Moves []) (
      if-Moves (prefix == 0x2E) (take_bytes-Moves 8) (
        if-Moves (prefix == 0x2F)
          (>>=-Moves 0 0 (λ p e lt. weaker (read_u8-Moves p e lt))
            λ count. take_bytes-Moves (count * 4))
          (take_bytes-Moves 3)))

  slice_from-Moves : (start : ℕ) → Moves bytes c 0 (slice_from start)
  slice_from-Moves start p = pure-Moves (take (p.cursor - start) (drop start p.bytes)) p

  pub read_name_path-Moves : Moves bytes c 1 read_name_path
  unfolding read_name_path
  read_name_path-Moves = >>=-Moves 0 1 get_cursor-Moves λ start.
      >>=-Moves 0 1 skip_prefix-Moves λ _.
        >>=-Moves 1 0 read_u8-Moves
          λ prefix. >>=-Moves 0 0 (name_segments-Moves prefix) λ segments. slice_from-Moves start

  pub package_rest-Moves :
      (start len : ℕ) (e : AmlError) → e ≢ out_of_fuel → Moves bytes c 0 (package_rest start len e)
  unfolding package_rest
  package_rest-Moves start len e ne = >>=-Moves 0 0 get_cursor-Moves λ here.
      if-Moves (ltb len (here - start)) (fail-Moves 0 e ne)
        (take_bytes-Moves (len - (here - start)))
