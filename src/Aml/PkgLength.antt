-- ===== src/Aml/PkgLength.antt =====
-- kernel/drivers/acpi-aml/src/parser.rs, `read_pkg_length`, against the encoding of ACPI 6.5, 20.2.4.
use mars.Aml.Reader.{read_u8, pkg_length_bytes, read_pkg_length, pkg_length_rest}
use mars.Aml.Types.{AmlParser, got}
use native.Mathlib.Numerals.{unary_clauses}
use mars.Prelude.{
  ℕ, zero, suc, ◌+◌, ◌*◌, ◌/◌, ◌%◌, ◌^◌, ◌<◌, ◌≡◌, refl, ap, ap₂, ◌∙◌, false, some, List, [], ◌∷◌,
  ◌++◌, arith, ◌==◌, get_elem?, drop,
}

-- The lowest `n` bytes of a number, least first.
abbrev pub low_bytes : ℕ → ℕ → List ℕ
low_bytes zero v = []
low_bytes (suc n) v = v % 256 ∷ low_bytes n (v / 256)

-- A package length of one byte, or of `n` bytes behind the first.
abbrev pub pkg_length : ℕ → ℕ → List ℕ
pkg_length zero len = len ∷ []
pkg_length (suc n) len = (64 * suc n + len % 16) ∷ low_bytes (suc n) (len / 16)

-- The lengths that fit.
abbrev pub Fits : ℕ → ℕ → Type 0
Fits zero len = len < 64
Fits (suc n) len = (n < 3) × (len / 16 < 256 ^ suc n)

sum_of_parts : (acc r q x : ℕ) → acc + r * x + q * (256 * x) ≡ acc + (r + 256 * q) * x
sum_of_parts acc r q x = grind arith

step_sum : (acc v x : ℕ) → acc + v % 256 * x + v / 256 * (256 * x) ≡ acc + v * x
step_sum acc v x =
    let parts : v % 256 + 256 * (v / 256) ≡ v = omega arith in
    sum_of_parts acc (v % 256) (v / 256) x ∙ ap (λ w. acc + w * x) parts

shift_pow : (shift : ℕ) → 2 ^ (shift + 8) ≡ 256 * 2 ^ shift
shift_pow shift = simp unary_clauses (omega arith)

shrinks : (n v : ℕ) → v < 256 ^ suc n → v / 256 < 256 ^ n
shrinks n v h = omega arith

drop-∷ :
    (xs : List ℕ) (i : ℕ) {b : ℕ} {bs : List ℕ}
    → drop i xs ≡ b ∷ bs
    → (get_elem? xs i ≡ some b) × (drop (suc i) xs ≡ bs)
drop-∷ [] zero e = cc
drop-∷ [] (suc i) e = cc
drop-∷ (x ∷ xs) zero e = (ap some (cc), cc)
drop-∷ (x ∷ xs) (suc i) e = drop-∷ xs i e

-- `read_u8` where this byte and these come next.
read_u8-next :
    (p : AmlParser) {b : ℕ} {bs : List ℕ}
    → drop p.cursor p.bytes ≡ b ∷ bs
    → (read_u8 p ≡ (got b, record p { cursor = p.cursor + 1 })) × (drop (p.cursor + 1) p.bytes ≡ bs)
unfolding read_u8
read_u8-next p e =
    let (here, rest) = drop-∷ p.bytes p.cursor e in
    let forward : p.cursor + 1 ≡ suc p.cursor = omega arith in
    (rw (read_u8, here) refl, rw forward rest)

-- The loop adds the number that the bytes spell, at its place.
pkg_length_bytes-low :
    (n shift acc v : ℕ) (p : AmlParser) (rest : List ℕ)
    → v < 256 ^ n
    → drop p.cursor p.bytes ≡ low_bytes n v ++ rest
    → pkg_length_bytes n shift acc p
      ≡ (got (acc + v * 2 ^ shift), record p { cursor = p.cursor + n })
unfolding pkg_length_bytes
pkg_length_bytes-low zero shift acc v p more h e =
    let none_left : v ≡ 0 = omega arith in
    let stays : p.cursor + 0 ≡ p.cursor = omega arith in
    rw (none_left, stays) (ap (λ a. (got a, p)) (omega arith))
pkg_length_bytes-low (suc n) shift acc v p more h e =
    let (here, next) = read_u8-next p e in
    let q : AmlParser = record p { cursor = p.cursor + 1 } in
    let rest =
      pkg_length_bytes-low n (shift + 8) (acc + v % 256 * 2 ^ shift) (v / 256) q more
        (shrinks n v h) next in
    rw (pkg_length_bytes, here)
      (rest
        ∙ ap₂ (λ a cursor. (got a, record p { cursor = cursor }))
            (rw (shift_pow shift) (step_sum acc v (2 ^ shift))) (omega arith))

-- A package length that is written at the cursor, in any of the four widths in which it fits, is read
-- back, with the cursor behind it.
pub read_pkg_length-pkg_length :
    (n len : ℕ) (p : AmlParser) (rest : List ℕ)
    → Fits n len
    → drop p.cursor p.bytes ≡ pkg_length n len ++ rest
    → read_pkg_length p ≡ (got len, record p { cursor = p.cursor + suc n })
unfolding read_pkg_length pkg_length_rest
read_pkg_length-pkg_length zero len p rest h e =
    let (here, next) = read_u8-next p e in
    let short : len / 64 ≡ 0 = omega arith in
    let same : len % 64 ≡ len = omega arith in
    rw (read_pkg_length, here, pkg_length_rest, short, same) refl
read_pkg_length-pkg_length (suc n) len p rest (few, h) e =
    let (here, next) = read_u8-next p e in
    let lead = 64 * suc n + len % 16 in
    let count : lead / 64 ≡ suc n = omega arith in
    let several : (suc n == 0) ≡ false = ground arith in
    let low : lead % 16 ≡ len % 16 = omega arith in
    let bytes =
      pkg_length_bytes-low (suc n) 4 (len % 16) (len / 16) (record p { cursor = p.cursor + 1 }) rest
        h next in
    rw (read_pkg_length, here, pkg_length_rest, count, several, low)
      (bytes ∙ ap₂ (λ a cursor. (got a, record p { cursor = cursor })) (omega arith) (omega arith))
