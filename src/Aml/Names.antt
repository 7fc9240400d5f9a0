-- ===== src/Aml/Names.antt =====
-- kernel/drivers/acpi-aml/src/ast.rs: what the texts of names and device numbers keep.
use mathlib.Core.List.{append_assoc, append-nil}
use mars.Aml.Types.{AmlValue}
use mars.Aml.Text.{hex_digit, as_string, actual_len}
use mars.Prelude.{
  ℕ, zero, suc, ◌+◌, ◌-◌, ◌*◌, ◌/◌, ◌%◌, ◌^◌, ◌≤◌, ◌<◌, ◌≡◌, refl, sym, ap, ◌∙◌, ◌≢◌, ◌⊎◌, inl, inr,
  true, false, some, List, [], ◌∷◌, ◌++◌, arith, ℕ_discrete, ltb, ◌==◌, if◌then◌else◌, length,
  get_or, take, replicate,
}

-- A character of a hexadecimal number, back as its digit.
abbrev pub digit_value : ℕ → ℕ
digit_value c = if ltb c 0x40 then c - 0x30 else c - 0x37

-- The number whose text this is: three letters of five bits, and four hexadecimal digits.
abbrev pub device_number : List ℕ → ℕ
device_number (a ∷ b ∷ c ∷ d ∷ e ∷ f ∷ g ∷ []) =
    (a - 0x40) * 2 ^ 26
    + (b - 0x40) * 2 ^ 21
    + (c - 0x40) * 2 ^ 16
    + digit_value d * 4096
    + digit_value e * 256
    + digit_value f * 16
    + digit_value g
device_number _ = 0

digit_value-hex_digit : (d : ℕ) → d < 16 → digit_value (hex_digit d) ≡ d
digit_value-hex_digit d h = ground arith

-- The text that `as_string` gives for an integer below 2 ^ 31 determines the integer.
pub as_string-device_number :
    (v : ℕ)
    → v < 2 ^ 31
    → (t : List ℕ) × (as_string (AmlValue.integer v) ≡ some t) × (device_number t ≡ v)
unfolding as_string
as_string-device_number v h = (
  _,
  refl,
  omega (
    arith,
    digit_value-hex_digit (v % 2 ^ 16 / 4096 % 16) (omega arith),
    digit_value-hex_digit (v % 2 ^ 16 / 256 % 16) (omega arith),
    digit_value-hex_digit (v % 2 ^ 16 / 16 % 16) (omega arith),
    digit_value-hex_digit (v % 2 ^ 16 % 16) (omega arith),
  ),
)

-- Of the first `n` bytes of a segment, the first `len` are left and the others are underscores.
abbrev pub Trimmed : List ℕ → ℕ → ℕ → Type 0
Trimmed seg n len =
    (0 < len)
    × (len ≤ n)
    × (take n seg ≡ take len seg ++ replicate (n - len) b'_')
    × ((len ≡ 1) ⊎ (get_or seg (len - 1) 0 ≢ b'_'))

Trimmed-whole :
    (seg : List ℕ) (n : ℕ) → 0 < n → ((n ≡ 1) ⊎ (get_or seg (n - 1) 0 ≢ b'_')) → Trimmed seg n n
Trimmed-whole seg n pos last =
    let nothing : n - n ≡ 0 = omega arith in
    (pos, omega arith, rw nothing (sym (append-nil (take n seg))), last)

take-suc : (xs : List ℕ) (k : ℕ) → k < length xs → take (suc k) xs ≡ take k xs ++ get_or xs k 0 ∷ []
take-suc [] k h = absurd (omega arith)
take-suc (x ∷ xs) zero h = refl
take-suc (x ∷ xs) (suc k) h = ap (λ ys. x ∷ ys) (take-suc xs k (omega arith))

replicate-suc : (n a : ℕ) → replicate (suc n) a ≡ replicate n a ++ a ∷ []
replicate-suc zero a = refl
replicate-suc (suc n) a = ap (λ ys. a ∷ ys) (replicate-suc n a)

Trimmed-longer :
    (seg : List ℕ) (n len : ℕ)
    → n < length seg
    → get_or seg n 0 ≡ b'_'
    → Trimmed seg n len
    → Trimmed seg (suc n) len
Trimmed-longer seg n len h e (pos, le, parts, last) =
    let more : suc n - len ≡ suc (n - len) = omega arith in
    let kept = take len seg in
    (
      pos,
      omega arith,
      rw (more, take-suc seg n h, e, parts)
          (append_assoc kept (replicate (n - len) b'_') (b'_' ∷ [])
            ∙ ap (λ ys. kept ++ ys) (sym (replicate-suc (n - len) b'_'))),
      last,
    )

-- The length of a segment's text, from any length within the segment: the text keeps a character at
-- least, ends in no underscore unless that is all there is, and gives the bytes back when it is
-- filled up with underscores.
pub actual_len-Trimmed :
    (seg : List ℕ) (n : ℕ) → 0 < n → n ≤ length seg → Trimmed seg n (actual_len seg n)
unfolding actual_len
actual_len-Trimmed seg zero pos le = absurd (omega arith)
actual_len-Trimmed seg (suc k) pos le = elim (ℕ_discrete (get_or seg k 0) b'_') [
  | no other ↦
      let here : (get_or seg k 0 == b'_') ≡ false = ground arith in
      let back : suc k - 1 ≡ k = omega arith in
      rw (actual_len, here) (Trimmed-whole seg (suc k) pos (rw back (inr other)))
  | yes underscore ↦
      let here : (get_or seg k 0 == b'_') ≡ true = ground arith in
      elim (ℕ_discrete k 0) [
        | yes first ↦ rw (actual_len, here, first) (Trimmed-whole seg 1 (omega arith) (inl refl))
        | no later ↦
            let behind : (k == 0) ≡ false = ground arith in
            rw (actual_len, here, behind)
              (Trimmed-longer seg k (actual_len seg k) (omega arith) underscore
                (actual_len-Trimmed seg k (omega arith) (omega arith)))
      ]
]
