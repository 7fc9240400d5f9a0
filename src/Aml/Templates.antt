-- ===== src/Aml/Templates.antt =====
-- kernel/drivers/acpi-aml/src/crs.rs: what the iterator and the decoder promise.
use mars.Aml.Reader.{from_le_bytes}
use mathlib.Core.List.{append_assoc}
use mars.Aml.Resources.{
  next, header, cut, into_rss, chunks, Resource, irq, mmio, decode, is_large, le_field, mmio_range,
  address_space, irq_mask, extended_irqs,
}
use mars.Prelude.{
  ℕ, zero, suc, ◌+◌, ◌-◌, ◌/◌, ◌%◌, ◌≤◌, ◌<◌, ◌≡◌, refl, sym, ap, ap₂, ◌∙◌, ◌≢◌, ◌⊎◌, inl, inr,
  Bool, true, false, not, ◌&&◌, Option, none, some, List, [], ◌∷◌, ◌++◌, arith, leb, ◌==◌,
  if◌then◌else◌, leb→le, Bool-cases, Option-cases, length, get_elem?, take, drop, length-take,
  length-append,
}

take-++-drop : (n : ℕ) (xs : List ℕ) → take n xs ++ drop n xs ≡ xs
take-++-drop zero xs = refl
take-++-drop (suc n) [] = refl
take-++-drop (suc n) (x ∷ xs) = ap (λ ys. x ∷ ys) (take-++-drop n xs)

cut-front :
    (n : ℕ) (bytes : List ℕ) {chunk rest : List ℕ}
    → cut n bytes ≡ some (chunk, rest)
    → (chunk ++ rest ≡ bytes) × (length chunk ≡ n)
unfolding cut
cut-front n bytes {chunk} {rest} e = elim (Bool-cases (leb n (length bytes))) [
  | inl fits ↦
      let parts = take-++-drop n bytes in
      let long = leb→le n (length bytes) fits in
      let size = length-take n bytes in
      let e' = rw (cut, fits) at e in
      let front : take n bytes ≡ chunk = cc in
      let behind : drop n bytes ≡ rest = cc in
      (sym (ap₂ ◌++◌ front behind) ∙ parts, sym (ap length front) ∙ omega (arith, size, long))
  | inr short ↦ cc (rw (cut, short) at e)
]

header-positive :
    (tag : ℕ) (rest : List ℕ) {len start : ℕ} → header tag rest ≡ some (len, start) → 0 < start
unfolding header
header-positive tag rest e = ground arith

-- What `next` gives is at the front of the bytes, and has a byte at least.
next-front :
    (bytes : List ℕ) {chunk rest : List ℕ}
    → next bytes ≡ some (chunk, rest)
    → (chunk ++ rest ≡ bytes) × (0 < length chunk)
unfolding next
next-front [] e = cc
next-front (tag ∷ rest) e = elim (Bool-cases (tag == 0x79)) [
  | inl end_tag ↦ cc (rw (next, end_tag) at e)
  | inr other ↦ elim (Option-cases (header tag rest)) [
    | inl missing ↦ cc (rw (next, other, missing) at e)
    | inr ((len, start), found) ↦
        let (parts, size) = cut-front (start + len) (tag ∷ rest) (rw (next, other, found) at e) in
        (parts, omega (arith, size, header-positive tag rest found))
  ]
]

abbrev pub joined : List (List ℕ) → List ℕ
joined [] = []
joined (chunk ∷ more) = chunk ++ joined more

-- None of the descriptors makes `into_rss` panic.
abbrev pub NonePanics : List (List ℕ) → Type 0
NonePanics [] = Unit
NonePanics (chunk ∷ more) = (into_rss chunk ≢ none) × NonePanics more

get_elem?-some : (i : ℕ) (body : List ℕ) → i < length body → (b : ℕ) × (get_elem? body i ≡ some b)
get_elem?-some i [] lt = absurd (omega arith)
get_elem?-some zero (b ∷ body) lt = (b, refl)
get_elem?-some (suc i) (b ∷ body) lt = get_elem?-some i body (omega arith)

length-drop : (n : ℕ) (body : List ℕ) → length (drop n body) ≡ length body - n
length-drop zero body = omega arith
length-drop (suc n) [] = omega arith
length-drop (suc n) (b ∷ body) = omega (arith, length-drop n body)

-- A field that lies in the data is read.
le_field-some :
    (size first : ℕ) (body : List ℕ)
    → first + size ≤ length body
    → (v : ℕ) × (le_field size first (first + size) body ≡ some v)
unfolding le_field
le_field-some size first body le =
    let start : leb first (first + size) ≡ true = ground arith in
    let end : leb (first + size) (length body) ≡ true = ground arith in
    let width : first + size - first ≡ size = omega arith in
    let whole : length (take size (drop first body)) ≡ size =
      omega (arith, length-take size (drop first body), length-drop first body) in
    let fits : (length (take size (drop first body)) == size) ≡ true = ground (arith, whole) in
    (from_le_bytes (take size (drop first body)), rw (start, end, width, fits, le_field) refl)

mmio_range-returns :
    (size base_at len_at : ℕ) (body : List ℕ)
    → base_at + size ≤ length body
    → len_at + size ≤ length body
    → mmio_range size base_at len_at body ≢ none
unfolding mmio_range
mmio_range-returns size base_at len_at body le le' e =
    let (base, there) = le_field-some size base_at body le in
    let (len, there') = le_field-some size len_at body le' in
    cc (rw (mmio_range, there, there') at e)

address_space-returns :
    (size base_at len_at : ℕ) (body : List ℕ)
    → 0 < length body
    → base_at + size ≤ length body
    → len_at + size ≤ length body
    → address_space size base_at len_at body ≢ none
unfolding address_space
address_space-returns size base_at len_at body lt le le' e =
    let (kind, there) = get_elem?-some 0 body lt in
    elim (Bool-cases (kind == 0)) [
      | inl zeroed ↦
          mmio_range-returns size base_at len_at body le le'
            (rw (address_space, there, zeroed) at e)
      | inr other ↦ cc (rw (address_space, there, other) at e)
    ]

irq_mask-returns : (body : List ℕ) → 2 ≤ length body → irq_mask body ≢ none
unfolding irq_mask
irq_mask-returns [] le e = absurd (omega arith)
irq_mask-returns (low ∷ []) le e = absurd (omega arith)
irq_mask-returns (low ∷ high ∷ more) le e = cc

extended_irqs-returns : (body : List ℕ) → 2 ≤ length body → extended_irqs body ≢ none
unfolding extended_irqs
extended_irqs-returns body le e =
    let (count, there) = get_elem?-some 1 body (omega arith) in cc (rw (extended_irqs, there) at e)

if-returns :
    (b : Bool) {x y : Option (List Resource)}
    → (b ≡ true → x ≢ none)
    → y ≢ none
    → (if b then x else y) ≢ none
if-returns true h k = h refl
if-returns false h k = k

long_enough :
    (a b : Bool) (n : ℕ) (body : List ℕ) → (a && b && leb n (length body)) ≡ true → n ≤ length body
long_enough a b n body h = ground arith

-- The guards on the length keep each access in the data.
decode-returns : (large : Bool) (item : ℕ) (body : List ℕ) → decode large item body ≢ none
unfolding decode
decode-returns large item body =
    let long : (n : ℕ) (m : ℕ)
        → (large && item == m && leb n (length body)) ≡ true
        → n ≤ length body =
      λ n m h. long_enough large (item == m) n body h in
    if-returns (not large && item == 0x04 && leb 2 (length body))
      (λ h. irq_mask-returns body (long_enough (not large) (item == 0x04) 2 body h))
      (if-returns (large && item == 0x05 && leb 17 (length body))
        (λ h.
          mmio_range-returns 4 1 13 body (omega (arith, long 17 0x05 h))
            (omega (arith, long 17 0x05 h)))
        (if-returns (large && item == 0x06 && leb 9 (length body))
          (λ h.
            mmio_range-returns 4 1 5 body (omega (arith, long 9 0x06 h))
              (omega (arith, long 9 0x06 h)))
          (if-returns (large && item == 0x07 && leb 23 (length body))
            (λ h.
              address_space-returns 4 7 19 body (omega (arith, long 23 0x07 h))
                (omega (arith, long 23 0x07 h)) (omega (arith, long 23 0x07 h)))
            (if-returns (large && item == 0x0A && leb 43 (length body))
              (λ h.
                address_space-returns 8 11 35 body (omega (arith, long 43 0x0A h))
                  (omega (arith, long 43 0x0A h)) (omega (arith, long 43 0x0A h)))
              (if-returns (large && item == 0x09 && leb 2 (length body))
                (λ h. extended_irqs-returns body (long 2 0x09 h)) (λ e. cc))))))

into_rss-returns : (chunk : List ℕ) → 0 < length chunk → into_rss chunk ≢ none
unfolding into_rss
into_rss-returns [] h e = absurd (omega arith)
into_rss-returns (tag ∷ rest) h e = elim (Bool-cases (is_large tag)) [
  | inl large ↦ decode-returns true (tag % 128) (drop 2 rest) (rw (into_rss, large) at e)
  | inr small ↦ decode-returns false (tag / 8 % 16) rest (rw (into_rss, small) at e)
]

-- The iterator ends: with a fuel of the number of bytes it cuts the front of a template into
-- descriptors, which are whole and in order, stops where `next` gives nothing more, and no descriptor
-- makes the decoder panic: each index and slice is in range.
pub chunks-NonePanics :
    (fuel : ℕ) (bytes : List ℕ)
    → length bytes ≤ fuel
    → let (found, left) = chunks fuel bytes in
      (joined found ++ left ≡ bytes) × (next left ≡ none) × NonePanics found
unfolding chunks next
chunks-NonePanics zero [] le = (refl, refl, tt)
chunks-NonePanics zero (b ∷ bytes) le = absurd (omega arith)
chunks-NonePanics (suc fuel) bytes le = elim (Option-cases (next bytes)) [
  | inl stops ↦ rw (chunks, stops) (refl, stops, tt)
  | inr ((chunk, rest), here) ↦
      let (front, some_bytes) = next-front bytes here in
      let shorter = ap length front in
      let size = length-append chunk rest in
      let (parts, end, fine) = chunks-NonePanics fuel rest (omega arith) in
      rw (chunks, here)
        (
          append_assoc chunk (joined (chunks fuel rest).0) (chunks fuel rest).1
              ∙ ap (λ ys. chunk ++ ys) parts
              ∙ front,
          end,
          (into_rss-returns chunk some_bytes, fine),
        )
]

-- With the bit of an interrupt in the mask, and only then, `masked` lists it.
abbrev pub Lists : ℕ → List Resource → Type 0
Lists i [] = ⊥
Lists i (irq j ∷ more) = (i ≡ j) ⊎ Lists i more
Lists i (mmio start end ∷ more) = Lists i more
