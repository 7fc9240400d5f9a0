-- ===== src/Aml/Resources.antt =====
-- kernel/drivers/acpi-aml/src/crs.rs: resource templates, and `Resource` of klib/src/hardware/resource.rs.
use mars.Prelude.{
  ℕ, zero, suc, ◌+◌, ◌-◌, ◌*◌, ◌/◌, ◌%◌, ◌^◌, Bool, true, false, not, ◌&&◌, Option, none, some,
  List, [], ◌∷◌, ltb, leb, ◌==◌, if◌then◌else◌, length, get_elem?, take, drop,
}
use mars.Aml.Reader.{from_le_bytes}

pub data Resource : Type 0 where
  mmio : (start end : ℕ) → Resource
  irq : ℕ → Resource

-- `tag & 0x80 != 0`.
abbrev pub is_large : ℕ → Bool
is_large tag = tag / 128 % 2 == 1

-- The length that a descriptor's header gives, and where its data starts.
unfoldable pub header : ℕ → List ℕ → Option (ℕ × ℕ)
unfolding from_le_bytes
header tag rest =
    if not (is_large tag)
    then some (tag % 8, 1)
    else if leb 2 (length rest)
    then some (from_le_bytes (take 2 rest), 3)
    else none

-- The first `n` bytes, if there are as many, and the others.
unfoldable pub cut : ℕ → List ℕ → Option (List ℕ × List ℕ)
cut n bytes = if leb n (length bytes) then some (take n bytes, drop n bytes) else none

-- `CrsIter::next`: the descriptor at the front and what is left behind it.
unfoldable pub next : List ℕ → Option (List ℕ × List ℕ)
unfolding header cut
next [] = none
next (tag ∷ rest) =
    let chunk : Option (List ℕ × List ℕ) = elim (header tag rest) [
      | none ↦ none
      | some (len, data_start) ↦ cut (data_start + len) (tag ∷ rest)
    ] in
    if tag == 0x79 then none else chunk

-- The descriptors that the iterator gives, and the bytes that it stops at.
unfoldable pub chunks : ℕ → List ℕ → List (List ℕ) × List ℕ
unfolding next
chunks zero bytes = ([], bytes)
chunks (suc fuel) bytes = elim (next bytes) [
  | none ↦ ([], bytes)
  | some (chunk, rest) ↦ let (more, left) = chunks fuel rest in (chunk ∷ more, left)
]

-- A step that may panic, and what follows it.
infixl 5 ◌>>=◌
abbrev ◌>>=◌ {ℓ κ} : {A : Type ℓ} {B : Type κ} → Option A → (A → Option B) → Option B
x >>= f = elim x [ none ↦ none | some a ↦ f a ]

-- `data.get(first..last)`; `data[first..last]` panics where this is `none`.
abbrev slice : ℕ → ℕ → List ℕ → Option (List ℕ)
slice first last body =
    if leb first last && leb last (length body)
    then some (take (last - first) (drop first body))
    else none

-- `from_le_bytes(data[first..last].try_into().unwrap())` for an integer of `size` bytes; `none` is a
-- panic.
unfoldable pub le_field : ℕ → ℕ → ℕ → List ℕ → Option ℕ
unfolding from_le_bytes
le_field size first last body = do
  bytes ← slice first last body
  if length bytes == size then some (from_le_bytes bytes) else none

-- A range of addresses, unless it is empty: its base and its length are read at two places, as
-- integers of `size` bytes. `usize` addition wraps in the release profile.
unfoldable pub mmio_range : (size base_at len_at : ℕ) → List ℕ → Option (List Resource)
mmio_range size base_at len_at body = do
  base ← le_field size base_at (base_at + size) body
  len ← le_field size len_at (len_at + size) body
  some (if ltb 0 len then mmio base ((base + len) % 2 ^ 64) ∷ [] else [])

-- The interrupts from `i` on for which the mask has a bit; `n` are left.
unfoldable pub masked : ℕ → ℕ → ℕ → List Resource
masked zero i mask = []
masked (suc n) i mask =
    let more = masked n (i + 1) mask in if mask / 2 ^ i % 2 == 1 then irq i ∷ more else more

-- The extended interrupts from number `i` on, those that lie in the data; `n` are left.
unfoldable extended : ℕ → ℕ → List ℕ → List Resource
unfolding from_le_bytes
extended zero i body = []
extended (suc n) i body =
    let more = extended n (i + 1) body in
    elim (slice (2 + i * 4) (2 + i * 4 + 4) body) [
      | none ↦ more
      | some bytes ↦ irq (from_le_bytes bytes) ∷ more
    ]

-- `u16::from_le_bytes([data[0], data[1]])` and the interrupts that it has.
unfoldable pub irq_mask : List ℕ → Option (List Resource)
unfolding from_le_bytes
irq_mask body = do
  low ← get_elem? body 0
  high ← get_elem? body 1
  some (masked 16 0 (from_le_bytes (low ∷ high ∷ [])))

-- An address space is a range when its kind, `data[0]`, is 0.
unfoldable pub address_space : (size base_at len_at : ℕ) → List ℕ → Option (List Resource)
address_space size base_at len_at body = do
  kind ← get_elem? body 0
  if kind == 0 then mmio_range size base_at len_at body else some []

unfoldable pub extended_irqs : List ℕ → Option (List Resource)
unfolding extended
extended_irqs body = do count ← get_elem? body 1; some (extended count 0 body)

-- The resources of a descriptor, for its kind and its data; `none` is a panic.
unfoldable pub decode : Bool → ℕ → List ℕ → Option (List Resource)
decode large item body =
    if not large && item == 0x04 && leb 2 (length body)
    then irq_mask body
    else if large && item == 0x05 && leb 17 (length body)
    then mmio_range 4 1 13 body
    else if large && item == 0x06 && leb 9 (length body)
    then mmio_range 4 1 5 body
    else if large && item == 0x07 && leb 23 (length body)
    then address_space 4 7 19 body
    else if large && item == 0x0A && leb 43 (length body)
    then address_space 8 11 35 body
    else if large && item == 0x09 && leb 2 (length body)
    then extended_irqs body
    else some []

-- `DecodeCrs::into_rss`; `none` is a panic, at `self[0]` or in `decode`. What is shorter than the
-- header has no data.
unfoldable pub into_rss : List ℕ → Option (List Resource)
into_rss [] = none
into_rss (tag ∷ rest) =
    if is_large tag then decode true (tag % 128) (drop 2 rest) else decode false (tag / 8 % 16) rest
