-- ===== src/Pcie/Probe.antt =====
-- kernel/drivers/pcie/src/bar.rs: probing finds what the registers describe and leaves no trace.
use mars.Prelude.{
  ℕ, zero, suc, ◌+◌, ◌*◌, ◌/◌, ◌%◌, ◌≤◌, ◌<◌, ◌≡◌, refl, ap, ◌∙◌, Bool, true, false, not, ◌&&◌,
  Option, none, List, [], arith, dec_lt, ltb, leb, ◌==◌, if◌then◌else◌,
}
use mars.Pages.Requests.{AddressTranslator}
use mars.Pages.Reserve.{done}
use mars.Pcie.Ecam.{Bdf, Ecam, Mmio, peek, poke, read_u16, read_u32, write_u16, write_u32}
use mars.Pcie.Bars.{
  BarType, ones, io_bar, memory32_bar, memory64_bar, bar_offset, push, probe_size, probe_bar,
  probe_from, probe_bars,
}

-- What registers with these values and masks describe, in a plain recursion: the bar at `i`, and the
-- register behind it.
abbrev pub is_wide : (ℕ → ℕ) → ℕ → Bool
is_wide value i = not (value i % 2 == 1) && value i / 2 % 4 == 2 && ltb i 5

abbrev pub described_bar : (ℕ → ℕ) → (ℕ → ℕ) → ℕ → Option BarType
described_bar value mask i =
    if value i % 2 == 1
    then io_bar (value i) (mask i)
    else if value i / 2 % 4 == 0
    then memory32_bar (value i) (mask i)
    else if is_wide value i
    then memory64_bar (value i) (mask i) (value (i + 1)) (mask (i + 1))
    else none

unfoldable pub described : ℕ → (ℕ → ℕ) → (ℕ → ℕ) → ℕ → List BarType
described zero value mask i = []
described (suc left) value mask i =
    let rest = described left value mask (if is_wide value i then i + 2 else i + 1) in
    if leb 6 i then [] else push (described_bar value mask i) rest

module _ {S : Type 0} (hw : Mmio S) (tr : AddressTranslator) (e : Ecam) (b : Bdf) where
  -- A register of the function that is written and gets back the value it had is as it was.
  pub record IsConfig : Type 0 where
    pub command :
        (v : ℕ) (s : S) → poke hw tr 2 e b 4 (peek hw tr 2 e b 4 s) (poke hw tr 2 e b 4 v s) ≡ s
    pub bar :
        (i v : ℕ) (s : S)
        → i < 6
        → poke hw tr 4 e b
            (bar_offset i)
            (peek hw tr 4 e b (bar_offset i) s)
            (poke hw tr 4 e b (bar_offset i) v s)
          ≡ s

  -- The value of a register, and what it holds of all ones.
  abbrev pub value_in : S → ℕ → ℕ
  value_in s i = peek hw tr 4 e b (bar_offset i) s

  abbrev pub mask_in : S → ℕ → ℕ
  mask_in s i = peek hw tr 4 e b (bar_offset i) (poke hw tr 4 e b (bar_offset i) ones s)

  -- With the bits for I/O and memory of the command cleared.
  abbrev pub decoding_off : S → S
  decoding_off s = poke hw tr 2 e b 4 (peek hw tr 2 e b 4 s / 4 * 4) s

  module _ (ok : IsConfig) where
    probe_size_lem :
        (i : ℕ) (s : S)
        → i < 6
        → probe_size hw tr e b (bar_offset i) s ≡ done (value_in s i, mask_in s i, s)
    unfolding probe_size read_u32 write_u32
    probe_size_lem i s lt =
        let aligned : (bar_offset i % 4 == 0) ≡ true = ground arith in
        rw (aligned, ok.bar i ones s lt) refl

    probe_size_high :
        (i : ℕ) (s : S)
        → i < 5
        → probe_size hw tr e b (bar_offset i + 4) s
          ≡ done (value_in s (i + 1), mask_in s (i + 1), s)
    probe_size_high i s lt =
        let next : bar_offset i + 4 ≡ bar_offset (i + 1) = omega arith in
        ap (λ x. probe_size hw tr e b x s) next ∙ probe_size_lem (i + 1) s (omega arith)

    pub probe_bar_lem :
        (i : ℕ) (s : S)
        → i < 6
        → probe_bar hw tr e b i s
          ≡ done (
            described_bar (value_in s) (mask_in s) i,
            (if is_wide (value_in s) i then i + 2 else i + 1),
            s,
          )
    unfolding probe_bar
    probe_bar_lem i s lt = elim (dec_lt i 5) [
      | yes below ↦
          let behind : leb 5 i ≡ false = ground arith in
          rw (probe_size_lem i s lt, probe_size_high i s below) (ground arith)
      | no last ↦
          let behind : leb 5 i ≡ true = ground arith in rw (probe_size_lem i s lt) (ground arith)
    ]

    wide_le : (s : S) (i : ℕ) → i < 6 → (if is_wide (value_in s) i then i + 2 else i + 1) ≤ 6
    wide_le s i lt = ground arith

    wide_enough :
        (s : S) (i fuel : ℕ)
        → 6 ≤ fuel + i
        → 7 ≤ fuel + (if is_wide (value_in s) i then i + 2 else i + 1)
    wide_enough s i fuel le = ground arith

    probe_from_lem :
        (fuel i : ℕ) (s : S)
        → 7 ≤ fuel + i
        → i ≤ 6
        → probe_from hw tr fuel e b i s ≡ done (described fuel (value_in s) (mask_in s) i, s)
    unfolding probe_from described
    probe_from_lem zero i s enough le = absurd (omega arith)
    probe_from_lem (suc fuel) i s enough le = elim (dec_lt i 6) [
      | no end ↦ let test : leb 6 i ≡ true = ground arith in rw test refl
      | yes more ↦
          let test : leb 6 i ≡ false = ground arith in
          let next : ℕ = if is_wide (value_in s) i then i + 2 else i + 1 in
          let ih =
            probe_from_lem fuel next s (wide_enough s i fuel (omega arith)) (wide_le s i more) in
          rw (test, probe_bar_lem i s more, ih) refl
    ]

    -- Where a register that gets back its value is as it was, probing returns what the registers describe
    -- while decoding is off, and leaves the whole state as it was.
    pub probe_bars-described :
        (s : S)
        → probe_bars hw tr e b s
          ≡ done (described 7 (value_in (decoding_off s)) (mask_in (decoding_off s)) 0, s)
    unfolding probe_bars read_u16 write_u16
    probe_bars-described s =
        rw
          (
            probe_from_lem 7 0 (decoding_off s) (omega arith) (omega arith),
            ok.command (peek hw tr 2 e b 4 s / 4 * 4) s,
          )
          refl
