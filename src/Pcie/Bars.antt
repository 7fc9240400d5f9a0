-- ===== src/Pcie/Bars.antt =====
-- kernel/drivers/pcie/src/bar.rs. Values are `u32` and `u64`; `!x` is the difference from all ones.
use mars.Prelude.{
  ℕ, zero, suc, ◌+◌, ◌-◌, ◌*◌, ◌/◌, ◌%◌, ◌^◌, Bool, ◌||◌, Option, none, some, List, [], ◌∷◌, leb,
  ◌==◌, if◌then◌else◌,
}
use mars.Pages.Requests.{AddressTranslator}
use mars.Pages.Reserve.{Outcome, done, out_of_fuel}
use mars.Pcie.Ecam.{Bdf, Ecam, Mmio, read_u16, read_u32, write_u16, write_u32, ◌>>=◌}

pub data BarType : Type 0 where
  memory32 : ℕ → ℕ → Bool → BarType
  memory64 : ℕ → ℕ → Bool → BarType
  io : ℕ → ℕ → BarType

abbrev pub ones : ℕ
ones = 2 ^ 32 - 1

-- `(!mask).wrapping_add(1)` in so many bits.
abbrev pub size_of : ℕ → ℕ → ℕ
size_of bits mask = (2 ^ bits - 1 - mask + 1) % 2 ^ bits

-- What the value of a register and its mask describe, if anything.
unfoldable pub io_bar : ℕ → ℕ → Option BarType
io_bar original mask =
    if mask == 0 || mask == ones
    then none
    else some (io (original / 4 * 4) (size_of 32 (mask / 4 * 4)))

unfoldable pub memory32_bar : ℕ → ℕ → Option BarType
memory32_bar original mask =
    if mask == 0 || mask == ones
    then none
    else some (memory32 (original / 16 * 16) (size_of 32 (mask / 16 * 16)) (original / 8 % 2 == 1))

unfoldable pub memory64_bar : ℕ → ℕ → ℕ → ℕ → Option BarType
memory64_bar original mask original_high mask_high =
    let raw_mask = mask_high * 2 ^ 32 + mask / 16 * 16 in
    if raw_mask == 0
    then none
    else some (
        memory64 (original_high * 2 ^ 32 + original / 16 * 16) (size_of 64 raw_mask)
          (original / 8 % 2 == 1))

abbrev pub bar_offset : ℕ → ℕ
bar_offset i = 16 + i * 4

abbrev pub push : Option BarType → List BarType → List BarType
push none bars = bars
push (some bar) bars = bar ∷ bars

module _ {S : Type 0} (hw : Mmio S) (tr : AddressTranslator) where
  -- The value of a register and what is left of all ones in it; the value is written back.
  unfoldable pub probe_size : Ecam → Bdf → ℕ → S → Outcome (ℕ × ℕ × S)
  probe_size e b offset s = read_u32 hw tr e b offset s >>= λ original.
      write_u32 hw tr e b offset ones s >>= λ s1. read_u32 hw tr e b offset s1 >>= λ mask.
      write_u32 hw tr e b offset original s1 >>= λ s2. done (original, mask, s2)

  -- One turn of the loop: what is pushed, and the next `bar_i`.
  unfoldable pub probe_bar : Ecam → Bdf → ℕ → S → Outcome (Option BarType × ℕ × S)
  unfolding probe_size
  probe_bar e b bar_i s = probe_size e b (bar_offset bar_i) s >>= λ (original, mask, s1).
      if original % 2 == 1
      then done (io_bar original mask, bar_i + 1, s1)
      else if original / 2 % 4 == 0
      then done (memory32_bar original mask, bar_i + 1, s1)
      else if original / 2 % 4 == 2
      then (if leb 5 bar_i
          then done (none, bar_i + 1, s1)
          else probe_size e b (bar_offset bar_i + 4) s1 >>= λ (original_high, mask_high, s2).
              done (memory64_bar original mask original_high mask_high, bar_i + 2, s2))
      else done (none, bar_i + 1, s1)

  unfoldable pub probe_from : ℕ → Ecam → Bdf → ℕ → S → Outcome (List BarType × S)
  unfolding probe_bar
  probe_from zero e b bar_i s = out_of_fuel
  probe_from (suc fuel) e b bar_i s =
      let rest = λ (found : Option BarType × ℕ × S).
        probe_from fuel e b found.1 found.2 >>= λ (bars, s2). done (push found.0 bars, s2) in
      if leb 6 bar_i then done ([], s) else probe_bar e b bar_i s >>= rest

  -- The guard writes the command back when the function ends.
  unfoldable pub probe_bars : Ecam → Bdf → S → Outcome (List BarType × S)
  unfolding probe_from
  probe_bars e b s = read_u16 hw tr e b 4 s >>= λ original_command.
      write_u16 hw tr e b 4 (original_command / 4 * 4) s >>= λ s1.
      probe_from 7 e b 0 s1 >>= λ (bars, s2).
      write_u16 hw tr e b 4 original_command s2 >>= λ s3. done (bars, s3)
