-- ===== src/Pcie/Sizes.antt =====
-- kernel/drivers/pcie/src/bar.rs: what the registers of a window are read as.
use mars.Pages.Requests.{AddressTranslator}
use mars.Pcie.Ecam.{Mmio, Ecam, Bdf}
use mars.Prelude.{
  ℕ, ◌+◌, ◌-◌, ◌/◌, ◌%◌, ◌^◌, ◌<◌, ◌≡◌, ap₂, ◌∙◌, Bool, true, false, some, arith, if◌then◌else◌,
}
use mars.Pcie.Bars.{BarType, memory32, memory64, io, io_bar, memory32_bar, memory64_bar}
use mars.Pcie.Probe.{described_bar, is_wide, IsConfig, value_in, mask_in, probe_bar_lem}
use mars.Pages.Reserve.{done}
use mars.Pcie.Bars.{probe_bar}

-- A window that a function implements, by its base, its size and whether it may be prefetched. The
-- register of an I/O window has 32 bits, or the upper 16 of them are hardwired to 0.
pub data Window : Type 0 where
  io_window : ℕ → ℕ → Window
  low_io_window : ℕ → ℕ → Window
  narrow_window : ℕ → ℕ → Bool → Window
  wide_window : ℕ → ℕ → Bool → Window

abbrev prefetch_bit : Bool → ℕ
prefetch_bit true = 8
prefetch_bit false = 0

-- A base and a size that a register with so many address bits, from bit `log unit` on, can have.
abbrev pub Implemented : ℕ → ℕ → ℕ → ℕ → Type 0
Implemented bits unit base size =
    (base % unit ≡ 0) × (base < 2 ^ bits) × (size % unit ≡ 0) × (0 < size) × (size < 2 ^ bits)

-- The registers of a window, with their low bits read-only: all ones leave the bits above the size.
unfoldable pub Registers : Window → (ℕ → ℕ) → (ℕ → ℕ) → ℕ → Type 0
Registers (io_window base size) value mask i =
    Implemented 32 4 base size × (value i ≡ base + 1) × (mask i ≡ 2 ^ 32 - size + 1)
Registers (low_io_window base size) value mask i =
    Implemented 16 4 base size × (value i ≡ base + 1) × (mask i ≡ 2 ^ 16 - size + 1)
Registers (narrow_window base size pre) value mask i =
    Implemented 32 16 base size
    × (value i ≡ base + prefetch_bit pre)
    × (mask i ≡ 2 ^ 32 - size + prefetch_bit pre)
Registers (wide_window base size pre) value mask i =
    Implemented 64 16 base size
    × (i < 5)
    × (value i ≡ base % 2 ^ 32 + 4 + prefetch_bit pre)
    × (mask i ≡ (2 ^ 64 - size) % 2 ^ 32 + 4 + prefetch_bit pre)
    × (value (i + 1) ≡ base / 2 ^ 32)
    × (mask (i + 1) ≡ (2 ^ 64 - size) / 2 ^ 32)

-- The bar that stands for a window. Where the upper bits are hardwired, they count in the size.
pub bar_of : Window → BarType
bar_of (io_window base size) = io base size
bar_of (low_io_window base size) = io base (size + 0xFFFF0000)
bar_of (narrow_window base size pre) = memory32 base size pre
bar_of (wide_window base size pre) = memory64 base size pre

-- The register behind those of a window.
abbrev pub behind : Window → ℕ → ℕ
behind (io_window base size) i = i + 1
behind (low_io_window base size) i = i + 1
behind (narrow_window base size pre) i = i + 1
behind (wide_window base size pre) i = i + 2

described_bar-Registers :
    (w : Window) (value mask : ℕ → ℕ) (i : ℕ)
    → Registers w value mask i
    → (described_bar value mask i ≡ some (bar_of w))
      × ((if is_wide value i then i + 2 else i + 1) ≡ behind w i)
unfolding Registers bar_of io_bar memory32_bar memory64_bar
described_bar-Registers (io_window base size) value mask i ((b0, b1, s0, s1, s2), v, m) =
    (ground (arith, v, m), ground (arith, v))
described_bar-Registers (low_io_window base size) value mask i ((b0, b1, s0, s1, s2), v, m) =
    (ground (arith, v, m), ground (arith, v))
described_bar-Registers (narrow_window base size true) value mask i ((b0, b1, s0, s1, s2), v, m) =
    (ground (arith, v, m), ground (arith, v))
described_bar-Registers (narrow_window base size false) value mask i ((b0, b1, s0, s1, s2), v, m) =
    (ground (arith, v, m), ground (arith, v))
described_bar-Registers (wide_window base size true) value mask i
      ((b0, b1, s0, s1, s2), lt, v, m, vh, mh) =
    (ground (arith, v, m, vh, mh), ground (arith, v, lt))
described_bar-Registers (wide_window base size false) value mask i
      ((b0, b1, s0, s1, s2), lt, v, m, vh, mh) =
    (ground (arith, v, m, vh, mh), ground (arith, v, lt))

module _ {S : Type 0} (hw : Mmio S) (tr : AddressTranslator) (e : Ecam) (b : Bdf) where
  -- Where a register that gets back its value is as it was, and the registers from one of the six on
  -- hold a window and mask what is written to them by its size, one round of `probe_bars` finds the
  -- window's kind, base, size and whether it may be prefetched, goes on behind its registers and leaves
  -- the whole state as it was. The size is larger by 0xFFFF0000 for an I/O window of fewer than 2 ^ 16
  -- ports whose register has its upper 16 bits hardwired to 0.
  pub probe_bar-Registers :
      (w : Window) (i : ℕ) (s : S)
      → IsConfig hw tr e b
      → i < 6
      → Registers w (value_in hw tr e b s) (mask_in hw tr e b s) i
      → probe_bar hw tr e b i s ≡ done (some (bar_of w), behind w i, s)
  probe_bar-Registers w i s ok lt r =
      let (bar, next) =
        described_bar-Registers w (value_in hw tr e b s) (mask_in hw tr e b s) i r in
      probe_bar_lem hw tr e b ok i s lt ∙ ap₂ (λ x n. done (x, n, s)) bar next
