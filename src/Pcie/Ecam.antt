-- ===== src/Pcie/Ecam.antt =====
-- kernel/drivers/pcie/src/address.rs and ecam.rs.
use mars.Prelude.{
  ℕ, ◌+◌, ◌-◌, ◌*◌, ◌%◌, ◌^◌, Bool, not, ◌&&◌, Option, none, some, ltb, leb, ◌==◌, if◌then◌else◌,
}
use Prim.Native.Nat.{bit_or}
use mars.Pages.Requests.{AddressTranslator}
use mars.Pages.Reserve.{Outcome, done, panic}

pub record Bdf : Type 0 where
  pub segment : ℕ
  pub bus : ℕ
  pub device : ℕ
  pub function : ℕ

unfoldable pub requester_id : Bdf → ℕ
requester_id b = bit_or (bit_or (b.bus * 2 ^ 8) (b.device * 2 ^ 3)) b.function

unfoldable pub device_id : Bdf → ℕ
unfolding requester_id
device_id b = bit_or (b.segment * 2 ^ 16) (requester_id b)

pub record Ecam : Type 0 where
  pub phys_base : ℕ
  pub segment : ℕ
  pub start_bus : ℕ
  pub end_bus : ℕ

-- Volatile access to so many bytes at an address; `S` is the state of the hardware.
pub record Mmio (S : Type 0) : Type 0 where
  pub read_volatile : ℕ → ℕ → S → ℕ
  pub write_volatile : ℕ → ℕ → ℕ → S → S

-- `usize` addition wraps, as in the release profile.
unfoldable pub config_address : Ecam → Bdf → ℕ → ℕ
config_address e b offset =
    (e.phys_base
      + bit_or
          (bit_or (bit_or ((b.bus - e.start_bus) * 2 ^ 20) (b.device * 2 ^ 15))
            (b.function * 2 ^ 12))
          offset)
    % 2 ^ 64

abbrev pub in_segment : Ecam → Bdf → Bool
in_segment e b = b.segment == e.segment && leb e.start_bus b.bus && leb b.bus e.end_bus

unfoldable pub offset_ptr : AddressTranslator → Ecam → Bdf → ℕ → Option ℕ
unfolding config_address
offset_ptr tr e b offset =
    if ltb 4095 offset
    then none
    else if not (in_segment e b)
    then none
    else some (tr.phys_to_dmap (config_address e b offset))

module _ {S : Type 0} (io : Mmio S) (tr : AddressTranslator) where
  -- `map` and `unwrap_or`: all ones where there is no such register.
  unfoldable pub peek : ℕ → Ecam → Bdf → ℕ → S → ℕ
  peek bytes e b offset s = elim (offset_ptr tr e b offset) [
    | none ↦ 2 ^ (8 * bytes) - 1
    | some p ↦ io.read_volatile bytes p s % 2 ^ (8 * bytes)
  ]

  unfoldable pub poke : ℕ → Ecam → Bdf → ℕ → ℕ → S → S
  poke bytes e b offset v s = elim (offset_ptr tr e b offset) [
    | none ↦ s
    | some p ↦ io.write_volatile bytes p v s
  ]

  unfoldable pub read_u8 : Ecam → Bdf → ℕ → S → ℕ
  unfolding peek
  read_u8 e b offset s = peek 1 e b offset s

  unfoldable pub read_u16 : Ecam → Bdf → ℕ → S → Outcome ℕ
  unfolding peek
  read_u16 e b offset s = if offset % 2 == 0 then done (peek 2 e b offset s) else panic

  unfoldable pub read_u32 : Ecam → Bdf → ℕ → S → Outcome ℕ
  unfolding peek
  read_u32 e b offset s = if offset % 4 == 0 then done (peek 4 e b offset s) else panic

  unfoldable pub write_u8 : Ecam → Bdf → ℕ → ℕ → S → S
  unfolding poke
  write_u8 e b offset v s = poke 1 e b offset v s

  unfoldable pub write_u16 : Ecam → Bdf → ℕ → ℕ → S → Outcome S
  unfolding poke
  write_u16 e b offset v s = if offset % 2 == 0 then done (poke 2 e b offset v s) else panic

  unfoldable pub write_u32 : Ecam → Bdf → ℕ → ℕ → S → Outcome S
  unfolding poke
  write_u32 e b offset v s = if offset % 4 == 0 then done (poke 4 e b offset v s) else panic

infixl 20 ◌>>=◌
abbrev pub ◌>>=◌ : {A B : Type 0} → Outcome A → (A → Outcome B) → Outcome B
done a >>= f = f a
panic >>= f = panic
Outcome.out_of_fuel >>= f = Outcome.out_of_fuel
