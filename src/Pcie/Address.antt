-- ===== src/Pcie/Address.antt =====
-- kernel/drivers/pcie/src/address.rs and ecam.rs: the numbers that name a function and its registers.
use mars.Prelude.{ℕ, ◌+◌, ◌-◌, ◌*◌, ◌%◌, ◌^◌, ◌≤◌, ◌<◌, ◌≡◌, refl, sym, ap, ◌∙◌, true, arith}
use Prim.Native.Nat.{bit_or}
use mars.Prelude.Bits.{bit_or-plus}
use mars.Pcie.Ecam.{Bdf, Ecam, requester_id, device_id, config_address, in_segment}

-- What the fields of an address are in practice.
pub record IsBdf (b : Bdf) : Type 0 where
  pub bus_lt : b.bus < 256
  pub device_lt : b.device < 32
  pub function_lt : b.function < 8

-- A field `y` of `j` bits behind a field `x`, as a number without digits below 2 ^ k.
or_fields : (k c b : ℕ) (a : ℕ) → a ≡ c * 2 ^ k → b < 2 ^ k → bit_or a b ≡ a + b
or_fields k c b a e h = ap (λ x. bit_or x b) e ∙ bit_or-plus k c b h ∙ ap (λ x. x + b) (sym e)

requester_id_sum : (b : Bdf) → IsBdf b → requester_id b ≡ b.bus * 256 + b.device * 8 + b.function
unfolding requester_id
requester_id_sum b ok =
    let first =
      or_fields 8 b.bus (b.device * 2 ^ 3) (b.bus * 2 ^ 8) refl (omega (arith, ok.device_lt)) in
    ap (λ x. bit_or x b.function) first
    ∙ or_fields 3 (b.bus * 32 + b.device) b.function (b.bus * 2 ^ 8 + b.device * 2 ^ 3)
        (omega arith) (omega (arith, ok.function_lt))

device_id_sum :
    (b : Bdf)
    → IsBdf b
    → device_id b ≡ b.segment * 65536 + (b.bus * 256 + b.device * 8 + b.function)
unfolding device_id
device_id_sum b ok =
    or_fields 16 b.segment (requester_id b) (b.segment * 2 ^ 16) refl
      (omega (arith, requester_id_sum b ok, ok.bus_lt, ok.device_lt, ok.function_lt))
    ∙ ap (λ x. b.segment * 65536 + x) (requester_id_sum b ok)

apart_fields :
    (s s' a a' b b' c c' : ℕ)
    → s * 65536 + (a * 256 + b * 8 + c) ≡ s' * 65536 + (a' * 256 + b' * 8 + c')
    → a < 256
    → b < 32
    → c < 8
    → a' < 256
    → b' < 32
    → c' < 8
    → (s ≡ s') × (a ≡ a') × (b ≡ b') × (c ≡ c')
apart_fields s s' a a' b b' c c' e h1 h2 h3 h4 h5 h6 =
    (omega arith, omega arith, omega arith, omega arith)

config_fields :
    (base start a a' b b' c c' i i' : ℕ)
    → base + 2 ^ 28 ≤ 2 ^ 64
    → start ≤ a
    → start ≤ a'
    → (base + ((a - start) * 1048576 + b * 32768 + c * 4096 + i)) % 2 ^ 64
      ≡ (base + ((a' - start) * 1048576 + b' * 32768 + c' * 4096 + i')) % 2 ^ 64
    → a < 256
    → b < 32
    → c < 8
    → a' < 256
    → b' < 32
    → c' < 8
    → i < 4096
    → i' < 4096
    → (a ≡ a') × (b ≡ b') × (c ≡ c') × (i ≡ i')
config_fields base start a a' b b' c c' i i' room l l' e h1 h2 h3 h4 h5 h6 h7 h8 =
    let plain : (a - start) * 1048576 + b * 32768 + c * 4096 + i
        ≡ (a' - start) * 1048576 + b' * 32768 + c' * 4096 + i' =
      omega arith in
    (omega arith, omega arith, omega arith, omega arith)

bus_from : (e : Ecam) (b : Bdf) → in_segment e b ≡ true → e.start_bus ≤ b.bus
bus_from e b h = ground arith

-- Two functions with the same DeviceID are in the same segment and bus, the same device and function.
pub device_id-apart :
    (a b : Bdf)
    → IsBdf a
    → IsBdf b
    → device_id a ≡ device_id b
    → (a.segment ≡ b.segment) × (a.bus ≡ b.bus) × (a.device ≡ b.device) × (a.function ≡ b.function)
device_id-apart a b ok_a ok_b e =
    let same : a.segment * 65536 + (a.bus * 256 + a.device * 8 + a.function)
        ≡ b.segment * 65536 + (b.bus * 256 + b.device * 8 + b.function) =
      sym (device_id_sum a ok_a) ∙ e ∙ device_id_sum b ok_b in
    apart_fields a.segment b.segment a.bus b.bus a.device b.device a.function b.function same
      ok_a.bus_lt ok_a.device_lt ok_a.function_lt ok_b.bus_lt ok_b.device_lt ok_b.function_lt

config_address_sum :
    (e : Ecam) (b : Bdf) (offset : ℕ)
    → IsBdf b
    → offset < 4096
    → config_address e b offset
      ≡ (e.phys_base
          + ((b.bus - e.start_bus) * 1048576 + b.device * 32768 + b.function * 4096 + offset))
        % 2 ^ 64
unfolding config_address
config_address_sum e b offset ok lt =
    let bus = b.bus - e.start_bus in
    let first =
      or_fields 20 bus (b.device * 2 ^ 15) (bus * 2 ^ 20) refl (omega (arith, ok.device_lt)) in
    let second =
      or_fields 15 (bus * 32 + b.device) (b.function * 2 ^ 12) (bus * 2 ^ 20 + b.device * 2 ^ 15)
        (omega arith) (omega (arith, ok.function_lt)) in
    let third =
      or_fields 12 (bus * 256 + b.device * 8 + b.function) offset
        (bus * 2 ^ 20 + b.device * 2 ^ 15 + b.function * 2 ^ 12) (omega arith) lt in
    ap (λ x. (e.phys_base + x) % 2 ^ 64)
      (ap (λ x. bit_or (bit_or x (b.function * 2 ^ 12)) offset) first
        ∙ ap (λ x. bit_or x offset) second
        ∙ third)

-- Where the 2 ^ 28 bytes from the base of a segment on end within the address space, registers of its
-- buses at equal addresses are of the same bus, device and function, and are the same register. The
-- numbers of buses, devices, functions and registers are in their ranges.
pub config_address-apart :
    (e : Ecam) (a b : Bdf) (i j : ℕ)
    → e.phys_base + 2 ^ 28 ≤ 2 ^ 64
    → IsBdf a
    → IsBdf b
    → in_segment e a ≡ true
    → in_segment e b ≡ true
    → i < 4096
    → j < 4096
    → config_address e a i ≡ config_address e b j
    → (a.bus ≡ b.bus) × (a.device ≡ b.device) × (a.function ≡ b.function) × (i ≡ j)
config_address-apart e a b i j room ok_a ok_b in_a in_b lt_i lt_j same =
    let same' =
      sym (config_address_sum e a i ok_a lt_i) ∙ same ∙ config_address_sum e b j ok_b lt_j in
    config_fields e.phys_base e.start_bus a.bus b.bus a.device b.device a.function b.function i j
      room (bus_from e a in_a) (bus_from e b in_b) same' ok_a.bus_lt ok_a.device_lt ok_a.function_lt
      ok_b.bus_lt ok_b.device_lt ok_b.function_lt lt_i lt_j
