-- ===== src/Block/Types.antt =====
-- klib/src/block/mod.rs, lines 7 to 130: errors, commands, requests, and the two traits as records
-- of operations. Counts are `isize`: an integer, whose sums wrap as in the release profile.
use mars.Prelude.{
  ℕ, suc, ◌+◌, ◌/◌, ◌%◌, ◌^◌, Bool, true, false, ◌&&◌, not, List, [], length, ltb, ◌==◌,
  if◌then◌else◌,
}
use mars.Prelude.Int.{ℤ, pos, negsuc, sub_ℕ, ◌+ℤ◌, ◌-ℤ◌}

pub data BlockError : Type 0 where
  out_of_bounds : BlockError
  unaligned_buffer : BlockError
  hardware_error : BlockError
  read_only : BlockError
  not_ready : BlockError
  in_use : BlockError
  invalid_partition : BlockError
  invalid_block_size : BlockError
  access_underflow : BlockError
  not_supported : BlockError

-- `core::result::Result`, at the errors of this layer.
pub data Result {ℓ} (T : Type ℓ) : Type ℓ where
  err : BlockError → Result T
  ok : T → Result T

-- The operator `?`.
infixl 5 ◌>>=◌ ◌>>◌
abbrev pub ◌>>=◌ {ℓ κ} : {T : Type ℓ} {U : Type κ} → Result T → (T → Result U) → Result U
r >>= next = elim r [ err why ↦ err why | ok x ↦ next x ]

abbrev pub ◌>>◌ {ℓ} : {U : Type ℓ} → Result (Unit {0}) → Result U → Result U
r >> next = elim r [ err why ↦ err why | ok _ ↦ next ]

-- An early return of `why` unless the test holds.
abbrev pub require : Bool → BlockError → Result (Unit {0})
require test why = if test then ok tt else err why

-- `u64::checked_add`, followed by `ok_or`.
unfoldable pub checked_add : ℕ → ℕ → BlockError → Result ℕ
checked_add a b e = if ltb (a + b) (2 ^ 64) then ok (a + b) else err e

-- The value of an integer in two's complement of 64 bits.
unfoldable pub wrap_isize : ℤ → ℤ
wrap_isize (pos n) = if ltb n (2 ^ 63) then pos n else sub_ℕ n (2 ^ 64)
wrap_isize (negsuc n) = if ltb n (2 ^ 63) then negsuc n else sub_ℕ (2 ^ 64) (suc n)

unfoldable pub add_isize : ℤ → ℤ → ℤ
add_isize a b = wrap_isize (a +ℤ b)

unfoldable pub neg_isize : ℤ → ℤ
neg_isize a = wrap_isize (pos 0 -ℤ a)

abbrev pub is_negative : ℤ → Bool
is_negative (pos n) = false
is_negative (negsuc n) = true

abbrev pub is_positive : ℤ → Bool
is_positive (pos n) = not (n == 0)
is_positive (negsuc n) = false

-- A buffer is its bytes. `Command::Read` takes the bytes that its buffer holds at the call.
pub data Command : Type 0 where
  read : List ℕ → Command
  write : List ℕ → Command
  flush : Command
  delete : ℕ → Command

pub record IoRequest : Type 0 where
  pub cmd : Command
  pub lba : ℕ

abbrev pub buf_len : Command → ℕ
buf_len (read buf) = length buf
buf_len (write buf) = length buf
buf_len flush = 0
buf_len (delete blocks) = 0

abbrev pub command_blocks : Command → ℕ → ℕ
command_blocks (read buf) block_size = length buf / block_size
command_blocks (write buf) block_size = length buf / block_size
command_blocks flush block_size = 0
command_blocks (delete blocks) block_size = blocks

-- `IoRequest::blocks`.
unfoldable pub blocks : IoRequest → ℕ → Result ℕ
blocks req block_size = do
  require (not (block_size == 0)) invalid_block_size
  require (not (ltb 0 (buf_len req.cmd) && not (buf_len req.cmd % block_size == 0)))
      unaligned_buffer
  ok (command_blocks req.cmd block_size)

abbrev pub is_flush : Command → Bool
is_flush flush = true
is_flush _ = false

-- What the buffer of a read holds if the call does not touch it; no other command has one.
abbrev pub read_buffer : Command → List ℕ
read_buffer (read buf) = buf
read_buffer _ = []

-- What a request returns: its result, the read buffer afterwards, and the new state.
abbrev pub Reply : Type 0 → Type 0
Reply S = Result (Unit {0}) × List ℕ × S

-- `trait BlockDevice`, over the state `D` of the device.
pub record BlockDevice (D : Type 0) : Type 0 where
  pub flush_device : D → Result (Unit {0}) × D
  pub read_blocks : D → ℕ → List ℕ → Reply D
  pub write_blocks : D → ℕ → List ℕ → Result (Unit {0}) × D
  pub delete_blocks : D → ℕ → ℕ → Result (Unit {0}) × D
  pub device_block_size : D → ℕ
  pub device_block_count : D → ℕ

-- The bodies that the trait gives to `flush` and `delete_blocks`.
abbrev pub default_flush : {D : Type 0} → D → Result (Unit {0}) × D
default_flush d = (ok tt, d)

abbrev pub default_delete_blocks : {D : Type 0} → D → ℕ → ℕ → Result (Unit {0}) × D
default_delete_blocks d lba count = (err not_supported, d)

-- `trait Provider`, over the state `S` of the node.
pub record Provider (S : Type 0) : Type 0 where
  pub block_size : S → ℕ
  pub block_count : S → ℕ
  pub access : S → ℤ → ℤ → ℤ → Result (Unit {0}) × S
  pub request : S → IoRequest → Reply S
