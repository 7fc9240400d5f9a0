-- ===== src/Block/Checks.antt =====
-- klib/src/block/mod.rs: what `Consumer::request` lets through, as a predicate read off the
-- documentation of the errors, with no order of tests.
use mars.Prelude.{ℕ, ◌+◌, ◌/◌, ◌%◌, ◌^◌, ◌<◌, ◌≤◌, ◌≡◌, length, arith}
use mars.Prelude.Int.{pos_part}
use mars.Block.Types.{ok, Command, read, write, flush, delete}
use mars.Block.Nodes.{Consumer, check_request}

-- Every block of the request lies on a provider of `cap` blocks, and there is one.
abbrev pub InBounds : ℕ → ℕ → ℕ → Type 0
InBounds cap lba n = (0 < cap) × (lba + n ≤ cap)

-- A consumer may send this command to a provider of `cap` blocks of `block_size` bytes.
abbrev pub Admits : Consumer → ℕ → ℕ → ℕ → Command → Type 0
Admits c block_size cap lba (read buf) =
    (0 < block_size)
    × (length buf % block_size ≡ 0)
    × InBounds cap lba (length buf / block_size)
    × (0 < pos_part c.read_count)
Admits c block_size cap lba (write buf) =
    (0 < block_size)
    × (length buf % block_size ≡ 0)
    × InBounds cap lba (length buf / block_size)
    × (0 < pos_part c.write_count)
Admits c block_size cap lba (delete n) =
    (0 < block_size) × InBounds cap lba n × (0 < pos_part c.write_count)
Admits c block_size cap lba flush = 0 < block_size

pub check_request-of-Admits :
    (c : Consumer) (block_size cap lba : ℕ) (cmd : Command)
    → cap < 2 ^ 64
    → Admits c block_size cap lba cmd
    → check_request c block_size cap (record { cmd = cmd; lba = lba }) ≡ ok tt
unfolding check_request
check_request-of-Admits c block_size cap lba (read buf) u h = ground arith
check_request-of-Admits c block_size cap lba (write buf) u h = ground arith
check_request-of-Admits c block_size cap lba (delete n) u h = ground arith
check_request-of-Admits c block_size cap lba flush u h = ground arith

pub Admits-of-check_request :
    (c : Consumer) (block_size cap lba : ℕ) (cmd : Command)
    → check_request c block_size cap (record { cmd = cmd; lba = lba }) ≡ ok tt
    → Admits c block_size cap lba cmd
unfolding check_request
Admits-of-check_request c block_size cap lba (read buf) h = ground arith
Admits-of-check_request c block_size cap lba (write buf) h = ground arith
Admits-of-check_request c block_size cap lba (delete n) h = ground arith
Admits-of-check_request c block_size cap lba flush h = ground arith
