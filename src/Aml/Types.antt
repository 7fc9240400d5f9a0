-- ===== src/Aml/Types.antt =====
-- kernel/drivers/acpi-aml/src/ast.rs and parser.rs: values, terms, errors and the parser's state.
-- A slice is the list of its bytes, and so is a string, whose bytes are valid UTF-8.
use mars.Prelude.{ℕ, List}

-- The error texts; `out_of_fuel` is not one of them, and stands for a recursion cut short.
pub data AmlError : Type 0 where
  underflow : AmlError  -- "buffer underflow while taking bytes"
  overflow : AmlError  -- "buffer overflow while taking bytes"
  scope_length : AmlError
  method_length : AmlError
  field_length : AmlError
  device_length : AmlError
  buffer_length : AmlError
  package_length : AmlError
  invalid_utf8 : AmlError
  out_of_fuel : AmlError

mutual
  pub data AmlValue : Type 0 where
    value_zero : AmlValue
    value_one : AmlValue
    value_ones : AmlValue
    integer : ℕ → AmlValue
    string : List ℕ → AmlValue
    name_path : List ℕ → AmlValue  -- `AmlNamePath { raw }`
    buffer : List ℕ → AmlValue
    «package» : AmlValues → AmlValue

  -- `Vec<AmlValue>`.
  pub data AmlValues : Type 0 where
    no_values : AmlValues
    more_values : AmlValue → AmlValues → AmlValues

pub record AmlParser : Type 0 where
  pub bytes : List ℕ
  pub cursor : ℕ

-- `AmlParser::new`.
abbrev pub new : List ℕ → AmlParser
new bytes = record { bytes = bytes; cursor = 0 }

pub data AmlTerm : Type 0 where
  scope : List ℕ → AmlParser → AmlTerm
  device : List ℕ → AmlParser → AmlTerm
  name : List ℕ → AmlValue → AmlTerm
  method : List ℕ → ℕ → List ℕ → AmlTerm
  op_region : List ℕ → AmlTerm
  field : AmlTerm
  unsupported_opcode : ℕ → AmlTerm

pub data Read {ℓ} (A : Type ℓ) : Type ℓ where
  got : A → Read A
  failed : AmlError → Read A

-- A method of the parser. A call that fails leaves the cursor where it was when it failed.
abbrev pub M : Type 0 → Type 0
M A = AmlParser → Read A × AmlParser

abbrev pub after {ℓ κ} :
    {A : Type ℓ} {B : Type κ}
    → Read A × AmlParser
    → (A → AmlParser → Read B × AmlParser)
    → Read B × AmlParser
after (got a, p) f = f a p
after (failed e, p) f = (failed e, p)

infixl 5 ◌>>=◌ ◌>>◌
abbrev pub ◌>>=◌ : {A B : Type 0} → M A → (A → M B) → M B
◌>>=◌ m f p = after (m p) f

abbrev pub ◌>>◌ : {A B : Type 0} → M A → M B → M B
m >> k = m >>= λ _. k

abbrev pub pure : {A : Type 0} → A → M A
pure a p = (got a, p)

abbrev pub fail : {A : Type 0} → AmlError → M A
fail e p = (failed e, p)
