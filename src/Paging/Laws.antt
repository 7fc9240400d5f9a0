-- ===== src/Paging/Laws.antt =====
-- klib/src/pm/page/mapper.rs: what the mapper relies on in `TTENATIVE`, in the allocator of tables and in
-- the direct map.
use mars.Prelude.{
  ℕ, ◌%◌, ◌^◌, ◌<◌, ◌≡◌, refl, ◌∙◌, ◌≢◌, Bool, true, false, not, arith, ◌/◌, ◌≤◌, suc,
}
use mars.Pages.Requests.{AddressTranslator}
use mars.Paging.Tables.{Tte, TableAllocator, Attributes, table_entry, page_entry, cleared}

-- An address that the 48-bit address field of an entry can hold.
abbrev pub Fits : ℕ → Type 0
Fits pa = (pa % 16384 ≡ 0) × (pa < 2 ^ 48)

-- While there is room for another table, the one that the allocator hands out is at an address that
-- entries can hold and that the direct map leads back to, and was not in use. `free_table` gives up one.
pub record IsAllocator {S : Type 0} (al : TableAllocator S) (tr : AddressTranslator)
    (InUse : S → ℕ → Type 0) (Room : S → ℕ) : Type 0 where
  pub fresh : (s : S) → 1 ≤ Room s → ¬ InUse s (al.alloc_table s).0
  pub taken : (s : S) → 1 ≤ Room s → InUse (al.alloc_table s).1 (al.alloc_table s).0
  pub alloc_keeps : (s : S) (p : ℕ) → 1 ≤ Room s → InUse s p → InUse (al.alloc_table s).1 p
  pub alloc_room : (s : S) → 1 ≤ Room s → Room s ≤ suc (Room (al.alloc_table s).1)
  pub free_keeps : (s : S) (c p : ℕ) → InUse s p → p ≢ c → InUse (al.free_table c s) p
  pub placed : (s : S) → 1 ≤ Room s → Fits (tr.dmap_to_phys (al.alloc_table s).0)
  pub not_zero : (s : S) → 1 ≤ Room s → tr.dmap_to_phys (al.alloc_table s).0 ≢ 0
  pub direct :
      (s : S)
      → 1 ≤ Room s
      → tr.phys_to_dmap (tr.dmap_to_phys (al.alloc_table s).0) ≡ (al.alloc_table s).0

module _ {E : Type 0} where
  -- A setter of a field that is none of the validity, the kind and the address.
  abbrev pub Attribute : Tte E → (E → E) → Type 0
  Attribute t f =
      (e : E)
      → (t.is_valid (f e) ≡ t.is_valid e)
        × (t.is_table (f e) ≡ t.is_table e)
        × (t.address (f e) ≡ t.address e)

  -- The setters set their own field and leave the others.
  pub record IsTte (t : Tte E) : Type 0 where
    pub invalid_valid : t.is_valid t.invalid ≡ false
    pub invalid_address : t.address t.invalid ≡ 0
    pub valid_set : (b : Bool) (e : E) → t.is_valid (t.set_is_valid b e) ≡ b
    pub table_set : (e : E) → t.is_table (t.set_is_table e) ≡ true
    pub address_set : (pa : ℕ) (e : E) → Fits pa → t.address (t.set_address pa e) ≡ pa
    pub valid_table : (e : E) → t.is_valid (t.set_is_table e) ≡ t.is_valid e
    pub valid_address : (pa : ℕ) (e : E) → t.is_valid (t.set_address pa e) ≡ t.is_valid e
    pub table_address : (pa : ℕ) (e : E) → t.is_table (t.set_address pa e) ≡ t.is_table e
    pub access_set : Attribute t t.set_access
    pub permission_set : (a : ℕ) → Attribute t (t.set_access_permission a)
    pub shareability_set : (a : ℕ) → Attribute t (t.set_shareability a)
    pub attr_index_set : (a : ℕ) → Attribute t (t.set_attr_index a)
    pub executable_set : (b : Bool) → Attribute t (t.set_executable b)
    pub privileged_set : (b : Bool) → Attribute t (t.set_privileged_executable b)
    -- The four indexes are the bits 14 to 47 of the address.
    pub index_apart :
        (a b : ℕ)
        → a / 2 ^ 48 ≡ b / 2 ^ 48
        → a % 16384 ≡ b % 16384
        → t.calculate_index a 0 ≡ t.calculate_index b 0
        → t.calculate_index a 1 ≡ t.calculate_index b 1
        → t.calculate_index a 2 ≡ t.calculate_index b 2
        → t.calculate_index a 3 ≡ t.calculate_index b 3
        → a ≡ b
    pub index_lt : (va l : ℕ) → t.calculate_index va l < 2048

  -- An entry that is written for a table or for a page is valid, of that kind and has the address.
  pub record Leads (t : Tte E) (e : E) (pa : ℕ) : Type 0 where
    pub valid : t.is_valid e ≡ true
    pub table : t.is_table e ≡ true
    pub at : t.address e ≡ pa

  module _ {t : Tte E} (ok : IsTte t) where
    pub table_entry-Leads : (pa : ℕ) (e : E) → Fits pa → Leads t (table_entry t pa e) pa
    table_entry-Leads pa e fits = record {
      valid = ok.valid_address pa _ ∙ ok.valid_table _ ∙ ok.valid_set true e;
      table = ok.table_address pa _ ∙ ok.table_set _;
      at = ok.address_set pa _ fits;
    }

    Attribute-Leads : {f : E → E} {e : E} {pa : ℕ} → Attribute t f → Leads t e pa → Leads t (f e) pa
    Attribute-Leads {e} keeps l = record {
      valid = (keeps e).0 ∙ l.valid;
      table = (keeps e).1 ∙ l.table;
      at = (keeps e).2 ∙ l.at;
    }

    -- The entry that `map_page` writes.
    pub page_entry-Leads :
        (pa : ℕ) (at : Attributes) (e : E) → Fits pa → Leads t (page_entry t pa at e) pa
    page_entry-Leads pa at e fits = Attribute-Leads (ok.privileged_set (not at.pxn)) (
        Attribute-Leads (ok.executable_set (not at.uxn)) (
          Attribute-Leads (ok.attr_index_set at.attr_index) (
            Attribute-Leads (ok.shareability_set at.share) (
              Attribute-Leads (ok.permission_set at.access)
                (Attribute-Leads ok.access_set (table_entry-Leads pa e fits))))))

    pub cleared_valid : (e : E) → t.is_valid (cleared t e) ≡ false
    cleared_valid e = ok.valid_address 0 _ ∙ ok.valid_set false e

    pub cleared_address : (e : E) → t.address (cleared t e) ≡ 0
    cleared_address e = ok.address_set 0 _ (refl, omega arith)
