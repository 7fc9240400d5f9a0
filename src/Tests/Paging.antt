-- ===== src/Tests/Paging.antt =====
-- Inputs for Paging: entries as records, and an allocator of a thousand tables.
use mars.Paging.Release.{map_region-unmap_region}
use mars.Paging.Region.{MappedTo, map_region-maps}
use mars.Paging.Unmap.{Unmaps, unmap_page-Unmaps}
use mars.Paging.Map.{map_page-Maps}
use mars.Prelude.{
  ℕ, suc, ◌+◌, ◌-◌, ◌*◌, ◌/◌, ◌%◌, ◌^◌, ◌<◌, refl, Bool, true, false, arith, ◌==◌, if◌then◌else◌,
  ◌≡◌, some, ◌⊎◌, ◌≤◌, none,
}
use mars.Pages.Requests.{AddressTranslator}
use mars.Paging.Tables.{
  Tte, TableAllocator, Attributes, Memory, map_region, map_page, unmap_page, unmap_region,
}
use mars.Paging.Laws.{IsTte, IsAllocator}
use mars.Paging.Walk.{Inv, walk}
use mars.Paging.Trees.{free_tables}
use mars.Paging.Freed.{give, all_tables}
use mars.Paging.FreeAll.{free_tables-gives}
use mars.Paging.Start.{start-Inv}

record Entry : Type 0 where
  valid : Bool
  table : Bool
  address : ℕ
  permission : ℕ

abbrev tte : Tte Entry
tte = record {
  invalid = record { valid = false; table = false; address = 0; permission = 0 };
  is_valid = λ e. e.valid;
  is_table = λ e. e.table;
  address = λ e. e.address;
  set_is_valid = λ b e. record e { valid = b };
  set_is_table = λ e. record e { table = true };
  set_is_block = λ e. record e { table = false };
  set_address = λ a e. record e { address = a };
  set_access = λ e. e;
  set_access_permission = λ a e. record e { permission = a };
  set_shareability = λ a e. e;
  set_attr_index = λ a e. e;
  set_executable = λ b e. e;
  set_privileged_executable = λ b e. e;
  calculate_index = λ va l.
      if l == 0
      then va / 2 ^ 47 % 2
      else if l == 1
      then va / 2 ^ 36 % 2048
      else if l == 2
      then va / 2 ^ 25 % 2048
      else va / 2 ^ 14 % 2048;
}

tte-IsTte : IsTte tte
tte-IsTte = record {
  invalid_valid = refl;
  invalid_address = refl;
  valid_set = λ b e. refl;
  table_set = λ e. refl;
  address_set = λ pa e fits. refl;
  valid_table = λ e. refl;
  valid_address = λ pa e. refl;
  table_address = λ pa e. refl;
  access_set = λ e. (refl, refl, refl);
  permission_set = λ a e. (refl, refl, refl);
  shareability_set = λ a e. (refl, refl, refl);
  attr_index_set = λ a e. (refl, refl, refl);
  executable_set = λ b e. (refl, refl, refl);
  privileged_set = λ b e. (refl, refl, refl);
  index_lt = λ va l. ground arith;
  index_apart = λ a b top low e0 e1 e2 e3. omega arith;
}

abbrev translator : AddressTranslator
translator = record { phys_to_dmap = λ p. p + 2 ^ 48; dmap_to_phys = λ v. v - 2 ^ 48 }

-- The root is table 0, and table n + 1 is handed out when n are.
abbrev thousand : TableAllocator ℕ
thousand = record { alloc_table = λ n. (2 ^ 48 + (n + 1) * 16384, suc n); free_table = λ p n. n }

abbrev GivenOut : ℕ → ℕ → Type 0
GivenOut n p = p < 2 ^ 48 + (n + 1) * 16384

thousand-IsAllocator : IsAllocator thousand translator GivenOut (λ n. 1000 - n)
thousand-IsAllocator = record {
  fresh = λ n room used. absurd (omega (arith, used));
  taken = λ n room. omega arith;
  alloc_keeps = λ n p room used. omega arith;
  alloc_room = λ n room. omega arith;
  free_keeps = λ n c p used ne. used;
  placed = λ n room. (omega arith, omega arith);
  not_zero = λ n room e. absurd (omega (arith, e));
  direct = λ n room. omega arith;
}

abbrev start : Memory Entry ℕ
start = record { tables = λ p i. tte.invalid; pool = 0 }

start_lem : Inv tte translator (2 ^ 48) GivenOut start
start_lem = start-Inv tte translator (2 ^ 48) GivenOut tte-IsTte start (λ i. refl) (omega arith)

abbrev attributes : Attributes
attributes = record { access = 1; share = 0; uxn = true; pxn = true; attr_index = 0 }

-- Three pages at 1 GiB are put at 2 MiB.
map_region-maps_example :
    (m' : Memory Entry ℕ) × (map_region tte thousand translator
        (2 ^ 48)
        (2 ^ 21)
        (2 ^ 30)
        49152
        attributes
        start
      ≡ some m')
    × Inv tte translator (2 ^ 48) GivenOut m'
    × ((j : ℕ)
        → j < 49152 / 16384
        → MappedTo tte thousand translator
            (2 ^ 48)
            GivenOut
            (λ n. 1000 - n)
            m'
            (2 ^ 21 + j * 16384)
            (2 ^ 30 + j * 16384)
            attributes)
    × ((va' : ℕ)
        → va' % 16384 ≡ 0
        → va' / 2 ^ 48 ≡ 2 ^ 30 / 2 ^ 48
        → (va' < 2 ^ 30) ⊎ (2 ^ 30 + 49152 ≤ va')
        → walk tte translator (2 ^ 48) m' va' ≡ walk tte translator (2 ^ 48) start va')
map_region-maps_example =
    map_region-maps tte thousand translator (2 ^ 48) GivenOut (λ n. 1000 - n) tte-IsTte
      thousand-IsAllocator (2 ^ 21) (2 ^ 30) 49152 attributes start start_lem (omega arith) refl
      refl refl (omega arith) (omega arith) (omega arith)

map_region-unmap_region_example :
    (m1 m2 : Memory Entry ℕ) × (map_region tte thousand translator
        (2 ^ 48)
        (2 ^ 21)
        (2 ^ 30)
        49152
        attributes
        start
      ≡ some m1)
    × (unmap_region tte thousand translator (2 ^ 48) (2 ^ 30) 49152 m1 ≡ some m2)
    × ((j : ℕ) → j < 49152 / 16384 → walk tte translator (2 ^ 48) m2 (2 ^ 30 + j * 16384) ≡ none)
    × ((va' : ℕ)
        → va' % 16384 ≡ 0
        → va' / 2 ^ 48 ≡ 2 ^ 30 / 2 ^ 48
        → (va' < 2 ^ 30) ⊎ (2 ^ 30 + 49152 ≤ va')
        → walk tte translator (2 ^ 48) m2 va' ≡ walk tte translator (2 ^ 48) start va')
map_region-unmap_region_example =
    map_region-unmap_region tte thousand translator (2 ^ 48) GivenOut (λ n. 1000 - n) tte-IsTte
      thousand-IsAllocator (2 ^ 21) (2 ^ 30) 49152 attributes start start_lem (omega arith) refl
      refl refl (omega arith) (omega arith) (omega arith)

-- A page that was mapped on its own.
abbrev one_page : Memory Entry ℕ
one_page = map_page tte thousand translator (2 ^ 48) (2 ^ 21) (2 ^ 30) attributes start

one_page_lem : Inv tte translator (2 ^ 48) GivenOut one_page
one_page_lem =
    (map_page-Maps tte thousand translator (2 ^ 48) GivenOut (λ n. 1000 - n) tte-IsTte
      thousand-IsAllocator start start_lem (2 ^ 21) (2 ^ 30) attributes (refl, omega arith)
      (omega arith)).inv

unmap_page-Unmaps_example :
    Unmaps tte thousand translator
      (2 ^ 48)
      GivenOut
      (λ n. 1000 - n)
      one_page
      (2 ^ 30)
      (unmap_page tte thousand translator (2 ^ 48) (2 ^ 30) one_page)
unmap_page-Unmaps_example =
    unmap_page-Unmaps tte thousand translator (2 ^ 48) GivenOut (λ n. 1000 - n) tte-IsTte
      thousand-IsAllocator (2 ^ 30) one_page one_page_lem

free_tables-gives_example :
    (free_tables tte thousand translator (2 ^ 48) one_page).pool
    ≡ give thousand (all_tables tte translator one_page.tables (2 ^ 48)) one_page.pool
free_tables-gives_example =
    free_tables-gives tte thousand translator (2 ^ 48) GivenOut one_page one_page_lem
