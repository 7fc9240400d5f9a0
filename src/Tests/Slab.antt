-- ===== src/Tests/Slab.antt =====
-- Inputs for Slab: a new page for objects of 64 bytes.
use mars.Prelude.{◌≡◌, refl, false, arith, ℕ_discrete}
use mars.Vm.{align_up, align_down}
use mars.Pages.Reserve.{done}
use mars.Pages.Buddy.{new}
use mars.Slab.{SlabAllocator, fill_page, take_object, small_free, start_off, cap, link_objects}
use mars.Slab.Layout.{Laid, objects-Laid}
use mars.Slab.Cycle.{HasObject, SameSlab, take_object-small_free}

abbrev empty : SlabAllocator
empty = record {
  page_alloc = new;
  used_bytes = 0;
  plist = λ i. 0;
  is_dmap = false;
  headers = λ p. record { next = 0; prev = 0; free_list = 0; free_count = 0; size_class_i = 0 };
  words = λ p. 0;
}

-- The objects of 64 bytes begin at byte 64 of a page, and are 255.
sixty_four : (start_off 3 ≡ 64) × (cap 3 ≡ 255)
unfolding start_off cap align_up
sixty_four = (refl, refl)

abbrev one_page : SlabAllocator
one_page = (fill_page 3 16384 empty).1

one_page-HasObject : HasObject 3 one_page
unfolding fill_page start_off cap link_objects align_up align_down ℕ_discrete
one_page-HasObject = record {
  class_ok = omega arith;
  page_ok = λ e. absurd (omega (arith, e));
  inside = refl;
  of_class = refl;
  some_free = omega arith;
  some_used = omega arith;
  first = refl;
  neighbour = λ ne. absurd (ne refl);
}

objects-Laid_example : Laid 3
objects-Laid_example = objects-Laid 3 (omega arith)

take_object-small_free_example :
    (s' : SlabAllocator) × (small_free 1 (take_object 3 one_page).0 (take_object 3 one_page).1
      ≡ done s')
    × SameSlab one_page s'
take_object-small_free_example = take_object-small_free 1 3 one_page one_page-HasObject
