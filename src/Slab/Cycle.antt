-- ===== src/Slab/Cycle.antt =====
-- klib/src/vm/slab.rs: an object that is taken from a page, and freed again.
use mars.Prelude.{
  ℕ, subst, ◌+◌, ◌-◌, ◌%◌, ◌^◌, ◌<◌, ◌≡◌, refl, sym, ap, ap₂, ◌∙◌, ◌≢◌, true, false, arith,
  ℕ_discrete, leb, ◌==◌, if◌then◌else◌,
}
use mars.Prelude.Family.{update, update_self, update_other}
use mars.Vm.{align_down}
use mars.Pages.Reserve.{done}
use mars.Slab.{SlabAllocator, Header, take_object, small_free, cap, listed, given}
use mars.Slab.Layout.{objects-Laid}

-- A class whose list has a page: the page is the first of the list, its free objects are in it, and it
-- has some, though not all.
pub record HasObject (i : ℕ) (s : SlabAllocator) : Type 0 where
  pub class_ok : i < 9
  pub page_ok : s.plist i ≢ 0
  pub inside : align_down (s.headers (s.plist i)).free_list 16384 ≡ s.plist i
  pub of_class : (s.headers (s.plist i)).size_class_i ≡ i
  pub some_free : 0 < (s.headers (s.plist i)).free_count
  pub some_used : (s.headers (s.plist i)).free_count < cap i
  pub first : (s.headers (s.plist i)).prev ≡ 0
  pub neighbour :
      (s.headers (s.plist i)).next ≢ 0
      → ((s.headers (s.plist i)).next ≢ s.plist i)
        × ((s.headers (s.headers (s.plist i)).next).prev ≡ s.plist i)

pub record SameSlab (s s' : SlabAllocator) : Type 0 where
  pub headers : (x : ℕ) → s'.headers x ≡ s.headers x
  pub words : (x : ℕ) → s'.words x ≡ s.words x
  pub plist : (j : ℕ) → s'.plist j ≡ s.plist j
  pub page_alloc : s'.page_alloc ≡ s.page_alloc
  pub used_bytes : s'.used_bytes ≡ s.used_bytes
  pub is_dmap : s'.is_dmap ≡ s.is_dmap

-- A page that does not become all free stays.
small_free-stays :
    (fuel i ptr page : ℕ) (s : SlabAllocator)
    → align_down ptr 16384 ≡ page
    → (s.headers page).size_class_i ≡ i
    → i < 9
    → ((s.headers page).free_count + 1) % 2 ^ 16 ≢ cap i % 2 ^ 16
    → small_free fuel ptr s
      ≡ done (
          if (s.headers page).free_count == 0
          then listed i page (given ptr page s)
          else given ptr page s)
unfolding small_free
small_free-stays fuel i ptr page s inside class_ok small stays =
    let index : leb 9 i ≡ false = ground arith in
    let test : (((s.headers page).free_count + 1) % 2 ^ 16 == cap i % 2 ^ 16) ≡ false =
      ground (arith, stays) in
    rw (inside, class_ok, index, test) refl

-- The page behind a page gets its back pointer.
abbrev linked : (ℕ → Header) → ℕ → ℕ → ℕ → Header
linked f n p = if n == 0 then f else update f n (record (f n) { prev = p })

linked-other : (f : ℕ → Header) (n p x : ℕ) → (n ≢ 0 → x ≢ n) → linked f n p x ≡ f x
linked-other f n p x ne = elim (ℕ_discrete n 0) [
  | yes end ↦ let test : (n == 0) ≡ true = ground arith in rw test refl
  | no more ↦ let test : (n == 0) ≡ false = ground arith in rw test (update_other f n _ x (ne more))
]

linked-at : (f : ℕ → Header) (n p : ℕ) → n ≢ 0 → linked f n p n ≡ record (f n) { prev = p }
linked-at f n p ne = let test : (n == 0) ≡ false = ground arith in rw test (update_self f n _)

module _ (fuel i : ℕ) (s : SlabAllocator) (h : HasObject i s) where
  abbrev page : ℕ
  page = s.plist i

  abbrev page_header : Header
  page_header = s.headers page

  few : cap i < 65536
  few = (objects-Laid i h.class_ok).few

  abbrev left : ℕ
  left = (page_header.free_count + 2 ^ 16 - 1) % 2 ^ 16

  abbrev taken : ℕ → Header
  taken =
      update s.headers page
        (record page_header { free_list = s.words page_header.free_list; free_count = left })

  -- The page has another free object.
  abbrev one_less : SlabAllocator
  one_less = record s { headers = taken }

  back : (left + 1) % 2 ^ 16 ≡ page_header.free_count
  back = omega (arith, few, h.some_used, h.some_free)

  one_less-SameSlab : SameSlab s (given page_header.free_list page one_less)
  one_less-SameSlab = record {
    headers = λ x. elim (ℕ_discrete x page) [
      | yes same ↦ ground (arith, same, back, h.some_free)
      | no other ↦ ground (arith, other)
    ];
    words = λ x. elim (ℕ_discrete x page_header.free_list) [
      | yes same ↦ ground (arith, same)
      | no other ↦ ground (arith, other)
    ];
    plist = λ j. refl;
    page_alloc = refl;
    used_bytes = refl;
    is_dmap = refl;
  }

  -- The page is full without the object, so that it leaves the list.
  abbrev follower : ℕ
  follower = page_header.next

  abbrev retied : ℕ → Header
  retied = linked taken follower 0

  abbrev off_list : SlabAllocator
  off_list = record s {
    headers = update retied page (record (retied page) { next = 0; prev = 0 });
    plist = update s.plist i follower;
  }

  abbrev obj : ℕ
  obj = page_header.free_list

  abbrev gave : SlabAllocator
  gave = given obj page off_list

  not_page : follower ≢ 0 → page ≢ follower
  not_page ne same = (h.neighbour ne).0 (sym same)

  off_page :
      off_list.headers page
      ≡ record page_header { next = 0; prev = 0; free_list = s.words obj; free_count = left }
  off_page =
      update_self retied page _
      ∙ ap {A = Header} (λ x. record x { next = 0; prev = 0 })
          (linked-other taken follower 0 page not_page ∙ update_self s.headers page _)

  gave_page :
      gave.headers page
      ≡ record page_header { next = 0; prev = 0; free_list = obj; free_count = (left + 1) % 2 ^ 16 }
  gave_page =
      update_self off_list.headers page _
      ∙ ap {A = Header}
          (λ x. record x { free_list = obj; free_count = (x.free_count + 1) % 2 ^ 16 }) off_page

  -- The headers when the page is on its list again.
  abbrev front : ℕ → Header
  front = update gave.headers page (record (gave.headers page) { next = follower })

  again : (x : ℕ) → (listed i page gave).headers x ≡ linked front follower page x
  again x =
      ap (λ n. linked (update gave.headers page (record (gave.headers page) { next = n })) n page x)
        (update_self s.plist i follower)

  front_other : (x : ℕ) → x ≢ page → front x ≡ retied x
  front_other x ne =
      update_other gave.headers page _ x ne
      ∙ update_other off_list.headers page _ x ne
      ∙ update_other retied page _ x ne

  same_headers : page_header.free_count ≡ 1 → (x : ℕ) → (listed i page gave).headers x ≡ s.headers x
  same_headers one x = again x ∙ elim (ℕ_discrete x page) [
    | yes here ↦
        subst (λ y. linked front follower page y ≡ s.headers y) (sym here)
          (linked-other front follower page page not_page
            ∙ update_self gave.headers page _
            ∙ ap {A = Header} (λ y. record y { next = follower }) gave_page
            ∙ ap₂ (λ p c. record page_header { prev = p; free_count = c }) (sym h.first) back)
    | no other ↦ elim (ℕ_discrete follower 0) [
      | yes end ↦
          linked-other front follower page x (λ ne. absurd (ne end))
          ∙ front_other x other
          ∙ linked-other taken follower 0 x (λ ne. absurd (ne end))
          ∙ update_other s.headers page _ x other
      | no ne ↦ elim (ℕ_discrete x follower) [
        | no far ↦
            linked-other front follower page x (λ _. far)
            ∙ front_other x other
            ∙ linked-other taken follower 0 x (λ _. far)
            ∙ update_other s.headers page _ x other
        | yes same ↦
            subst (λ y. linked front follower page y ≡ s.headers y) (sym same)
              (linked-at front follower page ne
                ∙ ap {A = Header} (λ y. record y { prev = page })
                    (front_other follower (h.neighbour ne).0
                      ∙ linked-at taken follower 0 ne
                      ∙ ap {A = Header} (λ y. record y { prev = 0 })
                          (update_other s.headers page _ follower (h.neighbour ne).0))
                ∙ ap (λ p. record (s.headers follower) { prev = p }) (sym (h.neighbour ne).1))
      ]
    ]
  ]

  off_list-SameSlab : page_header.free_count ≡ 1 → SameSlab s (listed i page gave)
  off_list-SameSlab one = record {
    headers = same_headers one;
    words = λ x.
        let word : (off_list.headers page).free_list ≡ s.words obj =
          ap (λ y. y.free_list) off_page in
        elim (ℕ_discrete x obj) [
          | yes same ↦
              ap (λ y. update s.words obj (off_list.headers page).free_list y) same
              ∙ update_self s.words obj _
              ∙ word
              ∙ ap s.words (sym same)
          | no other ↦ update_other s.words obj _ x other
        ];
    plist = λ j. elim (ℕ_discrete j i) [
      | yes same ↦
          ap (λ y. update (update s.plist i follower) i page y) same
          ∙ update_self (update s.plist i follower) i page
          ∙ ap s.plist (sym same)
      | no other ↦
          update_other (update s.plist i follower) i page j other
          ∙ update_other s.plist i follower j other
    ];
    page_alloc = refl;
    used_bytes = refl;
    is_dmap = refl;
  }

  -- Freeing the object, whatever took it: its page stays, since one object more is still in use.
  freed :
      (s' : SlabAllocator)
      → (s'.headers page).size_class_i ≡ i
      → (s'.headers page).free_count ≡ left
      → small_free fuel obj s'
        ≡ done (if left == 0 then listed i page (given obj page s') else given obj page s')
  freed s' class_ok count =
      small_free-stays fuel i obj page s' h.inside class_ok h.class_ok
        (omega (arith, count, back, h.some_used, few))
      ∙ ap (λ n. done (if n == 0 then listed i page (given obj page s') else given obj page s'))
          count

  cycle :
      (s' : SlabAllocator) × (small_free fuel (take_object i s).0 (take_object i s).1 ≡ done s')
      × SameSlab s s'
  unfolding take_object
  cycle = elim (ℕ_discrete page_header.free_count 1) [
    | no more ↦
        let test : (left == 0) ≡ false = ground (arith, more, h.some_free, h.some_used, few) in
        let taken_page = update_self s.headers page _ in
        let again : small_free fuel obj one_less ≡ done (given obj page one_less) =
          freed one_less (ap (λ y. y.size_class_i) taken_page ∙ h.of_class)
            (ap (λ y. y.free_count) taken_page)
          ∙ ap
              (λ b.
                done
                  (if b then listed i page (given obj page one_less) else given obj page one_less))
              test in
        rw test (given obj page one_less, again, one_less-SameSlab)
    | yes one ↦
        let test : (left == 0) ≡ true = ground (arith, one) in
        let again : small_free fuel obj off_list ≡ done (listed i page gave) =
          freed off_list (ap (λ y. y.size_class_i) off_page ∙ h.of_class)
            (ap (λ y. y.free_count) off_page)
          ∙ ap (λ b. done (if b then listed i page gave else gave)) test in
        rw test (listed i page gave, again, off_list-SameSlab one)
  ]

-- Taking an object of a page and freeing it changes nothing: with the list of the class as above, the
-- object that is taken can be freed, and every header, word and list is then as before.
pub take_object-small_free :
    (fuel i : ℕ) (s : SlabAllocator)
    → HasObject i s
    → (s' : SlabAllocator) × (small_free fuel (take_object i s).0 (take_object i s).1 ≡ done s')
      × SameSlab s s'
take_object-small_free fuel i s h = cycle fuel i s h
