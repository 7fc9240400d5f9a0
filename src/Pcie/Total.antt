-- ===== src/Pcie/Total.antt =====
-- kernel/drivers/pcie/src/bar.rs: probing returns for every function, whatever its registers do.
use mars.Prelude.{
  ℕ, zero, suc, ◌+◌, ◌*◌, ◌/◌, ◌%◌, ◌≤◌, ◌<◌, ◌≡◌, refl, inl, inr, true, false, Option, none, List,
  [], arith, dec_lt, leb, ◌==◌, Bool-cases,
}
use mars.Pages.Requests.{AddressTranslator}
use mars.Pages.Reserve.{done}
use mars.Pcie.Ecam.{Bdf, Ecam, Mmio, peek, poke, read_u16, read_u32, write_u16, write_u32}
use mars.Pcie.Bars.{
  BarType, ones, io_bar, memory32_bar, memory64_bar, bar_offset, push, probe_size, probe_bar,
  probe_from, probe_bars,
}

module _ {S : Type 0} (hw : Mmio S) (tr : AddressTranslator) (e : Ecam) (b : Bdf) where
  probe_size-done :
      (offset : ℕ) (s : S)
      → offset % 4 ≡ 0
      → (original mask : ℕ) × (s' : S) × (probe_size hw tr e b offset s ≡ done (original, mask, s'))
  unfolding probe_size read_u32 write_u32
  probe_size-done offset s h =
      let aligned : (offset % 4 == 0) ≡ true = ground arith in
      (
        peek hw tr 4 e b offset s,
        peek hw tr 4 e b offset (poke hw tr 4 e b offset ones s),
        poke hw tr 4 e b offset (peek hw tr 4 e b offset s) (poke hw tr 4 e b offset ones s),
        rw aligned refl,
      )

  probe_bar-done :
      (i : ℕ) (s : S)
      → i < 6
      → (bar : Option BarType) × (next : ℕ) × (s' : S) × (probe_bar hw tr e b i s
          ≡ done (bar, next, s'))
        × (i < next)
        × (next ≤ 6)
  unfolding probe_bar
  probe_bar-done i s lt =
      let (original, mask, s1, low) = probe_size-done (bar_offset i) s (omega arith) in
      elim (Bool-cases (original % 2 == 1)) [
        | inl port ↦
            (io_bar original mask, i + 1, s1, rw (low, port) refl, omega arith, omega arith)
        | inr memory ↦ elim (Bool-cases (original / 2 % 4 == 0)) [
          | inl narrow ↦ (
            memory32_bar original mask,
            i + 1,
            s1,
            rw (low, memory, narrow) refl,
            omega arith,
            omega arith,
          )
          | inr more ↦ elim (Bool-cases (original / 2 % 4 == 2)) [
            | inr reserved ↦
                (none, i + 1, s1, rw (low, memory, more, reserved) refl, omega arith, omega arith)
            | inl wide ↦ elim (Bool-cases (leb 5 i)) [
              | inl last ↦ (
                none,
                i + 1,
                s1,
                rw (low, memory, more, wide, last) refl,
                omega arith,
                omega arith,
              )
              | inr inner ↦
                  let (original_high, mask_high, s2, high) =
                    probe_size-done (bar_offset i + 4) s1 (omega arith) in
                  (
                    memory64_bar original mask original_high mask_high,
                    i + 2,
                    s2,
                    rw (low, memory, more, wide, inner, high) refl,
                    omega arith,
                    ground arith,
                  )
            ]
          ]
        ]
      ]

  probe_from-done :
      (fuel i : ℕ) (s : S)
      → 7 ≤ fuel + i
      → i ≤ 6
      → (found : List BarType × S) × (probe_from hw tr fuel e b i s ≡ done found)
  unfolding probe_from
  probe_from-done zero i s enough le = absurd (omega arith)
  probe_from-done (suc fuel) i s enough le = elim (dec_lt i 6) [
    | no end ↦ let test : leb 6 i ≡ true = ground arith in (([], s), rw test refl)
    | yes more ↦
        let test : leb 6 i ≡ false = ground arith in
        let (bar, next, s', one, forth, in_range) = probe_bar-done i s more in
        let (found, rest) = probe_from-done fuel next s' (omega (arith, forth)) in_range in
        ((push bar found.0, found.1), (rw (test, one, rest) refl))
  ]

  pub probe_bars-done : (s : S) → (found : List BarType × S) × (probe_bars hw tr e b s ≡ done found)
  unfolding probe_bars read_u16 write_u16
  probe_bars-done s =
      let command = peek hw tr 2 e b 4 s in
      let (found, rest) =
        probe_from-done 7 0 (poke hw tr 2 e b 4 (command / 4 * 4) s) (omega arith) (omega arith) in
      ((found.0, poke hw tr 2 e b 4 command found.1), (rw rest refl))
