-- ===== src/Pcie/Buses.antt =====
-- kernel/drivers/pcie/src/scan.rs: the scan of a segment ends, whatever the hardware answers.
use mathlib.Core.List.{append_assoc, append-nil}
use mars.Prelude.{
  ℕ, zero, suc, ◌+◌, ◌/◌, ◌%◌, ◌≤◌, ◌<◌, ◌≡◌, refl, sym, ap, ◌∙◌, inl, inr, Bool, true, false, ◌&&◌,
  List, [], ◌∷◌, ◌++◌, arith, ltb, leb, ◌==◌, if◌then◌else◌, Option-cases,
}
use mars.Pages.Requests.{AddressTranslator}
use mars.Pages.Reserve.{Outcome, done}
use mars.Devices.{DeviceTree, DeviceNode, add_device, attach}
use mars.Aml.Resources.{Resource}
use mars.Pcie.Ecam.{Bdf, Ecam, Mmio, peek, read_u8, read_u16, offset_ptr, ◌>>=◌}
use mars.Pcie.Bars.{BarType}
use mars.Pcie.Scan.{
  add_root, scan_endpoint, scan_function, scan_functions, scan_device, scan_others, scan_devices,
  scan_bus, enumerate_segment,
}
use mars.Pcie.Total.{probe_bars-done}

-- The nodes that were there stay where they are.
abbrev pub Grows : {T : Type 0} → DeviceTree T Resource → DeviceTree T Resource → Type 0
Grows {T} dt dt' = (new : List (DeviceNode T Resource)) × (dt'.nodes ≡ dt.nodes ++ new)

module _ {S T : Type 0} where
  abbrev pub Returns : DeviceTree T Resource → Outcome (DeviceTree T Resource × S) → Type 0
  Returns dt out = (st : DeviceTree T Resource × S) × (out ≡ done st) × Grows dt st.0

  Returns-same : (dt : DeviceTree T Resource) (s : S) → Returns dt (done (dt, s))
  Returns-same dt s = ((dt, s), refl, ([], sym (append-nil dt.nodes)))

  Returns-then :
      (dt : DeviceTree T Resource) (out : Outcome (DeviceTree T Resource × S))
      (f : DeviceTree T Resource × S → Outcome (DeviceTree T Resource × S))
      → Returns dt out
      → ((st : DeviceTree T Resource × S) → Returns st.0 (f st))
      → Returns dt (out >>= f)
  Returns-then dt out f (st, e, (new, same)) next =
      let (st', e', (more, same')) = next st in
      (
        st',
        ap (λ x. x >>= f) e ∙ e',
        (
          new ++ more,
          same'
              ∙ ap (λ (l : List (DeviceNode T Resource)). l ++ more) same
              ∙ append_assoc dt.nodes new more,
        ),
      )

  Returns-if :
      (dt : DeviceTree T Resource) (b : Bool) (x y : Outcome (DeviceTree T Resource × S))
      → (b ≡ true → Returns dt x)
      → (b ≡ false → Returns dt y)
      → Returns dt (if b then x else y)
  Returns-if dt true x y f g = f refl
  Returns-if dt false x y f g = g refl

module _ {S T : Type 0} (hw : Mmio S) (tr : AddressTranslator) (texts : ℕ → ℕ → ℕ → ℕ → List T)
    (e : Ecam) where
  read_u8_lt : (b : Bdf) (offset : ℕ) (s : S) → read_u8 hw tr e b offset s < 256
  unfolding read_u8 peek
  read_u8_lt b offset s = elim (Option-cases (offset_ptr tr e b offset)) [
    | inl nowhere ↦ rw (peek, nowhere) (omega arith)
    | inr (p, here) ↦ rw (peek, here) (omega arith)
  ]

  add_root-Grows :
      (compat : List T) (bars : List BarType) (dt : DeviceTree T Resource)
      → Grows dt (add_root hw tr texts e compat bars dt)
  unfolding add_device attach
  add_root-Grows compat bars dt = (_ ∷ [], refl)

  scan_endpoint-Returns :
      (b : Bdf) (v d c u : ℕ) (dt : DeviceTree T Resource) (s : S)
      → Returns dt (scan_endpoint hw tr texts e b v d c u (dt, s))
  unfolding scan_endpoint
  scan_endpoint-Returns b v d c u dt s =
      let (found, probed) = probe_bars-done hw tr e b s in
      (
        (add_root hw tr texts e (texts v d c u) found.0 dt, found.1),
        rw probed refl,
        add_root-Grows (texts v d c u) found.0 dt,
      )

  module _ (below : ℕ → DeviceTree T Resource × S → Outcome (DeviceTree T Resource × S)) (bus : ℕ)
      (behind : (next : ℕ) (st : DeviceTree T Resource × S)
        → bus < next
        → next < 256
        → Returns st.0 (below next st)) where
    scan_function-Returns :
        (device function : ℕ) (dt : DeviceTree T Resource) (s : S)
        → let b : Bdf = record {
          segment = e.segment;
          bus = bus;
          device = device;
          function = function;
        } in
          Returns dt (scan_function hw tr texts e below b (dt, s))
    unfolding scan_function read_u16
    scan_function-Returns device function dt s =
        let b : Bdf = record {
          segment = e.segment;
          bus = bus;
          device = device;
          function = function;
        } in
        let header_type = read_u8 hw tr e b 14 s % 8 in
        let secondary_bus = read_u8 hw tr e b 25 s in
        let subordinate_bus = read_u8 hw tr e b 26 s in
        Returns-if dt (header_type == 0) _ _ (λ h. scan_endpoint-Returns b _ _ _ _ dt s)
          (λ h.
            Returns-if dt
              (header_type == 1 && ltb bus secondary_bus && leb secondary_bus subordinate_bus) _ _
              (λ h. behind secondary_bus (dt, s) (ground arith) (read_u8_lt b 25 s))
              (λ h. Returns-same dt s))

    scan_functions-Returns :
        (left device function : ℕ) (dt : DeviceTree T Resource) (s : S)
        → Returns dt (scan_functions hw tr texts e below left bus device function (dt, s))
    unfolding scan_functions read_u16
    scan_functions-Returns zero device function dt s = Returns-same dt s
    scan_functions-Returns (suc left) device function dt s =
        Returns-then dt _ (scan_functions hw tr texts e below left bus device (function + 1))
          (Returns-if dt _ _ _ (λ absent. Returns-same dt s)
            (λ there. scan_function-Returns device function dt s))
          (λ (dt', s'). scan_functions-Returns left device (function + 1) dt' s')

    scan_others-Returns :
        (device : ℕ) (dt : DeviceTree T Resource) (s : S)
        → Returns dt (scan_others hw tr texts e below bus device (dt, s))
    unfolding scan_others
    scan_others-Returns device dt s =
        Returns-if dt
          (read_u8 hw tr e
                (record { segment = e.segment; bus = bus; device = device; function = 0 }) 14 s
              / 128
              % 2
            == 1)
          (scan_functions hw tr texts e below 7 bus device 1 (dt, s)) (done (dt, s))
          (λ several. scan_functions-Returns 7 device 1 dt s) (λ one. Returns-same dt s)

    scan_device-Returns :
        (device : ℕ) (dt : DeviceTree T Resource) (s : S)
        → Returns dt (scan_device hw tr texts e below bus device (dt, s))
    unfolding scan_device read_u16
    scan_device-Returns device dt s =
        let b : Bdf = record { segment = e.segment; bus = bus; device = device; function = 0 } in
        let first = scan_function hw tr texts e below b (dt, s) in
        Returns-if dt (peek hw tr 2 e b 0 s == 65535) (done (dt, s))
          (first >>= scan_others hw tr texts e below bus device) (λ absent. Returns-same dt s)
          (λ there.
            Returns-then dt first (scan_others hw tr texts e below bus device)
              (scan_function-Returns device 0 dt s)
              (λ (dt', s'). scan_others-Returns device dt' s'))

    scan_devices-Returns :
        (left device : ℕ) (dt : DeviceTree T Resource) (s : S)
        → Returns dt (scan_devices hw tr texts e below left bus device (dt, s))
    unfolding scan_devices
    scan_devices-Returns zero device dt s = Returns-same dt s
    scan_devices-Returns (suc left) device dt s =
        Returns-then dt _ (scan_devices hw tr texts e below left bus (device + 1))
          (scan_device-Returns device dt s)
          (λ (dt', s'). scan_devices-Returns left (device + 1) dt' s')

  scan_bus-Returns :
      (fuel bus : ℕ) (dt : DeviceTree T Resource) (s : S)
      → 256 ≤ fuel + bus
      → bus < 256
      → Returns dt (scan_bus hw tr texts e fuel bus (dt, s))
  unfolding scan_bus
  scan_bus-Returns zero bus dt s enough lt = absurd (omega arith)
  scan_bus-Returns (suc fuel) bus dt s enough lt =
      scan_devices-Returns (scan_bus hw tr texts e fuel) bus
        (λ next (dt', s') behind in_range. scan_bus-Returns fuel next dt' s' (omega arith) in_range)
        32 0 dt s

  -- The scan of a segment returns, whatever the hardware answers and however its bridges are linked,
  -- and the devices that were in the tree are still there, before those that it adds.
  pub enumerate_segment-returns :
      (dt : DeviceTree T Resource) (s : S)
      → e.start_bus < 256
      → (dt' : DeviceTree T Resource) × (s' : S) × (enumerate_segment hw tr texts e (dt, s)
          ≡ done (dt', s'))
        × (new : List (DeviceNode T Resource)) × (dt'.nodes ≡ dt.nodes ++ new)
  unfolding enumerate_segment
  enumerate_segment-returns dt s lt =
      let ((dt', s'), returned, (new, same)) =
        scan_bus-Returns 256 e.start_bus dt s (omega arith) lt in
      (dt', s', returned, new, same)
