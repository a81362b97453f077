-- ===== src/Broker/Valid/AcquireAny.antt =====
-- handleAcquireAny: the device that it selects is connected, allowed, matching and free, and the
-- section keeps the invariant.
use adb_harbor.Prelude.{
  ℕ, ◌≡◌, refl, sym, ◌∙◌, inl, inr, Bool, true, false, Option, none, List, [], ◌∷◌, arith,
  Bool-cases, Option-cases, All, ◌⊎◌, false≢true,
}
use adb_harbor.Text.{Text, text, text_eq, is_empty}
use adb_harbor.Map.{get}
use adb_harbor.Devices.{Device}
use adb_harbor.Protocol.{AcquireAnyReq}
use adb_harbor.Broker.{Broker, cleaning_at}
use adb_harbor.Broker.AcquireAny.{
  denied_serial, is_excluded, Selection, select_any, selection, acquire_selected, acquire_any,
  lease_of_session, stuck_to, holder_at, explicit_request,
}
use adb_harbor.Broker.Valid.{IsValid}
use adb_harbor.Broker.Valid.Heaps.{set_lease-Valid}
use adb_harbor.Broker.Valid.Operations.{grant-Valid}

module _ (held : Text → Option Text) (cleaning : Text → Bool) (deny : List Text)
    (usb emu : Bool) where
  -- What a selected device has.
  pub record IsSelectable (d : Device) : Type 0 where
    pub online : text_eq d.state (text "device") ≡ true
    pub allowed : denied_serial d.serial deny ≡ false
    pub matching : is_excluded usb emu d ≡ false
    pub free : held d.serial ≡ none
    pub idle : cleaning d.serial ≡ false

  -- The first device of a list that is selectable.
  pub data FirstSelectable : List Device → Text → Type 0 where
    here : {d : Device} {ds : List Device} → IsSelectable d → FirstSelectable (d ∷ ds) d.serial
    later :
        {d : Device} {ds : List Device} {s : Text}
        → ¬ IsSelectable d
        → FirstSelectable ds s
        → FirstSelectable (d ∷ ds) s

  pub NoneSelectable : List Device → Type 0
  NoneSelectable ds = All (λ d. ¬ IsSelectable d) ds

  abbrev pub Selects : List Device → Text → Type 0
  Selects ds s = FirstSelectable ds s ⊎ (NoneSelectable ds × (s ≡ []))

  skip :
      (d : Device) (ds : List Device) (s : Text)
      → ¬ IsSelectable d
      → Selects ds s
      → Selects (d ∷ ds) s
  unfolding NoneSelectable
  skip d ds s n (inl f) = inl (later n f)
  skip d ds s n (inr (a, e)) = inr ((n, a), e)

  -- selectAcquireAny picks the first connected device that is online, not denied, of the wanted
  -- kind, not held and not in cleanup, and no device when there is none.
  pub select_any-Selects :
      (devs : List Device) → Selects devs (select_any held cleaning deny usb emu devs).serial
  unfolding select_any NoneSelectable
  select_any-Selects [] = inr (tt, refl)
  select_any-Selects (d ∷ ds) =
      let ih = select_any-Selects ds in
      elim (Bool-cases (text_eq d.state (text "device"))) [
        | inr e ↦ rw e (skip d ds _ (λ s. cc (s.online)) ih)
        | inl e ↦ elim (Bool-cases (denied_serial d.serial deny)) [
          | inl f ↦ rw (e, f) (skip d ds _ (λ s. cc (s.allowed)) ih)
          | inr f ↦ elim (Bool-cases (is_excluded usb emu d)) [
            | inl g ↦ rw (e, f, g) (skip d ds _ (λ s. cc (s.matching)) ih)
            | inr g ↦ elim (Option-cases (held d.serial)) [
              | inr (h, k) ↦ rw (e, f, g, k) (skip d ds _ (λ s. cc (s.free)) ih)
              | inl k ↦ elim (Bool-cases (cleaning d.serial)) [
                | inl c ↦ rw (e, f, g, k, c) (skip d ds _ (λ s. cc (s.idle)) ih)
                | inr c ↦
                    rw (e, f, g, k, c)
                      (inl (
                        here
                          (record { online = e; allowed = f; matching = g; free = k; idle = c })))
              ]
            ]
          ]
        ]
      ]

  -- What is selected is free.
  FirstSelectable-free :
      {ds : List Device} {s : Text} → FirstSelectable ds s → (held s ≡ none) × (cleaning s ≡ false)
  FirstSelectable-free (here r) = (r.free, r.idle)
  FirstSelectable-free (later n f) = FirstSelectable-free f

holder_at-none : (b : Broker) (s : Text) → holder_at b s ≡ none → get b.leases s ≡ none
holder_at-none b s e = ground arith

acquire_selected-Valid :
    (b : Broker) (req : AcquireAnyReq) (now : ℕ) (sel : Selection)
    → IsValid b
    → (is_empty sel.serial ≡ false
        → (get b.leases sel.serial ≡ none) × (cleaning_at b sel.serial ≡ false))
    → IsValid (acquire_selected b req now sel).1
unfolding acquire_selected
acquire_selected-Valid b req now sel v ok = elim (Bool-cases (is_empty sel.serial)) [
  | inl e ↦ rw e v
  | inr e ↦ rw e (grant-Valid b (explicit_request req sel.serial) now _ v (ok e).0 (ok e).1)
]

selection-free :
    (b : Broker) (req : AcquireAnyReq) (devs : List Device)
    → is_empty (selection b req devs).serial ≡ false
    → (get b.leases (selection b req devs).serial ≡ none)
      × (cleaning_at b (selection b req devs).serial ≡ false)
unfolding selection
selection-free b req devs e =
    elim (select_any-Selects (holder_at b) (cleaning_at b) b.cfg.deny_serials req.usb req.emulator
      devs) [
        | inl f ↦
            let (free, idle) = FirstSelectable-free _ _ _ _ _ f in (holder_at-none b _ free, idle)
        | inr (a, n) ↦ absurd (false≢true (sym e ∙ rw n refl))
      ]

pub acquire_any-Valid :
    (b : Broker) (req : AcquireAnyReq) (devs : List Device) (now : ℕ)
    → IsValid b
    → IsValid (acquire_any b req devs now).1
unfolding acquire_any
acquire_any-Valid b req devs now v = elim (Option-cases (lease_of_session b req.session)) [
  | inl e ↦
      rw (e, acquire_any)
        (acquire_selected-Valid b req now (selection b req devs) v (selection-free b req devs))
  | inr (p, e) ↦
      rw (e, acquire_any)
        (unfold stuck_to in set_lease-Valid v p (stuck_to b req now (b.lease_heap p)) refl refl)
]
