-- ===== src/Spinlock/State.antt =====
-- What holds of a spin lock and its processors between two steps, and moves of one processor.
use osp.Prelude.{
  ℕ, suc, ◌≡◌, ◌≢◌, refl, ◌⊎◌, inl, inr, Bool, true, false, ◌==◌, update, update_self, update-ne,
  true≢false, ◌∙◌, sym, subst,
}
use native.Mathlib.Decide.{ℕ_discrete}
use osp.Spinlock.{Pc, outside, spinning, taken, inside, leaving, Cpu, System}

abbrev pub has_lock : Pc → Bool
has_lock outside = false
has_lock spinning = false
has_lock taken = true
has_lock inside = true
has_lock leaving = true

abbrev pub is_inside : Pc → Bool
is_inside outside = false
is_inside spinning = false
is_inside taken = false
is_inside inside = true
is_inside leaving = false

is_inside-out : (p : Pc) → has_lock p ≡ false → is_inside p ≡ false
is_inside-out outside h = refl
is_inside-out spinning h = refl
is_inside-out taken h = refl
is_inside-out inside h = h
is_inside-out leaving h = refl

-- Interrupts are off from acquire to release; outside they are as `on` says.
abbrev pub IsMasked : Bool → Pc → Cpu → Type 0
IsMasked on outside c = (c.ncli ≡ 0) × (c.interrupts ≡ on)
IsMasked on spinning c = (c.ncli ≡ 1) × (c.intena ≡ on) × (c.interrupts ≡ false)
IsMasked on taken c = (c.ncli ≡ 1) × (c.intena ≡ on) × (c.interrupts ≡ false)
IsMasked on inside c = (c.ncli ≡ 1) × (c.intena ≡ on) × (c.interrupts ≡ false)
IsMasked on leaving c = (c.ncli ≡ 1) × (c.intena ≡ on) × (c.interrupts ≡ false)

abbrev pub AllOut : (ℕ → Cpu) → Type 0
AllOut cpus = (i : ℕ) → has_lock (cpus i).pc ≡ false

-- The processor `h` has the lock and no other has.
abbrev pub OnlyHas : (ℕ → Cpu) → ℕ → Type 0
OnlyHas cpus h = (has_lock (cpus h).pc ≡ true) × ((i : ℕ) → i ≢ h → has_lock (cpus i).pc ≡ false)

abbrev pub Excludes : ℕ → (ℕ → Cpu) → Type 0
Excludes locked cpus = ((locked ≡ 0) × AllOut cpus) ⊎ ((locked ≡ 1) × (h : ℕ) × OnlyHas cpus h)

-- The field `cpu` names the processor in the critical section, and no other.
abbrev pub IsOwned : ℕ → (ℕ → Cpu) → Type 0
IsOwned owner cpus = (i : ℕ) → (owner == suc i) ≡ is_inside (cpus i).pc

-- The state of the lock and the processors between two steps.
pub record Safe (on : ℕ → Bool) (s : System) : Type 0 where
  pub masked : (i : ℕ) → IsMasked (on i) (s.cpus i).pc (s.cpus i)
  pub excludes : Excludes s.locked s.cpus
  pub owned : IsOwned s.owner s.cpus

-- A claim on every processor after one of them has moved.
module _ (P : ℕ → Cpu → Type 0) (cpus : ℕ → Cpu) (i : ℕ) (c : Cpu) where
  pub each : ((j : ℕ) → i ≢ j → P j (cpus j)) → P i c → (j : ℕ) → P j (update cpus i c j)
  each others this j = elim (ℕ_discrete i j) [
    | yes e ↦ subst (λ k. P k (update cpus i c k)) e (subst (P i) (sym (update_self cpus i c)) this)
    | no ne ↦ subst (P j) (sym (update-ne cpus i c j ne)) (others j ne)
  ]

pub others_out :
    (locked : ℕ) (cpus : ℕ → Cpu) (i : ℕ)
    → Excludes locked cpus
    → has_lock (cpus i).pc ≡ true
    → (locked ≡ 1) × ((j : ℕ) → i ≢ j → has_lock (cpus j).pc ≡ false)
others_out locked cpus i (inl (z, out)) h = absurd (true≢false (sym h ∙ out i))
others_out locked cpus i (inr (o, k, (at, out))) h = elim (ℕ_discrete i k) [
  | yes e ↦ (o, λ j ne. out j (λ ej. ne (e ∙ sym ej)))
  | no ne ↦ absurd (true≢false (sym h ∙ out i ne))
]

-- A move that neither takes nor leaves the lock.
pub Excludes-same :
    (locked : ℕ) (cpus : ℕ → Cpu) (i : ℕ) (c : Cpu)
    → has_lock c.pc ≡ has_lock (cpus i).pc
    → Excludes locked cpus
    → Excludes locked (update cpus i c)
Excludes-same locked cpus i c e (inl (z, out)) =
    inl (z, each (λ j d. has_lock d.pc ≡ false) cpus i c (λ j ne. out j) (e ∙ out i))
Excludes-same locked cpus i c e (inr (o, h, (at, out))) =
    let kept = each (λ j d. has_lock d.pc ≡ has_lock (cpus j).pc) cpus i c (λ j ne. refl) e in
    inr (o, h, (kept h ∙ at, λ j ne. kept j ∙ out j ne))

-- A move by which no processor enters or leaves the critical section.
pub IsOwned-same :
    (owner : ℕ) (cpus : ℕ → Cpu) (i : ℕ) (c : Cpu)
    → is_inside c.pc ≡ is_inside (cpus i).pc
    → IsOwned owner cpus
    → IsOwned owner (update cpus i c)
IsOwned-same owner cpus i c e owned =
    each (λ j d. (owner == suc j) ≡ is_inside d.pc) cpus i c (λ j ne. owned j) (owned i ∙ sym e)

-- A processor that leaves the critical section, or enters it.
pub IsOwned-one :
    (owner : ℕ) (cpus : ℕ → Cpu) (i : ℕ) (c : Cpu)
    → ((j : ℕ) → i ≢ j → has_lock (cpus j).pc ≡ false)
    → (owner == suc i) ≡ is_inside c.pc
    → ((j : ℕ) → i ≢ j → (owner == suc j) ≡ false)
    → IsOwned owner (update cpus i c)
IsOwned-one owner cpus i c out this others =
    each (λ j d. (owner == suc j) ≡ is_inside d.pc) cpus i c
      (λ j ne. others j ne ∙ sym (is_inside-out (cpus j).pc (out j ne))) this
