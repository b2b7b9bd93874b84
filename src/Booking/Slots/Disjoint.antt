-- ===== src/Booking/Slots/Disjoint.antt =====
-- The slot checks accept exactly the lists of slots within a day that share no hour.
use sports_venue_management.Common.{
  ℕ, ◌≤◌, ◌<◌, ◌≡◌, ◌↔◌, ◌≢◌, refl, true, false, List, [], ◌∷◌, any, All, arith, max, inl, inr,
  Bool-cases,
}
use sports_venue_management.Common.Outcome.{ok, >>=-eq-ok, unit_ok}
use sports_venue_management.Booking.Slots.{Slot, overlap, check_slot, check_each, check_slots}

-- the slot covers the hour that begins at `h`
abbrev pub Covers : Slot → ℕ → Type 0
Covers s h = (s.start_time ≤ h) × (h < s.end_time)

abbrev pub IsWithinDay : Slot → Type 0
IsWithinDay s = (s.start_time ≤ 23) × (s.end_time ≤ 24) × (s.start_time < s.end_time)

abbrev pub Disjoint : Slot → Slot → Type 0
Disjoint s t = (h : ℕ) → Covers s h → Covers t h → ⊥

-- every slot lies within the day and shares no hour with a later one
abbrev pub AreBookable : List Slot → Type 0
AreBookable [] = Unit
AreBookable (s ∷ rest) = IsWithinDay s × All (Disjoint s) rest × AreBookable rest

-- A shared hour shows in the test,
pub overlap-Covers : (s t : Slot) (h : ℕ) → Covers s h → Covers t h → overlap s t ≡ true
unfolding overlap
overlap-Covers s t h p q = ground arith

-- and the later start is a shared hour of two slots that overlap.
pub overlap_hour :
    (s t : Slot)
    → s.start_time < s.end_time
    → t.start_time < t.end_time
    → overlap s t ≡ true
    → Covers s (max s.start_time t.start_time) × Covers t (max s.start_time t.start_time)
unfolding overlap
overlap_hour s t p q h = ground arith

pub overlap-Disjoint :
    (s t : Slot)
    → s.start_time < s.end_time
    → t.start_time < t.end_time
    → (overlap s t ≡ false) ↔ Disjoint s t
overlap-Disjoint s t p q = (
  (λ apart h in_s in_t. cc (overlap-Covers s t h in_s in_t)),
  λ apart. elim (Bool-cases (overlap s t)) [
    | inl meet ↦ let hour = overlap_hour s t p q meet in absurd (apart _ hour.0 hour.1)
    | inr separate ↦ separate
  ],
)

any-Disjoint :
    (s : Slot) (rest : List Slot)
    → s.start_time < s.end_time
    → AreBookable rest
    → (any (overlap s) rest ≡ false) ↔ All (Disjoint s) rest
any-Disjoint s [] ordered rest_ok = ((λ h. tt), λ h. refl)
any-Disjoint s (t ∷ rest) ordered rest_ok =
    let head = overlap-Disjoint s t ordered rest_ok.0.2 in
    let tail = any-Disjoint s rest ordered rest_ok.2 in
    (
      (λ h. (head.0 (ground arith), tail.0 (ground arith))),
      λ h. let a = head.1 h.0 in let b = tail.1 h.1 in rw (a, b) refl,
    )

check_slot_iff :
    (s : Slot) (rest : List Slot)
    → AreBookable rest
    → (check_slot s rest ≡ ok tt) ↔ (IsWithinDay s × All (Disjoint s) rest)
unfolding check_slot
check_slot_iff s rest rest_ok = (
  (λ h.
      let day : IsWithinDay s = ground arith in
      (day, (any-Disjoint s rest day.2 rest_ok).0 (ground arith))),
  λ h. let apart = (any-Disjoint s rest h.0.2 rest_ok).1 h.1 in rw apart (ground arith),
)

check_each_iff : (slots : List Slot) → (check_each slots ≡ ok tt) ↔ AreBookable slots
unfolding check_each
check_each_iff [] = ((λ h. tt), λ h. refl)
check_each_iff (s ∷ rest) = (
  (λ h.
      let (_, here, later) = >>=-eq-ok (check_slot s rest) (λ _. check_each rest) h in
      let tail = (check_each_iff rest).0 later in
      let head = (check_slot_iff s rest tail).0 (unit_ok (check_slot s rest) here) in
      (head.0, head.1, tail)),
  λ h. let head = (check_slot_iff s rest h.2).1 (h.0, h.1) in rw head ((check_each_iff rest).1 h.2),
)

-- A request is accepted exactly if it has a slot, every slot lies within the day and begins before
-- it ends, and no hour belongs to two of its slots.
pub check_slots_iff :
    (slots : List Slot) → (check_slots slots ≡ ok tt) ↔ ((slots ≢ []) × AreBookable slots)
unfolding check_slots
check_slots_iff [] = ((λ h. cc), λ h. absurd (h.0 refl))
check_slots_iff (s ∷ rest) =
    ((λ h. ((λ e. cc), (check_each_iff (s ∷ rest)).0 h)), λ h. (check_each_iff (s ∷ rest)).1 h.1)
