-- ===== src/Attendance/Leave/Status.antt =====
-- The derived status of a request (`deriveLeaveStatus`).
use fenzit_be.Prelude.{arith, false, true, ◌≡◌, ◌∷◌, List}
use fenzit_be.Attendance.Leave.Types.{
  cancelled, revoked, approved, pending, in_states, LeaveDayState, first_present,
  derive_leave_status,
}

-- The status of a request with days is the state of one of them, and no state that stands before it in
-- the order pending, approved, revoked, cancelled, rejected is the state of any.
pub derive_leave_status_first :
    (s : LeaveDayState) (ss : List LeaveDayState)
    → (in_states (s ∷ ss) (derive_leave_status (s ∷ ss)) ≡ true)
      × (in_states (s ∷ ss) pending ≡ true → derive_leave_status (s ∷ ss) ≡ pending)
      × (in_states (s ∷ ss) pending ≡ false
          → in_states (s ∷ ss) approved ≡ true
          → derive_leave_status (s ∷ ss) ≡ approved)
      × (in_states (s ∷ ss) pending ≡ false
          → in_states (s ∷ ss) approved ≡ false
          → in_states (s ∷ ss) revoked ≡ true
          → derive_leave_status (s ∷ ss) ≡ revoked)
      × (in_states (s ∷ ss) pending ≡ false
          → in_states (s ∷ ss) approved ≡ false
          → in_states (s ∷ ss) revoked ≡ false
          → in_states (s ∷ ss) cancelled ≡ true
          → derive_leave_status (s ∷ ss) ≡ cancelled)
unfolding derive_leave_status first_present
derive_leave_status_first s ss = (
  ground arith,
  λ h. ground arith,
  λ h k. ground arith,
  λ h k l. ground arith,
  λ h k l m. ground arith,
)
