-- ===== src/Accounts.antt =====
-- The accounts of the workers' resources: what is available and what the leases reserve.
pub mod Keep
pub mod Settle
pub mod Reconciled
use dev_agent.Base.{
  ℕ, ◌+◌, ◌-◌, ◌≡◌, refl, Key, Bool, some, List, ◌∷◌, ◌&&◌, not, nat_beq, sum_of, if◌then◌else◌,
}
use dev_agent.Base.Table.{find, save}
use dev_agent.Base.Table.Rows.{sum_of-save}
use dev_agent.Models.{ResourceLease, is_released, lease_keyed}

-- A lease holds its worker's resources until it is released; a quarantined one still does.
abbrev pub is_held : Key → ResourceLease → Bool
is_held w l = nat_beq l.worker_id w && not (is_released l.state)

abbrev pub held : (ResourceLease → ℕ) → Key → ResourceLease → ℕ
held amount w l = if is_held w l then amount l else 0

-- The sum that the leases of a worker reserve.
unfoldable pub reserved : (ResourceLease → ℕ) → Key → List ResourceLease → ℕ
reserved amount w = sum_of (held amount w)

module _ (amount : ResourceLease → ℕ) (w : Key) where
  pub reserved-cons :
      (l : ResourceLease) (t : List ResourceLease)
      → reserved amount w (l ∷ t) ≡ held amount w l + reserved amount w t
  unfolding reserved
  reserved-cons l t = refl

  pub reserved-save :
      (l old : ResourceLease) (t : List ResourceLease)
      → find l.id t ≡ some old
      → reserved amount w (save l t) + held amount w old ≡ reserved amount w t + held amount w l
  unfolding reserved
  reserved-save l old t h = sum_of-save (held amount w) l old t h
