-- ===== src/Authorization/Roles.antt =====
-- The order of the roles (`ROLE_ORDER` and `list(Role)` of apps/api/app/authorization.py).
use dev_agent.Base.{ℕ, zero, suc, ◌≡◌, refl}
use dev_agent.Models.{Role, viewer, operator, approver, administrator}

-- `ROLE_ORDER`
abbrev pub rank : Role → ℕ
rank viewer = 0
rank operator = 1
rank approver = 2
rank administrator = 3

-- `list(Role)[n]`; the rank of a role is always below 4.
abbrev pub role_at : ℕ → Role
role_at zero = viewer
role_at (suc zero) = operator
role_at (suc (suc zero)) = approver
role_at (suc (suc (suc n))) = administrator

pub role_at-rank : (r : Role) → role_at (rank r) ≡ r
role_at-rank viewer = refl
role_at-rank operator = refl
role_at-rank approver = refl
role_at-rank administrator = refl
