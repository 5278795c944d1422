-- ===== src/Claim/Order.antt =====
-- The item that the query of a claim gives (apps/api/app/service.py, `claim_next_work`).
use dev_agent.Base.{
  ◌≤◌, ◌≡◌, refl, inl, inr, Key, Bool, true, none, some, List, [], ◌∷◌, select, arith, is_some,
  Option-cases,
}
use dev_agent.Base.Table.{find}
use dev_agent.Base.Table.Rows.{find-select}
use dev_agent.Models.{WorkItem, work_keyed}
use dev_agent.Claim.{oldest, is_claimable}

-- The item is one that the query gives, and it is in the table.
pub oldest-select :
    (p : WorkItem → Bool) (w : WorkItem) (t : List WorkItem)
    → oldest (select p t) ≡ some w
    → (p w ≡ true) × (is_some (find w.id t) ≡ true)
unfolding oldest find
oldest-select p w [] h = absurd (cc)
oldest-select p w (x ∷ t) h = elim (Option-cases (oldest (select p t))) [
  | inl e ↦ ground (arith, oldest-select p w t)
  | inr (v, e) ↦ ground (arith, oldest-select p w t)
]

oldest-none : (i : Key) (ws : List WorkItem) → oldest ws ≡ none → find i ws ≡ none
unfolding oldest find
oldest-none i [] h = refl
oldest-none i (x ∷ ws) h = ground arith

oldest_le :
    (w x : WorkItem) (i : Key) (ws : List WorkItem)
    → oldest ws ≡ some w
    → find i ws ≡ some x
    → w.created_at ≤ x.created_at
unfolding oldest find
oldest_le w x i [] h f = absurd (cc)
oldest_le w x i (y ∷ ws) h f = elim (Option-cases (oldest ws)) [
  | inl e ↦ ground (arith, oldest-none i ws e)
  | inr (v, e) ↦ ground (arith, oldest_le v x i ws e)
]

pub oldest_claimable :
    (locked : Key → Bool) (t : List WorkItem) {w : WorkItem} (i : Key) {x : WorkItem}
    → oldest (select (is_claimable locked) t) ≡ some w
    → find i t ≡ some x
    → is_claimable locked x ≡ true
    → w.created_at ≤ x.created_at
oldest_claimable locked t {w} i {x} h f c =
    oldest_le w x i (select (is_claimable locked) t) h (find-select (is_claimable locked) i x t f c)
