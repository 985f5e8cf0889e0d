-- ===== src/Orders/Settling.antt =====
-- A whole history of snapshots on one row.
use trading_project.Base.{
  ℕ, ◌≡◌, refl, ap, true, false, List, [], ◌∷◌, ◌++◌, max, if◌then◌else◌, ◌==◌, Bool-cases, inl,
  inr, All, ◌∙◌,
}
use trading_project.Enums.{OrderStatus, order_status_eq}
use trading_project.Models.{Order}
use trading_project.Broker.{BrokerOrder}
use trading_project.Orders.{is_terminal_status, apply_broker_order_update}
use trading_project.Orders.Apply.{
  apply_all, apply_all_terminal, fate, apply-settles, apply-advances, apply_terminal_terminal,
  apply_open-not_terminal,
}

abbrev pub Snapshots : Type 0
Snapshots = List (BrokerOrder × ℕ)

-- The highest filled quantity that is reported, from `n` on.
abbrev pub highest : ℕ → Snapshots → ℕ
highest n [] = n
highest n ((bo, _) ∷ us) = highest (max n bo.filled_quantity) us

abbrev pub AllOpen : Snapshots → Type 0
AllOpen us = All (λ u. is_terminal_status u.0.status ≡ false) us

-- What a history makes of a row: it stays open, with the highest quantity that was reported; or the
-- first terminal snapshot gives its status, and its quantity where it says COMPLETE, and what comes
-- behind it counts for nothing.
pub data Settles (us : Snapshots) (order after : Order) : Type 0 where
  still_open :
      AllOpen us
      → is_terminal_status after.status ≡ false
      → after.filled_quantity ≡ highest order.filled_quantity us
      → Settles us order after
  by_first :
      (before rest : Snapshots) (bo : BrokerOrder) (now : ℕ)
      → us ≡ before ++ (bo, now) ∷ rest
      → AllOpen before
      → is_terminal_status bo.status ≡ true
      → after.status ≡ fate bo.status
      → after.filled_quantity ≡ (
          if bo.status == OrderStatus.complete
          then bo.filled_quantity
          else highest order.filled_quantity before)
      → Settles us order after

-- a snapshot that is not terminal, in front
behind_open :
    (u : BrokerOrder × ℕ) (us : Snapshots) (order next after : Order)
    → is_terminal_status u.0.status ≡ false
    → next.filled_quantity ≡ max order.filled_quantity u.0.filled_quantity
    → Settles us next after
    → Settles (u ∷ us) order after
behind_open u us order next after k moved (still_open all_open live filled) =
    still_open (k, all_open) live (filled ∙ ap (λ n. highest n us) moved)
behind_open u us order next after k moved
      (by_first before rest bo now split opens over status filled) =
    by_first (u ∷ before) rest bo now (ap (λ vs. u ∷ vs) split) (k, opens) over status
      (filled
        ∙ ap
            (λ n.
              if bo.status == OrderStatus.complete then bo.filled_quantity else highest n before)
            moved)

-- Whatever history of snapshots arrives for a row that is not terminal: if none of them is terminal,
-- the row is not, and its filled quantity is the highest that any reported, also where they come out
-- of order; otherwise the first terminal one decides the status, with ERROR recorded as a rejection,
-- and a COMPLETE one the filled quantity, which else is the highest reported before it, and no
-- snapshot behind it counts.
pub apply_all-Settles :
    (us : Snapshots) (order : Order)
    → is_terminal_status order.status ≡ false
    → Settles us order (apply_all us order)
unfolding apply_all
apply_all-Settles [] order live = still_open tt live refl
apply_all-Settles ((bo, now) ∷ us) order live = elim (Bool-cases (is_terminal_status bo.status)) [
  | inl over ↦
      let next = (apply_broker_order_update order bo now).0 in
      let stays : apply_all us next ≡ next =
        apply_all_terminal us next (apply_terminal_terminal order bo now over) in
      let (status, filled) = apply-settles order bo now live over in
      by_first [] us bo now refl tt over (ap (λ o. o.status) stays ∙ status)
        (ap (λ o. o.filled_quantity) stays ∙ filled)
  | inr k ↦
      let (filled, _) = apply-advances order bo now k in
      behind_open (bo, now) us order (apply_broker_order_update order bo now).0
        (apply_all us (apply_broker_order_update order bo now).0) k (rw live at filled)
        (apply_all-Settles us (apply_broker_order_update order bo now).0
          (apply_open-not_terminal order bo now live k))
]
