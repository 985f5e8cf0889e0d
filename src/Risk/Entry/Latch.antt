-- ===== src/Risk/Entry/Latch.antt =====
-- The daily loss check against the row that it keeps for the account.
use trading_project.Base.{
  ℕ, ◌≡◌, refl, Bool, true, false, some, List, [], ◌∷◌, arith, not, ◌||◌, nat_eq, ==-refl,
  Bool-cases, inl, inr,
}
use trading_project.Base.Int.{ℤ}
use trading_project.Risk.Checks.{
  DailyRiskState, Book, is_portfolio_row, get_portfolio_row, written_row, persist_rows,
  was_breached, crossed, check_daily_loss_limit,
}

module _ (account_id date : ℕ) where
  -- Writing latches: what is breached stays breached, and a crossed limit is recorded.
  breached-persist :
      (limit realized unrealized : ℤ) (latch : Bool) (now : ℕ) (rows : List DailyRiskState)
      → was_breached (
          get_portfolio_row account_id date
            (persist_rows account_id date limit (written_row realized unrealized latch now) rows))
        ≡ (was_breached (get_portfolio_row account_id date rows) || latch)
  unfolding get_portfolio_row persist_rows written_row is_portfolio_row
  breached-persist limit realized unrealized latch now [] =
      rw (==-refl account_id, ==-refl date) refl
  breached-persist limit realized unrealized latch now (row ∷ rows) =
      elim (Bool-cases (is_portfolio_row account_id date row)) [
        | inl own ↦ unfold is_portfolio_row in ground (arith, own)
        | inr other ↦
            unfold is_portfolio_row in
            ground (arith, other, breached-persist limit realized unrealized latch now rows)
      ]

  -- With a limit configured and no concurrent write, the account's row for the day is breached after
  -- the check exactly if the check failed.
  pub check_daily_loss_limit-records :
      (now : ℕ) (limit : ℤ) (book : Book)
      → let (ok, book') = check_daily_loss_limit false account_id date now (some limit) book in
        was_breached (get_portfolio_row account_id date book'.daily) ≡ not ok
  unfolding check_daily_loss_limit
  check_daily_loss_limit-records now limit book =
      rw (breached-persist limit _ _ (crossed account_id date limit book) now book.daily)
        (ground arith)

  -- A breach is sticky while a limit is configured, whichever: once the row of the account is
  -- breached, every later check of the day against a limit fails, whatever the profit has become
  -- since, and the row stays breached, also through a conflict.
  pub check_daily_loss_limit-sticky :
      (conflict : Bool) (now : ℕ) (limit : ℤ) (book : Book)
      → was_breached (get_portfolio_row account_id date book.daily) ≡ true
      → let (ok, book') = check_daily_loss_limit conflict account_id date now (some limit) book in
        (ok ≡ false) × (was_breached (get_portfolio_row account_id date book'.daily) ≡ true)
  unfolding check_daily_loss_limit
  check_daily_loss_limit-sticky true now limit book h = (ground (arith, h), h)
  check_daily_loss_limit-sticky false now limit book h = (
    ground (arith, h),
    rw (breached-persist limit _ _ (crossed account_id date limit book) now book.daily)
        (ground (arith, h)),
  )
