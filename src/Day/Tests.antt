-- ===== src/Day/Tests.antt =====
-- The morning's entry at a broker that fills every order, and the exit of its position at a target.
use trading_project.Base.{refl, false}
use trading_project.Enums.{ExitReason, ProductType}
use trading_project.Runtime.Recording.{recording}
use trading_project.Exit.Flow.{ExitConfig}
use trading_project.Entry.Procedure.{enter}
use trading_project.Entry.Tests.{morning, services, cfg, filling}
use trading_project.Day.{CanLeave, enter-CanLeave}

abbrev exit_cfg : ExitConfig
exit_cfg = record {
  instance_id = 1;
  product_type = ProductType.normal;
  fill_attempts = 20;
  close_attempts = 3;
}

enter-CanLeave_example :
    let (r, w') = enter (recording filling) cfg 100 20000 services morning in
    CanLeave filling cfg 20000 100 services exit_cfg refl 900 false ExitReason.target r w'
enter-CanLeave_example =
    enter-CanLeave filling cfg 20000 100 services exit_cfg refl 900 false ExitReason.target morning
      refl
