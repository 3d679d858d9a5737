-- ===== src/Skipping/Laws.antt =====
-- A status that an error was written to.
use auto_repair.Common.{false, some, ◌≡◌, refl}
use auto_repair.Errors.{AutorepairError}
use auto_repair.Processors.{ScaleUpStatus, was_successful}
use auto_repair.Skipping.{fail_scale_up}

-- Whatever the status was, after an error it does not count as successful, it has the error that is
-- returned, and a second error replaces the first.
fail_scale_up_lem :
    (s : ScaleUpStatus) (e f : AutorepairError)
    → (was_successful (fail_scale_up s e).0 ≡ false)
      × ((fail_scale_up s e).0.scale_up_error ≡ some (fail_scale_up s e).1)
      × (fail_scale_up (fail_scale_up s e).0 f ≡ fail_scale_up s f)
unfolding fail_scale_up was_successful
fail_scale_up_lem s e f = (refl, refl, refl)
