-- ===== src/StatusPolls/Tests.antt =====
-- Runs of the poll policy on one tracked device.
use home_io_control_wio_b2b.Base.{true, some, [], ◌∷◌, arith}
use home_io_control_wio_b2b.StatusPolls.{
  PollTracking, Tracking, find, on_exchange_failed, pop_due_device,
}
use home_io_control_wio_b2b.StatusPolls.Backoff.{IsBackedOff, on_exchange_failed-IsBackedOff}
use home_io_control_wio_b2b.StatusPolls.Due.{IsScanned, pop_due_device-IsScanned}

abbrev moving : PollTracking
moving = record {
  interval_ms = 0;
  next_update = 2000;
  poll_deadline = 601000;
  status_poll_failures = 1;
  auth_poll_failures = 0;
}

abbrev tracked : Tracking
tracked = ("123ABC", moving) ∷ []

on_exchange_failed-IsBackedOff_example :
    IsBackedOff "123ABC" true 3000 tracked
      (some moving)
      (on_exchange_failed "123ABC" true 3000 tracked)
unfolding find
on_exchange_failed-IsBackedOff_example =
    on_exchange_failed-IsBackedOff "123ABC" true 3000 tracked (omega arith, omega arith)

pop_due_device-IsScanned_example : IsScanned 3000 tracked (pop_due_device 3000 tracked)
pop_due_device-IsScanned_example = pop_due_device-IsScanned 3000 tracked
