-- ===== src/OperationQueue/Tests.antt =====
-- Runs of the queue on concrete operations.
use home_io_control_wio_b2b.Base.{◌≡◌, refl, true, [], ◌∷◌, ◌++◌, ◌&&◌, if◌then◌else◌, arith}
use text.Mathlib.Text.{◌==◌ as str_eq}
use home_io_control_wio_b2b.OperationQueue.{
  Queue, pending, set_position, request_status, set_tilt, device_command, push_control,
  enqueue_set_position, enqueue_set_tilt, merge_position, merge_tilt, enqueue_set_position_and_tilt,
  addresses_a_device, is_request_status, is_request_name, is_set_tilt, is_set_position,
}
use home_io_control_wio_b2b.OperationQueue.Bands.{band, IsBanded}
use home_io_control_wio_b2b.OperationQueue.Order.{
  Request, enqueue, enqueue-IsBanded, commands, commands-push_control,
}
use home_io_control_wio_b2b.OperationQueue.Polls.{count, status_of, HasNoDuplicates}
use home_io_control_wio_b2b.OperationQueue.Unique.{enqueue-HasNoDuplicates}
use home_io_control_wio_b2b.OperationQueue.Superseded.{IsSuperseded, enqueue-status_polls}
use home_io_control_wio_b2b.OperationQueue.Merge.{HasNoPartner, merge_commutes}

-- A command for one device in front of a poll of another.
abbrev two_pending : Queue
two_pending = pending set_position "123ABC" 40 ∷ pending request_status "456DEF" 0 ∷ []

two_pending-IsBanded : IsBanded 0 two_pending
unfolding band
two_pending-IsBanded = (omega arith, (omega arith, tt))

enqueue-IsBanded_example : IsBanded 0 (enqueue (Request.status "123ABC") two_pending)
enqueue-IsBanded_example =
    enqueue-IsBanded (Request.status "123ABC") two_pending two_pending-IsBanded

commands-push_control_example :
    commands (push_control (pending set_tilt "456DEF" 10) two_pending)
    ≡ commands two_pending ++ (pending set_tilt "456DEF" 10 ∷ [])
unfolding is_request_status is_request_name
commands-push_control_example =
    commands-push_control (pending set_tilt "456DEF" 10) two_pending refl two_pending-IsBanded

one_poll : IsBanded 0 (pending request_status "456DEF" 0 ∷ [])
unfolding band
one_poll = (omega arith, tt)

empty-HasNoDuplicates : HasNoDuplicates []
unfolding count
empty-HasNoDuplicates = record {
  statuses = λ id. omega arith;
  names = λ id. omega arith;
  pairings = omega arith;
}

enqueue-HasNoDuplicates_example : HasNoDuplicates (enqueue (Request.status "123ABC") [])
enqueue-HasNoDuplicates_example =
    enqueue-HasNoDuplicates (Request.status "123ABC") [] empty-HasNoDuplicates

enqueue-status_polls_example :
    (count (status_of "456DEF") (push_control (pending device_command "456DEF" 0) two_pending) ≡ (
      if addresses_a_device device_command && str_eq "456DEF" "456DEF"
      then 0
      else count (status_of "456DEF") two_pending))
    × IsSuperseded "123ABC" "456DEF" two_pending (enqueue_set_position "123ABC" 70 two_pending)
    × IsSuperseded "123ABC" "456DEF" two_pending (enqueue_set_tilt "123ABC" 70 two_pending)
unfolding is_request_status
enqueue-status_polls_example =
    enqueue-status_polls (pending device_command "456DEF" 0) "123ABC" "456DEF" 70 two_pending refl

two_pending-HasNoPartner : HasNoPartner "456DEF" two_pending
unfolding merge_position merge_tilt is_set_tilt is_set_position
two_pending-HasNoPartner = record { no_tilt = λ p. refl; no_position = λ t. refl }

merge_commutes_example :
    (enqueue_set_tilt "456DEF" 20 (enqueue_set_position "456DEF" 10 two_pending).0
      ≡ (enqueue_set_position_and_tilt "456DEF" 10 20 two_pending, true))
    × (enqueue_set_position "456DEF" 10 (enqueue_set_tilt "456DEF" 20 two_pending).0
        ≡ (enqueue_set_position_and_tilt "456DEF" 10 20 two_pending, true))
merge_commutes_example = merge_commutes "456DEF" 10 20 two_pending two_pending-HasNoPartner
