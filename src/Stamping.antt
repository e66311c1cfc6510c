-- ===== src/Stamping.antt =====
-- What `Dispatch` of api/queue.go does to a job on either backend, and its errors.
use adele_queue.Base.{if◌then◌else◌}
use adele_queue.Base.Text.{Text}
use adele_queue.Time.{Instant, Stamp, format, is_unset}
use adele_queue.Job.{Job}

pub data DispatchError : Type 0 where
  invalid_dispatch_at : Stamp → DispatchError
  redis_refused : DispatchError
  unknown_backend : DispatchError

-- `id` is the new random UUID, and `now` the first reading of the clock.
unfoldable pub stamp_job : {W : Type 0} → Text → Instant → Job W → Job W
stamp_job id now job = record job {
  id = id;
  reserved_at = format now;
  retry_after = if is_unset job.dispatch_at then format now else job.dispatch_at;
  status = "pending";
}
