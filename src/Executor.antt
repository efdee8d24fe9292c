-- ===== src/Executor.antt =====
-- include/minicomps/executor.h: a work queue with a second buffer.
pub mod Threads
use minicomps.Prelude.{List, [], ◌∷◌, ◌++◌}

pub record Executor (T : Type 0) : Type 0 where
  pub work_items : List T
  pub back_buffer : List T

module _ {T : Type 0} where
  abbrev pub idle : Executor T
  idle = record { work_items = []; back_buffer = [] }

  -- Under `mutex_`; the data of the task is moved into its `fixed_any`.
  unfoldable pub enqueue_work : Executor T → T → Executor T
  enqueue_work e t = record e { work_items = e.work_items ++ t ∷ [] }

  -- `std::swap(work_items_, work_items_back_buffer_)`, under `mutex_`.
  unfoldable pub swap_buffers : Executor T → Executor T
  swap_buffers e = record { work_items = e.back_buffer; back_buffer = e.work_items }

  -- `work_items_back_buffer_.clear()`
  unfoldable pub clear_back_buffer : Executor T → Executor T
  clear_back_buffer e = record e { back_buffer = [] }
