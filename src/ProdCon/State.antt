-- ===== src/ProdCon/State.antt =====
-- Assignment_2/f22/main.cpp: the variables that the threads share and where each thread stands.
use cmput.Common.{ℕ, Bool, List}
use cmput.Text.{Bytes}
use cmput.Process.{Event}

-- The global variables, all of which the threads share.
pub record Shared : Type 0 where
  pub max_buffer : ℕ
  pub buffer : List Bytes
  pub work_count : ℕ
  pub ask_count : ℕ
  pub receive_count : ℕ
  pub complete_count : ℕ
  pub sleep_count : ℕ
  pub thread_completed_tasks : ℕ → ℕ
  pub consume_threads : ℕ
  pub in_progress : Bool
  pub done : Bool
  pub out : List Event

-- Where the producer stands: before its first statement, at `getline`, at the lock with a command to push,
-- in `pthread_cond_wait` with it, behind `done = true`, behind the broadcast, at its end.
pub data ProducerAt : Type 0 where
  starting reading finishing closing ended : ProducerAt
  pushing parked : Bytes → ProducerAt

pub record Producer : Type 0 where
  pub lines : List Bytes
  pub at : ProducerAt

-- Where a consumer stands: before its first statement, at `while (in_progress)`, at the lock, in
-- `pthread_cond_wait`, behind the lock with a command, behind "Receive", at its end.
pub data ConsumerAt : Type 0 where
  created checking asking sleeping left : ConsumerAt
  taken busy : Bytes → ConsumerAt

pub record Consumer : Type 0 where
  pub id : ℕ
  pub jobs_complete : ℕ
  pub at : ConsumerAt

-- What a step does to the condition variable that the threads of the other kind wait for: nothing,
-- `pthread_cond_signal` or `pthread_cond_broadcast`.
pub data Wake : Type 0 where
  silent signal broadcast : Wake

-- A thread moves, it waits or has ended, or it reads beyond a string.
pub data Move (A : Type 0) : Type 0 where
  moves : Wake → A → Move A
  waits : Move A
  faults : Move A
