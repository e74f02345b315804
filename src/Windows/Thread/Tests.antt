-- ===== src/Windows/Thread/Tests.antt =====
-- A thread on Windows that ends while another waits for it.
use ckcore.Base.{◌≡◌, refl, false, true, arith}
use ckcore.Windows.Condition
use ckcore.Windows.Condition.{enter, awake, signal_all_begin, signal_all_end}
use ckcore.Windows.Thread.{
  Thread, create, start, wait_begin, tell_all, told_all, stop, finish, Step, Reach, IsOver,
  Reach-IsOver,
}

abbrev awaited : Thread
awaited = (wait_begin false (start true create).1).1

awaited_end : Reach (finish awaited)
unfolding create start wait_begin Condition.create enter
awaited_end =
    Reach.later
      (Reach.later (Reach.later Reach.new (Step.starts true refl)) (Step.waits false refl))
      (Step.finishes refl (omega arith))

Reach-IsOver_example : IsOver (finish awaited)
Reach-IsOver_example = Reach-IsOver awaited_end

-- Once the waiter has taken the semaphore, the thread is new again.
ends_as_new :
    told_all (record (finish awaited) { thread_done = awake (finish awaited).thread_done }) ≡ create
unfolding create start wait_begin finish tell_all told_all stop Condition.create enter awake
    signal_all_begin signal_all_end
ends_as_new = refl
