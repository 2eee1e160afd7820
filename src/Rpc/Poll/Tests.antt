-- ===== src/Rpc/Poll/Tests.antt =====
-- A poll manager with a few descriptors, and the theorem on its steps there.
use y_f_s.Base.{◌≡◌, ◌==◌, ◌||◌, refl, none, some, [], ◌∷◌, if◌then◌else◌}
use y_f_s.Rpc.Poll.{
  cb_rdonly, cb_rdwr, new_select, new_poll, watch_fd, turn, read_cb, write_cb, wait_ready, collect,
  calls_for,
}
use y_f_s.Rpc.Poll.Watched.{IsServed, Leaves, step, add, step-IsServed, new_poll-IsServed}

-- Two connections, one of which also writes.
turn-served :
    turn
      (λ fd. (fd == 3) || (fd == 5))
      (λ fd. fd == 5)
      (record (new_poll 4) {
        callbacks = λ fd. if fd == 3 then some 30 else if fd == 5 then some 50 else none;
        aio = watch_fd 3 cb_rdonly (watch_fd 5 cb_rdwr (new_select 4));
      })
    ≡ read_cb 30 3 ∷ read_cb 50 5 ∷ write_cb 50 5 ∷ []
unfolding turn wait_ready collect calls_for watch_fd new_select
turn-served = refl

step-IsServed_example : Leaves IsServed (step (add 5 cb_rdonly 50) (new_poll 4))
step-IsServed_example = step-IsServed (add 5 cb_rdonly 50) (new_poll 4) tt (new_poll-IsServed 4)
