-- ===== src/Handle/Tests.antt =====
-- Handles at work, and the theorem on them there.
use y_f_s.Base.{◌≡◌, refl, false, none, some, List, [], ◌∷◌, lookup, insert, erase, arith}
use y_f_s.Handle.{
  new_manager, get_handle, reuse, delete_handle, delete_at, done_handle, done_at, safebind,
  safebind_at, bind_at,
}
use y_f_s.Handle.Uses.{
  Event, make, close, bind, delete, run, step, Ends, AllProper, handles_are_counted,
}

-- Two handles to the destination 7 share a client, and it is deleted while they have it.
abbrev uses : List Event
uses =
    make 100 7
    ∷ make 101 7
    ∷ bind 100 (some 55)
    ∷ close 100
    ∷ delete 7
    ∷ bind 100 none
    ∷ close 100
    ∷ make 102 7
    ∷ []

run-uses :
    run uses [] new_manager
    ≡ some (
      102 ∷ [],
      record {
        hmap = (7, 102) ∷ [];
        heap = (102, record { cl = none; refcnt = 1; del = false; m = 7 }) ∷ [];
      },
    )
unfolding run step get_handle reuse delete_handle delete_at done_handle done_at safebind safebind_at
    bind_at lookup insert erase
run-uses = refl

uses-AllProper : AllProper uses [] new_manager
unfolding step get_handle reuse delete_handle delete_at done_handle done_at safebind safebind_at
    bind_at lookup insert erase
uses-AllProper =
    (refl, (refl, (omega arith, (omega arith, (tt, (omega arith, (omega arith, (refl, tt))))))))

handles_are_counted_example : Ends (run uses [] new_manager)
handles_are_counted_example = handles_are_counted uses uses-AllProper
