-- ===== src/Extent/Tests.antt =====
-- Runs of the extent server, and the theorems on it at concrete inputs.
use y_f_s.Base.{
  ℕ, ◌^◌, ◌≡◌, ◌≢◌, refl, some, List, [], ◌∷◌, lookup, insert, lookup-insert, lookup-empty, arith,
}
use y_f_s.Extent.{ok, Store, Server, key, resized, splice, grown, putbuf, getbuf}
use y_f_s.Extent.Access.{getbuf-putbuf}
use y_f_s.Extent.History.{
  Call, call_put, call_putbuf, call_getbuf, call_remove, call_get, run, step,
}
use y_f_s.Extent.Sizes.{HasSizes, step-HasSizes, Leaves}
use y_f_s.Extent.Spec.{spec_run, extents}
use y_f_s.Extent.Refinement.{RunMeets, run_refines}

abbrev file : Store
file = record { buf = 1 ∷ 2 ∷ 3 ∷ []; a = record { atime = 5; mtime = 5; ctime = 5; size = 3 } }

abbrev server : Server
server = insert 7 file []

file_found : lookup 7 server ≡ some file
file_found = ground (arith, lookup-insert 7 7 file [])

server-HasSizes : HasSizes server
server-HasSizes j e f = ground (arith, f, lookup-insert 7 j file [], lookup-empty {V = Store} j)

abbrev max_size : ℕ
max_size = 2 ^ 30

written_in_the_gap : splice max_size 5 (9 ∷ []) (1 ∷ 2 ∷ []) ≡ some (1 ∷ 2 ∷ 0 ∷ 0 ∷ 0 ∷ 9 ∷ [])
unfolding splice grown resized
written_in_the_gap = refl

getbuf-putbuf_example :
    (s' : Server) × (putbuf max_size 7 5 (8 ∷ 9 ∷ []) 9 server ≡ some (ok, s'))
    × ((getbuf 7 2 5 [] 10 s').0 ≡ ok)
    × ((getbuf 7 2 5 [] 10 s').1 ≡ 8 ∷ 9 ∷ [])
    × ((j : ℕ) → j ≢ key 7 → lookup j s' ≡ lookup j server)
getbuf-putbuf_example =
    getbuf-putbuf max_size 7 5 9 10 (8 ∷ 9 ∷ []) [] server file file_found (omega arith)
      (omega arith) (omega arith)

step-HasSizes_example : Leaves HasSizes (step max_size 9 (call_putbuf 7 2 (8 ∷ 9 ∷ [])) server)
step-HasSizes_example =
    step-HasSizes max_size 9 (call_putbuf 7 2 (8 ∷ 9 ∷ [])) server tt server-HasSizes

abbrev calls : List (ℕ × Call)
calls =
    (1, call_put 8 (1 ∷ []))
    ∷ (2, call_putbuf 8 3 (5 ∷ []))
    ∷ (3, call_getbuf 8 9 2)
    ∷ (4, call_remove 7)
    ∷ (5, call_get 7)
    ∷ []

run_refines_example : RunMeets (spec_run calls (extents server)) (run max_size calls server)
run_refines_example =
    run_refines max_size calls server (omega arith) (tt, (omega arith, (tt, (tt, (tt, tt)))))
