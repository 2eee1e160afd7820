-- ===== src/Rpc/XidWindow.antt =====
-- rpc/rpc.cc, `rpcc::update_xid_rep`: the client's list `xid_rep_window_` of the replies that it
-- has received. Its front is sent to the server as `xid_rep`. An `unsigned int` wraps at 2 ^ 32.
pub mod Compress
pub mod Received
mod Tests
use y_f_s.Base.{
  ℕ, ◌+◌, ◌%◌, ◌^◌, ◌<◌, ◌≤◌, ◌≡◌, ◌≢◌, Bool, true, false, ◌||◌, List, [], ◌∷◌, ◌++◌, All, elem,
  leb, ltb, ◌==◌, if◌then◌else◌,
}

abbrev pub u32 : ℕ → ℕ
u32 n = n % 2 ^ 32

-- `rpcc::rpcc` pushes 0: xids start at 1.
abbrev pub new_window : List ℕ
new_window = 0 ∷ []

-- `while (front() + 1 == x) pop_front();`, over the elements before the iterator. Where all of them
-- are gone the front is `x` itself, and the test fails.
pub pop_while : ℕ → List ℕ → List ℕ
pop_while x [] = []
pop_while x (p ∷ ps) = if u32 (p + 1) == x then pop_while x ps else p ∷ ps

-- The loop at the label `compress`: the elements before the iterator, and those from it on.
pub compress_from : List ℕ → List ℕ → List ℕ
compress_from pre [] = pre
compress_from pre (x ∷ rest) = compress_from (pop_while x pre ++ x ∷ []) rest

pub compress : List ℕ → List ℕ
unfolding pop_while compress_from
compress [] = []
compress (p ∷ rest) = compress_from (p ∷ []) rest

-- The search for the first larger xid, and `insert` before it; without one, `push_back`.
pub insert_xid : ℕ → List ℕ → List ℕ
insert_xid xid [] = xid ∷ []
insert_xid xid (x ∷ xs) = if ltb xid x then xid ∷ x ∷ xs else x ∷ insert_xid xid xs

-- The window is never empty, so the first clause, where `front()` is undefined, is not reached.
pub update_xid_rep : ℕ → List ℕ → List ℕ
unfolding compress insert_xid
update_xid_rep xid [] = []
update_xid_rep xid (p ∷ ps) = if leb xid p then p ∷ ps else compress (insert_xid xid (p ∷ ps))

abbrev pub front : List ℕ → ℕ
front [] = 0
front (p ∷ ps) = p

-- What a window records: the xids up to its front, and those in it.
abbrev pub has : ℕ → List ℕ → Bool
has r w = leb r (front w) || elem r w

-- Ascending, from a lower bound; an xid may stand twice.
abbrev pub From : ℕ → List ℕ → Type 0
From lo [] = Unit
From lo (x ∷ xs) = (lo ≤ x) × From x xs

abbrev pub Small : List ℕ → Type 0
Small = All (λ x. x < 2 ^ 32)

pub record IsWindow (w : List ℕ) : Type 0 where
  pub inhabited : w ≢ []
  pub sorted : From 0 w
  pub small : Small w
  pub tight : elem (front w + 1) w ≡ false
