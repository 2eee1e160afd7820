-- ===== src/Rpc/Poll.antt =====
-- rpc/pollmgr.h and rpc/pollmgr.cc: the poll manager, over `select`. The sets of descriptors are
-- functions; what `select` finds ready is an input. A callback object is a number.
pub mod Watched
mod Tests
use y_f_s.Base.{
  ℕ, zero, suc, ◌+◌, Bool, true, false, not, ◌&&◌, ◌||◌, Option, none, some, List, [], ◌∷◌, ◌++◌,
  leb, ltb, ◌==◌, if◌then◌else◌,
}

-- `poll_flag`
pub data Flag : Type 0 where
  cb_none cb_rdonly cb_wronly cb_rdwr : Flag

abbrev pub FdSet : Type 0
FdSet = ℕ → Bool

-- `FD_SET` and `FD_CLR`
abbrev pub fd_put : Bool → ℕ → FdSet → FdSet
fd_put b fd s = λ i. if i == fd then b else s i

-- `pipefd` is `pipefd_[0]`.
pub record SelectAio : Type 0 where
  pub rfds : FdSet
  pub wfds : FdSet
  pub highfds : ℕ
  pub pipefd : ℕ

pub new_select : ℕ → SelectAio
new_select pipefd = record {
  rfds = fd_put true pipefd (λ i. false);
  wfds = λ i. false;
  highfds = pipefd;
  pipefd = pipefd;
}

abbrev pub watched : SelectAio → ℕ → Bool
watched s fd = s.rfds fd || s.wfds fd

-- Only CB_RDONLY and CB_WRONLY leave the other set alone.
abbrev pub reads : Flag → Bool
reads cb_rdonly = true
reads cb_wronly = false
reads cb_rdwr = true
reads cb_none = true

abbrev pub writes : Flag → Bool
writes cb_rdonly = false
writes cb_wronly = true
writes cb_rdwr = true
writes cb_none = true

pub watch_fd : ℕ → Flag → SelectAio → SelectAio
watch_fd fd flag s = record s {
  highfds = if leb s.highfds fd then fd else s.highfds;
  rfds = if reads flag then fd_put true fd s.rfds else s.rfds;
  wfds = if writes flag then fd_put true fd s.wfds else s.wfds;
}

pub is_watched : ℕ → Flag → SelectAio → Bool
is_watched fd cb_rdonly s = s.rfds fd
is_watched fd cb_wronly s = s.wfds fd
is_watched fd cb_rdwr s = s.rfds fd && s.wfds fd
is_watched fd cb_none s = s.rfds fd && s.wfds fd

-- The search for the new highest descriptor: `n` rounds from `i` on.
pub highest : SelectAio → ℕ → ℕ → ℕ → ℕ
highest s zero i newh = newh
highest s (suc n) i newh = highest s n (suc i) (if watched s i then i else newh)

abbrev pub cleared : ℕ → Flag → SelectAio → SelectAio
cleared fd flag s = record s {
  rfds = if reads flag then fd_put false fd s.rfds else s.rfds;
  wfds = if writes flag then fd_put false fd s.wfds else s.wfds;
}

-- `unwatch_fd`: the set, and whether the descriptor is in neither set; `none` is VERIFY(0).
pub lower_high : ℕ → SelectAio → SelectAio
unfolding highest
lower_high fd s =
    if not (watched s fd) && (fd == s.highfds)
    then record s { highfds = highest s (suc s.highfds) 0 s.pipefd }
    else s

abbrev pub unwatched : ℕ → SelectAio → SelectAio × Bool
unwatched fd s = (lower_high fd s, not (watched s fd))

pub unwatch_fd : ℕ → Flag → SelectAio → Option (SelectAio × Bool)
unfolding lower_high
unwatch_fd fd cb_none s = none
unwatch_fd fd cb_rdonly s = some (unwatched fd (cleared fd cb_rdonly s))
unwatch_fd fd cb_wronly s = some (unwatched fd (cleared fd cb_wronly s))
unwatch_fd fd cb_rdwr s = some (unwatched fd (cleared fd cb_rdwr s))

-- The loop of `wait_ready` over the sets that `select` left, `n` rounds from `i` on.
pub record ReadyFds : Type 0 where
  pub readable : List ℕ
  pub writable : List ℕ

abbrev pub push_ready : Bool → ℕ → List ℕ → List ℕ
push_ready true fd fds = fds ++ fd ∷ []
push_ready false fd fds = fds

pub collect : FdSet → FdSet → ℕ → ℕ → ℕ → ReadyFds → ReadyFds
collect tr tw pipefd zero i r = r
collect tr tw pipefd (suc n) i r = collect tr tw pipefd n (suc i) (
    if (i == pipefd) && tr i then r else record {
      readable = push_ready (tr i) i r.readable;
      writable = push_ready (tw i) i r.writable;
    })

pub wait_ready : FdSet → FdSet → SelectAio → ReadyFds
unfolding collect
wait_ready tr tw s =
    collect tr tw s.pipefd (suc s.highfds) 0 (record { readable = []; writable = [] })

abbrev pub max_poll_fds : ℕ
max_poll_fds = 128

pub record PollMgr : Type 0 where
  pub callbacks : ℕ → Option ℕ
  pub aio : SelectAio
  pub pending_change : Bool

abbrev pub new_poll : ℕ → PollMgr
new_poll pipefd = record { callbacks = λ fd. none; aio = new_select pipefd; pending_change = false }

abbrev pub set_callback : ℕ → Option ℕ → (ℕ → Option ℕ) → ℕ → Option ℕ
set_callback fd ch callbacks = λ i. if i == fd then ch else callbacks i

abbrev pub is_free_for : ℕ → Option ℕ → Bool
is_free_for ch none = true
is_free_for ch (some old) = old == ch

-- `none` is a failed VERIFY.
pub add_callback : ℕ → Flag → ℕ → PollMgr → Option PollMgr
unfolding watch_fd
add_callback fd flag ch p =
    if ltb fd max_poll_fds && is_free_for ch (p.callbacks fd)
    then some (record p {
      aio = watch_fd fd flag p.aio;
      callbacks = set_callback fd (some ch) p.callbacks;
    })
    else none

abbrev pub removed : ℕ → PollMgr → Option (SelectAio × Bool) → Option PollMgr
removed fd p none = none
removed fd p (some (aio, true)) =
    some (record p { aio = aio; callbacks = set_callback fd none p.callbacks })
removed fd p (some (aio, false)) = some (record p { aio = aio })

pub del_callback : ℕ → Flag → PollMgr → Option PollMgr
unfolding unwatch_fd
del_callback fd flag p = removed fd p (unwatch_fd fd flag p.aio)

-- `block_remove_fd`, up to its wait, and after it.
pub remove_begin : ℕ → PollMgr → PollMgr
remove_begin fd p = record p {
  aio = (unwatched fd (cleared fd cb_rdwr p.aio)).0;
  pending_change = true;
}

pub remove_end : ℕ → PollMgr → PollMgr
remove_end fd p = record p { callbacks = set_callback fd none p.callbacks }

abbrev pub is_callback : ℕ → Option ℕ → Bool
is_callback c none = false
is_callback c (some old) = old == c

pub has_callback : ℕ → Flag → ℕ → PollMgr → Bool
unfolding is_watched
has_callback fd flag c p = is_callback c (p.callbacks fd) && is_watched fd flag p.aio

-- The calls of one turn of `wait_loop`: the readable descriptors, then the writable ones.
pub data Call : Type 0 where
  read_cb write_cb : (object : ℕ) → (fd : ℕ) → Call

pub calls_for : (ℕ → ℕ → Call) → (ℕ → Option ℕ) → List ℕ → List Call
calls_for make callbacks [] = []
calls_for make callbacks (fd ∷ fds) = elim (callbacks fd) [
  | none ↦ calls_for make callbacks fds
  | some c ↦ make c fd ∷ calls_for make callbacks fds
]

pub turn : FdSet → FdSet → PollMgr → List Call
unfolding wait_ready calls_for
turn tr tw p =
    let r = wait_ready tr tw p.aio in
    calls_for read_cb p.callbacks r.readable ++ calls_for write_cb p.callbacks r.writable

-- The start of a turn tells the thread in `block_remove_fd`, if there is one, to go on.
pub turn_start : PollMgr → Bool × PollMgr
turn_start p = (p.pending_change, record p { pending_change = false })
