-- ===== src/Rpc/Poll/Watched.antt =====
-- The descriptors that the poll manager watches: the range that it passes to `select`, and their
-- callbacks.
use y_f_s.Base.{
  ℕ, zero, suc, ◌+◌, ◌<◌, ◌≤◌, ◌≡◌, refl, sym, ap, ◌∙◌, inl, inr, Bool, true, false, not, ◌&&◌,
  ◌||◌, Option, none, some, ltb, ◌==◌, Bool-cases, arith,
}
use y_f_s.Rpc.Poll.{
  Flag, cb_none, cb_rdonly, cb_wronly, cb_rdwr, SelectAio, new_select, watched, watch_fd, highest,
  cleared, lower_high, unwatched, unwatch_fd, max_poll_fds, PollMgr, new_poll, set_callback,
  is_free_for, add_callback, removed, del_callback, remove_begin, remove_end,
}

-- `select` is given the descriptors up to `highfds_`, which are all that are watched.
pub record InRange (s : SelectAio) : Type 0 where
  pub high : (fd : ℕ) → watched s fd ≡ true → fd ≤ s.highfds

new_select-InRange : (pipefd : ℕ) → InRange (new_select pipefd)
unfolding new_select
new_select-InRange pipefd = record { high = λ fd h. ground arith }

watch_fd-InRange : (fd : ℕ) (flag : Flag) (s : SelectAio) → InRange s → InRange (watch_fd fd flag s)
unfolding watch_fd
watch_fd-InRange fd cb_rdonly s v = record { high = λ i h. ground (arith, v.high i) }
watch_fd-InRange fd cb_wronly s v = record { high = λ i h. ground (arith, v.high i) }
watch_fd-InRange fd cb_rdwr s v = record { high = λ i h. ground (arith, v.high i) }
watch_fd-InRange fd cb_none s v = record { high = λ i h. ground (arith, v.high i) }

-- Less is watched.
cleared-watched :
    (fd i : ℕ) (flag : Flag) (s : SelectAio)
    → watched (cleared fd flag s) i ≡ true
    → watched s i ≡ true
cleared-watched fd i cb_rdonly s h = ground arith
cleared-watched fd i cb_wronly s h = ground arith
cleared-watched fd i cb_rdwr s h = ground arith
cleared-watched fd i cb_none s h = ground arith

highest-ge : (s : SelectAio) (n i newh : ℕ) → newh ≤ i → newh ≤ highest s n i newh
unfolding highest
highest-ge s zero i newh h = omega arith
highest-ge s (suc n) i newh h = elim (Bool-cases (watched s i)) [
  | inl e ↦ rw e (omega (arith, highest-ge s n (suc i) i (omega arith)))
  | inr e ↦ rw e (highest-ge s n (suc i) newh (omega arith))
]

-- The search finds one at least as high as any that it meets.
highest-finds :
    (s : SelectAio) (n i newh fd : ℕ)
    → watched s fd ≡ true
    → i ≤ fd
    → fd < i + n
    → fd ≤ highest s n i newh
unfolding highest
highest-finds s zero i newh fd w l h = absurd (omega arith)
highest-finds s (suc n) i newh fd w l h = elim (Bool-cases (i == fd)) [
  | inl here ↦
      let e : i ≡ fd = ground arith in rw e (rw w (highest-ge s n (suc fd) fd (omega arith)))
  | inr later ↦ highest-finds s n (suc i) _ fd w (ground arith) (omega arith)
]

lower_high-InRange : (fd : ℕ) (s : SelectAio) → InRange s → InRange (lower_high fd s)
unfolding lower_high
lower_high-InRange fd s v = elim (Bool-cases (not (watched s fd) && (fd == s.highfds))) [
  | inl e ↦ rw e (record {
    high = λ i h.
        highest-finds s (suc s.highfds) 0 s.pipefd i h (omega arith) (omega (arith, v.high i h));
  })
  | inr e ↦ rw e v
]

abbrev pub is_some {ℓ} : {A : Type ℓ} → Option A → Bool
is_some none = false
is_some (some a) = true

-- What is watched has a callback, but the manager's own pipe.
pub record IsServed (p : PollMgr) : Type 0 where
  pub range : InRange p.aio
  pub served :
      (fd : ℕ) → watched p.aio fd ≡ true → ((fd == p.aio.pipefd) || is_some (p.callbacks fd)) ≡ true

abbrev pub Leaves {ℓ} : (PollMgr → Type ℓ) → Option PollMgr → Type ℓ
Leaves P none = Unit
Leaves P (some p) = P p

watched-watch :
    (fd i : ℕ) (flag : Flag) (s : SelectAio)
    → (i == fd) ≡ false
    → watched (watch_fd fd flag s) i ≡ watched s i
unfolding watch_fd
watched-watch fd i cb_rdonly s e = ground (arith, e)
watched-watch fd i cb_wronly s e = ground (arith, e)
watched-watch fd i cb_rdwr s e = ground (arith, e)
watched-watch fd i cb_none s e = ground (arith, e)

watch-pipefd : (fd : ℕ) (flag : Flag) (s : SelectAio) → (watch_fd fd flag s).pipefd ≡ s.pipefd
unfolding watch_fd
watch-pipefd fd flag s = refl

add_callback-IsServed :
    (fd ch : ℕ) (flag : Flag) (p : PollMgr)
    → IsServed p
    → Leaves IsServed (add_callback fd flag ch p)
unfolding add_callback
add_callback-IsServed fd ch flag p v =
    elim (Bool-cases (ltb fd max_poll_fds && is_free_for ch (p.callbacks fd))) [
      | inl e ↦ rw e (record {
        range = watch_fd-InRange fd flag p.aio v.range;
        served = λ i h. elim (Bool-cases (i == fd)) [
          | inl same ↦ rw same (ground arith)
          | inr other ↦
              rw (other, watch-pipefd fd flag p.aio)
                (v.served i (rw (watched-watch fd i flag p.aio other) at h))
        ];
      })
      | inr e ↦ rw e tt
    ]

lower-same :
    (fd i : ℕ) (s : SelectAio)
    → (watched (lower_high fd s) i ≡ watched s i) × ((lower_high fd s).pipefd ≡ s.pipefd)
unfolding lower_high
lower-same fd i s = (ground arith, ground arith)

cleared-InRange : (fd : ℕ) (flag : Flag) (s : SelectAio) → InRange s → InRange (cleared fd flag s)
cleared-InRange fd flag s v = record { high = λ i h. v.high i (cleared-watched fd i flag s h) }

-- The set without the descriptor, where its callback goes only if it is not watched any more.
abbrev less : ℕ → Flag → SelectAio → SelectAio
less fd flag s = lower_high fd (cleared fd flag s)

less-IsServed :
    (fd : ℕ) (flag : Flag) (p : PollMgr) (callbacks : ℕ → Option ℕ)
    → IsServed p
    → ((i : ℕ)
        → watched (cleared fd flag p.aio) i ≡ true
        → is_some (callbacks i) ≡ is_some (p.callbacks i))
    → IsServed (record p { aio = less fd flag p.aio; callbacks = callbacks })
less-IsServed fd flag p callbacks v keep = record {
  range = lower_high-InRange fd _ (cleared-InRange fd flag p.aio v.range);
  served = λ i h.
      let still : watched (cleared fd flag p.aio) i ≡ true = sym (lower-same fd i _).0 ∙ h in
      rw ((lower-same fd i (cleared fd flag p.aio)).1, keep i still)
        (v.served i (cleared-watched fd i flag p.aio still));
}

del_some-IsServed :
    (fd : ℕ) (flag : Flag) (p : PollMgr)
    → IsServed p
    → Leaves IsServed (removed fd p (some (unwatched fd (cleared fd flag p.aio))))
del_some-IsServed fd flag p v = elim (Bool-cases (watched (cleared fd flag p.aio) fd)) [
  | inl on ↦ rw on (less-IsServed fd flag p p.callbacks v (λ i h. refl))
  | inr off ↦ rw off (
      less-IsServed fd flag p (set_callback fd none p.callbacks) v (λ i h.
        elim (Bool-cases (i == fd)) [
          | inl same ↦
              let e : i ≡ fd = ground arith in
              absurd (ground (arith, ap (watched (cleared fd flag p.aio)) e, off))
          | inr other ↦ rw other
        ]))
]

del_callback-IsServed :
    (fd : ℕ) (flag : Flag) (p : PollMgr) → IsServed p → Leaves IsServed (del_callback fd flag p)
unfolding del_callback unwatch_fd
del_callback-IsServed fd cb_none p v = tt
del_callback-IsServed fd cb_rdonly p v = del_some-IsServed fd cb_rdonly p v
del_callback-IsServed fd cb_wronly p v = del_some-IsServed fd cb_wronly p v
del_callback-IsServed fd cb_rdwr p v = del_some-IsServed fd cb_rdwr p v

remove_begin-IsServed : (fd : ℕ) (p : PollMgr) → IsServed p → IsServed (remove_begin fd p)
unfolding remove_begin
remove_begin-IsServed fd p v =
    let w = less-IsServed fd cb_rdwr p p.callbacks v (λ i h. refl) in
    record { range = w.range; served = w.served }

remove_end-IsServed :
    (fd : ℕ) (p : PollMgr) → watched p.aio fd ≡ false → IsServed p → IsServed (remove_end fd p)
unfolding remove_end
remove_end-IsServed fd p off v = record {
  range = v.range;
  served = λ i h. elim (Bool-cases (i == fd)) [
    | inl same ↦ let e : i ≡ fd = ground arith in absurd (ground (arith, ap (watched p.aio) e, off))
    | inr other ↦ rw other (v.served i h)
  ];
}

-- The operations, where `block_remove_fd` is two of them.
pub data Event : Type 0 where
  add : ℕ → Flag → ℕ → Event
  delete : ℕ → Flag → Event
  block : ℕ → Event
  unblock : ℕ → Event

unfoldable pub step : Event → PollMgr → Option PollMgr
step (add fd flag ch) p = add_callback fd flag ch p
step (delete fd flag) p = del_callback fd flag p
step (block fd) p = some (remove_begin fd p)
step (unblock fd) p = some (remove_end fd p)

-- The descriptor of a `block_remove_fd` is not watched again before its end.
abbrev pub Ends : Event → PollMgr → Type 0
Ends (unblock fd) p = watched p.aio fd ≡ false
Ends (add fd flag ch) p = Unit
Ends (delete fd flag) p = Unit
Ends (block fd) p = Unit

-- In every step of the poll manager, where the descriptor of a `block_remove_fd` is not watched
-- again before its end, and unless a VERIFY fails: what `select` is asked for covers all watched
-- descriptors, and each of them but the manager's pipe has a callback.
pub step-IsServed : (e : Event) (p : PollMgr) → Ends e p → IsServed p → Leaves IsServed (step e p)
unfolding step
step-IsServed (add fd flag ch) p h v = add_callback-IsServed fd ch flag p v
step-IsServed (delete fd flag) p h v = del_callback-IsServed fd flag p v
step-IsServed (block fd) p h v = remove_begin-IsServed fd p v
step-IsServed (unblock fd) p h v = remove_end-IsServed fd p h v

pub new_poll-IsServed : (pipefd : ℕ) → IsServed (new_poll pipefd)
unfolding new_select
new_poll-IsServed pipefd = record {
  range = new_select-InRange pipefd;
  served = λ fd h. ground arith;
}
