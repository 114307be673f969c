-- ===== src/ProcessPool/Child.antt =====
-- processpool<T>::run_child of chapter_5/CGI/process_pool.cpp. The class T is a parameter: the
-- type U of its objects, the type W of all else that its `init` and `process` read and change (static
-- members, what the system holds for them), and the two functions, which change the object they are
-- called on and W. What `epoll_wait`, `recv` and `accept` return is an argument.
pub mod Run
use nowcoder_linux_learning.Base.{
  ℕ, zero, suc, Bool, true, false, leb, if◌then◌else◌, Option, none, some, List, [], ◌∷◌,
}
use nowcoder_linux_learning.Base.Sums.{move}
use nowcoder_linux_learning.Http.Conn.{SockAddr}
use nowcoder_linux_learning.ProcessPool.{child_signals}

abbrev pub user_per_process : ℕ
user_per_process = 65536

-- The array of users, what they share, the descriptors that are registered with epoll, and m_stop.
pub record Child {ℓ} (W U : Type ℓ) : Type ℓ where
  pub users : ℕ → U
  pub shared : W
  pub watched : ℕ → Bool
  pub stop : Bool

-- An event with EPOLLIN for the pipe: whether `recv` has brought word, or EAGAIN, and what `accept`
-- then returns, with the address of the client, `none` for -1; for the signals, with what `recv` brings; for a client; or any other.
pub data ChildEvent : Type 0 where
  told : Bool → Option (ℕ × SockAddr) → ChildEvent
  signalled : List ℕ → ChildEvent
  readable : ℕ → ChildEvent
  other_event : ChildEvent

-- `init` is called with m_epollfd, the descriptor and the address.
module _ {ℓ} {W U : Type ℓ} (epollfd : ℕ) (init : W → U → ℕ → ℕ → SockAddr → W × U)
    (process : W → U → W × U) where
  -- `none` when `users` is indexed behind its end.
  unfoldable pub child_event : ChildEvent → Child W U → Option (Child W U)
  child_event (told false accepted) c = some c
  child_event (told true none) c = some c
  child_event (told true (some (fd, addr))) c =
      if leb user_per_process fd
      then none
      else let r = init c.shared (c.users fd) epollfd fd addr in
        some
          (record c { users = move c.users fd r.1; shared = r.0; watched = move c.watched fd true })
  child_event (signalled bytes) c = some (record c { stop = child_signals bytes c.stop })
  child_event (readable fd) c =
      if leb user_per_process fd
      then none
      else let r = process c.shared (c.users fd) in
        some (record c { users = move c.users fd r.1; shared = r.0 })
  child_event other_event c = some c

  unfoldable pub child_events : List ChildEvent → Child W U → Option (Child W U)
  unfolding child_event
  child_events [] c = some c
  child_events (e ∷ events) c = elim (child_event e c) [
    | none ↦ none
    | some d ↦ child_events events d
  ]

  -- The `while` loop, over what the calls of `epoll_wait` return.
  unfoldable pub run_child : List (List ChildEvent) → Child W U → Option (Child W U)
  unfolding child_events
  run_child [] c = some c
  run_child (events ∷ more) c =
      let go : Option (Child W U) = elim (child_events events c) [
        | none ↦ none
        | some d ↦ run_child more d
      ] in
      if c.stop then some c else go
