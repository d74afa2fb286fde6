-- ===== src/Pollers/Agreement.antt =====
-- src/PollPoller.cpp and src/EpollPoller.cpp: the two pollers watch for the same.
use my_rpc_project.Base.{
  ℕ, ◌≡◌, refl, ◌∙◌, true, false, List, [], ◌∷◌, All, Option, none, some, ◌==◌, if◌then◌else◌,
  Bool-cases, inl, inr, ◌⊎◌,
}
use my_rpc_project.Base.Maps.{find, IsSorted}
use my_rpc_project.Pollers.{Channel}
use my_rpc_project.Pollers.Poll.{PollFd, PollPoller, set_events, without_fd}
use my_rpc_project.Pollers.Poll
use my_rpc_project.Pollers.Epoll.{
  EpollPoller, Ctl, add, modify, delete, channel_mask_to_epoll, drop, new_epoll,
}
use my_rpc_project.Pollers.Epoll
use my_rpc_project.Pollers.Watching.{
  poll_entry, or_zero, watched, Change, updates, removes, channel_of, run_poll, run_epoll, new_poll,
  wanted,
}
use my_rpc_project.Pollers.Changes.{
  PollSets, EpollSets, poll_update, poll_remove, IsKnown, epoll_none, epoll_update,
}

module _ (owner : ℕ → ℕ) where
  -- Each descriptor is one channel's.
  abbrev pub IsOwned : Change → Type 0
  IsOwned c = (channel_of c).id ≡ owner (channel_of c).fd

  -- What both pollers hold, by the events of the entries.
  record Agrees (p : PollPoller) (q : EpollPoller) : Type 0 where
    poll_sorted : IsSorted p.channels
    epoll_sorted : IsSorted q.channels
    listed :
        (fd : ℕ)
        → find fd p.channels
          ≡ (elim (poll_entry fd p.poll_fds) [ none ↦ none | some n ↦ some (owner fd) ])
    registered :
        (fd : ℕ)
        → find fd q.channels
          ≡ (if or_zero (poll_entry fd p.poll_fds) == 0 then none else some (owner fd))
    watches : (fd : ℕ) → watched fd 0 q.ctl ≡ wanted (or_zero (poll_entry fd p.poll_fds))

  Agrees-sets :
      (p p' : PollPoller) (q q' : EpollPoller) (f : ℕ) (entry : Option ℕ)
      → PollSets owner p p' f entry
      → EpollSets owner q q' f (or_zero entry)
      → Agrees p q
      → Agrees p' q'
  Agrees-sets p p' q q' f entry u v a = record {
    poll_sorted = u.sorted;
    epoll_sorted = v.sorted;
    listed = λ fd. rw (u.found fd, u.entries fd) (branch fd (Bool-cases (f == fd)));
    registered = λ fd. rw (v.found fd, u.entries fd) (other fd (Bool-cases (f == fd)));
    watches = λ fd. rw (v.watches fd, u.entries fd) (last fd (Bool-cases (f == fd)));
  }
    where
      branch :
          (fd : ℕ)
          → ((f == fd) ≡ true) ⊎ ((f == fd) ≡ false)
          → (if f == fd
              then (elim entry [ none ↦ none | some n ↦ some (owner fd) ])
              else find fd p.channels)
            ≡ (elim (if f == fd then entry else poll_entry fd p.poll_fds) [
              | none ↦ none
              | some n ↦ some (owner fd)
            ])
      branch fd (inl e) = rw e refl
      branch fd (inr e) = rw e (a.listed fd)

      other :
          (fd : ℕ)
          → ((f == fd) ≡ true) ⊎ ((f == fd) ≡ false)
          → (if f == fd
              then (if or_zero entry == 0 then none else some (owner fd))
              else find fd q.channels)
            ≡ (if or_zero (if f == fd then entry else poll_entry fd p.poll_fds) == 0
                then none
                else some (owner fd))
      other fd (inl e) = rw e refl
      other fd (inr e) = rw e (a.registered fd)

      last :
          (fd : ℕ)
          → ((f == fd) ≡ true) ⊎ ((f == fd) ≡ false)
          → (if f == fd then wanted (or_zero entry) else watched fd 0 q.ctl)
            ≡ wanted (or_zero (if f == fd then entry else poll_entry fd p.poll_fds))
      last fd (inl e) = rw e refl
      last fd (inr e) = rw e (a.watches fd)

  Agrees-IsKnown :
      (p : PollPoller) (q : EpollPoller) (c : Channel)
      → c.id ≡ owner c.fd
      → Agrees p q
      → IsKnown owner q c
  Agrees-IsKnown p q c own a = elim (Bool-cases (or_zero (poll_entry c.fd p.poll_fds) == 0)) [
    | inl silent ↦ inr (a.registered c.fd ∙ rw silent refl, a.watches c.fd ∙ rw silent refl)
    | inr loud ↦ inl (a.registered c.fd ∙ rw (loud, own) refl)
  ]

  change-Agrees :
      (p : PollPoller) (q : EpollPoller) (x : Change)
      → IsOwned x
      → Agrees p q
      → Agrees (run_poll p (x ∷ [])) (run_epoll q (x ∷ []))
  unfolding run_poll run_epoll
  change-Agrees p q (updates c) own a =
      Agrees-sets p (Poll.update_channel p c) q (Epoll.update_channel q c true) c.fd (some c.events)
        (poll_update owner p c own a.poll_sorted (a.listed c.fd))
        (epoll_update owner q c own a.epoll_sorted (Agrees-IsKnown p q c own a)) a
  change-Agrees p q (removes c) own a =
      Agrees-sets p (Poll.remove_channel p c) q (Epoll.remove_channel q c) c.fd none
        (poll_remove owner p c a.poll_sorted)
        (unfold Epoll.remove_channel in
          epoll_none owner q c a.epoll_sorted (Agrees-IsKnown p q c own a))
        a

  run-Agrees :
      (p : PollPoller) (q : EpollPoller) (cs : List Change)
      → All IsOwned cs
      → Agrees p q
      → Agrees (run_poll p cs) (run_epoll q cs)
  unfolding run_poll run_epoll
  run-Agrees p q [] own a = a
  run-Agrees p q (updates c ∷ cs) own a =
      run-Agrees (Poll.update_channel p c) (Epoll.update_channel q c true) cs own.1
        (change-Agrees p q (updates c) own.0 a)
  run-Agrees p q (removes c ∷ cs) own a =
      run-Agrees (Poll.remove_channel p c) (Epoll.remove_channel q c) cs own.1
        (change-Agrees p q (removes c) own.0 a)

  -- The two pollers watch for the same: after any changes and removals of channels, each the only one of
  -- its descriptor, and every ADD of which succeeds, the events that the calls of `epoll_ctl` leave for a
  -- descriptor are those of its entry for `poll` in the bits of epoll, and none where it has no entry
  -- or one without events.
  pub watched-poll_entry :
      (cs : List Change) (fd : ℕ)
      → All IsOwned cs
      → watched fd 0 (run_epoll new_epoll cs).ctl
        ≡ wanted (or_zero (poll_entry fd (run_poll new_poll cs).poll_fds))
  watched-poll_entry cs fd own =
      let start : Agrees new_poll new_epoll = record {
        poll_sorted = unfold IsSorted in tt;
        epoll_sorted = unfold IsSorted in tt;
        listed = λ n. unfold find poll_entry in refl;
        registered = λ n. unfold find poll_entry in refl;
        watches = λ n. unfold watched poll_entry in refl;
      } in
      (run-Agrees new_poll new_epoll cs own start).watches fd
