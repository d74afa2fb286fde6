-- ===== src/Pollers/Changes.antt =====
-- src/PollPoller.cpp and src/EpollPoller.cpp: what a change or a removal of a channel leaves.
use my_rpc_project.Base.{
  ℕ, ◌%◌, ◌^◌, ◌≡◌, refl, sym, ap, subst, ◌∙◌, true, false, [], ◌∷◌, ◌++◌, Option, none, some, ◌==◌,
  ==_iff, ==_self, if◌then◌else◌, Bool-cases, Option-cases, inl, inr, ◌⊎◌,
}
use my_rpc_project.Base.Maps.{
  Map, find, insert, IsSorted, find-insert, find-erase, insert-IsSorted, erase-IsSorted,
}
use my_rpc_project.Pollers.{Channel, is_none_event}
use my_rpc_project.Pollers.Poll.{PollFd, PollPoller, set_events, without_fd}
use my_rpc_project.Pollers.Poll
use my_rpc_project.Pollers.Epoll.{
  EpollPoller, Ctl, add, modify, delete, channel_mask_to_epoll, drop, new_epoll,
}
use my_rpc_project.Pollers.Epoll
use my_rpc_project.Pollers.Watching.{
  poll_entry, applied, watched, wanted, poll_entry-set_events, poll_entry-snoc,
  poll_entry-without_fd, watched-snoc,
}

module _ (owner : ℕ → ℕ) where
  -- What a change of a channel leaves: the descriptor's entry, and the rest as before.
  pub record PollSets (p p' : PollPoller) (f : ℕ) (entry : Option ℕ) : Type 0 where
    pub entries :
        (fd : ℕ) → poll_entry fd p'.poll_fds ≡ (if f == fd then entry else poll_entry fd p.poll_fds)
    pub found :
        (fd : ℕ)
        → find fd p'.channels ≡ (
            if f == fd
            then (elim entry [ none ↦ none | some n ↦ some (owner fd) ])
            else find fd p.channels)
    pub sorted : IsSorted p'.channels

  pub record EpollSets (q q' : EpollPoller) (f events : ℕ) : Type 0 where
    pub found :
        (fd : ℕ)
        → find fd q'.channels ≡ (
            if f == fd then (if events == 0 then none else some (owner fd)) else find fd q.channels)
    pub watches :
        (fd : ℕ) → watched fd 0 q'.ctl ≡ (if f == fd then wanted events else watched fd 0 q.ctl)
    pub sorted : IsSorted q'.channels

  -- The owner of a channel's descriptor is the channel.
  own_id :
      (c : Channel) (fd : ℕ) (x : Option ℕ)
      → c.id ≡ owner c.fd
      → (if c.fd == fd then some c.id else x) ≡ (if c.fd == fd then some (owner fd) else x)
  own_id c fd x own = elim (Bool-cases (c.fd == fd)) [
    | inl same ↦
        let at : c.fd ≡ fd = (==_iff c.fd fd).0 same in rw same (ap some (own ∙ ap owner at))
    | inr other ↦ rw other refl
  ]

  own_found :
      (c : Channel) (fd : ℕ) (m : Map ℕ)
      → c.id ≡ owner c.fd
      → find c.fd m ≡ some c.id
      → find fd m ≡ (if c.fd == fd then some (owner fd) else find fd m)
  own_found c fd m own there = elim (Bool-cases (c.fd == fd)) [
    | inl same ↦
        let at : c.fd ≡ fd = (==_iff c.fd fd).0 same in
        let e : find fd m ≡ some (owner fd) =
          subst (λ k. find k m ≡ some c.id) at there ∙ ap some (own ∙ ap owner at) in
        rw same e
    | inr other ↦ rw other refl
  ]

  pub poll_update :
      (p : PollPoller) (c : Channel)
      → c.id ≡ owner c.fd
      → IsSorted p.channels
      → find c.fd p.channels
        ≡ (elim (poll_entry c.fd p.poll_fds) [ none ↦ none | some n ↦ some (owner c.fd) ])
      → PollSets p (Poll.update_channel p c) c.fd (some c.events)
  unfolding Poll.update_channel Poll.has_channel
  poll_update p c own sorted listed = elim (Option-cases (poll_entry c.fd p.poll_fds)) [
    | inl new ↦
        let absent : find c.fd p.channels ≡ none = listed ∙ rw new refl in
        rw (absent, Poll.has_channel, Poll.update_channel)
          (record {
            entries = λ fd.
                poll_entry-snoc fd (record { fd = c.fd; events = c.events; revents = 0 }) p.poll_fds
                  new;
            found =
                λ fd. find-insert c.fd fd c.id p.channels ∙ own_id c fd (find fd p.channels) own;
            sorted = insert-IsSorted c.fd c.id p.channels sorted;
          })
    | inr (n, old) ↦
        let present : find c.fd p.channels ≡ some c.id = listed ∙ rw (old, own) refl in
        rw (present, Poll.has_channel, Poll.update_channel, ==_self c.id)
          (record {
            entries = λ fd. poll_entry-set_events fd c.fd c.events p.poll_fds n old;
            found = λ fd. own_found c fd p.channels own present;
            sorted = sorted;
          })
  ]

  pub poll_remove :
      (p : PollPoller) (c : Channel)
      → IsSorted p.channels
      → PollSets p (Poll.remove_channel p c) c.fd none
  unfolding Poll.remove_channel
  poll_remove p c sorted = record {
    entries = λ fd. poll_entry-without_fd fd c.fd p.poll_fds;
    found = λ fd. find-erase c.fd fd p.channels sorted;
    sorted = erase-IsSorted c.fd p.channels sorted;
  }

  -- The channel's descriptor is registered for it, or for nobody and not watched.
  abbrev pub IsKnown : EpollPoller → Channel → Type 0
  IsKnown q c =
      (find c.fd q.channels ≡ some c.id)
      ⊎ ((find c.fd q.channels ≡ none) × (watched c.fd 0 q.ctl ≡ 0))

  epoll_drop :
      (q : EpollPoller) (c : Channel) → IsSorted q.channels → EpollSets q (drop q c.fd) c.fd 0
  unfolding drop applied
  epoll_drop q c sorted = record {
    found = λ fd. find-erase c.fd fd q.channels sorted;
    watches = λ fd. watched-snoc fd 0 q.ctl (delete c.fd);
    sorted = erase-IsSorted c.fd q.channels sorted;
  }

  epoll_absent :
      (q : EpollPoller) (c : Channel)
      → IsSorted q.channels
      → find c.fd q.channels ≡ none
      → watched c.fd 0 q.ctl ≡ 0
      → EpollSets q q c.fd 0
  epoll_absent q c sorted absent silent = record {
    found = λ fd. same_if c.fd fd (λ k. find k q.channels) none absent;
    watches = λ fd. same_if c.fd fd (λ k. watched k 0 q.ctl) 0 silent;
    sorted = sorted;
  }
    where
      same_if :
          {A : Type 0} (f fd : ℕ) (g : ℕ → A) (a : A)
          → g f ≡ a
          → g fd ≡ (if f == fd then a else g fd)
      same_if f fd g a e = elim (Bool-cases (f == fd)) [
        | inl same ↦ let at : f ≡ fd = (==_iff f fd).0 same in rw same (ap g (sym at) ∙ e)
        | inr other ↦ rw other refl
      ]

  has_channel-known :
      (q : EpollPoller) (c : Channel)
      → find c.fd q.channels ≡ some c.id
      → Epoll.has_channel q c ≡ true
  unfolding Epoll.has_channel
  has_channel-known q c there = rw (there, Epoll.has_channel) (==_self c.id)

  has_channel-unknown :
      (q : EpollPoller) (c : Channel) → find c.fd q.channels ≡ none → Epoll.has_channel q c ≡ false
  unfolding Epoll.has_channel
  has_channel-unknown q c absent = rw (absent, Epoll.has_channel) refl

  pub epoll_none :
      (q : EpollPoller) (c : Channel)
      → IsSorted q.channels
      → IsKnown q c
      → EpollSets q (if Epoll.has_channel q c then drop q c.fd else q) c.fd 0
  epoll_none q c sorted (inl there) = rw (has_channel-known q c there) (epoll_drop q c sorted)
  epoll_none q c sorted (inr (absent, silent)) =
      rw (has_channel-unknown q c absent) (epoll_absent q c sorted absent silent)

  pub epoll_update :
      (q : EpollPoller) (c : Channel)
      → c.id ≡ owner c.fd
      → IsSorted q.channels
      → IsKnown q c
      → EpollSets q (Epoll.update_channel q c true) c.fd c.events
  unfolding Epoll.update_channel is_none_event applied drop
  epoll_update q c own sorted known = go (Bool-cases (c.events == 0)) known
    where
      mask : ℕ
      mask = channel_mask_to_epoll (c.events % 2 ^ 16)

      go :
          ((c.events == 0) ≡ true) ⊎ ((c.events == 0) ≡ false)
          → IsKnown q c
          → EpollSets q (Epoll.update_channel q c true) c.fd c.events
      go (inl nothing) k =
          let zero_events : c.events ≡ 0 = (==_iff c.events 0).0 nothing in
          let dropped : Epoll.update_channel q c true
              ≡ (if Epoll.has_channel q c then drop q c.fd else q) =
            rw nothing refl in
          subst (λ n. EpollSets q (Epoll.update_channel q c true) c.fd n) (sym zero_events)
            (subst (λ r. EpollSets q r c.fd 0) (sym dropped) (epoll_none q c sorted k))
      go (inr watched_for) (inl there) =
          let changed : Epoll.update_channel q c true
              ≡ record q { ctl = q.ctl ++ (modify c.fd mask ∷ []) } =
            rw (watched_for, has_channel-known q c there) refl in
          subst (λ r. EpollSets q r c.fd c.events) (sym changed)
            (record {
              found = λ fd. rw watched_for (own_found c fd q.channels own there);
              watches = λ fd. watched-snoc fd 0 q.ctl (modify c.fd mask) ∙ rw watched_for refl;
              sorted = sorted;
            })
      go (inr watched_for) (inr (absent, silent)) =
          let added : Epoll.update_channel q c true ≡ record q {
            channels = insert c.fd c.id q.channels;
            ctl = q.ctl ++ (add c.fd mask ∷ []);
          } =
            rw (watched_for, has_channel-unknown q c absent) refl in
          subst (λ r. EpollSets q r c.fd c.events) (sym added)
            (record {
              found = λ fd.
                  find-insert c.fd fd c.id q.channels
                  ∙ rw watched_for (own_id c fd (find fd q.channels) own);
              watches = λ fd. watched-snoc fd 0 q.ctl (add c.fd mask) ∙ rw watched_for refl;
              sorted = insert-IsSorted c.fd c.id q.channels sorted;
            })
