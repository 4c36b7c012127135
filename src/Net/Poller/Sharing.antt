-- ===== src/Net/Poller/Sharing.antt =====
-- src/net/poller/EpollPoller.cpp: the channels of several descriptors on one poller.
use tiny_network.Prelude.{
  ℕ, zero, suc, ◌≡◌, ◌≢◌, refl, sym, ◌∙◌, ap, subst, List, [], ◌∷◌, Option, some, ◌>>=◌, map,
}
use tiny_network.Net.Channel.{Channel}
use tiny_network.Net.Poller.Kernel.{Epoll}
use tiny_network.Net.Poller.{Poller}
use tiny_network.Net.Poller.Synced.{Synced, Synced-kept}
use tiny_network.Net.Poller.Changes.{Change, apply, apply-Succeeds}

abbrev pub fd_of : Channel → ℕ
fd_of c = c.fd

-- A descriptor that is none of these, and descriptors of which no two are the same.
abbrev pub IsOther : ℕ → List ℕ → Type 0
IsOther k [] = Unit
IsOther k (fd ∷ fds) = (k ≢ fd) × IsOther k fds

abbrev pub AreDistinct : List ℕ → Type 0
AreDistinct [] = Unit
AreDistinct (fd ∷ fds) = IsOther fd fds × AreDistinct fds

module _ (e : Epoll) where
  open e use {registered}

  -- A change of one channel, by its place.
  pub use_one : ℕ → Change e → List Channel → Poller e → Option (List Channel × Poller e)
  use_one i x [] p = some ([], p)
  use_one zero x (c ∷ cs) p = do (c', p') ← apply e x c p; some (c' ∷ cs, p')
  use_one (suc i) x (c ∷ cs) p = do (cs', p') ← use_one i x cs p; some (c ∷ cs', p')

  pub use_all : List (ℕ × Change e) → List Channel → Poller e → Option (List Channel × Poller e)
  use_all [] cs p = some (cs, p)
  use_all ((i, x) ∷ xs) cs p = do (cs', p') ← use_one i x cs p; use_all xs cs' p'

  abbrev pub AreSynced : List Channel → Poller e → Type 0
  AreSynced [] p = Unit
  AreSynced (c ∷ cs) p = Synced e c p × AreSynced cs p

  -- Nothing changes at other descriptors, and nothing is logged.
  pub record Beyond (fds : List ℕ) (p q : Poller e) : Type 0 where
    pub registered_kept : (k : ℕ) → IsOther k fds → registered q.epoll k ≡ registered p.epoll k
    pub channels_kept : (k : ℕ) → IsOther k fds → q.channels k ≡ p.channels k
    pub log_kept : q.log ≡ p.log

  -- No failure; the channels keep their descriptors and their order, and all are in step.
  abbrev pub Shares : List Channel → Poller e → Option (List Channel × Poller e) → Type 0
  Shares cs p r =
      (cs' : List Channel) × (p' : Poller e) × (r ≡ some (cs', p'))
      × AreSynced cs' p'
      × (map fd_of cs' ≡ map fd_of cs)
      × Beyond (map fd_of cs) p p'

  -- The channels stay in step while another descriptor is worked on.
  pub AreSynced-kept :
      (cs : List Channel) (fd : ℕ) (p q : Poller e)
      → IsOther fd (map fd_of cs)
      → ((k : ℕ) → k ≢ fd → registered q.epoll k ≡ registered p.epoll k)
      → ((k : ℕ) → k ≢ fd → q.channels k ≡ p.channels k)
      → AreSynced cs p
      → AreSynced cs q
  AreSynced-kept [] fd p q o kernel channels s = tt
  AreSynced-kept (c ∷ cs) fd p q (other, o) kernel channels (s, ss) =
      let turned : c.fd ≢ fd = λ same. other (sym same) in
      (
        Synced-kept e c p q (kernel c.fd turned) (channels c.fd turned) s,
        AreSynced-kept cs fd p q o kernel channels ss,
      )

  use_first :
      (x : Change e) (c : Channel) (cs : List Channel) (p : Poller e)
      → AreDistinct (map fd_of (c ∷ cs))
      → AreSynced (c ∷ cs) p
      → Shares (c ∷ cs) p (use_one zero x (c ∷ cs) p)
  unfolding use_one
  use_first x c cs p (other, d) (s, ss) =
      let (c', p', run, s', a, same) = apply-Succeeds e x c p s in
      (
        c' ∷ cs,
        p',
        rw run refl,
        (s', AreSynced-kept cs c.fd p p' other a.registered_kept a.channels_kept ss),
        ap (λ fd. fd ∷ map fd_of cs) same,
        record {
          registered_kept = λ k o. a.registered_kept k o.0;
          channels_kept = λ k o. a.channels_kept k o.0;
          log_kept = a.log_kept;
        },
      )

  use_one-Shares :
      (i : ℕ) (x : Change e) (cs : List Channel) (p : Poller e)
      → AreDistinct (map fd_of cs)
      → AreSynced cs p
      → Shares cs p (use_one i x cs p)
  unfolding use_one
  use_one-Shares i x [] p d s = (
    [],
    p,
    refl,
    tt,
    refl,
    record { registered_kept = λ k o. refl; channels_kept = λ k o. refl; log_kept = refl },
  )
  use_one-Shares zero x (c ∷ cs) p d s = use_first x c cs p d s
  use_one-Shares (suc i) x (c ∷ cs) p (other, d) (s, ss) =
      let (cs', p', run, ss', same, b) = use_one-Shares i x cs p d ss in
      (
        c ∷ cs',
        p',
        rw run refl,
        (Synced-kept e c p p' (b.registered_kept c.fd other) (b.channels_kept c.fd other) s, ss'),
        ap (λ fds. c.fd ∷ fds) same,
        record {
          registered_kept = λ k o. b.registered_kept k o.1;
          channels_kept = λ k o. b.channels_kept k o.1;
          log_kept = b.log_kept;
        },
      )

  -- The channels of different descriptors, each in step with the poller, are enabled, disabled and
  -- removed in any order and any number of times: no `epoll_ctl` fails, every channel ends exactly
  -- registered, and other descriptors are as before.
  pub use_all-Shares :
      (xs : List (ℕ × Change e)) (cs : List Channel) (p : Poller e)
      → AreDistinct (map fd_of cs)
      → AreSynced cs p
      → Shares cs p (use_all xs cs p)
  unfolding use_all
  use_all-Shares [] cs p d s = (
    cs,
    p,
    refl,
    s,
    refl,
    record { registered_kept = λ k o. refl; channels_kept = λ k o. refl; log_kept = refl },
  )
  use_all-Shares ((i, x) ∷ xs) cs p d s =
      let (cs', p', run, s', same, a) = use_one-Shares i x cs p d s in
      let (cs'', p'', runs, s'', same', b) =
        use_all-Shares xs cs' p' (subst AreDistinct (sym same) d) s' in
      (
        cs'',
        p'',
        rw run runs,
        s'',
        same' ∙ same,
        record {
          registered_kept =
              λ k o. b.registered_kept k (subst (IsOther k) (sym same) o) ∙ a.registered_kept k o;
          channels_kept =
              λ k o. b.channels_kept k (subst (IsOther k) (sym same) o) ∙ a.channels_kept k o;
          log_kept = b.log_kept ∙ a.log_kept;
        },
      )
