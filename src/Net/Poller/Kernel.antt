-- ===== src/Net/Poller/Kernel.antt =====
-- The kernel's side of epoll, as epoll_ctl(2) documents it: what src/net/poller relies on.
use tiny_network.Prelude.{ℕ, ◌≡◌, Bool, true, Option, none, some, ◌==◌, if◌then◌else◌}

pub data Operation : Type 0 where
  ctl_add ctl_mod ctl_del : Operation

-- `epoll_event`: the mask, and the pointer that events come back with.
pub record Interest : Type 0 where
  pub events : ℕ
  pub data_ptr : ℕ

-- An epoll instance: which descriptors are registered, and the effect of `epoll_ctl`. Adding needs
-- a descriptor that is not registered, changing and deleting one that is; no call touches another.
pub record Epoll : Type 1 where
  pub State : Type 0
  pub registered : State → ℕ → Option Interest
  pub ctl_ok : State → Operation → ℕ → Interest → Bool
  pub ctl : State → Operation → ℕ → Interest → State
  pub add_ok :
      (s : State) (fd : ℕ) (i : Interest) → registered s fd ≡ none → ctl_ok s ctl_add fd i ≡ true
  pub add_registered :
      (s : State) (fd k : ℕ) (i : Interest)
      → registered s fd ≡ none
      → registered (ctl s ctl_add fd i) k ≡ (if k == fd then some i else registered s k)
  pub mod_ok :
      (s : State) (fd : ℕ) (i j : Interest)
      → registered s fd ≡ some j
      → ctl_ok s ctl_mod fd i ≡ true
  pub mod_registered :
      (s : State) (fd k : ℕ) (i j : Interest)
      → registered s fd ≡ some j
      → registered (ctl s ctl_mod fd i) k ≡ (if k == fd then some i else registered s k)
  pub del_ok :
      (s : State) (fd : ℕ) (i j : Interest)
      → registered s fd ≡ some j
      → ctl_ok s ctl_del fd i ≡ true
  pub del_registered :
      (s : State) (fd k : ℕ) (i j : Interest)
      → registered s fd ≡ some j
      → registered (ctl s ctl_del fd i) k ≡ (if k == fd then none else registered s k)
