-- ===== src/Net/Poller/Table.antt =====
-- An epoll instance as a table from descriptors to what they are registered for: it meets what
-- src/net/poller relies on.
use tiny_network.Prelude.{ℕ, ◌≡◌, refl, Bool, true, false, Option, none, some, ◌==◌, if◌then◌else◌}
use tiny_network.Net.Poller.Kernel.{Epoll, Operation, ctl_add, ctl_mod, ctl_del, Interest}

abbrev pub Table : Type 0
Table = ℕ → Option Interest

abbrev pub is_some : Option Interest → Bool
is_some none = false
is_some (some i) = true

abbrev pub table_ok : Table → Operation → ℕ → Interest → Bool
table_ok t ctl_add fd i = elim (t fd) [ none ↦ true | some _ ↦ false ]
table_ok t ctl_mod fd i = is_some (t fd)
table_ok t ctl_del fd i = is_some (t fd)

abbrev pub entry : Operation → Interest → Option Interest
entry ctl_add i = some i
entry ctl_mod i = some i
entry ctl_del i = none

abbrev pub table_ctl : Table → Operation → ℕ → Interest → Table
table_ctl t op fd i k = if table_ok t op fd i then (if k == fd then entry op i else t k) else t k

pub add_ok_table :
    (t : Table) (fd : ℕ) (i : Interest) → t fd ≡ none → table_ok t ctl_add fd i ≡ true
add_ok_table t fd i h = rw (h, table_ok) refl

pub add_registered_table :
    (t : Table) (fd k : ℕ) (i : Interest)
    → t fd ≡ none
    → table_ctl t ctl_add fd i k ≡ (if k == fd then some i else t k)
add_registered_table t fd k i h = rw (add_ok_table t fd i h, table_ctl) refl

pub mod_ok_table :
    (t : Table) (fd : ℕ) (i j : Interest) → t fd ≡ some j → table_ok t ctl_mod fd i ≡ true
mod_ok_table t fd i j h = rw (h, table_ok) refl

pub mod_registered_table :
    (t : Table) (fd k : ℕ) (i j : Interest)
    → t fd ≡ some j
    → table_ctl t ctl_mod fd i k ≡ (if k == fd then some i else t k)
mod_registered_table t fd k i j h = rw (h, table_ctl, table_ok, is_some) refl

pub del_registered_table :
    (t : Table) (fd k : ℕ) (i j : Interest)
    → t fd ≡ some j
    → table_ctl t ctl_del fd i k ≡ (if k == fd then none else t k)
del_registered_table t fd k i j h = rw (h, table_ctl, table_ok, is_some) refl

abbrev pub table : Epoll
table = record {
  State = Table;
  registered = λ t fd. t fd;
  ctl_ok = table_ok;
  ctl = table_ctl;
  add_ok = add_ok_table;
  add_registered = add_registered_table;
  mod_ok = mod_ok_table;
  mod_registered = mod_registered_table;
  del_ok = mod_ok_table;
  del_registered = del_registered_table;
}
