-- ===== src/Base/Thread.antt =====
-- include/base/Thread.h, src/base/Thread.cpp, include/base/CurrentThread.h and
-- src/base/CurrentThread.cpp: a thread with its name, and the cached number of the running thread.
-- The function that it runs is left out, and `numCreated_` does not overflow.
pub mod Names
use tiny_network.Prelude.{
  ℕ, ◌+◌, ◌-◌, ◌^◌, Bool, true, false, not, ◌&&◌, List, [], ◌∷◌, ◌++◌, Option, none, some, ltb,
  ◌==◌, if◌then◌else◌, take, length,
}
use tiny_network.Prelude.Decimal.{decimal}

-- `t_cachedTid`: what `tid()` gives, and what it leaves; `gettid` is the answer of the kernel.
unfoldable pub cache_tid : ℕ → ℕ → ℕ
cache_tid gettid cached = if cached == 0 then gettid else cached

unfoldable pub tid : ℕ → ℕ → ℕ × ℕ
tid gettid cached =
    let cached' = if cached == 0 then cache_tid gettid cached else cached in (cached', cached')

pub record Thread : Type 0 where
  pub started : Bool
  pub joined : Bool
  pub tid_ : ℕ
  pub name : List ℕ

-- "Thread"
abbrev pub prefix : List ℕ
prefix = b'T' ∷ b'h' ∷ b'r' ∷ b'e' ∷ b'a' ∷ b'd' ∷ []

-- `setDefaultName` with the number that `++numCreated_` gives; `buf` has 22 bytes.
unfoldable pub default_name : ℕ → List ℕ → List ℕ
default_name num [] = take 21 (prefix ++ decimal num)
default_name num (c ∷ name) = c ∷ name

-- The constructor: the thread, and `numCreated_` afterwards.
unfoldable pub create : List ℕ → ℕ → Thread × ℕ
create name num_created = (
  record { started = false; joined = false; tid_ = 0; name = default_name (num_created + 1) name },
  num_created + 1,
)

-- `start`, which waits until the new thread has stored its number.
unfoldable pub start : ℕ → Thread → Thread
start gettid t = record t { started = true; tid_ = (tid gettid 0).0 }

unfoldable pub join : Thread → Thread
join t = record t { joined = true }

-- Whether the destructor detaches the thread.
unfoldable pub detaches : Thread → Bool
detaches t = t.started && not t.joined

-- Threads made without a name, one after the other.
unfoldable pub create_unnamed : ℕ → ℕ → List (List ℕ)
create_unnamed ℕ.zero num_created = []
create_unnamed (ℕ.suc n) num_created =
    let (t, num) = create [] num_created in t.name ∷ create_unnamed n num
