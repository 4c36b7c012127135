-- ===== src/Net/Channel/Interest.antt =====
-- include/net/Channel.h: the masks behind `enableReading` and its kin, as two independent wishes.
use tiny_network.Prelude.{ℕ, ◌+◌, ◌≡◌, refl, Bool, true, false, ◌⊎◌, inl, arith, not, ◌||◌}
use tiny_network.Net.Channel.{
  Channel, create, wants_reading, ignores_reading, wants_writing, ignores_writing, ignores_all,
  is_reading, is_writing, is_none_event, read_event, write_event, none_event,
}

-- Nothing but the read and write masks is ever asked for.
abbrev pub IsInterest : ℕ → Type 0
IsInterest e =
    (e ≡ none_event) ⊎ (e ≡ read_event) ⊎ (e ≡ write_event) ⊎ (e ≡ read_event + write_event)

pub create-IsInterest : (handle fd : ℕ) → IsInterest (create handle fd).events
unfolding create
create-IsInterest handle fd = inl refl

-- The mask stands for the wish to read and the wish to write, and is empty without either.
pub record Wishes (c : Channel) (reading writing : Bool) : Type 0 where
  pub interest : IsInterest c.events
  pub reads : is_reading c ≡ reading
  pub writes : is_writing c ≡ writing
  pub idle : is_none_event c ≡ not (reading || writing)

Wishes-now : (c : Channel) → IsInterest c.events → Wishes c (is_reading c) (is_writing c)
unfolding is_reading is_writing is_none_event
Wishes-now c i = ground arith

-- On a channel whose mask is made of the read and write masks, each of the five changes sets the
-- wish that it names, leaves the other as it was, and keeps the mask made of these two.
pub changes-Wishes :
    (c : Channel)
    → IsInterest c.events
    → Wishes (wants_reading c) true (is_writing c)
      × Wishes (ignores_reading c) false (is_writing c)
      × Wishes (wants_writing c) (is_reading c) true
      × Wishes (ignores_writing c) (is_reading c) false
      × Wishes (ignores_all c) false false
unfolding wants_reading ignores_reading wants_writing ignores_writing ignores_all is_reading
    is_writing is_none_event
changes-Wishes c i = ground arith
