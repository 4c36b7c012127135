-- ===== src/Logger/AsyncLogging/Inv.antt =====
-- src/logger/AsyncLogging.cpp: which buffers are where, and the text that is under way.
use tiny_network.Prelude.{
  ℕ, ◌≤◌, ◌≡◌, refl, List, [], ◌∷◌, ◌++◌, append_assoc, Option, none, some, ltb, if◌then◌else◌,
  length, ◌⊎◌,
}
use tiny_network.Logger.FixedBuffer.{FixedBuffer, IsValid, text}
use tiny_network.Logger.AsyncLogging.{Logging, Phase, writing}

-- The texts of some buffers, one after the other.
unfoldable pub texts : List FixedBuffer → List ℕ
texts [] = []
texts (b ∷ bs) = text b ++ texts bs

pub texts-append : (xs ys : List FixedBuffer) → texts (xs ++ ys) ≡ texts xs ++ texts ys
unfolding texts
texts-append [] ys = refl
texts-append (x ∷ xs) ys = rw (texts-append xs ys, append_assoc (text x) (texts xs) (texts ys)) refl

-- The buffers that `ThreadFunc` has not written yet.
unfoldable pub unwritten : Phase → List FixedBuffer
unwritten (writing bs) = bs
unwritten _ = []

unfoldable pub text_of : Option FixedBuffer → List ℕ
text_of none = []
text_of (some b) = text b

-- The text given to the log file, and behind it the text that is still in buffers.
unfoldable pub stream : Logging → List ℕ
stream s = texts s.output ++ (texts (unwritten s.phase) ++ (texts s.buffers ++ text_of s.current))

-- For buffers of one size.
module _ (size : ℕ) where
  abbrev pub Good : FixedBuffer → Type 0
  Good b = IsValid b × (b.size ≡ size)

  -- A pointer to an empty buffer.
  abbrev pub Spare : Option FixedBuffer → Type 0
  Spare o = (b : FixedBuffer) × (o ≡ some b) × Good b × (b.cur ≡ 0)

  abbrev pub AllGood : List FixedBuffer → Type 0
  AllGood [] = Unit
  AllGood (b ∷ bs) = Good b × AllGood bs

  pub AllGood-snoc :
      (bs : List FixedBuffer) (b : FixedBuffer) → AllGood bs → Good b → AllGood (bs ++ (b ∷ []))
  AllGood-snoc [] b a g = (g, tt)
  AllGood-snoc (x ∷ xs) b a g = (a.0, AllGood-snoc xs b a.1 g)

  -- The spare buffers of `ThreadFunc`: both at hand between two rounds, and within a round enough
  -- written buffers to replace those that it gave away.
  abbrev pub Spares : Phase → Option FixedBuffer → Option FixedBuffer → List FixedBuffer → Type 0
  Spares (writing bs) new1 new2 written =
      (new1 ≡ none)
      × (((new2 ≡ none) × (2 ≤ length written)) ⊎ (Spare new2 × (1 ≤ length written)))
      × AllGood written
  Spares _ new1 new2 written = Spare new1 × Spare new2 × (written ≡ [])

  -- The members: `nextBuffer_` is given away only together with a full buffer.
  pub record Members (s : Logging) : Type 0 where
    pub writes_to : (c : FixedBuffer) × (s.current ≡ some c) × Good c
    pub in_reserve : ((s.next ≡ none) × (1 ≤ length s.buffers)) ⊎ Spare s.next
    pub filled : AllGood s.buffers

  pub record Inv (s : Logging) : Type 0 where
    pub members : Members s
    pub spares : Spares s.phase s.new1 s.new2 s.to_write

  -- What the log takes of a line: nothing of one that no buffer holds.
  abbrev pub taken : List ℕ → List ℕ
  taken line = if ltb (length line) size then line else []
