-- ===== src/Net/Buffer/Queue.antt =====
-- include/net/Buffer.h: the buffer as a queue of bytes.
use tiny_network.Prelude.{
  ℕ, ◌+◌, ◌≤◌, ◌<◌, ◌^◌, ◌≡◌, refl, sym, ◌∙◌, ap, subst, List, [], ◌∷◌, ◌++◌, Option, some, arith,
  ◌>>=◌, length, take, drop, take_all, drop_all, read_range_fits,
}
use tiny_network.Net.Buffer.{
  Buffer, IsValid, contents, readable_bytes, peek, append_string, ensure_writable_bytes, retrieve,
  retrieve_all, retrieve_as_string, retrieve_all_as_string, vector_max,
}
use tiny_network.Net.Buffer.Contents.{
  areas_partition, retrieve-drop, retrieve-IsValid, buffer-retrieve, take-peek,
  retrieve_all-IsValid, contents-retrieve_all,
}
use tiny_network.Net.Buffer.Append.{append_string-Appended}
use tiny_network.Net.Buffer.Room.{ensure_writable_bytes-MakesRoom}

-- The calls of a user of the buffer.
pub data Call : Type 0 where
  appends : List ℕ → Call
  ensures retrieves takes : ℕ → Call
  takes_all retrieves_all : Call

-- A call gives the string that it returns, if it returns one.
unfoldable pub run_call : Call → Buffer → Option (List ℕ × Buffer)
run_call (appends bytes) b = do b' ← append_string b bytes; some ([], b')
run_call (ensures n) b = do b' ← ensure_writable_bytes b n; some ([], b')
run_call (retrieves n) b = some ([], retrieve b n)
run_call (takes n) b = retrieve_as_string b n
run_call takes_all b = retrieve_all_as_string b
run_call retrieves_all b = some ([], retrieve_all b)

unfoldable pub run_calls : List Call → Buffer → Option (List (List ℕ) × Buffer)
run_calls [] b = some ([], b)
run_calls (call ∷ calls) b = do
  (result, b') ← run_call call b
  (results, b'') ← run_calls calls b'
  some (result ∷ results, b'')

-- The same calls on a queue, which is the list of its bytes.
abbrev pub on_queue : Call → List ℕ → List ℕ × List ℕ
on_queue (appends bytes) q = ([], q ++ bytes)
on_queue (ensures n) q = ([], q)
on_queue (retrieves n) q = ([], drop n q)
on_queue (takes n) q = (take n q, drop n q)
on_queue takes_all q = (q, [])
on_queue retrieves_all q = ([], [])

abbrev pub all_on_queue : List Call → List ℕ → List (List ℕ) × List ℕ
all_on_queue [] q = ([], q)
all_on_queue (call ∷ calls) q =
    let later = all_on_queue calls (on_queue call q).1 in ((on_queue call q).0 ∷ later.0, later.1)

-- No string is taken that is longer than the queue, and an int holds what is asked for.
abbrev pub IsAllowed : Call → List ℕ → Type 0
IsAllowed (appends bytes) q = length bytes < 2 ^ 31
IsAllowed (ensures n) q = n < 2 ^ 31
IsAllowed (takes n) q = n ≤ length q
IsAllowed _ q = Unit

abbrev pub AreAllowed : List Call → List ℕ → Type 0
AreAllowed [] q = Unit
AreAllowed (call ∷ calls) q = IsAllowed call q × AreAllowed calls (on_queue call q).1

-- How much the calls can make the vector grow.
abbrev pub growth : Call → ℕ
growth (appends bytes) = length bytes
growth (ensures n) = n
growth _ = 0

abbrev pub growth_all : List Call → ℕ
growth_all [] = 0
growth_all (call ∷ calls) = growth call + growth_all calls

record Queued (b : Buffer) (q : List ℕ) (size : ℕ) : Type 0 where
  valid : IsValid b
  holds : contents b ≡ q
  sized : length b.buffer ≤ size

retrieve-Queued :
    (b : Buffer) (n : ℕ)
    → IsValid b
    → Queued (retrieve b n) (drop n (contents b)) (length b.buffer + 0)
retrieve-Queued b n v = record {
  valid = retrieve-IsValid b n v;
  holds = retrieve-drop b n v;
  sized = omega (arith, ap length (buffer-retrieve b n));
}

run_call-Queued :
    (call : Call) (b : Buffer)
    → IsValid b
    → IsAllowed call (contents b)
    → length b.buffer + growth call ≤ vector_max
    → (b' : Buffer) × (run_call call b ≡ some ((on_queue call (contents b)).0, b'))
      × Queued b' (on_queue call (contents b)).1 (length b.buffer + growth call)
unfolding run_call retrieve_as_string retrieve_all_as_string retrieve_all
run_call-Queued (appends bytes) b v ok room =
    let (b', run, done) = append_string-Appended b bytes v (ok, room) in
    (b', rw run refl, record { valid = done.valid; holds = done.extended; sized = done.growth })
run_call-Queued (ensures n) b v ok room =
    let (b', run, done) = ensure_writable_bytes-MakesRoom b n v (ok, room) in
    (b', rw run refl, record { valid = done.valid; holds = done.kept; sized = done.growth })
run_call-Queued (retrieves n) b v ok room = (retrieve b n, refl, retrieve-Queued b n v)
run_call-Queued (takes n) b v ok room =
    let readable = (areas_partition b v).1 in
    let (fits, same) = take-peek b n v (omega (arith, readable, ok)) in
    (retrieve b n, rw (read_range_fits (peek b) n fits, same) refl, retrieve-Queued b n v)
run_call-Queued takes_all b v ok room =
    let readable = (areas_partition b v).1 in
    let n = readable_bytes b in
    let (fits, same) = take-peek b n v (omega arith) in
    let q = retrieve-Queued b n v in
    (
      retrieve b n,
      rw (read_range_fits (peek b) n fits, same, take_all n (contents b) (omega (arith, readable)))
          refl,
      record {
        valid = q.valid;
        holds = q.holds ∙ drop_all n (contents b) (omega (arith, readable));
        sized = q.sized;
      },
    )
run_call-Queued retrieves_all b v ok room = (
  retrieve_all b,
  refl,
  record { valid = retrieve_all-IsValid b v; holds = contents-retrieve_all b; sized = omega arith },
)

-- From a valid buffer, any sequence of calls that takes no string longer than what the buffer then
-- holds, that asks for less than 2 ^ 31 bytes at a time, and by which the vector stays below its
-- largest size: no call faults, each returns what it returns on a queue of bytes, and the buffer
-- is valid afterwards and holds the bytes of the queue.
pub run_calls-Queue :
    (calls : List Call) (b : Buffer)
    → IsValid b
    → AreAllowed calls (contents b)
    → length b.buffer + growth_all calls ≤ vector_max
    → (b' : Buffer) × (run_calls calls b ≡ some ((all_on_queue calls (contents b)).0, b'))
      × IsValid b'
      × (contents b' ≡ (all_on_queue calls (contents b)).1)
unfolding run_calls
run_calls-Queue [] b v ok room = (b, refl, v, refl)
run_calls-Queue (call ∷ calls) b v (ok, more) room =
    let (b1, run, q) = run_call-Queued call b v ok (omega (arith, room)) in
    let (b', runs, valid, holds) =
      run_calls-Queue calls b1 q.valid (subst (AreAllowed calls) (sym q.holds) more)
        (omega (arith, room, q.sized)) in
    (b', rw (run, runs, q.holds) refl, valid, holds ∙ ap (λ c. (all_on_queue calls c).1) q.holds)
