-- ===== src/Net/TimerManager/Read.antt =====
-- src/net/TimerManager.cc: taking out the timers that have expired.
use mcp_server_cpp.Prelude.{
  count, length-count, ℕ, ◌+◌, ◌≤◌, ◌≡◌, ◌≢◌, refl, Bool, true, some, List, [], ◌∷◌, length, arith,
}
use mcp_server_cpp.Net.Timer.{TimerId, id_of, same_id}
use mcp_server_cpp.Net.TimerList.{Entry, extract_below, erase_id}
use mcp_server_cpp.Net.TimerList.Count.{
  at, numbered, identified, unkeyed, any, count-extract_below, count-erase_id, length-erase_id,
}
use mcp_server_cpp.Net.TimerList.Order.{Ascends, Ascends-mono, extract_below-Ascends}
use mcp_server_cpp.Net.TimerManager.{Manager, erase_expired, ends_later, get_expired}
use mcp_server_cpp.Net.TimerManager.Invariant.{Valid}

erase_expired-lem :
    (es : List Entry) (is : List TimerId)
    → ((i : TimerId) → count (identified i) es ≤ count (same_id i) is)
    → (rest : List TimerId) × (erase_expired es is ≡ some rest)
      × ((i : TimerId) → count (same_id i) is ≡ count (identified i) es + count (same_id i) rest)
      × (length is ≡ length es + length rest)
unfolding erase_expired count
erase_expired-lem [] is h = (is, refl, λ i. omega arith, omega arith)
erase_expired-lem (e ∷ es) is h =
    let i = id_of e.second in
    let n : count (same_id i) is ≢ 0 = ground (arith, h i) in
    let (r, e', c, l) =
      erase_expired-lem es (erase_id i is).0
        (λ k. omega (arith, h k, (count-erase_id k i is n).1)) in
    (
      r,
      rw ((count-erase_id i i is n).0) e',
      λ k. omega (arith, c k, (count-erase_id k i is n).1),
      omega (arith, l, length-erase_id i is n),
    )

later : (now : ℕ) (l : List Entry) → Ascends (now + 1) l → ends_later now l ≡ true
later now [] a = refl
later now (x ∷ xs) (h, a) = ground arith

-- The assertions of `getExpired` hold, and what it takes out is the part of the set below the sentry.
pub get_expired-lem :
    (now : ℕ) (m : Manager)
    → Valid [] m
    → (m' : Manager) × (get_expired now m ≡ some (m', (extract_below (now + 1) m.timers).0))
      × Valid (extract_below (now + 1) m.timers).0 m'
      × (m'.timers ≡ (extract_below (now + 1) m.timers).1)
      × (m'.num_created ≡ m.num_created)
unfolding get_expired count
get_expired-lem now m v =
    let (out, rest) = extract_below (now + 1) m.timers in
    let split : (p : Entry → Bool) → count p m.timers ≡ count p out + count p rest =
      λ p. count-extract_below p (now + 1) m.timers in
    let (is, e, c, l) =
      erase_expired-lem out m.active_timers
        (λ i. omega (arith, v.active i, split (identified i))) in
    let sized : length rest ≡ length is = omega (
      arith,
      l,
      v.sized,
      length-count any m.timers (λ x. refl),
      length-count any out (λ x. refl),
      length-count any rest (λ x. refl),
      split any,
    ) in
    (
      record m { timers = rest; active_timers = is },
      ground (
        arith,
        e,
        v.sized,
        sized,
        later now rest (extract_below-Ascends 0 now m.timers v.ascends),
      ),
      record {
        ascends = Ascends-mono rest (omega arith) (extract_below-Ascends 0 now m.timers v.ascends);
        keyed = omega (arith, v.keyed, split unkeyed);
        sized = sized;
        active = λ i. omega (arith, v.active i, split (identified i), c i);
        addressed = λ a. omega (arith, v.addressed a, split (at a));
        sequenced = λ s. omega (arith, v.sequenced s, split (numbered s));
        created = λ s h. omega (arith, v.created s h, split (numbered s));
      },
      refl,
      refl,
    )
