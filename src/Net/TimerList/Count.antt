-- ===== src/Net/TimerList/Count.antt =====
-- src/net/TimerManager.h: how often something holds of the entries of a set, and what the
-- operations change of that.
use mcp_server_cpp.Prelude.{
  bit, count, count-le, ℕ, suc, ◌+◌, ◌≤◌, ◌≡◌, ◌≢◌, refl, Bool, true, false, not, some, List, [],
  ◌∷◌, length, ◌==◌, arith, Bool-cases, inl, inr,
}
use mcp_server_cpp.Net.Timer.{TimerId, id_of, same_id}
use mcp_server_cpp.Net.TimerList.Order.{Ascends, Ascends-mono}
use mcp_server_cpp.Net.TimerList.{
  Entry, insert_entry, erase_entry, extract_below, expiration_at, contains, erase_id,
}

-- The entry of a timer at this address, with this sequence, or with this identifier.
abbrev pub at : ℕ → Entry → Bool
at a e = e.second.address == a

abbrev pub numbered : ℕ → Entry → Bool
numbered s e = e.second.sequence == s

abbrev pub identified : TimerId → Entry → Bool
identified i e = same_id i (id_of e.second)

-- The key is not the time of the timer.
abbrev pub unkeyed : Entry → Bool
unkeyed e = not (e.first == e.second.expiration)

abbrev pub any : Entry → Bool
any e = true

pub insert_entry-fresh :
    (e : Entry) (l : List Entry) → count (at e.second.address) l ≡ 0 → (insert_entry e l).1 ≡ true
unfolding count insert_entry
insert_entry-fresh e [] h = refl
insert_entry-fresh e (x ∷ xs) h = ground (arith, insert_entry-fresh e xs)

pub count-insert_entry :
    (p : Entry → Bool) (e : Entry) (l : List Entry)
    → (insert_entry e l).1 ≡ true
    → count p (insert_entry e l).0 ≡ bit (p e) + count p l
unfolding count insert_entry
count-insert_entry p e [] h = refl
count-insert_entry p e (x ∷ xs) h = ground (arith, count-insert_entry p e xs)

pub count-extract_below :
    (p : Entry → Bool) (when : ℕ) (l : List Entry)
    → count p l ≡ count p (extract_below when l).0 + count p (extract_below when l).1
unfolding count extract_below
count-extract_below p when [] = refl
count-extract_below p when (x ∷ xs) = ground (arith, count-extract_below p when xs)

-- The timer with an identifier is found through its address, and only its entry is erased.
pub record Erases (i : TimerId) (l : List Entry) : Type 0 where
  pub entry : Entry
  pub rest : List Entry
  pub found : expiration_at l i.timer ≡ some entry.first
  pub erased : erase_entry entry.first i.timer l ≡ some rest
  pub same : identified i entry ≡ true
  pub counts : (p : Entry → Bool) → count p l ≡ bit (p entry) + count p rest
  pub ordered : (n : ℕ) → Ascends n l → Ascends n rest

pub erases :
    (i : TimerId) (l : List Entry)
    → count (identified i) l ≢ 0
    → count (at i.timer) l ≤ 1
    → count unkeyed l ≡ 0
    → Erases i l
unfolding count expiration_at erase_entry
erases i [] n u k = absurd (n refl)
erases i (x ∷ xs) n u k = elim (Bool-cases (identified i x)) [
  | inl y ↦ record {
    entry = x;
    rest = xs;
    found = ground arith;
    erased = ground arith;
    same = y;
    counts = λ p. refl;
    ordered = λ n (h, a). Ascends-mono xs h a;
  }
  | inr m ↦
      let some_left = count-le (identified i) (at i.timer) xs (λ e h. ground arith) in
      let r = erases i xs (ground arith) (ground arith) (ground arith) in
      record {
        entry = r.entry;
        rest = x ∷ r.rest;
        found = ground (arith, r.found);
        erased = ground (arith, r.erased);
        same = r.same;
        counts = λ p. omega (arith, r.counts p);
        ordered = λ n (h, a). (h, r.ordered x.first a);
      }
]

pub contains-count :
    (i : TimerId) (l : List TimerId) → (contains i l ≡ true → count (same_id i) l ≢ 0)
unfolding count contains
contains-count i [] e = ground arith
contains-count i (j ∷ js) e = ground (arith, contains-count i js)

pub contains-absent :
    (i : TimerId) (l : List TimerId) → contains i l ≡ false → count (same_id i) l ≡ 0
unfolding count contains
contains-absent i [] e = refl
contains-absent i (j ∷ js) e = ground (arith, contains-absent i js)

pub count-erase_id :
    (k i : TimerId) (l : List TimerId)
    → count (same_id i) l ≢ 0
    → ((erase_id i l).1 ≡ true)
      × (count (same_id k) l ≡ bit (same_id k i) + count (same_id k) (erase_id i l).0)
unfolding count erase_id
count-erase_id k i [] n = absurd (n refl)
count-erase_id k i (j ∷ js) n = ground (arith, count-erase_id k i js)

pub length-erase_id :
    (i : TimerId) (l : List TimerId)
    → count (same_id i) l ≢ 0
    → length l ≡ suc (length (erase_id i l).0)
unfolding count erase_id
length-erase_id i [] n = absurd (n refl)
length-erase_id i (j ∷ js) n = ground (arith, length-erase_id i js)
