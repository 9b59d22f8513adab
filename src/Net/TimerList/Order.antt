-- ===== src/Net/TimerList/Order.antt =====
-- src/net/TimerManager.h: the entries stand in the order of their times.
use mcp_server_cpp.Prelude.{ℕ, ◌+◌, ◌≤◌, ◌≡◌, refl, List, [], ◌∷◌, ◌++◌, arith}
use mcp_server_cpp.Net.TimerList.{Entry, insert_entry, extract_below}

-- The times do not fall along the list, from this one on.
abbrev pub Ascends : ℕ → List Entry → Type 0
Ascends n [] = Unit {0}
Ascends n (x ∷ xs) = (n ≤ x.first) × Ascends x.first xs

-- All times are at most, or at least, this one.
abbrev pub AtMost : ℕ → List Entry → Type 0
AtMost n [] = Unit {0}
AtMost n (x ∷ xs) = (x.first ≤ n) × AtMost n xs

abbrev pub AtLeast : ℕ → List Entry → Type 0
AtLeast n [] = Unit {0}
AtLeast n (x ∷ xs) = (n ≤ x.first) × AtLeast n xs

pub Ascends-mono : {m n : ℕ} (l : List Entry) → m ≤ n → Ascends n l → Ascends m l
Ascends-mono [] h a = tt
Ascends-mono (x ∷ xs) h a = (omega arith, a.1)

pub Ascends-AtLeast : (n : ℕ) (l : List Entry) → Ascends n l → AtLeast n l
Ascends-AtLeast n [] a = tt
Ascends-AtLeast n (x ∷ xs) (h, a) = (h, Ascends-AtLeast n xs (Ascends-mono xs h a))

pub insert_entry-Ascends :
    (n : ℕ) (e : Entry) (l : List Entry)
    → n ≤ e.first
    → Ascends n l
    → Ascends n (insert_entry e l).0
unfolding insert_entry
insert_entry-Ascends n e [] h a = (h, tt)
insert_entry-Ascends n e (x ∷ xs) h (b, a) =
    ground (arith, insert_entry-Ascends x.first e xs, Ascends-mono {m = e.first} {n = x.first} xs)

pub extract_below-AtMost : (now : ℕ) (l : List Entry) → AtMost now (extract_below (now + 1) l).0
unfolding extract_below
extract_below-AtMost now [] = tt
extract_below-AtMost now (x ∷ xs) = ground (arith, extract_below-AtMost now xs)

pub extract_below-Ascends :
    (n now : ℕ) (l : List Entry) → Ascends n l → Ascends (now + 1) (extract_below (now + 1) l).1
unfolding extract_below
extract_below-Ascends n now [] a = tt
extract_below-Ascends n now (x ∷ xs) (b, a) =
    ground
      (arith, extract_below-Ascends x.first now xs a, Ascends-mono {m = now + 1} {n = x.first} xs)

pub extract_below-append :
    (when : ℕ) (l : List Entry) → (extract_below when l).0 ++ (extract_below when l).1 ≡ l
unfolding extract_below
extract_below-append when [] = refl
extract_below-append when (x ∷ xs) = ground (arith, extract_below-append when xs)
