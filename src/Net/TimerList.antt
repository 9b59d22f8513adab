-- ===== src/Net/TimerList.antt =====
-- src/net/TimerManager.h: the ordered set of the timers by the time at which they expire, and the
-- set of their identifiers.
-- `std::set` is a list: `timers_` in the order of `EntryCompare`, the set of the identifiers in any
-- order, since it is searched and counted only.
pub mod Count
pub mod Order
use mcp_server_cpp.Prelude.{
  ℕ, Bool, true, false, not, ◌&&◌, ◌||◌, Option, none, some, List, [], ◌∷◌, if◌then◌else◌, ltb,
  ◌==◌,
}
use mcp_server_cpp.Net.Timer.{Timer, TimerId, same_id}

pub record Entry : Type 0 where
  pub first : ℕ
  pub second : Timer

-- `EntryCompare`, on the time and the address.
abbrev pub entry_less : (when address when' address' : ℕ) → Bool
entry_less when address when' address' =
    if not (when == when') then ltb when when' else ltb address address'

abbrev pub less : Entry → Entry → Bool
less a b = entry_less a.first a.second.address b.first b.second.address

-- `timers_.insert`: an entry that is equivalent to one there is not inserted.
unfoldable pub insert_entry : Entry → List Entry → List Entry × Bool
insert_entry e [] = (e ∷ [], true)
insert_entry e (x ∷ xs) =
    let (rest, inserted) = insert_entry e xs in
    if less e x
    then (e ∷ x ∷ xs, true)
    else if less x e
    then (x ∷ rest, inserted)
    else (x ∷ xs, false)

-- `timers_.erase(timers_.find(entry))`, with the undefined behaviour where there is no such entry.
unfoldable pub erase_entry : (when address : ℕ) → List Entry → Option (List Entry)
erase_entry when address [] = none
erase_entry when address (x ∷ xs) =
    let rest = erase_entry when address xs in
    if not (entry_less x.first x.second.address when address)
      && not (entry_less when address x.first x.second.address)
    then some xs
    else elim rest [ none ↦ none | some ys ↦ some (x ∷ ys) ]

-- The entries from `timers_.begin()` to `timers_.lower_bound`, taken out, and those that stay. The
-- address of the sentry is null.
unfoldable pub extract_below : (when : ℕ) → List Entry → List Entry × List Entry
extract_below when [] = ([], [])
extract_below when (x ∷ xs) =
    let (out, rest) = extract_below when xs in
    if entry_less x.first x.second.address when 0 then (x ∷ out, rest) else ([], x ∷ xs)

-- `timer->expiration()` through an address: of the timer that is there, if there is one.
unfoldable pub expiration_at : List Entry → ℕ → Option ℕ
expiration_at [] address = none
expiration_at (x ∷ xs) address =
    let rest = expiration_at xs address in
    if x.second.address == address then some x.second.expiration else rest

-- `find` in a set of identifiers.
unfoldable pub contains : TimerId → List TimerId → Bool
contains i [] = false
contains i (j ∷ js) = let rest = contains i js in same_id i j || rest

-- `insert` into a set of identifiers.
abbrev pub insert_id : TimerId → List TimerId → List TimerId × Bool
insert_id i is = if contains i is then (is, false) else (i ∷ is, true)

-- `erase` by the key, with the number of those erased.
unfoldable pub erase_id : TimerId → List TimerId → List TimerId × Bool
erase_id i [] = ([], false)
erase_id i (j ∷ js) =
    let (rest, erased) = erase_id i js in if same_id i j then (js, true) else (j ∷ rest, erased)
