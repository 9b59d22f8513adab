-- ===== src/Net/TimerManager/Reinsert.antt =====
-- src/net/TimerManager.cc: putting back the expired timers that repeat.
use mathlib.Core.List.{Memᴰ}
use mathlib.Core.Path.{subst}
use mcp_server_cpp.Prelude.{
  bit, count, count-le, ℕ, ◌+◌, ◌≤◌, ◌≡◌, ◌⊎◌, refl, sym, ap, ◌∙◌, Bool, Bool-cases, true, false,
  not, ◌&&◌, some, List, [], ◌∷◌, ◌==◌, arith, inl, inr,
}
use mcp_server_cpp.Net.Timer.{Timer, TimerId, id_of, same_id, restart, add_seconds}
use mcp_server_cpp.Net.TimerList.{Entry, contains}
use mcp_server_cpp.Net.TimerList.Count.{identified, count-insert_entry}
use mcp_server_cpp.Net.TimerManager.{Manager, inserted, reinsert}
use mcp_server_cpp.Net.TimerManager.Invariant.{
  Valid, Fresh, entry_of, insert-inserted, inserted-Valid, entered,
}
use mcp_server_cpp.Net.TimerManager.Cancel.{Stops}

-- The timers that are put back if nobody cancels them.
abbrev pub renews : TimerId → Entry → Bool
renews i e = identified i e && e.second.repeat

-- A timer that is not put back.
abbrev pub Drops : List Entry → TimerId → Manager → Type 0
Drops held i m =
    (count (identified i) m.timers ≡ 0)
    × ((count (renews i) held ≡ 0) ⊎ (contains i m.canceling_timers ≡ true))

pub Stops-Drops : (held : List Entry) (i : TimerId) (m : Manager) → Stops held i m → Drops held i m
Stops-Drops held i m (z, inl n) =
    (z, inl (omega (arith, n, count-le (renews i) (identified i) held (λ e h. ground arith))))
Stops-Drops held i m (z, inr c) = (z, inr c)

-- What is put back.
pub record Reinserts (now : ℕ) (held : List Entry) (m : Manager) : Type 0 where
  pub result : Manager
  pub returned : reinsert now held m ≡ some result
  pub valid : Valid [] result
  pub keeps_created : result.num_created ≡ m.num_created
  pub keeps_calling : result.calling_expired_timers ≡ m.calling_expired_timers
  pub drops : (i : TimerId) → Drops held i m → count (identified i) result.timers ≡ 0
  pub more : (p : Entry → Bool) → count p m.timers ≤ count p result.timers
  pub again :
      (e : Entry)
      → Memᴰ e held
      → e.second.repeat ≡ true
      → contains (id_of e.second) m.canceling_timers ≡ false
      → 1
        ≤ count
            (λ x. identified (id_of e.second) x && (x.first == add_seconds now e.second.interval))
            result.timers

module _ (now : ℕ) (e : Entry) (es : List Entry) (m : Manager) (v : Valid (e ∷ es) m) where
  skipped : Valid es m
  unfolding count
  skipped = record {
    ascends = v.ascends;
    keyed = v.keyed;
    sized = v.sized;
    active = v.active;
    addressed = λ a. omega (arith, v.addressed a);
    sequenced = λ s. omega (arith, v.sequenced s);
    created = λ s h. omega (arith, v.created s h);
  }

  restart-Fresh : Fresh es (restart e.second now) m
  unfolding count restart
  restart-Fresh = record {
    address = ground (arith, v.addressed e.second.address);
    sequence = ground (arith, v.sequenced e.second.sequence);
    counted = ground (arith, v.created e.second.sequence);
  }

contains-same :
    (i j : TimerId) (l : List TimerId) → same_id i j ≡ true → contains i l ≡ contains j l
unfolding contains
contains-same i j [] h = refl
contains-same i j (k ∷ l) h = ground (arith, contains-same i j l h)

module _ (now : ℕ) (e : Entry) (es : List Entry) (m : Manager) (v : Valid (e ∷ es) m) where
  abbrev back : Manager
  back = inserted (restart e.second now) m

  back-counts :
      (p : Entry → Bool)
      → count p back.timers ≡ bit (p (entry_of (restart e.second now))) + count p m.timers
  back-counts p =
      let t = restart e.second now in
      count-insert_entry p (entry_of t) m.timers
        (entered es t m (skipped now e es m v) (restart-Fresh now e es m v))

  restart-identified :
      (i : TimerId) → identified i (entry_of (restart e.second now)) ≡ identified i e
  unfolding restart
  restart-identified i = ground arith

  restart-due :
      e.second.repeat ≡ true
      → (identified (id_of e.second) (entry_of (restart e.second now))
          && ((restart e.second now).expiration == add_seconds now e.second.interval))
        ≡ true
  unfolding restart
  restart-due y = ground arith

  reinsert-back :
      e.second.repeat ≡ true
      → contains (id_of e.second) m.canceling_timers ≡ false
      → reinsert now (e ∷ es) m ≡ reinsert now es back
  unfolding reinsert
  reinsert-back y n = ground (
    arith,
    insert-inserted es (restart e.second now) m (skipped now e es m v) (restart-Fresh now e es m v),
  )

  back-Drops :
      (i : TimerId)
      → e.second.repeat ≡ true
      → contains (id_of e.second) m.canceling_timers ≡ false
      → Drops (e ∷ es) i m
      → Drops es i back
  unfolding count
  back-Drops i y n (z, inl d) =
      (ground (arith, back-counts (identified i), restart-identified i), inl (omega (arith, d)))
  back-Drops i y n (z, inr c) = (
    ground (
      arith,
      back-counts (identified i),
      restart-identified i,
      contains-same i (id_of e.second) m.canceling_timers,
    ),
    inr c,
  )

  reinsert_again :
      e.second.repeat ≡ true
      → contains (id_of e.second) m.canceling_timers ≡ false
      → Reinserts now es back
      → Reinserts now (e ∷ es) m
  unfolding count
  reinsert_again y n r = record {
    result = r.result;
    returned = reinsert-back y n ∙ r.returned;
    valid = r.valid;
    keeps_created = r.keeps_created;
    keeps_calling = r.keeps_calling;
    drops = λ i d. r.drops i (back-Drops i y n d);
    more = λ p. omega (arith, back-counts p, r.more p);
    again = λ x q a c.
        let due = (λ (u : Timer) (z : Entry).
          identified (id_of u) z && (z.first == add_seconds now u.interval)) in
        elim q [
          | Memᴰ.head d ↦
              subst (λ (z : Entry). 1 ≤ count (due z.second) r.result.timers) (sym d)
                (ground (arith, back-counts (due e.second), restart-due y, r.more (due e.second)))
          | Memᴰ.tail t ↦ r.again x t a c
        ];
  }

  reinsert_drop :
      (e.second.repeat && not (contains (id_of e.second) m.canceling_timers)) ≡ false
      → Reinserts now es m
      → Reinserts now (e ∷ es) m
  unfolding reinsert count
  reinsert_drop n r = record {
    result = r.result;
    returned = rw n r.returned;
    valid = r.valid;
    keeps_created = r.keeps_created;
    keeps_calling = r.keeps_calling;
    drops = λ i (z, d). r.drops i (z, elim d [ inl o ↦ inl (omega (arith, o)) | inr c ↦ inr c ]);
    more = r.more;
    again = λ x q a c. elim q [
      | Memᴰ.head d ↦ absurd (
          ground (
            arith,
            ap (λ (z : Entry). z.second.repeat) d,
            ap (λ (z : Entry). contains (id_of z.second) m.canceling_timers) d,
          ))
      | Memᴰ.tail t ↦ r.again x t a c
    ];
  }

pub reinsert-lem : (now : ℕ) (held : List Entry) (m : Manager) → Valid held m → Reinserts now held m
unfolding reinsert
reinsert-lem now [] m v = record {
  result = m;
  returned = refl;
  valid = v;
  keeps_created = refl;
  keeps_calling = refl;
  drops = λ i (z, _). z;
  more = λ p. omega arith;
  again = λ e p. elim p [ ];
}
reinsert-lem now (e ∷ es) m v =
    let b = e.second.repeat && not (contains (id_of e.second) m.canceling_timers) in
    elim (Bool-cases b) [
      | inl y ↦ reinsert_again now e es m v (ground arith) (ground arith) (
          reinsert-lem now es (back now e es m v) (
            inserted-Valid es (restart e.second now) m (skipped now e es m v)
              (restart-Fresh now e es m v)))
      | inr n ↦ reinsert_drop now e es m v n (reinsert-lem now es m (skipped now e es m v))
    ]
