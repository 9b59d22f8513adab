-- ===== src/Db/Pool/Alive.antt =====
-- src/db/DBPool.cc: the first round of the scan has each connection used not long ago.
use mathlib.Core.Path.{subst}
use mcp_server_cpp.Prelude.{
  ℕ, ◌≡◌, refl, sym, ap, ◌∙◌, Bool, true, false, not, ◌&&◌, List, [], ◌∷◌, inl, inr, if◌then◌else◌,
  update-elim, ◌⊎◌,
}
use mcp_server_cpp.Db.Pool.{
  DbPool, DbConnection, has_elapsed, is_keepalive_timeout, discard, changed, set_state, keepalive,
  broken, refresh_last_used_time,
}
use mcp_server_cpp.Db.Pool.Maintenance.{pinged, check_alive}

-- The pool where a connection has been found alive.
abbrev found : (now : ℕ) (due : Bool) (a : ℕ) → DbPool → DbPool
found now due a p = if due then pinged now a p else p

module _ (now later idle_sec keepalive_sec : ℕ) where
  -- Not used for less than the time out of an idle connection.
  abbrev pub Recent : ℕ → Type 0
  Recent t = has_elapsed later t idle_sec ≡ false

  -- None of the connections is idle for so long.
  abbrev pub Busy : List ℕ → DbPool → Type 0
  Busy [] p = Unit {0}
  Busy (a ∷ l) p = Recent (p.heap a).last_used_at × Busy l p

  abbrev pub Limits : DbPool → Type 0
  Limits p = (p.idle_timeout_sec ≡ idle_sec) × (p.keepalive_sec ≡ keepalive_sec)

  -- Each connection was used last when it was, or now.
  abbrev pub Keeps : DbPool → DbPool → Type 0
  Keeps p q =
      (a : ℕ)
      → ((q.heap a).last_used_at ≡ (p.heap a).last_used_at) ⊎ ((q.heap a).last_used_at ≡ now)

  pub changed-Keeps :
      (f : DbConnection → DbConnection) (a : ℕ) (p : DbPool)
      → ((c : DbConnection) → ((f c).last_used_at ≡ c.last_used_at) ⊎ ((f c).last_used_at ≡ now))
      → Keeps p (changed f a p)
  changed-Keeps f a p h b =
      let S =
        λ (c : DbConnection). (c.last_used_at ≡ (p.heap b).last_used_at) ⊎ (c.last_used_at ≡ now) in
      update-elim S p.heap a (f (p.heap a)) b
        (λ e. elim (h (p.heap a)) [
          | inl k ↦ inl (k ∙ ap (λ i. (p.heap i).last_used_at) (sym e))
          | inr k ↦ inr k
        ])
        (λ n. inl refl)

  Keeps-trans : (p q r : DbPool) → Keeps p q → Keeps q r → Keeps p r
  Keeps-trans p q r k m a = elim (m a) [
    | inl e ↦ elim (k a) [ inl d ↦ inl (e ∙ d) | inr d ↦ inr (e ∙ d) ]
    | inr e ↦ inr e
  ]

  Recent-Keeps :
      (a : ℕ) (p q : DbPool)
      → Recent now
      → Keeps p q
      → Recent (p.heap a).last_used_at
      → Recent (q.heap a).last_used_at
  Recent-Keeps a p q n k r = elim (k a) [
    | inl e ↦ subst Recent (sym e) r
    | inr e ↦ subst Recent (sym e) n
  ]

  pub Busy-Keeps : (l : List ℕ) (p q : DbPool) → Recent now → Keeps p q → Busy l p → Busy l q
  Busy-Keeps [] p q n k b = tt
  Busy-Keeps (a ∷ l) p q n k (r, b) = (Recent-Keeps a p q n k r, Busy-Keeps l p q n k b)

  pub discard-Keeps : (a : ℕ) (p : DbPool) → Keeps p (discard a p)
  unfolding discard
  discard-Keeps a p b = changed-Keeps (set_state broken) a p (λ c. inl refl) b

  pinged-Keeps : (a : ℕ) (p : DbPool) → Keeps p (pinged now a p)
  pinged-Keeps a p =
      let q = changed (set_state keepalive) a p in
      Keeps-trans p q (pinged now a p) (changed-Keeps (set_state keepalive) a p (λ c. inl refl))
        (changed-Keeps (refresh_last_used_time now) a q (λ c. inr refl))

  found-Keeps : (due : Bool) (a : ℕ) (p : DbPool) → Keeps p (found now due a p)
  found-Keeps true a p b = pinged-Keeps a p b
  found-Keeps false a p b = inl refl

  found-Limits : (due : Bool) (a : ℕ) (p : DbPool) → Limits p → Limits (found now due a p)
  found-Limits true a p k = k
  found-Limits false a p k = k

  found-Recent :
      (due : Bool) (a : ℕ) (p : DbPool)
      → Recent now
      → (due ≡ false → Recent (p.heap a).last_used_at)
      → Recent ((found now due a p).heap a).last_used_at
  found-Recent true a p n h =
      let q = changed (set_state keepalive) a p in
      update-elim (λ (c : DbConnection). Recent c.last_used_at) q.heap a
        (refresh_last_used_time now (q.heap a)) a (λ e. n) (λ m. absurd (m refl))
  found-Recent false a p n h = h refl

  abbrev pub Healthy : DbPool → DbPool × List ℕ → Type 0
  Healthy p r = Keeps p r.0 × Busy r.1 r.0 × Limits r.0

  if-Healthy :
      (b : Bool) (p : DbPool) (r s : DbPool × List ℕ)
      → Healthy p r
      → (b ≡ false → Healthy p s)
      → Healthy p (if b then r else s)
  if-Healthy true p r s v w = v
  if-Healthy false p r s v w = w refl

  pub check_alive-Healthy :
      (ping : ℕ → Bool) (l : List ℕ) (p : DbPool)
      → Recent now
      → ((t : ℕ) → has_elapsed now t keepalive_sec ≡ false → Recent t)
      → Limits p
      → Healthy p (check_alive now ping l p)
  unfolding check_alive discard
  check_alive-Healthy ping [] p n h k = (λ a. inl refl, tt, k)
  check_alive-Healthy ping (a ∷ l) p n h k =
      let due = is_keepalive_timeout now p.keepalive_sec (p.heap a) in
      let lost = changed (set_state keepalive) a p in
      let q = found now due a p in
      let (x, y, z) = check_alive-Healthy ping l (discard a lost) n h k in
      let (x', y', z') = check_alive-Healthy ping l q n h (found-Limits due a p k) in
      let recent = found-Recent due a p n λ e.
        h (p.heap a).last_used_at
          (subst (λ s. has_elapsed now (p.heap a).last_used_at s ≡ false) k.1 e) in
      if-Healthy (due && not (ping a)) p _ _
        (
          Keeps-trans p (discard a lost) (check_alive now ping l (discard a lost)).0
              (Keeps-trans p lost (discard a lost)
                (changed-Keeps (set_state keepalive) a p (λ c. inl refl)) (discard-Keeps a lost))
              x,
          y,
          z,
        )
        (λ _. (
          Keeps-trans p q (check_alive now ping l q).0 (found-Keeps due a p) x',
          (Recent-Keeps a q (check_alive now ping l q).0 n x' recent, y'),
          z',
        ))
