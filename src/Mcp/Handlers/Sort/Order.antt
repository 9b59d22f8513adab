-- ===== src/Mcp/Handlers/Sort/Order.antt =====
-- src/mcp/server/McpMethodHandlers.cc: what sorting by a text gives.
use Prim.Native.String.{String}
use mathlib.Core.List.{Permᴰ}
use mathlib.Core.List.Permᴰ
use mathlib.Core.Path.{subst}
use mcp_server_cpp.Prelude.{
  ◌≡◌, ◌≢◌, refl, sym, ap, ◌∙◌, Bool-cases, inl, inr, true, List, [], ◌∷◌, arith,
}
use mcp_server_cpp.Mcp.Handlers.Sort.{less, insert, sort}
use mcp_server_cpp.Mcp.Handlers.Sort.Less.{less_flip, less_trans, less_asymm, less_cross}

module _ {H : Type 0} (key : H → String) where
  -- The key stands before those of all the others.
  abbrev pub Before : String → List H → Type 0
  Before k [] = Unit {0}
  Before k (a ∷ l) = (less k (key a) ≡ true) × Before k l

  -- Each key stands before those that follow.
  abbrev pub Ascends : List H → Type 0
  Ascends [] = Unit {0}
  Ascends (a ∷ l) = Before (key a) l × Ascends l

  -- No other has this key.
  abbrev pub Differs : String → List H → Type 0
  Differs k [] = Unit {0}
  Differs k (a ∷ l) = (k ≢ key a) × Differs k l

  abbrev pub Distinct : List H → Type 0
  Distinct [] = Unit {0}
  Distinct (a ∷ l) = Differs (key a) l × Distinct l

  -- Two insertions commute where the keys differ.
  insert-insert :
      (a b : H) (l : List H)
      → key a ≢ key b
      → insert key a (insert key b l) ≡ insert key b (insert key a l)
  unfolding insert
  insert-insert a b [] n = ground (arith, less_flip (key a) (key b), less_asymm (key a) (key b))
  insert-insert a b (c ∷ l) n = ground (
    arith,
    insert-insert a b l n,
    less_flip (key a) (key b),
    less_asymm (key a) (key b),
    less_cross (key b) (key c) (key a),
    less_cross (key a) (key c) (key b),
  )

  Differs-perm : {l m : List H} (k : String) → Permᴰ l m → Differs k l → Differs k m
  Differs-perm k Permᴰ.nil d = tt
  Differs-perm k (Permᴰ.cons e p) (n, d) = (λ f. n (f ∙ ap key (sym e)), Differs-perm k p d)
  Differs-perm k (Permᴰ.swap e f) (n, (m, d)) =
      (λ g. m (g ∙ ap key (sym f)), (λ g. n (g ∙ ap key (sym e)), d))
  Differs-perm k (Permᴰ.trans p q) d = Differs-perm k q (Differs-perm k p d)

  Distinct-perm : {l m : List H} → Permᴰ l m → Distinct l → Distinct m
  Distinct-perm Permᴰ.nil d = tt
  Distinct-perm (Permᴰ.cons {l₂ = l₂} e p) (n, d) =
      (subst (λ x. Differs (key x) l₂) e (Differs-perm _ p n), Distinct-perm p d)
  Distinct-perm (Permᴰ.swap {l = l} e f) (n, (m, d)) = (
    (λ g. n.0 (ap key e ∙ sym g ∙ ap key (sym f)), subst (λ x. Differs (key x) l) f m),
    (subst (λ x. Differs (key x) l) e n.1, d),
  )
  Distinct-perm (Permᴰ.trans p q) d = Distinct-perm q (Distinct-perm p d)

  -- The order of a list whose keys are distinct does not matter.
  pub sort_perm : {l m : List H} → Permᴰ l m → Distinct l → sort key l ≡ sort key m
  unfolding sort
  sort_perm Permᴰ.nil d = refl
  sort_perm (Permᴰ.cons {a = a} {l₂ = l₂} e p) (n, d) =
      ap (insert key a) (sort_perm p d) ∙ ap (λ x. insert key x (sort key l₂)) e
  sort_perm (Permᴰ.swap {a = a} {b = b} {a' = a'} {l = l} e f) (n, (m, d)) =
      insert-insert a b (sort key l) n.0
      ∙ ap (λ x. insert key x (insert key a (sort key l))) f
      ∙ ap (λ x. insert key a' (insert key x (sort key l))) e
  sort_perm (Permᴰ.trans p q) d = sort_perm p d ∙ sort_perm q (Distinct-perm p d)

  insert_perm : (a : H) (l : List H) → Permᴰ (insert key a l) (a ∷ l)
  unfolding insert
  insert_perm a [] = Permᴰ.refl _
  insert_perm a (b ∷ l) = elim (Bool-cases (less (key b) (key a))) [
    | inl y ↦ rw y (Permᴰ.trans (Permᴰ.cons refl (insert_perm a l)) (Permᴰ.swap refl refl))
    | inr n ↦ rw n (Permᴰ.refl _)
  ]

  -- Sorting keeps what there is.
  pub sort-Perm : (l : List H) → Permᴰ (sort key l) l
  unfolding sort
  sort-Perm [] = Permᴰ.nil
  sort-Perm (a ∷ l) = Permᴰ.trans (insert_perm a (sort key l)) (Permᴰ.cons refl (sort-Perm l))

  Before-trans : (j k : String) (l : List H) → less j k ≡ true → Before k l → Before j l
  Before-trans j k [] e b = tt
  Before-trans j k (a ∷ l) e (f, b) = (less_trans j k (key a) e f, Before-trans j k l e b)

  insert-Before :
      (k : String) (a : H) (l : List H)
      → less k (key a) ≡ true
      → Before k l
      → Before k (insert key a l)
  unfolding insert
  insert-Before k a [] e b = (e, tt)
  insert-Before k a (c ∷ l) e (f, b) = elim (Bool-cases (less (key c) (key a))) [
    | inl y ↦ rw y (f, insert-Before k a l e b)
    | inr n ↦ rw n (e, (f, b))
  ]

  insert-Ascends : (a : H) (l : List H) → Differs (key a) l → Ascends l → Ascends (insert key a l)
  unfolding insert
  insert-Ascends a [] d s = (tt, tt)
  insert-Ascends a (b ∷ l) (n, d) (h, s) = elim (Bool-cases (less (key b) (key a))) [
    | inl y ↦ rw y (insert-Before (key b) a l y h, insert-Ascends a l d s)
    | inr y ↦
        let e = less_flip (key b) (key a) y (λ f. n (sym f)) in
        rw y ((e, Before-trans (key a) (key b) l e h), (h, s))
  ]

  -- What is sorted ascends, if no key stands twice.
  pub sort-Ascends : (l : List H) → Distinct l → Ascends (sort key l)
  unfolding sort
  sort-Ascends [] d = tt
  sort-Ascends (a ∷ l) (n, d) =
      insert-Ascends a (sort key l) (Differs-perm (key a) (Permᴰ.symm (sort-Perm l)) n)
        (sort-Ascends l d)
