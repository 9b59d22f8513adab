-- ===== src/Mcp/Subscriptions/Registry.antt =====
-- src/mcp/server/SubscriptionRegistry.h: the registry as a map from identifiers to subscriptions.
use Prim.Native.String.{String}
use package.text.Mathlib.Text.{◌==◌}
use package.text.Mathlib.TextEquality.{eq_iff}
use mcp_server_cpp.Prelude.{
  ℕ, ◌≡◌, refl, none, [], ◌∷◌, if◌then◌else◌, arith, Bool-cases, Option-cases, inl, inr,
}
use mcp_server_cpp.Mcp.Dispatcher.{find, emplace}
use mcp_server_cpp.Mcp.Dispatcher.Route.{find-emplace}
use mcp_server_cpp.Mcp.Subscriptions.{Filter, Registry, add, remove}

-- No identifier stands twice, and each one stands with its own entry.
abbrev pub IsValid : Registry → Type 0
IsValid [] = Unit {0}
IsValid ((k, e) ∷ reg) = (find reg k ≡ none) × (e.subscription_id ≡ k) × IsValid reg

-- Subscribing keeps the registry valid, whether or not the identifier is taken.
pub add-IsValid :
    (reg : Registry) (id : String) (f : Filter) (w : ℕ) → IsValid reg → IsValid (add reg id f w).0
unfolding add emplace
add-IsValid reg id f w v = elim (Option-cases (find reg id)) [
  | inl n ↦ rw n ((n, refl, v))
  | inr (e, p) ↦ rw p v
]

pub find-remove :
    (reg : Registry) (id : String) (k : String)
    → IsValid reg
    → find (remove reg id) k ≡ (if id == k then none else find reg k)
unfolding remove find
find-remove [] id k v = ground arith
find-remove ((j, e) ∷ reg) id k (n, same, v) =
    ground (arith, find-remove reg id k v, eq_iff j id, eq_iff id k, eq_iff j k)

remove-IsValid : (reg : Registry) (id : String) → IsValid reg → IsValid (remove reg id)
unfolding remove
remove-IsValid [] id v = v
remove-IsValid ((j, e) ∷ reg) id (n, same, v) = elim (Bool-cases (j == id)) [
  | inl t ↦ rw t v
  | inr f ↦ rw f ((ground (arith, find-remove reg id j v), same, remove-IsValid reg id v))
]

-- Subscribing and then unsubscribing: the identifier is gone, every other identifier has what it
-- had, and the registry is valid still.
pub remove-add :
    (reg : Registry) (id : String) (f : Filter) (w : ℕ) (k : String)
    → IsValid reg
    → IsValid (remove (add reg id f w).0 id)
      × (find (remove (add reg id f w).0 id) k ≡ (if id == k then none else find reg k))
unfolding add
remove-add reg id f w k v = (
  remove-IsValid (add reg id f w).0 id (add-IsValid reg id f w v),
  ground (
    arith,
    find-remove (add reg id f w).0 id k (add-IsValid reg id f w v),
    find-emplace reg id (record { subscription_id = id; honored_filter = f; writer = w }) k,
  ),
)
