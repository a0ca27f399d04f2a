-- ===== src/CachedNtoa.antt =====
-- src/cached-ntoa.c: the texts of addresses, kept in a tree of the coevent library.
pub mod Laws
mod Tests
use alilua.Prelude.{ℕ, ◌≡◌, ◌≢◌, Bool, true, false, Option, none, some, Bytes}

-- `rb_tree_find` and `rb_tree_insert`, where the result of the second is none unless it is RB_OK, and
-- what the code relies on: an insertion adds the key and changes no other one.
pub record RbTree (T : Type 0) : Type 0 where
  pub find : T → ℕ → Option Bytes
  pub insert : T → ℕ → Bytes → Option T
  pub find-insert :
      (t t' : T) (key : ℕ) (b : Bytes) → insert t key b ≡ some t' → find t' key ≡ some b
  pub find-insert_other :
      (t t' : T) (key other : ℕ) (b : Bytes)
      → insert t key b ≡ some t'
      → other ≢ key
      → find t' other ≡ find t other

module _ {T : Type 0} (rb : RbTree T) (inet_ntoa : ℕ → Bytes) where
  -- The branch where the address is not in the tree; `malloc` says whether there is memory.
  pub add_ntoa : Bool → T → ℕ → T × Bytes
  add_ntoa false tree addr = (tree, inet_ntoa addr)
  add_ntoa true tree addr = elim (rb.insert tree addr (inet_ntoa addr)) [
    | none ↦ (tree, inet_ntoa addr)
    | some tree' ↦ (tree', inet_ntoa addr)
  ]

  pub cached_ntoa : Bool → T → ℕ → T × Bytes
  cached_ntoa malloc tree addr = elim (rb.find tree addr) [
    | some text ↦ (tree, text)
    | none ↦ add_ntoa malloc tree addr
  ]
