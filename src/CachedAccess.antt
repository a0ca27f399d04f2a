-- ===== src/CachedAccess.antt =====
-- src/cached-access.c: whether a file exists, kept for ten seconds in a tree of the coevent library.
pub mod Fresh
mod Tests
use alilua.Prelude.{
  ℕ, ◌+◌, ◌-◌, ◌%◌, ◌^◌, ◌≡◌, ◌≢◌, Bool, true, false, Option, none, some, ltb, if◌then◌else◌,
}
use alilua.Prelude.Int.{ℤ, negsuc}

-- `rb_access_key_t` without its key: `exists` is what `access` returned, 0 or -1.
pub record Entry : Type 0 where
  pub last : ℕ
  pub exists : ℤ

-- `rb_tree_find` and `rb_tree_insert`, where the result of the second is none unless it is RB_OK, and
-- `write`, a change of an entry in its place; with what the code relies on: an insertion succeeds if
-- the key is not there, and each of the two changes one key and no other one.
pub record AccessTree (T : Type 0) : Type 0 where
  pub find : T → ℕ → Option Entry
  pub insert : T → ℕ → Entry → Option T
  pub write : T → ℕ → Entry → T
  pub insert_some :
      (t : T) (key : ℕ) (e : Entry) → find t key ≡ none → (t' : T) × (insert t key e ≡ some t')
  pub find-insert :
      (t t' : T) (key : ℕ) (e : Entry) → insert t key e ≡ some t' → find t' key ≡ some e
  pub find-insert_other :
      (t t' : T) (key other : ℕ) (e : Entry)
      → insert t key e ≡ some t'
      → other ≢ key
      → find t' other ≡ find t other
  pub find-write :
      (t : T) (key : ℕ) (d e : Entry) → find t key ≡ some d → find (write t key e) key ≡ some e
  pub find-write_other :
      (t : T) (key other : ℕ) (e : Entry) → other ≢ key → find (write t key e) other ≡ find t other

-- `now - last` in unsigned numbers of 64 bits, for a `last` below 2 ^ 64.
unfoldable pub elapsed : ℕ → ℕ → ℕ
elapsed now last = (now + 2 ^ 64 - last) % 2 ^ 64

module _ {T : Type 0} (tree : AccessTree T) where
  -- The key is not there; a new entry has 0 for `last`.
  pub add_access : Bool → T → ℕ → ℤ → T × ℤ
  add_access false t key access = (t, negsuc 0)
  add_access true t key access = elim (tree.insert t key (record { last = 0; exists = access })) [
    | none ↦ (t, negsuc 0)
    | some t' ↦ (t', access)
  ]

  -- The key is there.
  pub check_access : ℕ → T → ℕ → ℤ → Entry → T × ℤ
  check_access now t key access e =
      if ltb 10 (elapsed now e.last)
      then (tree.write t key (record { last = now; exists = access }), access)
      else (t, e.exists)

  -- `access` is what the function of that name would return, `malloc` whether there is memory, and
  -- `now` the time in seconds.
  pub cached_access : Bool → ℕ → T → ℕ → ℤ → T × ℤ
  cached_access malloc now t key access = elim (tree.find t key) [
    | some e ↦ check_access now t key access e
    | none ↦ add_access malloc t key access
  ]
