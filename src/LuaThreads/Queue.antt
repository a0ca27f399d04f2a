-- ===== src/LuaThreads/Queue.antt =====
-- The pool is a queue: threads are handed out in the order in which they were released.
use mathlib.Core.Path.{subst}
use alilua.Prelude.{
  ℕ, ◌+◌, ◌<◌, ◌≤◌, ◌≡◌, ◌≢◌, refl, sym, ap, ◌∙◌, true, false, none, some, List, [], ◌∷◌, ◌++◌,
  update, ◌==◌, arith, update_self, update_ne,
}
use alilua.LuaThreads.{ThreadLink, Pool, set_next, release_lua_thread, take_first, new_lua_thread}

-- The links from `head` on hold the threads of the list, `tail` is the last of them, and all stand at
-- addresses below `fresh`, in ascending order.
abbrev pub Chain : (ℕ → ThreadLink) → ℕ → ℕ → ℕ → List ℕ → Type 0
Chain links fresh tail l [] = ⊥
Chain links fresh tail l (t ∷ []) =
    (l < fresh) × ((links l).thread ≡ t) × ((links l).next ≡ none) × (tail ≡ l)
Chain links fresh tail l (t ∷ u ∷ us) =
    (l < fresh)
    × ((links l).thread ≡ t)
    × ((n : ℕ) × ((links l).next ≡ some n) × (l < n) × Chain links fresh tail n (u ∷ us))

-- The pool holds the threads of a queue.
abbrev pub IsQueue : Pool → List ℕ → Type 0
IsQueue pool [] = (pool.lua_thread_head ≡ none) × (pool.lua_thread_tail ≡ none)
IsQueue pool (t ∷ ts) =
    (head : ℕ) × ((tail : ℕ) × (pool.lua_thread_head ≡ some head)
      × (pool.lua_thread_tail ≡ some tail)
      × Chain pool.links pool.fresh tail head (t ∷ ts))

Chain-le :
    (links : ℕ → ThreadLink) (fresh tail l t : ℕ) (ts : List ℕ)
    → Chain links fresh tail l (t ∷ ts)
    → (l ≤ tail) × (tail < fresh)
Chain-le links fresh tail l t [] (h, e, n, q) = (omega arith, omega arith)
Chain-le links fresh tail l t (u ∷ us) (h, e, (n, d, lt, c)) =
    let (le, below) = Chain-le links fresh tail n u us c in (omega arith, below)

-- The links once `link` stands at `fresh` and the one at `tail` points to it.
abbrev linked : (ℕ → ThreadLink) → ℕ → ℕ → ℕ → ℕ → ThreadLink
linked links fresh tail thread =
    set_next (update links fresh (record { thread = thread; next = none })) tail (some fresh)

linked_other :
    (links : ℕ → ThreadLink) (fresh tail thread l : ℕ)
    → l ≢ tail
    → l ≢ fresh
    → linked links fresh tail thread l ≡ links l
linked_other links fresh tail thread l h k =
    let old = update links fresh (record { thread = thread; next = none }) in
    update_ne old tail (record (old tail) { next = some fresh }) l h
    ∙ update_ne links fresh (record { thread = thread; next = none }) l k

linked_tail :
    (links : ℕ → ThreadLink) (fresh tail thread : ℕ)
    → tail ≢ fresh
    → linked links fresh tail thread tail ≡ record (links tail) { next = some fresh }
linked_tail links fresh tail thread k =
    let old = update links fresh (record { thread = thread; next = none }) in
    update_self old tail (record (old tail) { next = some fresh })
    ∙ ap (λ (o : ThreadLink). record o { next = some fresh })
        (update_ne links fresh (record { thread = thread; next = none }) tail k)

linked_fresh :
    (links : ℕ → ThreadLink) (fresh tail thread : ℕ)
    → tail ≢ fresh
    → linked links fresh tail thread fresh ≡ record { thread = thread; next = none }
linked_fresh links fresh tail thread k =
    let old = update links fresh (record { thread = thread; next = none }) in
    update_ne old tail (record (old tail) { next = some fresh }) fresh (λ e. k (sym e))
    ∙ update_self links fresh (record { thread = thread; next = none })

-- A longer chain, once the new link is behind the last.
snoc-Chain :
    (links : ℕ → ThreadLink) (fresh tail l t : ℕ) (ts : List ℕ)
    → Chain links fresh tail l (t ∷ ts)
    → (thread : ℕ)
    → Chain (linked links fresh tail thread) (fresh + 1) fresh l (t ∷ (ts ++ thread ∷ []))
snoc-Chain links fresh tail l t [] (h, e, n, q) thread =
    let at_l : linked links fresh tail thread l ≡ record (links l) { next = some fresh } =
      ap (λ k. linked links fresh tail thread k) (sym q)
      ∙ linked_tail links fresh tail thread (omega arith)
      ∙ ap (λ k. record (links k) { next = some fresh }) q in
    let at_fresh = linked_fresh links fresh tail thread (omega arith) in
    (
      omega arith,
      ap (λ (o : ThreadLink). o.thread) at_l ∙ e,
      (
        fresh,
        ap (λ (o : ThreadLink). o.next) at_l,
        h,
        (
          omega arith,
          ap (λ (o : ThreadLink). o.thread) at_fresh,
          ap (λ (o : ThreadLink). o.next) at_fresh,
          refl,
        ),
      ),
    )
snoc-Chain links fresh tail l t (u ∷ us) (h, e, (n, d, lt, c)) thread =
    let (le, below) = Chain-le links fresh tail n u us c in
    let at_l = linked_other links fresh tail thread l (omega arith) (omega arith) in
    (
      omega arith,
      ap (λ (o : ThreadLink). o.thread) at_l ∙ e,
      (
        n,
        ap (λ (o : ThreadLink). o.next) at_l ∙ d,
        lt,
        snoc-Chain links fresh tail n u us c thread,
      ),
    )

release_eq :
    (pool : Pool) (thread tail : ℕ)
    → pool.lua_thread_tail ≡ some tail
    → release_lua_thread pool thread ≡ record pool {
      links = linked pool.links pool.fresh tail thread;
      fresh = pool.fresh + 1;
      lua_thread_tail = some pool.fresh;
    }
unfolding release_lua_thread
release_eq pool thread tail e = rw (e, release_lua_thread) refl

new_eq :
    (pool : Pool) (head tail : ℕ)
    → pool.lua_thread_head ≡ some head
    → pool.lua_thread_tail ≡ some tail
    → (tail == head) ≡ false
    → new_lua_thread pool
      ≡ (record pool { lua_thread_head = (pool.links head).next }, some (pool.links head).thread)
unfolding new_lua_thread take_first
new_eq pool head tail h e ne = rw (h, new_lua_thread, e, ne) refl

-- A thread that is released comes last.
pub release_lua_thread-IsQueue :
    (pool : Pool) (q : List ℕ) (thread : ℕ)
    → IsQueue pool q
    → IsQueue (release_lua_thread pool thread) (q ++ thread ∷ [])
unfolding release_lua_thread
release_lua_thread-IsQueue pool [] thread (h, t) =
    let placed = update_self pool.links pool.fresh (record { thread = thread; next = none }) in
    rw (t, release_lua_thread)
      ((
        pool.fresh,
        (
          pool.fresh,
          refl,
          refl,
          (
            omega arith,
            ap (λ (o : ThreadLink). o.thread) placed,
            ap (λ (o : ThreadLink). o.next) placed,
            refl,
          ),
        ),
      ))
release_lua_thread-IsQueue pool (t ∷ ts) thread (head, (tail, h, e, c)) =
    subst (λ p. IsQueue p (t ∷ (ts ++ thread ∷ []))) (sym (release_eq pool thread tail e))
      ((head, (pool.fresh, h, refl, snoc-Chain pool.links pool.fresh tail head t ts c thread)))

-- The thread that is handed out is the first.
pub new_lua_thread-IsQueue :
    (pool : Pool) (t : ℕ) (ts : List ℕ)
    → IsQueue pool (t ∷ ts)
    → ((new_lua_thread pool).1 ≡ some t) × IsQueue (new_lua_thread pool).0 ts
unfolding new_lua_thread take_first
new_lua_thread-IsQueue pool t [] (head, (tail, h, e, (lt, at', n, q))) =
    let last : (tail == head) ≡ true = ground arith in
    rw (h, new_lua_thread, e, last) ((ap some at', (refl, refl)))
new_lua_thread-IsQueue pool t (u ∷ us) (head, (tail, h, e, (lt, at', (n, d, below, c)))) =
    let (le, f) = Chain-le pool.links pool.fresh tail n u us c in
    let more : (tail == head) ≡ false = ground arith in
    subst (λ p. (p.1 ≡ some t) × IsQueue p.0 (u ∷ us)) (sym (new_eq pool head tail h e more))
      ((ap some at', (n, (tail, d, e, c))))
