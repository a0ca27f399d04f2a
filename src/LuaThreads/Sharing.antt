-- ===== src/LuaThreads/Sharing.antt =====
-- Whatever requests come and go, no Lua thread is used by two of them at a time.
use mathlib.Core.Path.{subst}
use alilua.Prelude.{
  ◌⊎◌, ℕ, ◌+◌, ◌<◌, ◌≤◌, ◌≡◌, refl, sym, ap, ◌∙◌, Option, none, some, inl, inr, List, [], ◌∷◌, ◌++◌,
  leb, ltb, ◌==◌, if◌then◌else◌, arith, Bool-cases, Option-cases, if_true, if_false,
}
use alilua.LuaThreads.{
  Pool, max_lua_thread_count, release_lua_thread, make_thread, take_first, new_lua_thread,
  empty_pool,
}
use alilua.LuaThreads.Queue.{IsQueue, release_lua_thread-IsQueue, new_lua_thread-IsQueue}

-- The pool and the threads that requests are using.
pub record World : Type 0 where
  pub pool : Pool
  pub busy : List ℕ

abbrev pub start : World
start = record { pool = empty_pool; busy = [] }

-- A request begins and gets a thread, or none; a request ends.
pub data Step : World → World → Type 0 where
  takes :
      (w : World) (t : ℕ)
      → (new_lua_thread w.pool).1 ≡ some t
      → Step w (record { pool = (new_lua_thread w.pool).0; busy = t ∷ w.busy })
  refused :
      (w : World)
      → (new_lua_thread w.pool).1 ≡ none
      → Step w (record { pool = (new_lua_thread w.pool).0; busy = w.busy })
  releases :
      (w : World) (xs ys : List ℕ) (t : ℕ)
      → w.busy ≡ xs ++ t ∷ ys
      → Step w (record { pool = release_lua_thread w.pool t; busy = xs ++ ys })

pub data Reach : World → Type 0 where
  here : Reach start
  next : (v w : World) → Reach v → Step v w → Reach w

-- How often a thread stands in a list.
abbrev pub occurrences : ℕ → List ℕ → ℕ
occurrences t [] = 0
occurrences t (x ∷ xs) = (if t == x then 1 else 0) + occurrences t xs

occurrences-append :
    (t : ℕ) (xs ys : List ℕ) → occurrences t (xs ++ ys) ≡ occurrences t xs + occurrences t ys
occurrences-append t [] ys = omega arith
occurrences-append t (x ∷ xs) ys = omega (arith, occurrences-append t xs ys)

-- The threads that were made are in the pool or in use, each once, and there are at most
-- `MAX_LUA_THREAD_COUNT`.
pub record IsShared (w : World) : Type 0 where
  pub queue : List ℕ
  pub holds : IsQueue w.pool queue
  pub once :
      (t : ℕ)
      → occurrences t queue + occurrences t w.busy
        ≡ (if ltb t w.pool.lua_thread_count then 1 else 0)
  pub at_most : w.pool.lua_thread_count ≤ max_lua_thread_count

-- With an empty queue a thread is made.
new_lua_thread-make_thread :
    (pool : Pool) → IsQueue pool [] → new_lua_thread pool ≡ make_thread pool
unfolding new_lua_thread
new_lua_thread-make_thread pool (h, t) =
    ap (λ (o : Option ℕ). elim o [ none ↦ make_thread pool | some l ↦ take_first pool l ]) h

new_lua_thread-count :
    (pool : Pool) (t : ℕ) (ts : List ℕ)
    → IsQueue pool (t ∷ ts)
    → (new_lua_thread pool).0.lua_thread_count ≡ pool.lua_thread_count
unfolding new_lua_thread take_first
new_lua_thread-count pool t ts (head, (tail, h, e, c)) = rw (h, new_lua_thread) (ground arith)

release_lua_thread-count :
    (pool : Pool) (t : ℕ) → (release_lua_thread pool t).lua_thread_count ≡ pool.lua_thread_count
unfolding release_lua_thread
release_lua_thread-count pool t = elim (Option-cases pool.lua_thread_tail) [
  | inl e ↦ rw (e, release_lua_thread) refl
  | inr (tail, e) ↦ rw (e, release_lua_thread) refl
]

releases-IsShared :
    (w : World) (xs ys : List ℕ) (t : ℕ)
    → w.busy ≡ xs ++ t ∷ ys
    → IsShared w
    → IsShared (record { pool = release_lua_thread w.pool t; busy = xs ++ ys })
releases-IsShared w xs ys t e s = record {
  queue = s.queue ++ t ∷ [];
  holds = release_lua_thread-IsQueue w.pool s.queue t s.holds;
  once = λ u. rw (release_lua_thread-count w.pool t) (
      omega (
        arith,
        s.once u,
        occurrences-append u s.queue (t ∷ []),
        occurrences-append u xs ys,
        occurrences-append u xs (t ∷ ys),
        ap (occurrences u) e,
      ));
  at_most = rw (release_lua_thread-count w.pool t) s.at_most;
}

-- The two ways in which a request gets a thread.
takes_first :
    (w : World) (s : IsShared w) (t : ℕ) (ts : List ℕ)
    → s.queue ≡ t ∷ ts
    → IsShared (record { pool = (new_lua_thread w.pool).0; busy = t ∷ w.busy })
takes_first w s t ts e =
    let q = subst (IsQueue w.pool) e s.holds in
    let same = new_lua_thread-count w.pool t ts q in
    record {
      queue = ts;
      holds = (new_lua_thread-IsQueue w.pool t ts q).1;
      once = λ u. rw same (omega (arith, s.once u, ap (occurrences u) e));
      at_most = rw same s.at_most;
    }

makes :
    (w : World) (s : IsShared w)
    → s.queue ≡ []
    → w.pool.lua_thread_count < max_lua_thread_count
    → IsShared (record {
      pool = record w.pool { lua_thread_count = w.pool.lua_thread_count + 1 };
      busy = w.pool.lua_thread_count ∷ w.busy;
    })
makes w s e lt = record {
  queue = [];
  holds = subst (IsQueue w.pool) e s.holds;
  once = λ u. ground (arith, s.once u, ap (occurrences u) e);
  at_most = omega arith;
}

-- What a request may find: no thread, or one that is its own from then on.
Got : World → Type 0
Got w =
    (((new_lua_thread w.pool).1 ≡ none)
      × IsShared (record { pool = (new_lua_thread w.pool).0; busy = w.busy }))
    ⊎ ((t : ℕ) × ((new_lua_thread w.pool).1 ≡ some t)
        × IsShared (record { pool = (new_lua_thread w.pool).0; busy = t ∷ w.busy }))

makes-Got : (w : World) (s : IsShared w) → s.queue ≡ [] → Got w
unfolding Got make_thread
makes-Got w s e =
    let made = new_lua_thread-make_thread w.pool (subst (IsQueue w.pool) e s.holds) in
    elim (Bool-cases (leb max_lua_thread_count w.pool.lua_thread_count)) [
      | inl full ↦
          let refused_eq : new_lua_thread w.pool ≡ (w.pool, none) =
            made ∙ if_true (leb max_lua_thread_count w.pool.lua_thread_count) _ full in
          inl (
            ap (λ r. r.1) refused_eq,
            subst (λ r. IsShared (record { pool = r.0; busy = w.busy })) (sym refused_eq) s,
          )
      | inr room ↦
          let new = record w.pool { lua_thread_count = w.pool.lua_thread_count + 1 } in
          let made_eq : new_lua_thread w.pool ≡ (new, some w.pool.lua_thread_count) =
            made ∙ if_false (leb max_lua_thread_count w.pool.lua_thread_count) _ room in
          inr (
            w.pool.lua_thread_count,
            ap (λ r. r.1) made_eq,
            subst (λ r. IsShared (record { pool = r.0; busy = w.pool.lua_thread_count ∷ w.busy }))
                (sym made_eq) (makes w s e (ground arith)),
          )
    ]

gets : (w : World) (s : IsShared w) (q : List ℕ) → s.queue ≡ q → Got w
unfolding Got
gets w s [] e = makes-Got w s e
gets w s (t ∷ ts) e = inr (
  t,
  (new_lua_thread-IsQueue w.pool t ts (subst (IsQueue w.pool) e s.holds)).0,
  takes_first w s t ts e,
)

taken :
    (w : World) (t : ℕ)
    → Got w
    → (new_lua_thread w.pool).1 ≡ some t
    → IsShared (record { pool = (new_lua_thread w.pool).0; busy = t ∷ w.busy })
unfolding Got
taken w t (inl (e, s)) h = absurd (cc)
taken w t (inr (u, e, s)) h =
    subst (λ v. IsShared (record { pool = (new_lua_thread w.pool).0; busy = v ∷ w.busy })) (cc) s

left_out :
    (w : World)
    → Got w
    → (new_lua_thread w.pool).1 ≡ none
    → IsShared (record { pool = (new_lua_thread w.pool).0; busy = w.busy })
unfolding Got
left_out w (inl (e, s)) h = s
left_out w (inr (u, e, s)) h = absurd (cc)

Step-IsShared : (v w : World) → Step v w → IsShared v → IsShared w
Step-IsShared v w (takes u t e) s = taken v t (gets v s s.queue refl) e
Step-IsShared v w (refused u e) s = left_out v (gets v s s.queue refl) e
Step-IsShared v w (releases u xs ys t e) s = releases-IsShared v xs ys t e s

-- Whatever requests begin and end, in any order, from an empty pool on: every thread that was made is
-- either waiting in the pool, which hands them out in the order of their release, or used by one
-- request, and none is there twice; and at most `MAX_LUA_THREAD_COUNT` are made.
pub Reach-IsShared : (w : World) → Reach w → IsShared w
Reach-IsShared w here = record {
  queue = [];
  holds = (refl, refl);
  once = λ t. ground arith;
  at_most = omega arith;
}
Reach-IsShared w (next v w' r s) = Step-IsShared v w' s (Reach-IsShared v r)
