-- ===== src/LuaThreads/Tests.antt =====
-- Threads that come and go, and the examples of the theorems on the pool.
use alilua.Prelude.{◌≡◌, refl, Bool, true, not, some, List, [], ◌∷◌, Bytes, codes, ◌&&◌, ◌||◌}
use alilua.CString.Laws.{lacks-Without}
use alilua.LuaThreads.{
  empty_pool, release_lua_thread, make_thread, take_first, new_lua_thread, init_lua_threads,
  make_threads, release_threads, is_remembered, is_in, assign_all, reinit_lua_thread_env,
}
use alilua.LuaThreads.Sharing.{
  World, start, takes, releases, Reach, here, next, IsShared, Reach-IsShared,
}
use alilua.LuaThreads.Remembered.{reinit_lua_thread_env-assign_all}

one_made : (new_lua_thread empty_pool).1 ≡ some 0
unfolding new_lua_thread make_thread
one_made = refl

abbrev one_used : World
one_used = record { pool = (new_lua_thread empty_pool).0; busy = 0 ∷ [] }

abbrev one_back : World
one_back = record { pool = release_lua_thread (new_lua_thread empty_pool).0 0; busy = [] }

one_back-Reach : Reach one_back
one_back-Reach =
    next one_used one_back (next start one_used here (takes start 0 one_made))
      (releases one_used [] [] 0 refl)

Reach-IsShared_example : IsShared one_back
Reach-IsShared_example = Reach-IsShared one_back one_back-Reach

-- Three threads are made at the start, and the first is handed out first.
init_test : (new_lua_thread (init_lua_threads 3 empty_pool)).1 ≡ some 0
unfolding new_lua_thread take_first make_thread init_lua_threads make_threads release_threads
    release_lua_thread
init_test = refl

-- `x` was set before, `ab` is forgotten, and `a_b` stays.
abbrev before : Bytes → Bool
before k = is_in k (codes "x" ∷ [])

abbrev assigned : List Bytes
assigned = codes "ab" ∷ codes "a_b" ∷ []

reinit_lua_thread_env-assign_all_example :
    (reinit_lua_thread_env
        (assign_all true (record { is_set = before; remembered = [] }) assigned)).is_set
      (codes "a_b")
    ≡ (before (codes "a_b")
        || (is_in (codes "a_b") assigned && not (is_remembered true (codes "a_b"))))
reinit_lua_thread_env-assign_all_example =
    reinit_lua_thread_env-assign_all before assigned (codes "a_b")
      (lacks-Without 0 (codes "ab") refl, (lacks-Without 0 (codes "a_b") refl, tt))

underscore_test : (not (is_remembered true (codes "a_b")) && is_remembered true (codes "ab")) ≡ true
unfolding is_remembered
underscore_test = refl
