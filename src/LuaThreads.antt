-- ===== src/LuaThreads.antt =====
-- src/lua-threads.c: the pool of Lua threads, and the globals that a request leaves behind.
pub mod Queue
pub mod Sharing
pub mod Remembered
mod Tests
use alilua.Prelude.{
  ℕ, zero, suc, ◌+◌, Bool, true, false, not, Option, none, some, List, [], ◌∷◌, ◌++◌, Bytes, get_or,
  length, update, ltb, leb, ◌==◌, ◌&&◌, ◌||◌, if◌then◌else◌,
}
use alilua.CString.{cut, str_eq}

-- `MAX_LUA_THREAD_COUNT`
abbrev pub max_lua_thread_count : ℕ
max_lua_thread_count = 10000

-- `lua_thread_link_t`; a pointer to one is its address.
pub record ThreadLink : Type 0 where
  pub thread : ℕ
  pub next : Option ℕ

-- The links in memory, where `fresh` is the next address that `malloc` gives (an address that was
-- freed does not come again), and the variables of
-- the file. Threads are numbered in the order in which `lua_newthread` made them.
pub record Pool : Type 0 where
  pub links : ℕ → ThreadLink
  pub fresh : ℕ
  pub lua_thread_head : Option ℕ
  pub lua_thread_tail : Option ℕ
  pub lua_thread_count : ℕ

abbrev pub empty_pool : Pool
empty_pool = record {
  links = λ i. record { thread = 0; next = none };
  fresh = 0;
  lua_thread_head = none;
  lua_thread_tail = none;
  lua_thread_count = 0;
}

-- `l->next = p`
abbrev pub set_next : (ℕ → ThreadLink) → ℕ → Option ℕ → ℕ → ThreadLink
set_next links l p = update links l (record (links l) { next = p })

-- `malloc` has succeeded.
pub release_lua_thread : Pool → ℕ → Pool
release_lua_thread pool thread =
    let l = pool.fresh in
    let links = update pool.links l (record { thread = thread; next = none }) in
    elim pool.lua_thread_tail [
      | some tail ↦ record pool {
        links = set_next links tail (some l);
        fresh = l + 1;
        lua_thread_tail = some l;
      }
      | none ↦ record pool {
        links = links;
        fresh = l + 1;
        lua_thread_head = some l;
        lua_thread_tail = some l;
      }
    ]

-- Whether `lua_thread_tail` is the link `l`.
abbrev pub is_tail : Option ℕ → ℕ → Bool
is_tail none l = false
is_tail (some tail) l = tail == l

-- A new thread; what it runs first is not modelled.
pub make_thread : Pool → Pool × Option ℕ
make_thread pool =
    if leb max_lua_thread_count pool.lua_thread_count
    then (pool, none)
    else (record pool { lua_thread_count = pool.lua_thread_count + 1 }, some pool.lua_thread_count)

-- The first link is taken out, and what it holds is handed out.
pub take_first : Pool → ℕ → Pool × Option ℕ
take_first pool l = (
  if is_tail pool.lua_thread_tail l
      then record pool { lua_thread_head = none; lua_thread_tail = none }
      else record pool { lua_thread_head = (pool.links l).next },
  some (pool.links l).thread,
)

pub new_lua_thread : Pool → Pool × Option ℕ
new_lua_thread pool = elim pool.lua_thread_head [
  | none ↦ make_thread pool
  | some l ↦ take_first pool l
]

-- The loops of `init_lua_threads`: the first makes threads, NULL where there is none, and the second
-- releases them.
pub make_threads : ℕ → Pool → Pool × List (Option ℕ)
make_threads zero pool = (pool, [])
make_threads (suc count) pool =
    let (pool', thread) = new_lua_thread pool in
    let (pool'', threads) = make_threads count pool' in (pool'', thread ∷ threads)

pub release_threads : Pool → List (Option ℕ) → Pool
release_threads pool [] = pool
release_threads pool (none ∷ threads) = release_threads pool threads
release_threads pool (some thread ∷ threads) =
    release_threads (release_lua_thread pool thread) threads

pub init_lua_threads : ℕ → Pool → Pool
init_lua_threads count pool =
    let (pool', threads) = make_threads count pool in release_threads pool' threads

-- The names that `l_env_newindex` remembers for a thread, so that `reinit_lua_thread_env` sets them to
-- nil: `key[i]` behind the end is the 0 that ends the text.
pub is_remembered : Bool → Bytes → Bool
is_remembered inited key =
    inited
    && (ltb (length key) 56
        && (ltb (length key) 2 || (not (get_or key 0 0 == b'_') && not (get_or key 1 0 == b'_'))))

-- The globals of a thread that are set, and the names that are remembered.
pub record Globals : Type 0 where
  pub is_set : Bytes → Bool
  pub remembered : List Bytes

abbrev pub is_in : Bytes → List Bytes → Bool
is_in key [] = false
is_in key (k ∷ ks) = str_eq k key || is_in key ks

-- An assignment to a global by its name: `l_env_newindex` is called where the name is not set yet.
pub assign : Bool → Globals → Bytes → Globals
assign inited g key = if g.is_set key then g else record {
  is_set = λ k. str_eq key k || g.is_set k;
  remembered = if is_remembered inited key then key ∷ g.remembered else g.remembered;
}

-- The assignments of a request, one after another.
pub assign_all : Bool → Globals → List Bytes → Globals
assign_all inited g [] = g
assign_all inited g (key ∷ keys) = assign_all inited (assign inited g key) keys

-- `lua_setglobal` takes a name up to its first byte 0.
abbrev pub cut_names : List Bytes → List Bytes
cut_names [] = []
cut_names (k ∷ ks) = (cut 0 k).0 ∷ cut_names ks

-- The loop over the names that are remembered, which are set to nil.
pub reinit_lua_thread_env : Globals → Globals
reinit_lua_thread_env g = record {
  is_set = λ k. not (is_in k (cut_names g.remembered)) && g.is_set k;
  remembered = [];
}
