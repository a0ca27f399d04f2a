-- ===== src/Iconv.antt =====
-- deps/string_utils.c: `fnv1a_64` and `get_iconv`, the cache of open converters.
pub mod Laws
mod Tests
use alilua.Prelude.{
  ℕ, zero, suc, ◌+◌, ◌*◌, ◌%◌, ◌^◌, Option, none, some, List, [], ◌∷◌, ◌++◌, Bytes, bit_xor, ltb,
  ◌==◌, if◌then◌else◌,
}

-- `rv = (rv ^ data[i]) * 1099511628211UL` on a uint64_t.
pub fnv_round : ℕ → ℕ → ℕ
fnv_round rv c = bit_xor rv c * 1099511628211 % 2 ^ 64

pub fnv_loop : ℕ → Bytes → ℕ
fnv_loop rv [] = rv
fnv_loop rv (c ∷ cs) = fnv_loop (fnv_round rv c) cs

-- The result is cut to a uint32_t.
pub fnv1a_64 : Bytes → ℕ
unfolding fnv_loop fnv_round
fnv1a_64 data_bytes = fnv_loop 0xcbf29ce484222325 data_bytes % 2 ^ 32

-- The key of a pair of encodings: `form` and `to` are written behind one another.
pub cache_key : Bytes → Bytes → ℕ
cache_key form to = fnv1a_64 (form ++ to) % 32

-- `_iconv_t`; the list of the nodes behind `next` stands for the pointer.
pub record Node (Handle : Type 0) : Type 0 where
  pub cd : Handle
  pub key : ℕ

-- `_cds`: a chain for each key.
abbrev pub Cache : Type 0 → Type 0
Cache Handle = ℕ → List (Node Handle)

module _ {Handle : Type 0} where
  -- The `while` loop.
  pub find_node : ℕ → List (Node Handle) → Option (Node Handle)
  find_node key [] = none
  find_node key (n ∷ rest) = if n.key == key then some n else find_node key rest

  pub set_chain : Cache Handle → ℕ → List (Node Handle) → Cache Handle
  set_chain cds key chain i = if i == key then chain else cds i

-- `iconv_open` is the C library's.
module _ {Handle : Type 0} (iconv_open : Bytes → Bytes → Handle) where
  pub get_iconv : Cache Handle → Bytes → Bytes → Handle × Cache Handle
  get_iconv cds form to =
      let key = cache_key form to in
      let fresh : Node Handle = record { cd = iconv_open to form; key = key } in
      elim (find_node key (cds key)) [
        | none ↦ (fresh.cd, set_chain cds key (cds key ++ fresh ∷ []))
        | some n ↦ (n.cd, cds)
      ]

-- The loop of `luaopen_string_utils`.
abbrev pub empty_cache : {Handle : Type 0} → Cache Handle
empty_cache i = []
