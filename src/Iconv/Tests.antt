-- ===== src/Iconv/Tests.antt =====
-- Runs of the converter cache. A converter is shown by the pair of names it was opened with.
use alilua.Prelude.{◌≡◌, refl, Bytes, codes}
use alilua.Iconv.{fnv1a_64, cache_key, find_node, get_iconv, empty_cache}

abbrev Names : Type 0
Names = Bytes × Bytes

abbrev open_names : Bytes → Bytes → Names
open_names to form = (to, form)

abbrev utf8 : Bytes
utf8 = codes "utf-8"

-- Big5 and GB18030, both to UTF-8, have one key.
same_key : cache_key (codes "big5") utf8 ≡ cache_key (codes "gb18030") utf8
unfolding cache_key fnv1a_64
same_key = refl

first_opened : (get_iconv open_names empty_cache (codes "big5") utf8).0 ≡ (utf8, codes "big5")
unfolding get_iconv cache_key fnv1a_64 find_node
first_opened = refl
