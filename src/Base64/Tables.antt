-- ===== src/Base64/Tables.antt =====
-- The tables of `base64encode`, `base64decode` and `base64decode_url`.
use alilua.Prelude.{Bytes, codes, [], ◌∷◌}

abbrev pub basis64 : Bytes
basis64 = codes "ABCDEFGHIJKLMNOPQRSTUVWXYZabcdefghijklmnopqrstuvwxyz0123456789+/"

abbrev pub decode_basis : Bytes
decode_basis =
    77 ∷ 77 ∷ 77 ∷ 77 ∷ 77 ∷ 77 ∷ 77 ∷ 77 ∷ 77 ∷ 77 ∷ 77 ∷ 77 ∷ 77 ∷ 77 ∷ 77 ∷ 77 ∷ 77 ∷ 77 ∷ 77
    ∷ 77 ∷ 77 ∷ 77 ∷ 77 ∷ 77 ∷ 77 ∷ 77 ∷ 77 ∷ 77 ∷ 77 ∷ 77 ∷ 77 ∷ 77 ∷ 77 ∷ 77 ∷ 77 ∷ 77 ∷ 77 ∷ 77
    ∷ 77 ∷ 77 ∷ 77 ∷ 77 ∷ 77 ∷ 62 ∷ 77 ∷ 77 ∷ 77 ∷ 63 ∷ 52 ∷ 53 ∷ 54 ∷ 55 ∷ 56 ∷ 57 ∷ 58 ∷ 59 ∷ 60
    ∷ 61 ∷ 77 ∷ 77 ∷ 77 ∷ 77 ∷ 77 ∷ 77 ∷ 77 ∷ 0 ∷ 1 ∷ 2 ∷ 3 ∷ 4 ∷ 5 ∷ 6 ∷ 7 ∷ 8 ∷ 9 ∷ 10 ∷ 11 ∷ 12
    ∷ 13 ∷ 14 ∷ 15 ∷ 16 ∷ 17 ∷ 18 ∷ 19 ∷ 20 ∷ 21 ∷ 22 ∷ 23 ∷ 24 ∷ 25 ∷ 77 ∷ 77 ∷ 77 ∷ 77 ∷ 77 ∷ 77
    ∷ 26 ∷ 27 ∷ 28 ∷ 29 ∷ 30 ∷ 31 ∷ 32 ∷ 33 ∷ 34 ∷ 35 ∷ 36 ∷ 37 ∷ 38 ∷ 39 ∷ 40 ∷ 41 ∷ 42 ∷ 43 ∷ 44
    ∷ 45 ∷ 46 ∷ 47 ∷ 48 ∷ 49 ∷ 50 ∷ 51 ∷ 77 ∷ 77 ∷ 77 ∷ 77 ∷ 77 ∷ 77 ∷ 77 ∷ 77 ∷ 77 ∷ 77 ∷ 77 ∷ 77
    ∷ 77 ∷ 77 ∷ 77 ∷ 77 ∷ 77 ∷ 77 ∷ 77 ∷ 77 ∷ 77 ∷ 77 ∷ 77 ∷ 77 ∷ 77 ∷ 77 ∷ 77 ∷ 77 ∷ 77 ∷ 77 ∷ 77
    ∷ 77 ∷ 77 ∷ 77 ∷ 77 ∷ 77 ∷ 77 ∷ 77 ∷ 77 ∷ 77 ∷ 77 ∷ 77 ∷ 77 ∷ 77 ∷ 77 ∷ 77 ∷ 77 ∷ 77 ∷ 77 ∷ 77
    ∷ 77 ∷ 77 ∷ 77 ∷ 77 ∷ 77 ∷ 77 ∷ 77 ∷ 77 ∷ 77 ∷ 77 ∷ 77 ∷ 77 ∷ 77 ∷ 77 ∷ 77 ∷ 77 ∷ 77 ∷ 77 ∷ 77
    ∷ 77 ∷ 77 ∷ 77 ∷ 77 ∷ 77 ∷ 77 ∷ 77 ∷ 77 ∷ 77 ∷ 77 ∷ 77 ∷ 77 ∷ 77 ∷ 77 ∷ 77 ∷ 77 ∷ 77 ∷ 77 ∷ 77
    ∷ 77 ∷ 77 ∷ 77 ∷ 77 ∷ 77 ∷ 77 ∷ 77 ∷ 77 ∷ 77 ∷ 77 ∷ 77 ∷ 77 ∷ 77 ∷ 77 ∷ 77 ∷ 77 ∷ 77 ∷ 77 ∷ 77
    ∷ 77 ∷ 77 ∷ 77 ∷ 77 ∷ 77 ∷ 77 ∷ 77 ∷ 77 ∷ 77 ∷ 77 ∷ 77 ∷ 77 ∷ 77 ∷ 77 ∷ 77 ∷ 77 ∷ 77 ∷ 77 ∷ 77
    ∷ 77 ∷ 77 ∷ 77 ∷ 77 ∷ 77 ∷ 77 ∷ 77 ∷ []

abbrev pub url_basis : Bytes
url_basis =
    77 ∷ 77 ∷ 77 ∷ 77 ∷ 77 ∷ 77 ∷ 77 ∷ 77 ∷ 77 ∷ 77 ∷ 77 ∷ 77 ∷ 77 ∷ 77 ∷ 77 ∷ 77 ∷ 77 ∷ 77 ∷ 77
    ∷ 77 ∷ 77 ∷ 77 ∷ 77 ∷ 77 ∷ 77 ∷ 77 ∷ 77 ∷ 77 ∷ 77 ∷ 77 ∷ 77 ∷ 77 ∷ 77 ∷ 77 ∷ 77 ∷ 77 ∷ 77 ∷ 77
    ∷ 77 ∷ 77 ∷ 77 ∷ 77 ∷ 77 ∷ 77 ∷ 77 ∷ 62 ∷ 77 ∷ 77 ∷ 52 ∷ 53 ∷ 54 ∷ 55 ∷ 56 ∷ 57 ∷ 58 ∷ 59 ∷ 60
    ∷ 61 ∷ 77 ∷ 77 ∷ 77 ∷ 77 ∷ 77 ∷ 77 ∷ 77 ∷ 0 ∷ 1 ∷ 2 ∷ 3 ∷ 4 ∷ 5 ∷ 6 ∷ 7 ∷ 8 ∷ 9 ∷ 10 ∷ 11 ∷ 12
    ∷ 13 ∷ 14 ∷ 15 ∷ 16 ∷ 17 ∷ 18 ∷ 19 ∷ 20 ∷ 21 ∷ 22 ∷ 23 ∷ 24 ∷ 25 ∷ 77 ∷ 77 ∷ 77 ∷ 77 ∷ 63 ∷ 77
    ∷ 26 ∷ 27 ∷ 28 ∷ 29 ∷ 30 ∷ 31 ∷ 32 ∷ 33 ∷ 34 ∷ 35 ∷ 36 ∷ 37 ∷ 38 ∷ 39 ∷ 40 ∷ 41 ∷ 42 ∷ 43 ∷ 44
    ∷ 45 ∷ 46 ∷ 47 ∷ 48 ∷ 49 ∷ 50 ∷ 51 ∷ 77 ∷ 77 ∷ 77 ∷ 77 ∷ 77 ∷ 77 ∷ 77 ∷ 77 ∷ 77 ∷ 77 ∷ 77 ∷ 77
    ∷ 77 ∷ 77 ∷ 77 ∷ 77 ∷ 77 ∷ 77 ∷ 77 ∷ 77 ∷ 77 ∷ 77 ∷ 77 ∷ 77 ∷ 77 ∷ 77 ∷ 77 ∷ 77 ∷ 77 ∷ 77 ∷ 77
    ∷ 77 ∷ 77 ∷ 77 ∷ 77 ∷ 77 ∷ 77 ∷ 77 ∷ 77 ∷ 77 ∷ 77 ∷ 77 ∷ 77 ∷ 77 ∷ 77 ∷ 77 ∷ 77 ∷ 77 ∷ 77 ∷ 77
    ∷ 77 ∷ 77 ∷ 77 ∷ 77 ∷ 77 ∷ 77 ∷ 77 ∷ 77 ∷ 77 ∷ 77 ∷ 77 ∷ 77 ∷ 77 ∷ 77 ∷ 77 ∷ 77 ∷ 77 ∷ 77 ∷ 77
    ∷ 77 ∷ 77 ∷ 77 ∷ 77 ∷ 77 ∷ 77 ∷ 77 ∷ 77 ∷ 77 ∷ 77 ∷ 77 ∷ 77 ∷ 77 ∷ 77 ∷ 77 ∷ 77 ∷ 77 ∷ 77 ∷ 77
    ∷ 77 ∷ 77 ∷ 77 ∷ 77 ∷ 77 ∷ 77 ∷ 77 ∷ 77 ∷ 77 ∷ 77 ∷ 77 ∷ 77 ∷ 77 ∷ 77 ∷ 77 ∷ 77 ∷ 77 ∷ 77 ∷ 77
    ∷ 77 ∷ 77 ∷ 77 ∷ 77 ∷ 77 ∷ 77 ∷ 77 ∷ 77 ∷ 77 ∷ 77 ∷ 77 ∷ 77 ∷ 77 ∷ 77 ∷ 77 ∷ 77 ∷ 77 ∷ 77 ∷ 77
    ∷ 77 ∷ 77 ∷ 77 ∷ 77 ∷ 77 ∷ 77 ∷ 77 ∷ []
