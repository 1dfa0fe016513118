-- ===== src/Buffer/Dump/Tests.antt =====
-- Concrete dumps.
use libxio.Base.{
  ℕ, ◌≡◌, refl, map, Bool, [], ◌∷◌, ◌++◌, Bytes, length, replicate, done, Returns, leb, ◌&&◌,
}
use libxio.Text.{codes}
use libxio.Buffer.Dump.{
  heading, hex_char, push, push_three, block, blocks, put, printed, dump_line, dump_lines, dump,
}
use libxio.Buffer.Dump.Lines.{AreLines, dump-AreLines}

-- The printable bytes of ASCII.
abbrev is_ascii : ℕ → Bool
is_ascii c = leb 32 c && leb c 126

abbrev seventeen : Bytes
seventeen = codes "Hello, wörld" ++ (0 ∷ 10 ∷ 255 ∷ 65 ∷ 66 ∷ [])

abbrev stack : Bytes
stack = replicate 71 170

-- The table of digits.
digits_table :
    map hex_char (0 ∷ 1 ∷ 2 ∷ 3 ∷ 4 ∷ 5 ∷ 6 ∷ 7 ∷ 8 ∷ 9 ∷ 10 ∷ 11 ∷ 12 ∷ 13 ∷ 14 ∷ 15 ∷ [])
    ≡ codes "0123456789ABCDEF"
digits_table = refl

one_line :
    dump_lines is_ascii 1 (codes "GET /" ++ (13 ∷ 10 ∷ [])) stack
    ≡ done (codes "47 45 54 20 2F 0D 0A                                  GET /.." ∷ [])
unfolding dump_lines dump_line blocks block push_three push put printed
one_line = refl

dump-AreLines_example :
    Returns
      (λ (head, texts).
        (head ≡ heading (codes "in") (length seventeen)) × AreLines is_ascii seventeen texts)
      (dump is_ascii seventeen (codes "in") stack)
dump-AreLines_example = dump-AreLines is_ascii refl seventeen (codes "in") stack refl
