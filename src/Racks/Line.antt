-- ===== src/Racks/Line.antt =====
-- What getServerFromStr of ECMeta/rackMap.c reads from a line of the servers' file.
use eset_store.Base.{
  ℕ, suc, ◌+◌, ◌%◌, ◌^◌, ◌≤◌, ◌<◌, ◌≡◌, refl, arith, some, List, [], ◌∷◌, ◌++◌, length, ne→not_eq,
  lt→ltb, le→leb,
}
use eset_store.Text.Number.{str_to_int, u32_mod}
use eset_store.Text.Lines.{Free}
use eset_store.Text.Decimal.{
  decimal, length-decimal, decimal-AllDigits, AllDigits, c_str_all, c_str-AllDigits,
  int_from-decimal,
}
use eset_store.Racks.RackMap.{until_space, get_server_from_str}

until_space-first :
    (front behind : List ℕ)
    → Free (b' ' ∷ []) front
    → until_space (front ++ (b' ' ∷ behind)) ≡ some (front, behind)
unfolding until_space
until_space-first [] behind f = refl
until_space-first (c ∷ cs) behind f =
    rw (ne→not_eq c b' ' f.0.0) (rw (until_space-first cs behind f.1) refl)

digits-Free : (xs : List ℕ) → AllDigits xs → Free (b' ' ∷ []) xs
digits-Free [] d = tt
digits-Free (x ∷ xs) d = ((omega arith, tt), digits-Free xs d.2)

-- From a line with an address, a port and a rack, the numbers in decimal and all three within the
-- sizes of their arrays, getServerFromStr reads the three as 32-bit numbers, where the address has no
-- ' ' and the one old byte of the buffer behind the port is NUL.
pub get_server_from_str-line :
    (old : ℕ → ℕ) (ip : List ℕ) (n port m rack : ℕ)
    → Free (b' ' ∷ []) ip
    → length ip ≤ 16
    → n < 253
    → m < 254
    → port < 10 ^ suc n
    → rack < 10 ^ suc m
    → old (suc n) ≡ 0
    → get_server_from_str old
        (ip ++ (b' ' ∷ (decimal (suc n) port ++ (b' ' ∷ decimal (suc m) rack))))
      ≡ some (record { server_ip = ip; server_port = port % u32_mod; rack_id = rack % u32_mod })
unfolding get_server_from_str str_to_int
get_server_from_str-line old ip n port m rack f short hn hm hp hr z =
    rw (until_space-first ip (decimal (suc n) port ++ (b' ' ∷ decimal (suc m) rack)) f) (
      rw
        (until_space-first (decimal (suc n) port) (decimal (suc m) rack)
          (digits-Free (decimal (suc n) port) (decimal-AllDigits (suc n) port)))
        (rw (length-decimal (suc n) port, length-decimal (suc m) rack, z)
          (rw
            (
              le→leb (length ip) 16 short,
              lt→ltb (suc n + 1) 255 (omega arith),
              lt→ltb (suc m) 255 (omega arith),
            )
            (rw
              (
                c_str-AllDigits (decimal (suc n) port) [] (decimal-AllDigits (suc n) port),
                c_str_all (decimal (suc m) rack) (decimal-AllDigits (suc m) rack),
                int_from-decimal (suc n) port hp,
                int_from-decimal (suc m) rack hr,
              )
              refl))))
