-- ===== src/Racks/Locate.antt =====
-- What locateServer of ECMeta/rackMap.c finds.
use native.Mathlib.Decide.{ℕ_discrete}
use eset_store.Base.{
  subst, ℕ, zero, suc, ◌+◌, ◌<◌, ◌≤◌, ◌≡◌, refl, ◌⊎◌, inl, inr, arith, Bool, true, false, ◌&&◌,
  Option, none, some, List, [], ◌∷◌, ◌==◌, length, get_elem?, Bool-cases,
}
use eset_store.Text.Search.{starts_with}
use eset_store.Racks.RackMap.{Server, Rack, RackMap, locate_in_rack, locate_from, locate_server}

-- The server has this address: its first characters are those of the address, and it has as many.
abbrev pub has_address : List ℕ → Server → Bool
has_address addr s = length addr == s.ip_size && starts_with addr s.server_ip

abbrev InRack : List Server → List ℕ → Option Server → Type 0
InRack servers addr found =
    ((s : Server) × (i : ℕ) × (found ≡ some s)
      × (get_elem? servers i ≡ some s)
      × (has_address addr s ≡ true))
    ⊎ ((found ≡ none)
        × ((i : ℕ) (s : Server) → get_elem? servers i ≡ some s → has_address addr s ≡ false))

none_at_cons :
    (x : Server) (xs : List Server) (addr : List ℕ)
    → has_address addr x ≡ false
    → ((i : ℕ) (s : Server) → get_elem? xs i ≡ some s → has_address addr s ≡ false)
    → (i : ℕ) (s : Server) → get_elem? (x ∷ xs) i ≡ some s
    → has_address addr s ≡ false
none_at_cons x xs addr miss rest zero s e = cc
none_at_cons x xs addr miss rest (suc i) s e = rest i s e

locate_in_rack-InRack :
    (servers : List Server) (addr : List ℕ) → InRack servers addr (locate_in_rack servers addr)
unfolding locate_in_rack
locate_in_rack-InRack [] addr = inr (refl, λ i s e. absurd (no_elem i s e))
  where
    no_elem : (i : ℕ) (s : Server) → get_elem? [] i ≡ some s → ⊥
    no_elem i s e = cc
locate_in_rack-InRack (x ∷ xs) addr = elim (Bool-cases (has_address addr x)) [
  | inl hit ↦ rw hit (inl (x, 0, refl, refl, hit))
  | inr miss ↦ rw miss (elim (locate_in_rack-InRack xs addr) [
    | inl (s, i, e, at, ok) ↦ inl (s, suc i, e, at, ok)
    | inr (e, rest) ↦ inr (e, none_at_cons x xs addr miss rest)
  ])
]

abbrev InRacks : (ℕ → Rack) → ℕ → ℕ → List ℕ → Option Server → Type 0
InRacks racks from to addr found =
    ((s : Server) × (r : ℕ) × (i : ℕ) × (found ≡ some s)
      × (from ≤ r)
      × (r < to)
      × (get_elem? (racks r).servers i ≡ some s)
      × (has_address addr s ≡ true))
    ⊎ ((found ≡ none)
        × ((r i : ℕ) (s : Server)
            → from ≤ r
            → r < to
            → get_elem? (racks r).servers i ≡ some s
            → has_address addr s ≡ false))

locate_from-InRacks :
    (racks : ℕ → Rack) (addr : List ℕ) (left idx : ℕ)
    → InRacks racks idx (idx + left) addr (locate_from racks idx left addr)
unfolding locate_from
locate_from-InRacks racks addr zero idx = inr (refl, λ r i s l h e. absurd (omega arith))
locate_from-InRacks racks addr (suc left) idx =
    elim (locate_in_rack-InRack (racks idx).servers addr) [
      | inl (s, i, e, at, ok) ↦
          rw (e, locate_from) (inl (s, idx, i, refl, omega arith, omega arith, at, ok))
      | inr (e, here) ↦
          rw (e, locate_from)
            (elim (locate_from-InRacks racks addr left (idx + 1)) [
              | inl (s, r, i, e', l, h, at, ok) ↦
                  inl (s, r, i, e', omega arith, omega arith, at, ok)
              | inr (e', later) ↦ inr (e', not_here_nor_later here later)
            ])
    ]
  where
    not_here_nor_later :
        ((i : ℕ) (s : Server)
          → get_elem? (racks idx).servers i ≡ some s
          → has_address addr s ≡ false)
        → ((r i : ℕ) (s : Server)
            → idx + 1 ≤ r
            → r < idx + 1 + left
            → get_elem? (racks r).servers i ≡ some s
            → has_address addr s ≡ false)
        → (r i : ℕ) (s : Server) → idx ≤ r
        → r < idx + suc left
        → get_elem? (racks r).servers i ≡ some s
        → has_address addr s ≡ false
    not_here_nor_later here later r i s l h e = elim (ℕ_discrete r idx) [
      | yes q ↦ here i s (subst (λ k. get_elem? (racks k).servers i ≡ some s) q e)
      | no ne ↦ later r i s (omega arith) (omega arith) e
    ]

-- `locateServer` returns a server of one of the racks that has the address, or NULL where no server
-- of any rack has it.
pub locate_server_lem :
    (map : RackMap) (addr : List ℕ)
    → ((s : Server) × (r : ℕ) × (i : ℕ) × (locate_server map addr ≡ some s)
        × (r < map.rack_num)
        × (get_elem? (map.racks r).servers i ≡ some s)
        × (has_address addr s ≡ true))
      ⊎ ((locate_server map addr ≡ none)
          × ((r i : ℕ) (s : Server)
              → r < map.rack_num
              → get_elem? (map.racks r).servers i ≡ some s
              → has_address addr s ≡ false))
unfolding locate_server
locate_server_lem map addr = elim (locate_from-InRacks map.racks addr map.rack_num 0) [
  | inl (s, r, i, e, l, h, at, ok) ↦ inl (s, r, i, e, omega arith, at, ok)
  | inr (e, others) ↦ inr (e, λ r i s h at. others r i s (omega arith) (omega arith) at)
]
