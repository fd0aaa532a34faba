-- ===== src/Coding/Erasures.antt =====
-- The result of gcrs_create_decoding_bitmatrix of Coding/Vector.antt for a list of erasures.
use native.Mathlib.Nat.{zero-add, add-zero}
use mathlib.Core.Option.{some-injective}
use eset_store.Base.{
  take-append-drop, ℕ, zero, suc, ◌+◌, ◌<◌, ◌≤◌, ◌≡◌, ◌⊎◌, refl, ap, sym, subst, ◌∙◌, arith, Bool,
  false, ◌==◌, Option, some, none, Option-cases, List, [], ◌∷◌, length, take, drop, length-take,
  ne→not_eq, eq→==, inl, inr, Bool-cases, AllDifferent,
}
use eset_store.Coding.Invert.{BitMatrix}
use eset_store.Coding.Decode.{choose_ids, gcrs_create_decoding_data_bitmatrix}
use eset_store.Coding.Vector.{
  Decoding, Restored, any_erased, assemble, gcrs_create_decoding_bitmatrix,
}
use eset_store.Coding.Restore.{AreBelow, IsMds, received, selected_rows-restores}
use eset_store.Coding.Erased.{
  AreFlags, alive, erased_num, alive-erased_num, erased_num-append, is_in, is_set,
  gcrs_erasures_to_erased_lem, choose_ids_lem, Ascends-AllDifferent,
}
use eset_store.Coding.Rebuild.{missing_from}
use eset_store.Coding.ParityDevice.{Inverts}
use eset_store.Coding.Decoding.{AllRestore, mat_idxs}
use eset_store.Coding.Decoded.{none_erased, check_passes, assemble_lem}

AreFlags-take : (n : ℕ) (es : List ℕ) → AreFlags es → AreFlags (take n es)
AreFlags-take zero es f = tt
AreFlags-take (suc n) [] f = tt
AreFlags-take (suc n) (e ∷ es) f = (f.0, AreFlags-take n es f.1)

not_in_later : (p q : ℕ) (es : List ℕ) → p < q → is_in p (missing_from q es) ≡ false
not_in_later p q [] lt = refl
not_in_later p q (e ∷ es) lt = elim (Bool-cases (e == 1)) [
  | inl t ↦
      rw (t, ne→not_eq p q (λ x. absurd (omega (arith, x))))
        (not_in_later p (q + 1) es (omega arith))
  | inr f ↦ rw f (not_in_later p (q + 1) es (omega arith))
]

move_one : (q j : ℕ) → q + suc j ≡ q + 1 + j
move_one q j = omega arith

is_in-missing_from : (q j : ℕ) (es : List ℕ) → is_in (q + j) (missing_from q es) ≡ is_set es j
is_in-missing_from q j [] = refl
is_in-missing_from q zero (e ∷ es) = elim (Bool-cases (e == 1)) [
  | inl t ↦ rw (t, eq→== (q + 0) q (omega arith)) refl
  | inr f ↦ rw f (not_in_later (q + 0) (q + 1) es (omega arith))
]
is_in-missing_from q (suc j) (e ∷ es) =
    let next =
      ap (λ x. is_in x (missing_from (q + 1) es)) (move_one q j)
      ∙ is_in-missing_from (q + 1) j es in
    elim (Bool-cases (e == 1)) [
      | inl t ↦ rw (t, ne→not_eq (q + suc j) q (λ x. absurd (omega (arith, x)))) next
      | inr f ↦ rw f next
    ]

-- None of these devices is among the erasures.
abbrev pub AreAlive : List ℕ → List ℕ → Type 0
AreAlive erasures [] = Unit {0}
AreAlive erasures (q ∷ qs) = (is_in q erasures ≡ false) × AreAlive erasures qs

choose_ids-AreAlive :
    (erasures : List ℕ) (needed i : ℕ) (es ids : List ℕ)
    → ((j : ℕ) → is_set es j ≡ is_in (i + j) erasures)
    → choose_ids needed i es ≡ some ids
    → AreAlive erasures ids
unfolding choose_ids
choose_ids-AreAlive erasures zero i es ids sets run =
    subst (λ x. AreAlive erasures x) (some-injective [] ids run) tt
choose_ids-AreAlive erasures (suc needed) i [] ids sets run = absurd (cc run)
choose_ids-AreAlive erasures (suc needed) i (e ∷ es) ids sets run = elim (Bool-cases (e == 0)) [
  | inl t ↦ elim (Option-cases (choose_ids needed (i + 1) es)) [
    | inl q ↦ absurd (cc (rw (t, q) at run))
    | inr (rest, q) ↦
        subst (λ x. AreAlive erasures x) (some-injective (i ∷ rest) ids (rw (t, q) at run))
          (
            ap (λ x. is_in x erasures) (sym (add-zero i)) ∙ sym (sets 0) ∙ ground (arith, t),
            choose_ids-AreAlive erasures needed (i + 1) es rest (later sets) q,
          )
  ]
  | inr f ↦ choose_ids-AreAlive erasures (suc needed) (i + 1) es ids (later sets) (rw f at run)
]
  where
    later :
        ((j : ℕ) → is_set (e ∷ es) j ≡ is_in (i + j) erasures)
        → (j : ℕ) → is_set es j ≡ is_in (i + 1 + j) erasures
    later sets j = sets (suc j) ∙ ap (λ x. is_in x erasures) (move_one i j)

-- The rows of the decoding matrix by the flags of all devices.
assemble_flags :
    (k m w : ℕ) (matrix invert : BitMatrix) (dm_ids : Option (List ℕ)) (erases ids : List ℕ)
    → 0 < w
    → AreFlags erases
    → length erases ≡ k + m
    → k ≤ alive erases
    → m ≤ k
    → choose_ids k 0 erases ≡ some ids
    → (restored : List Restored) × (assemble k m w matrix invert dm_ids erases
        ≡ some (some (record { restored = restored; dm_ids = dm_ids })))
      × (mat_idxs restored ≡ missing_from 0 erases)
      × ((d : ℕ → Bool)
          → Inverts k w invert (received k w matrix d ids) d (take k erases)
          → AllRestore k w matrix d ids restored)
assemble_flags k m w matrix invert dm_ids erases ids pos f len enough le run =
    subst
      (λ x.
        (restored : List Restored) × (assemble k m w matrix invert dm_ids x
          ≡ some (some (record { restored = restored; dm_ids = dm_ids })))
        × (mat_idxs restored ≡ missing_from 0 x)
        × ((d : ℕ → Bool)
            → Inverts k w invert (received k w matrix d ids) d (take k erases)
            → AllRestore k w matrix d ids restored))
      (take-append-drop k erases)
      (assemble_lem k m w matrix invert dm_ids (take k erases) (drop k erases) ids pos
        (AreFlags-take k erases f) (omega (arith, length-take k erases, len)) le
        (omega (
          arith,
          alive-erased_num erases f,
          len,
          ap erased_num (take-append-drop k erases),
          erased_num-append (take k erases) (drop k erases),
        ))
        (subst (λ x. choose_ids k 0 x ≡ some ids) (sym (take-append-drop k erases)) run))

-- gcrs_create_decoding_bitmatrix, for 1 to 45 data devices, no more parity devices than these, a coding
-- matrix with which any k of the k + m devices determine the data, and at most m different erasures: it
-- returns a decoding matrix for the erased devices and no other, and the rows of each one, times what k
-- devices that are not erased store, are what the erased device stores, for all data. Where it writes
-- `dm_ids`, these are the k devices.
pub gcrs_create_decoding_bitmatrix-restores :
    (k m w : ℕ) (unwritten matrix : BitMatrix) (erasures : List ℕ)
    → 1 ≤ k
    → k ≤ 45
    → m ≤ k
    → 0 < w
    → IsMds k m w matrix
    → AreBelow (k + m) erasures
    → AllDifferent erasures
    → length erasures ≤ m
    → (made : Decoding) × (ids : List ℕ) × (gcrs_create_decoding_bitmatrix k m w unwritten matrix
          erasures
        ≡ some (some made))
      × (length ids ≡ k)
      × AreAlive erasures ids
      × ((made.dm_ids ≡ some ids) ⊎ (made.dm_ids ≡ none))
      × ((e : ℕ) → is_in e (mat_idxs made.restored) ≡ is_in e erasures)
      × ((d : ℕ → Bool) → AllRestore k w matrix d ids made.restored)
unfolding gcrs_create_decoding_bitmatrix gcrs_create_decoding_data_bitmatrix
gcrs_create_decoding_bitmatrix-restores k m w unwritten matrix erasures lo hi le pos mds below
      different few =
    let (erases, marked, f, len, enough, sets) =
      gcrs_erasures_to_erased_lem k m erasures below different few in
    let (ids, chosen, count, ascends, ids_below) = choose_ids_lem k 0 erases enough in
    let alive_ids =
      choose_ids-AreAlive erasures k 0 erases ids
        (λ j. sets j ∙ ap (λ x. is_in x erasures) (sym (zero-add j))) chosen in
    let which =
      λ (restored : List Restored) (e : ℕ) (q : mat_idxs restored ≡ missing_from 0 erases).
        ap (λ x. is_in e x) q
        ∙ ap (λ x. is_in x (missing_from 0 erases)) (sym (zero-add e))
        ∙ is_in-missing_from 0 e erases
        ∙ sets e in
    elim (Bool-cases (any_erased (take k erases))) [
      | inl t ↦
          let (s, inverts, restores) = selected_rows-restores k w matrix ids pos (
            mds ids count (Ascends-AllDifferent 0 ids ascends)
              (subst (λ n. AreBelow n ids) (zero-add (length erases) ∙ len) ids_below)) in
          let (restored, run, devices, rows) =
            assemble_flags k m w matrix s.inv (some ids) erases ids pos f len enough le chosen in
          let (w', passes) = check_passes k m w lo hi le in
          (
            record { restored = restored; dm_ids = some ids },
            ids,
            rw (marked, t, passes, chosen, inverts, run) refl,
            count,
            alive_ids,
            inl refl,
            λ e. which restored e devices,
            λ d. rows d (inr (restores d)),
          )
      | inr g ↦
          let (restored, run, devices, rows) =
            assemble_flags k m w matrix unwritten none erases ids pos f len enough le chosen in
          (
            record { restored = restored; dm_ids = none },
            ids,
            rw (marked, g, run) refl,
            count,
            alive_ids,
            inr refl,
            λ e. which restored e devices,
            λ d. rows d (inl (none_erased 0 (take k erases) g)),
          )
    ]
